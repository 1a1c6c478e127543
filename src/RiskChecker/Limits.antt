-- ===== src/RiskChecker/Limits.antt =====
-- What it means that an order passes, in exact integers, and how the overloads agree.
use hft_order_book.Base.{
  ◌≡◌, refl, sym as sym_path, ◌∙◌, ◌⊎◌, ◌↔◌, Bool, true, false, not, ◌&&◌, ◌||◌, Option, none, some,
  if◌then◌else◌, arith,
}
use hft_order_book.Base.Int.{ℤ, pos, ◌+ℤ◌, ◌*ℤ◌, neg, ltb_ℤ, ◌≤ℤ◌, int_laws}
use hft_order_book.Base.Word.{wrap64, Fits32, Fits64, wrap32_id, wrap64_id}
use hft_order_book.Base.Bytes.{StringView}
use hft_order_book.OrderEvent.{Side, is_buy}
use hft_order_book.OrderManager.{OrderManager, open_exposure}
use hft_order_book.PositionTracker.{Position, PositionTracker}
use hft_order_book.PositionTracker
use hft_order_book.RiskChecker.{
  RiskResult, RiskLimits, net_or_zero, loss_exceeded, crosses, check_with_orders, check_position,
  check_tracker,
}

-- A quantity with its sign, in exact integers.
abbrev pub signed_qty : Side → ℤ → ℤ
signed_qty side qty = if is_buy side then qty else neg qty

-- The filled and pending quantity before an order, and with it.
abbrev pub true_qty : StringView → PositionTracker → OrderManager → ℤ
true_qty sym tracker orders =
    net_or_zero (PositionTracker.get tracker sym) +ℤ open_exposure orders sym

abbrev pub projected_qty : StringView → Side → ℤ → PositionTracker → OrderManager → ℤ
projected_qty sym side qty tracker orders = true_qty sym tracker orders +ℤ signed_qty side qty

-- The arithmetic of a check stays within its types.
pub record CheckFits (l : RiskLimits) (sym : StringView) (side : Side) (qty price : ℤ)
    (tracker : PositionTracker) (orders : OrderManager) : Type 0 where
  pub qty_fits : Fits32 (neg qty)
  pub notional_fits : Fits64 (qty *ℤ price)
  pub true_fits : Fits64 (true_qty sym tracker orders)
  pub projected_fits : Fits64 (projected_qty sym side qty tracker orders)
  pub net_limit_fits : Fits64 (neg l.max_net_position)
  pub loss_limit_fits : Fits64 (neg l.max_loss_fp)

-- The position, if there is one, has not lost more than the limit.
abbrev pub LossWithin : RiskLimits → Option Position → Type 0
LossWithin l none = Unit
LossWithin l (some p) = neg l.max_loss_fp ≤ℤ p.realized_pnl

-- Every limit holds of an order.
pub record WithinLimits (l : RiskLimits) (sym : StringView) (side : Side) (qty price : ℤ)
    (tracker : PositionTracker) (orders : OrderManager) : Type 0 where
  pub qty_within : qty ≤ℤ l.max_order_qty
  pub notional_within : qty *ℤ price ≤ℤ l.max_order_notional
  pub projected_le : projected_qty sym side qty tracker orders ≤ℤ l.max_net_position
  pub projected_ge : neg l.max_net_position ≤ℤ projected_qty sym side qty tracker orders
  pub no_cross :
      (l.allow_position_cross ≡ true)
      ⊎ (crosses (true_qty sym tracker orders) (projected_qty sym side qty tracker orders) ≡ false)
  pub loss_within : LossWithin l (PositionTracker.get tracker sym)

-- The chain of tests.
abbrev pub ladder : Bool → Bool → Bool → Bool → Bool → RiskResult
ladder too_many too_dear too_far crossing lost =
    if too_many
    then RiskResult.fail_max_qty
    else (if too_dear
        then RiskResult.fail_max_notional
        else (if too_far
            then RiskResult.fail_position_limit
            else (if crossing
                then RiskResult.fail_position_cross
                else (if lost then RiskResult.fail_max_loss else RiskResult.pass))))

abbrev pub loss_exact : RiskLimits → Option Position → Bool
loss_exact l none = false
loss_exact l (some p) = ltb_ℤ p.realized_pnl (neg l.max_loss_fp)

loss_exceeded-exact :
    (l : RiskLimits) (o : Option Position)
    → Fits64 (neg l.max_loss_fp)
    → loss_exceeded l o ≡ loss_exact l o
loss_exceeded-exact l none h = refl
loss_exceeded-exact l (some p) h = rw (wrap64_id _ h)

loss_exact-false : (l : RiskLimits) (o : Option Position) → loss_exact l o ≡ false → LossWithin l o
loss_exact-false l none h = tt
loss_exact-false l (some p) h = ground arith

LossWithin-exact : (l : RiskLimits) (o : Option Position) → LossWithin l o → loss_exact l o ≡ false
LossWithin-exact l none h = refl
LossWithin-exact l (some p) h = ground arith

ladder-pass :
    (a b c d e : Bool)
    → ladder a b c d e ≡ RiskResult.pass
    → (a ≡ false) × (b ≡ false) × (c ≡ false) × (d ≡ false) × (e ≡ false)
ladder-pass a b c d e h = ground arith

ltb_ℤ-false : (a b : ℤ) → ltb_ℤ a b ≡ false → b ≤ℤ a
ltb_ℤ-false a b h = ground arith

le-ltb_ℤ : (a b : ℤ) → b ≤ℤ a → ltb_ℤ a b ≡ false
le-ltb_ℤ a b h = ground arith

in_range : (m a k : ℤ) → (ltb_ℤ m a || ltb_ℤ a k) ≡ false → (a ≤ℤ m) × (k ≤ℤ a)
in_range m a k h = ground arith

in_range-false : (m a k : ℤ) → a ≤ℤ m → k ≤ℤ a → (ltb_ℤ m a || ltb_ℤ a k) ≡ false
in_range-false m a k h g = ground arith

and_not-false : (a b : Bool) → (not a && b) ≡ false → (a ≡ true) ⊎ (b ≡ false)
and_not-false a b h = ground arith

false-and_not : (a b : Bool) → (a ≡ true) ⊎ (b ≡ false) → (not a && b) ≡ false
false-and_not a b h = ground arith

module _ (l : RiskLimits) (sym : StringView) (side : Side) (qty price : ℤ)
    (tracker : PositionTracker) (orders : OrderManager)
    (f : CheckFits l sym side qty price tracker orders) where
  pub check_exact :
      check_with_orders l sym side qty price tracker orders
      ≡ ladder
          (ltb_ℤ l.max_order_qty qty)
          (ltb_ℤ l.max_order_notional (qty *ℤ price))
          (ltb_ℤ l.max_net_position (projected_qty sym side qty tracker orders)
            || ltb_ℤ (projected_qty sym side qty tracker orders) (neg l.max_net_position))
          (not l.allow_position_cross
            && crosses (true_qty sym tracker orders) (projected_qty sym side qty tracker orders))
          (loss_exact l (PositionTracker.get tracker sym))
  unfolding check_with_orders
  check_exact = rw (
    wrap64_id _ f.notional_fits,
    wrap64_id _ f.true_fits,
    wrap32_id _ f.qty_fits,
    wrap64_id _ f.projected_fits,
    wrap64_id _ f.net_limit_fits,
    loss_exceeded-exact l (PositionTracker.get tracker sym) f.loss_limit_fits,
  )

  -- An order passes exactly when every limit holds of it in exact integers, if the check's arithmetic
  -- stays within its types.
  pub check_with_orders-pass_iff :
      (check_with_orders l sym side qty price tracker orders ≡ RiskResult.pass)
      ↔ WithinLimits l sym side qty price tracker orders
  check_with_orders-pass_iff = (
    λ passed.
        let t = ladder-pass _ _ _ _ _ (sym_path check_exact ∙ passed) in
        let range = in_range l.max_net_position after (neg l.max_net_position) t.2 in
        record {
          qty_within = ltb_ℤ-false l.max_order_qty qty t.0;
          notional_within = ltb_ℤ-false l.max_order_notional (qty *ℤ price) t.1;
          projected_le = range.0;
          projected_ge = range.1;
          no_cross = and_not-false l.allow_position_cross _ t.3;
          loss_within = loss_exact-false l (PositionTracker.get tracker sym) t.4;
        },
    λ w.
        check_exact
        ∙ rw (
          le-ltb_ℤ l.max_order_qty qty w.qty_within,
          le-ltb_ℤ l.max_order_notional (qty *ℤ price) w.notional_within,
          in_range-false l.max_net_position after (neg l.max_net_position) w.projected_le
              w.projected_ge,
          false-and_not l.allow_position_cross _ w.no_cross,
          LossWithin-exact l (PositionTracker.get tracker sym) w.loss_within,
        ),
  )
    where
      after : ℤ
      after = projected_qty sym side qty tracker orders

add_zero : (a : ℤ) → a +ℤ pos 0 ≡ a
add_zero a = omega int_laws

-- With a position in the symbol, of a quantity within 64 bits, and no open exposure, the three
-- overloads agree.
pub check_overloads_agree :
    (l : RiskLimits) (sym : StringView) (side : Side) (qty price : ℤ) (tracker : PositionTracker)
    (orders : OrderManager) (p : Position)
    → PositionTracker.get tracker sym ≡ some p
    → Fits64 p.net_qty
    → open_exposure orders sym ≡ pos 0
    → (check_with_orders l sym side qty price tracker orders
        ≡ check_tracker l sym side qty price tracker)
      × (check_tracker l sym side qty price tracker ≡ check_position l side qty price (some p))
unfolding check_with_orders check_tracker check_position
check_overloads_agree l sym side qty price tracker orders p found fits none_open =
    rw (found, none_open, add_zero p.net_qty, wrap64_id p.net_qty fits) (ground arith, refl)

-- Without a position, the overload on a position passes every order within the limits on quantity
-- and notional, whatever the limit on the net position is.
pub check_position-none :
    (l : RiskLimits) (side : Side) (qty price : ℤ)
    → qty ≤ℤ l.max_order_qty
    → wrap64 (qty *ℤ price) ≤ℤ l.max_order_notional
    → check_position l side qty price none ≡ RiskResult.pass
unfolding check_position
check_position-none l side qty price h k = ground arith
