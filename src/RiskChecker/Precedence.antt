-- ===== src/RiskChecker/Precedence.antt =====
-- Which limit an order is refused for, when it breaks several.
use hft_order_book.Base.{
  ◌≡◌, refl, ◌⊎◌, inl, inr, ◌↔◌, ℕ, ◌<◌, Bool, true, false, not, ◌&&◌, ◌||◌, Option, none, some,
  arith,
}
use mathlib.Core.Path.{subst}
use hft_order_book.Base.Int.{ℤ, pos, ◌*ℤ◌, neg, ltb_ℤ, ◌<ℤ◌}
use hft_order_book.Base.Bytes.{StringView}
use hft_order_book.OrderEvent.{Side}
use hft_order_book.OrderManager.{OrderManager}
use hft_order_book.PositionTracker.{Position, PositionTracker}
use hft_order_book.PositionTracker
use hft_order_book.RiskChecker.{RiskResult, RiskLimits, crosses, check_with_orders}
use hft_order_book.RiskChecker.Limits.{
  true_qty, projected_qty, CheckFits, ladder, loss_exact, check_exact,
}

-- A quantity goes from one side of zero to the other.
abbrev pub Crossed : ℤ → ℤ → Type 0
Crossed before after =
    ((pos 0 <ℤ before) × (after <ℤ pos 0)) ⊎ ((before <ℤ pos 0) × (pos 0 <ℤ after))

-- The position, if there is one, has lost more than the limit.
abbrev pub LossBeyond : RiskLimits → Option Position → Type 0
LossBeyond l none = ⊥
LossBeyond l (some p) = p.realized_pnl <ℤ neg l.max_loss_fp

-- What an order does that a result is the refusal of, in exact integers.
abbrev pub Breaks :
    RiskResult → RiskLimits → StringView → Side → ℤ → ℤ → PositionTracker → OrderManager → Type 0
Breaks RiskResult.pass l sym side qty price tracker orders = Unit
Breaks RiskResult.fail_max_qty l sym side qty price tracker orders = l.max_order_qty <ℤ qty
Breaks RiskResult.fail_max_notional l sym side qty price tracker orders =
    l.max_order_notional <ℤ qty *ℤ price
Breaks RiskResult.fail_position_limit l sym side qty price tracker orders =
    (l.max_net_position <ℤ projected_qty sym side qty tracker orders)
    ⊎ (projected_qty sym side qty tracker orders <ℤ neg l.max_net_position)
Breaks RiskResult.fail_position_cross l sym side qty price tracker orders =
    (l.allow_position_cross ≡ false)
    × Crossed (true_qty sym tracker orders) (projected_qty sym side qty tracker orders)
Breaks RiskResult.fail_max_loss l sym side qty price tracker orders =
    LossBeyond l (PositionTracker.get tracker sym)

-- The order in which the limits are tested.
abbrev pub rank : RiskResult → ℕ
rank RiskResult.fail_max_qty = 0
rank RiskResult.fail_max_notional = 1
rank RiskResult.fail_position_limit = 2
rank RiskResult.fail_position_cross = 3
rank RiskResult.fail_max_loss = 4
rank RiskResult.pass = 5

-- A result names the first limit that an order breaks.
abbrev pub IsFirst :
    RiskResult → RiskLimits → StringView → Side → ℤ → ℤ → PositionTracker → OrderManager → Type 0
IsFirst r l sym side qty price tracker orders =
    Breaks r l sym side qty price tracker orders
    × ((q : RiskResult) → rank q < rank r → ¬ Breaks q l sym side qty price tracker orders)

-- The test that leads to a result.
abbrev tested : Bool → Bool → Bool → Bool → Bool → RiskResult → Bool
tested too_many too_dear too_far crossing lost RiskResult.fail_max_qty = too_many
tested too_many too_dear too_far crossing lost RiskResult.fail_max_notional = too_dear
tested too_many too_dear too_far crossing lost RiskResult.fail_position_limit = too_far
tested too_many too_dear too_far crossing lost RiskResult.fail_position_cross = crossing
tested too_many too_dear too_far crossing lost RiskResult.fail_max_loss = lost
tested too_many too_dear too_far crossing lost RiskResult.pass = true

tested-ladder : (a b c d e : Bool) → tested a b c d e (ladder a b c d e) ≡ true
tested-ladder a b c d e = ground arith

tested-before :
    (a b c d e : Bool) (q : RiskResult)
    → rank q < rank (ladder a b c d e)
    → tested a b c d e q ≡ false
tested-before a b c d e RiskResult.fail_max_qty h = ground arith
tested-before a b c d e RiskResult.fail_max_notional h = ground arith
tested-before a b c d e RiskResult.fail_position_limit h = ground arith
tested-before a b c d e RiskResult.fail_position_cross h = ground arith
tested-before a b c d e RiskResult.fail_max_loss h = ground arith
tested-before a b c d e RiskResult.pass h = ground arith

rank-eq : (r q : RiskResult) → rank r ≡ rank q → r ≡ q
rank-eq r q h = ground arith

range_broken : (m a k : ℤ) → ((ltb_ℤ m a || ltb_ℤ a k) ≡ true) ↔ ((m <ℤ a) ⊎ (a <ℤ k))
range_broken m a k = (λ h. ground arith, λ h. ground arith)

over : (m a : ℤ) → (ltb_ℤ m a ≡ true) ↔ (m <ℤ a)
over m a = (λ h. ground arith, λ h. ground arith)

crossed :
    (allowed : Bool) (before after : ℤ)
    → ((not allowed && crosses before after) ≡ true) ↔ ((allowed ≡ false) × Crossed before after)
crossed allowed before after = (λ h. ground arith, λ h. ground arith)

lost : (l : RiskLimits) (o : Option Position) → (loss_exact l o ≡ true) ↔ LossBeyond l o
lost l none = (λ h. ground arith, λ h. absurd h)
lost l (some p) = over p.realized_pnl (neg l.max_loss_fp)

rank_cases : (r q : RiskResult) → (rank r < rank q) ⊎ (rank q < rank r) ⊎ (r ≡ q)
rank_cases r q = ground arith

not_both : {b : Bool} → b ≡ true → b ≡ false → ⊥
not_both h g = cc

module _ (l : RiskLimits) (sym : StringView) (side : Side) (qty price : ℤ)
    (tracker : PositionTracker) (orders : OrderManager)
    (f : CheckFits l sym side qty price tracker orders) where
  -- The tests in exact integers.
  abbrev too_many : Bool
  too_many = ltb_ℤ l.max_order_qty qty

  abbrev too_dear : Bool
  too_dear = ltb_ℤ l.max_order_notional (qty *ℤ price)

  abbrev too_far : Bool
  too_far =
      ltb_ℤ l.max_net_position (projected_qty sym side qty tracker orders)
      || ltb_ℤ (projected_qty sym side qty tracker orders) (neg l.max_net_position)

  abbrev crossing : Bool
  crossing =
      not l.allow_position_cross
      && crosses (true_qty sym tracker orders) (projected_qty sym side qty tracker orders)

  abbrev losing : Bool
  losing = loss_exact l (PositionTracker.get tracker sym)

  test : RiskResult → Bool
  test = tested too_many too_dear too_far crossing losing

  test-Breaks : (r : RiskResult) → (test r ≡ true) ↔ Breaks r l sym side qty price tracker orders
  unfolding test
  test-Breaks RiskResult.pass = (λ h. tt, λ h. refl)
  test-Breaks RiskResult.fail_max_qty = over l.max_order_qty qty
  test-Breaks RiskResult.fail_max_notional = over l.max_order_notional (qty *ℤ price)
  test-Breaks RiskResult.fail_position_limit =
      range_broken l.max_net_position (projected_qty sym side qty tracker orders)
        (neg l.max_net_position)
  test-Breaks RiskResult.fail_position_cross =
      crossed l.allow_position_cross (true_qty sym tracker orders)
        (projected_qty sym side qty tracker orders)
  test-Breaks RiskResult.fail_max_loss = lost l (PositionTracker.get tracker sym)

  checked : RiskResult
  checked = check_with_orders l sym side qty price tracker orders

  checked-IsFirst : IsFirst checked l sym side qty price tracker orders
  unfolding checked test
  checked-IsFirst = rw (check_exact l sym side qty price tracker orders f) (
    (test-Breaks _).0 (tested-ladder too_many too_dear too_far crossing losing),
    λ q before broken.
        not_both ((test-Breaks q).1 broken)
          (tested-before too_many too_dear too_far crossing losing q before),
  )

  -- `check` gives a result exactly when it names the first limit that the order breaks, of quantity,
  -- notional, position, crossing and loss in this order, and `pass` when it breaks none, in exact
  -- integers, if the check's arithmetic stays within its types.
  pub check_with_orders-IsFirst :
      (r : RiskResult)
      → (check_with_orders l sym side qty price tracker orders ≡ r)
        ↔ IsFirst r l sym side qty price tracker orders
  unfolding checked
  check_with_orders-IsFirst r = (
    λ is. subst (λ x. IsFirst x l sym side qty price tracker orders) is checked-IsFirst,
    λ first. elim (rank_cases checked r) [
      | inl before ↦ absurd (first.1 checked before checked-IsFirst.0)
      | inr (inl after) ↦ absurd (checked-IsFirst.1 r after first.0)
      | inr (inr same) ↦ same
    ],
  )
