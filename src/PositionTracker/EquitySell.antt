-- ===== src/PositionTracker/EquitySell.antt =====
-- Profit and loss of sales: the mirror image of the purchases in Equity.
use hft_order_book.Base.{◌≡◌, ap, ◌∙◌, inl, inr, true, false, if◌then◌else◌, arith}
use mathlib.Core.Path.{ap₂}
use hft_order_book.Base.Int.{
  ℤ, pos, ◌+ℤ◌, ◌-ℤ◌, ◌*ℤ◌, ◌/ℤ◌, neg, leb_ℤ, ltb_ℤ, eqb_ℤ, ◌≤ℤ◌, ◌<ℤ◌, int_laws, parts_of_eq,
}
use hft_order_book.Base.Ring.{
  *ℤ-sub_right, *ℤ-sub_left, *ℤ-neg_right, *ℤ-add_left, *ℤ-zero, ℤ-trichotomy,
}
use hft_order_book.Base.Average.{remainder_bounds}
use hft_order_book.Base.Word.{Fits64, wrap64_id}
use hft_order_book.PositionTracker.{Position, sell_fill}
use hft_order_book.PositionTracker.Equity.{equity}

-- The part of a sale that closes a long position.
abbrev pub closed : ℤ → Position → ℤ
closed qty p = if leb_ℤ qty p.net_qty then qty else p.net_qty

-- The steps of a closing sale stay within 64 bits.
pub record CloseFits (qty price : ℤ) (p : Position) : Type 0 where
  pub gap_fits : Fits64 (price -ℤ p.avg_entry_price)
  pub gain_fits : Fits64 ((price -ℤ p.avg_entry_price) *ℤ closed qty p)
  pub total_fits : Fits64 (p.realized_pnl +ℤ (price -ℤ p.avg_entry_price) *ℤ closed qty p)
  pub net_fits : Fits64 (p.net_qty -ℤ qty)

-- The entry price after a sale at `price` that leaves `net`, where `avg` is that of what is left.
abbrev price_after_close : ℤ → ℤ → ℤ → ℤ
price_after_close price avg net =
    if ltb_ℤ net (pos 0) then price else (if eqb_ℤ net (pos 0) then pos 0 else avg)

-- The result of a closing sale, without the reductions.
abbrev close_exact : ℤ → ℤ → Position → Position
close_exact qty price p = record p {
  realized_pnl = p.realized_pnl +ℤ (price -ℤ p.avg_entry_price) *ℤ closed qty p;
  net_qty = p.net_qty -ℤ qty;
  avg_entry_price = price_after_close price p.avg_entry_price (p.net_qty -ℤ qty);
}

close_exact_lem :
    (qty price : ℤ) (p : Position)
    → pos 0 <ℤ p.net_qty
    → CloseFits qty price p
    → sell_fill qty price p ≡ close_exact qty price p
unfolding sell_fill
close_exact_lem qty price p long f = rw (
  wrap64_id _ f.gap_fits,
  wrap64_id _ f.gain_fits,
  wrap64_id _ f.total_fits,
  wrap64_id _ f.net_fits,
  is_long,
)
  where
    is_long : ltb_ℤ (pos 0) p.net_qty ≡ true
    is_long = ground arith

module _ (r a x n q : ℤ) where
  -- The gain taken on what is sold is lost by what is left.
  partly_closed : r +ℤ (x -ℤ a) *ℤ q +ℤ (x -ℤ a) *ℤ (n -ℤ q) ≡ r +ℤ (x -ℤ a) *ℤ n
  partly_closed = omega (int_laws, parts_of_eq (*ℤ-sub_left (x -ℤ a) n q))

  wholly_closed :
      n -ℤ q ≡ pos 0 → r +ℤ (x -ℤ a) *ℤ q +ℤ (x -ℤ pos 0) *ℤ (n -ℤ q) ≡ r +ℤ (x -ℤ a) *ℤ n
  wholly_closed e = rw e (
      omega (
        int_laws,
        parts_of_eq (*ℤ-zero (x -ℤ pos 0)),
        parts_of_eq (*ℤ-zero (x -ℤ a)),
        parts_of_eq partly_closed,
        parts_of_eq (ap (λ t. (x -ℤ a) *ℤ t) e),
      ))

  crossed_short : (s : ℤ) → r +ℤ (x -ℤ a) *ℤ n +ℤ (x -ℤ x) *ℤ s ≡ r +ℤ (x -ℤ a) *ℤ n
  crossed_short s = omega (int_laws, parts_of_eq (*ℤ-sub_right x x s))

-- Selling from a long position, in part, wholly or beyond, leaves the equity at the fill's price, if
-- the steps stay within 64 bits.
pub sell_fill-equity :
    (qty price : ℤ) (p : Position)
    → pos 0 <ℤ p.net_qty
    → CloseFits qty price p
    → equity price (sell_fill qty price p) ≡ equity price p
sell_fill-equity qty price p long f =
    ap (equity price) (close_exact_lem qty price p long f) ∙ elim (ℤ-trichotomy (n -ℤ qty)) [
      | inl below ↦
          ap₂ made (closes_long (omega int_laws)) (ground arith)
          ∙ crossed_short r a price n qty (n -ℤ qty)
      | inr (inl flat) ↦
          ap₂ made (closes_all (omega (int_laws, parts_of_eq flat))) (ground arith)
          ∙ wholly_closed r a price n qty flat
      | inr (inr above) ↦
          ap₂ made (closes_all (omega int_laws)) (ground arith) ∙ partly_closed r a price n qty
    ]
  where
    open p use {realized_pnl as r, avg_entry_price as a, net_qty as n}

    made : ℤ → ℤ → ℤ
    made c v = r +ℤ (price -ℤ a) *ℤ c +ℤ (price -ℤ v) *ℤ (n -ℤ qty)

    closes_all : qty ≤ℤ n → closed qty p ≡ qty
    closes_all h = ground arith

    closes_long : n <ℤ qty → closed qty p ≡ n
    closes_long h = ground arith

-- The steps of a sale that opens or adds to a short position stay within 64 bits.
pub record ShortFits (qty price : ℤ) (p : Position) : Type 0 where
  pub short_fits : Fits64 (neg p.net_qty)
  pub old_fits : Fits64 (p.avg_entry_price *ℤ neg p.net_qty)
  pub new_fits : Fits64 (price *ℤ qty)
  pub cost_fits : Fits64 (p.avg_entry_price *ℤ neg p.net_qty +ℤ price *ℤ qty)
  pub size_fits : Fits64 (neg p.net_qty +ℤ qty)
  pub net_fits : Fits64 (p.net_qty -ℤ qty)

-- The cost of the short position after the sale.
abbrev short_cost : ℤ → ℤ → Position → ℤ
short_cost qty price p = p.avg_entry_price *ℤ neg p.net_qty +ℤ price *ℤ qty

sell_fill-add :
    (qty price : ℤ) (p : Position)
    → p.net_qty ≤ℤ pos 0
    → pos 0 <ℤ neg p.net_qty +ℤ qty
    → ShortFits qty price p
    → sell_fill qty price p ≡ record p {
      avg_entry_price = short_cost qty price p /ℤ (neg p.net_qty +ℤ qty);
      net_qty = p.net_qty -ℤ qty;
    }
unfolding sell_fill
sell_fill-add qty price p short grows f = rw (
  wrap64_id _ f.short_fits,
  wrap64_id _ f.old_fits,
  wrap64_id _ f.new_fits,
  wrap64_id _ f.cost_fits,
  wrap64_id _ f.size_fits,
  wrap64_id _ f.net_fits,
  is_short,
  is_more,
)
  where
    is_short : ltb_ℤ (pos 0) p.net_qty ≡ false
    is_short = ground arith

    is_more : ltb_ℤ (pos 0) (neg p.net_qty +ℤ qty) ≡ true
    is_more = ground arith

-- What adding moves is what the division leaves, with the sign of a short position.
rounding_moves_short :
    (r a x n q v : ℤ)
    → r +ℤ (x -ℤ v) *ℤ (n -ℤ q) -ℤ (r +ℤ (x -ℤ a) *ℤ n)
      ≡ neg (a *ℤ neg n +ℤ x *ℤ q -ℤ v *ℤ (neg n +ℤ q))
rounding_moves_short r a x n q v = omega (
  int_laws,
  parts_of_eq (*ℤ-sub_right x v (n -ℤ q)),
  parts_of_eq (*ℤ-sub_left x n q),
  parts_of_eq (*ℤ-sub_left v n q),
  parts_of_eq (*ℤ-sub_right x a n),
  parts_of_eq (*ℤ-neg_right a n),
  parts_of_eq (*ℤ-add_left v (neg n) q),
  parts_of_eq (*ℤ-neg_right v n),
)

neg_bounds : (d s : ℤ) → (neg s <ℤ d) × (d <ℤ s) → (neg s <ℤ neg d) × (neg d <ℤ s)
neg_bounds d s h = omega int_laws

-- A sale that opens or adds to a short position, with steps within 64 bits, moves the equity at the
-- fill's price by less than one price unit for each share then short.
pub sell_fill-equity_add :
    (qty price : ℤ) (p : Position)
    → p.net_qty ≤ℤ pos 0
    → pos 0 <ℤ neg p.net_qty +ℤ qty
    → ShortFits qty price p
    → let moved = equity price (sell_fill qty price p) -ℤ equity price p in
      (neg (neg p.net_qty +ℤ qty) <ℤ moved) × (moved <ℤ neg p.net_qty +ℤ qty)
sell_fill-equity_add qty price p short grows f =
    rw
      (
        sell_fill-add qty price p short grows f,
        rounding_moves_short p.realized_pnl p.avg_entry_price price p.net_qty qty
            (short_cost qty price p /ℤ (neg p.net_qty +ℤ qty)),
      )
      (neg_bounds _ _ (remainder_bounds (short_cost qty price p) (neg p.net_qty +ℤ qty) grows))
