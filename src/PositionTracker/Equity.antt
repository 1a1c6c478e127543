-- ===== src/PositionTracker/Equity.antt =====
-- Profit and loss: a fill that reduces a position moves no equity, and one that adds to it only what
-- the rounding of the entry price moves. Equity is the realised gain and the open position's gain
-- at the fill's price, in exact integers.
use hft_order_book.Base.{◌≡◌, ap, ◌∙◌, inl, inr, true, false, if◌then◌else◌, arith}
use mathlib.Core.Path.{ap₂}
use hft_order_book.Base.Int.{
  ℤ, pos, ◌+ℤ◌, ◌-ℤ◌, ◌*ℤ◌, ◌/ℤ◌, neg, leb_ℤ, ltb_ℤ, eqb_ℤ, ◌≤ℤ◌, ◌<ℤ◌, int_laws, parts_of_eq,
}
use hft_order_book.Base.Ring.{*ℤ-sub_right, *ℤ-neg_right, *ℤ-add_left, *ℤ-zero, ℤ-trichotomy}
use hft_order_book.Base.Average.{remainder_bounds}
use hft_order_book.Base.Word.{Fits64, wrap64_id}
use hft_order_book.PositionTracker.{Position, buy_fill}

abbrev pub equity : ℤ → Position → ℤ
equity price p = p.realized_pnl +ℤ (price -ℤ p.avg_entry_price) *ℤ p.net_qty

-- The part of a purchase that covers a short position.
abbrev pub covered : ℤ → Position → ℤ
covered qty p = if leb_ℤ qty (neg p.net_qty) then qty else neg p.net_qty

-- The steps of a covering purchase stay within 64 bits.
pub record CoverFits (qty price : ℤ) (p : Position) : Type 0 where
  pub short_fits : Fits64 (neg p.net_qty)
  pub gap_fits : Fits64 (p.avg_entry_price -ℤ price)
  pub gain_fits : Fits64 ((p.avg_entry_price -ℤ price) *ℤ covered qty p)
  pub total_fits : Fits64 (p.realized_pnl +ℤ (p.avg_entry_price -ℤ price) *ℤ covered qty p)
  pub net_fits : Fits64 (p.net_qty +ℤ qty)

-- The entry price after a fill at `price` that leaves `net`, where `avg` is that of what is left.
abbrev pub price_after_cover : ℤ → ℤ → ℤ → ℤ
price_after_cover price avg net =
    if ltb_ℤ (pos 0) net then price else (if eqb_ℤ net (pos 0) then pos 0 else avg)

-- The result of a covering purchase, without the reductions.
abbrev cover_exact : ℤ → ℤ → Position → Position
cover_exact qty price p = record p {
  realized_pnl = p.realized_pnl +ℤ (p.avg_entry_price -ℤ price) *ℤ covered qty p;
  net_qty = p.net_qty +ℤ qty;
  avg_entry_price = price_after_cover price p.avg_entry_price (p.net_qty +ℤ qty);
}

cover_exact_lem :
    (qty price : ℤ) (p : Position)
    → p.net_qty <ℤ pos 0
    → CoverFits qty price p
    → buy_fill qty price p ≡ cover_exact qty price p
unfolding buy_fill
cover_exact_lem qty price p short f = rw (
  wrap64_id _ f.short_fits,
  wrap64_id _ f.gap_fits,
  wrap64_id _ f.gain_fits,
  wrap64_id _ f.total_fits,
  wrap64_id _ f.net_fits,
  is_short,
)
  where
    is_short : leb_ℤ (pos 0) p.net_qty ≡ false
    is_short = ground arith

module _ (r a x n q : ℤ) where
  -- The gain taken on what is covered is lost by what is left.
  partly_covered : r +ℤ (a -ℤ x) *ℤ q +ℤ (x -ℤ a) *ℤ (n +ℤ q) ≡ r +ℤ (x -ℤ a) *ℤ n
  partly_covered = omega (
    int_laws,
    parts_of_eq (*ℤ-sub_right a x q),
    parts_of_eq (*ℤ-sub_right x a q),
    parts_of_eq (*ℤ-add_left (x -ℤ a) n q),
  )

  wholly_covered :
      n +ℤ q ≡ pos 0 → r +ℤ (a -ℤ x) *ℤ q +ℤ (x -ℤ pos 0) *ℤ (n +ℤ q) ≡ r +ℤ (x -ℤ a) *ℤ n
  wholly_covered e = rw e (
      omega (
        int_laws,
        parts_of_eq (*ℤ-zero (x -ℤ pos 0)),
        parts_of_eq (*ℤ-zero (x -ℤ a)),
        parts_of_eq partly_covered,
        parts_of_eq (ap (λ t. (x -ℤ a) *ℤ t) e),
      ))

  crossed : (s : ℤ) → r +ℤ (a -ℤ x) *ℤ neg n +ℤ (x -ℤ x) *ℤ s ≡ r +ℤ (x -ℤ a) *ℤ n
  crossed s = omega (
    int_laws,
    parts_of_eq (*ℤ-neg_right (a -ℤ x) n),
    parts_of_eq (*ℤ-sub_right a x n),
    parts_of_eq (*ℤ-sub_right x a n),
    parts_of_eq (*ℤ-sub_right x x s),
  )

-- Covering a short position, in part, wholly or beyond, leaves the equity at the fill's price, if the
-- steps stay within 64 bits.
pub buy_fill-equity :
    (qty price : ℤ) (p : Position)
    → p.net_qty <ℤ pos 0
    → CoverFits qty price p
    → equity price (buy_fill qty price p) ≡ equity price p
buy_fill-equity qty price p short f =
    ap (equity price) (cover_exact_lem qty price p short f) ∙ elim (ℤ-trichotomy (n +ℤ qty)) [
      | inl below ↦
          ap₂ made (covers_all (omega int_laws)) (ground arith) ∙ partly_covered r a price n qty
      | inr (inl flat) ↦
          ap₂ made (covers_all (omega (int_laws, parts_of_eq flat))) (ground arith)
          ∙ wholly_covered r a price n qty flat
      | inr (inr above) ↦
          ap₂ made (covers_short (omega int_laws)) (ground arith)
          ∙ crossed r a price n qty (n +ℤ qty)
    ]
  where
    open p use {realized_pnl as r, avg_entry_price as a, net_qty as n}

    made : ℤ → ℤ → ℤ
    made c v = r +ℤ (a -ℤ price) *ℤ c +ℤ (price -ℤ v) *ℤ (n +ℤ qty)

    covers_all : qty ≤ℤ neg n → covered qty p ≡ qty
    covers_all h = ground arith

    covers_short : neg n <ℤ qty → covered qty p ≡ neg n
    covers_short h = ground arith

-- The steps of a purchase that opens or adds to a long position stay within 64 bits.
pub record AddFits (qty price : ℤ) (p : Position) : Type 0 where
  pub old_fits : Fits64 (p.avg_entry_price *ℤ p.net_qty)
  pub new_fits : Fits64 (price *ℤ qty)
  pub cost_fits : Fits64 (p.avg_entry_price *ℤ p.net_qty +ℤ price *ℤ qty)
  pub net_fits : Fits64 (p.net_qty +ℤ qty)

-- The cost of the position after the purchase, and its mean price.
abbrev pub cost_after : ℤ → ℤ → Position → ℤ
cost_after qty price p = p.avg_entry_price *ℤ p.net_qty +ℤ price *ℤ qty

buy_fill-add :
    (qty price : ℤ) (p : Position)
    → pos 0 ≤ℤ p.net_qty
    → pos 0 <ℤ p.net_qty +ℤ qty
    → AddFits qty price p
    → buy_fill qty price p ≡ record p {
      avg_entry_price = cost_after qty price p /ℤ (p.net_qty +ℤ qty);
      net_qty = p.net_qty +ℤ qty;
    }
unfolding buy_fill
buy_fill-add qty price p long grows f = rw (
  wrap64_id _ f.old_fits,
  wrap64_id _ f.new_fits,
  wrap64_id _ f.cost_fits,
  wrap64_id _ f.net_fits,
  is_long,
  is_more,
)
  where
    is_long : leb_ℤ (pos 0) p.net_qty ≡ true
    is_long = ground arith

    is_more : ltb_ℤ (pos 0) (p.net_qty +ℤ qty) ≡ true
    is_more = ground arith

-- What adding moves is what the division leaves.
rounding_moves :
    (r a x n q v : ℤ)
    → r +ℤ (x -ℤ v) *ℤ (n +ℤ q) -ℤ (r +ℤ (x -ℤ a) *ℤ n) ≡ a *ℤ n +ℤ x *ℤ q -ℤ v *ℤ (n +ℤ q)
rounding_moves r a x n q v = omega (
  int_laws,
  parts_of_eq (*ℤ-sub_right x v (n +ℤ q)),
  parts_of_eq (*ℤ-sub_right x a n),
  parts_of_eq (*ℤ-add_left x n q),
)

-- A purchase that opens or adds to a long position, with steps within 64 bits, moves the equity at
-- the fill's price by less than one price unit for each share then held.
pub buy_fill-equity_add :
    (qty price : ℤ) (p : Position)
    → pos 0 ≤ℤ p.net_qty
    → pos 0 <ℤ p.net_qty +ℤ qty
    → AddFits qty price p
    → let moved = equity price (buy_fill qty price p) -ℤ equity price p in
      (neg (p.net_qty +ℤ qty) <ℤ moved) × (moved <ℤ p.net_qty +ℤ qty)
buy_fill-equity_add qty price p long grows f =
    rw
      (
        buy_fill-add qty price p long grows f,
        rounding_moves p.realized_pnl p.avg_entry_price price p.net_qty qty
            (cost_after qty price p /ℤ (p.net_qty +ℤ qty)),
      )
      (remainder_bounds (cost_after qty price p) (p.net_qty +ℤ qty) grows)
