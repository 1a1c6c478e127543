-- ===== src/OrderManager/Fills.antt =====
-- What a fill does to an order: quantity, mean price and state.
use hft_order_book.Base.{◌≡◌, refl, true, if◌then◌else◌, arith}
use hft_order_book.Base.Int.{
  ℤ, pos, ◌+ℤ◌, ◌-ℤ◌, ◌*ℤ◌, ◌/ℤ◌, leb_ℤ, ltb_ℤ, ◌≤ℤ◌, ◌<ℤ◌, int_laws, -ℤ_parts,
}
use hft_order_book.Base.Average.{mean_bounds}
use hft_order_book.Base.Word.{Fits32, Fits64, wrap32_id, wrap64_id}
use hft_order_book.OrderEvent.{OrderEvent}
use hft_order_book.OrderManager.{Order, OrderState, filled_by}

-- The steps of a fill stay within their types.
pub record FillFits (e : OrderEvent) (o : Order) : Type 0 where
  pub old_fits : Fits64 (o.avg_fill_price *ℤ o.filled_qty)
  pub new_fits : Fits64 (e.fill_price *ℤ e.fill_qty)
  pub cost_fits : Fits64 (o.avg_fill_price *ℤ o.filled_qty +ℤ e.fill_price *ℤ e.fill_qty)
  pub filled_fits : Fits32 (o.filled_qty +ℤ e.fill_qty)
  pub left_fits : Fits32 (o.original_qty -ℤ (o.filled_qty +ℤ e.fill_qty))

-- A fill without the reductions.
pub filled_by-exact :
    (e : OrderEvent) (o : Order)
    → pos 0 <ℤ o.filled_qty +ℤ e.fill_qty
    → FillFits e o
    → filled_by e o ≡ record o {
      avg_fill_price =
          (o.avg_fill_price *ℤ o.filled_qty +ℤ e.fill_price *ℤ e.fill_qty)
          /ℤ (o.filled_qty +ℤ e.fill_qty);
      filled_qty = o.filled_qty +ℤ e.fill_qty;
      last_seq = e.sequence;
      state =
          if leb_ℤ o.original_qty (o.filled_qty +ℤ e.fill_qty)
          then OrderState.filled
          else OrderState.partially_filled;
    }
unfolding filled_by
filled_by-exact e o grows f = rw (
  wrap64_id _ f.old_fits,
  wrap64_id _ f.new_fits,
  wrap64_id _ f.cost_fits,
  wrap32_id _ f.filled_fits,
  wrap32_id _ f.left_fits,
  is_more,
  is_done,
)
  where
    is_more : ltb_ℤ (pos 0) (o.filled_qty +ℤ e.fill_qty) ≡ true
    is_more = ground arith

    is_done :
        leb_ℤ (o.original_qty -ℤ (o.filled_qty +ℤ e.fill_qty)) (pos 0)
        ≡ leb_ℤ o.original_qty (o.filled_qty +ℤ e.fill_qty)
    is_done = ground (arith, -ℤ_parts o.original_qty (o.filled_qty +ℤ e.fill_qty))

-- A fill of a positive quantity, of an order filled to a quantity not below 0, whose steps stay
-- within their types, adds its quantity, completes the order exactly when nothing is left, and keeps
-- the mean fill price within any bounds of the old mean and the fill's price.
pub filled_by-fill :
    (e : OrderEvent) (o : Order) (lo hi : ℤ)
    → pos 0 ≤ℤ o.filled_qty
    → pos 0 <ℤ e.fill_qty
    → FillFits e o
    → (pos 0 <ℤ o.filled_qty → (lo ≤ℤ o.avg_fill_price) × (o.avg_fill_price ≤ℤ hi))
    → (lo ≤ℤ e.fill_price) × (e.fill_price ≤ℤ hi)
    → let o' = filled_by e o in
      (o'.filled_qty ≡ o.filled_qty +ℤ e.fill_qty)
      × (o'.state ≡ (
          if leb_ℤ o.original_qty o'.filled_qty
          then OrderState.filled
          else OrderState.partially_filled))
      × (lo ≤ℤ o'.avg_fill_price)
      × (o'.avg_fill_price ≤ℤ hi)
filled_by-fill e o lo hi some_filled more f old new =
    rw (filled_by-exact e o grows f) (refl, refl, bounds.0, bounds.1)
  where
    grows : pos 0 <ℤ o.filled_qty +ℤ e.fill_qty
    grows = omega int_laws

    bounds :
        let mean =
          (o.avg_fill_price *ℤ o.filled_qty +ℤ e.fill_price *ℤ e.fill_qty)
          /ℤ (o.filled_qty +ℤ e.fill_qty) in
        (lo ≤ℤ mean) × (mean ≤ℤ hi)
    bounds =
        mean_bounds lo hi o.avg_fill_price e.fill_price o.filled_qty e.fill_qty some_filled
          (omega arith) grows old new
