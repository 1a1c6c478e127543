-- ===== src/OrderManager/States.antt =====
-- The states of an order. The header of OrderManager.h calls Filled, Cancelled and Rejected
-- terminal; no handler tests the state.
use hft_order_book.Base.{
  ◌≡◌, refl, sym, ap, ◌∙◌, ◌⊎◌, inl, inr, true, false, some, some-eq, List, [], ◌∷◌, if◌then◌else◌,
  Bool-cases, arith,
}
use mathlib.Core.Option
use mathlib.Core.Path.{subst}
use hft_order_book.Base.Int.{ℤ, pos, neg, ◌+ℤ◌, ◌-ℤ◌, ◌≤ℤ◌, ◌<ℤ◌, leb_ℤ, int_laws}
use hft_order_book.Base.Word.{wrap32, wrap32-+ℤ}
use hft_order_book.Base.Bytes.{Bytes, StringView, strncmp_eq, strncmp_eq_refl}
use hft_order_book.OrderEvent.{EventType, OrderEvent, is_buy, order_id_view}
use hft_order_book.SlotTable.Lookup.{entries, first, change, get-entries, entries-update_at}
use hft_order_book.SlotTable.Upsert.{get-update_at}
use hft_order_book.OrderManager.{
  Order, OrderManager, OrderState, order_name, get, find, is_open, filled_by, handle_fill, dispatch,
  apply_event, open_exposure,
}
use hft_order_book.OrderManager.Lifecycle.{filled_by-name}
use hft_order_book.OrderManager.Fills.{FillFits, filled_by-exact}
use hft_order_book.OrderManager.Sums.{swap_last, move_last}
use hft_order_book.OrderManager.Exposure.{exposure_of, sum_exposure, open_exposure-sum}

-- A change of one order moves the sum by what it moves the order's exposure.
sum_exposure-change :
    (s k : Bytes) (f : Order → Order) (os : List Order) (p : Order) (d : ℤ)
    → first order_name k os ≡ some p
    → exposure_of s (f p) ≡ exposure_of s p +ℤ d
    → sum_exposure s (change order_name k f os) ≡ sum_exposure s os +ℤ d
unfolding sum_exposure change first
sum_exposure-change s k f [] p d found h = absurd cc
sum_exposure-change s k f (o ∷ os) p d found h = elim (Bool-cases (strncmp_eq (order_name o) k 8)) [
  | inl this ↦
      let same : o ≡ p = some-eq (rw this at found) in
      let more : exposure_of s (f o) ≡ exposure_of s o +ℤ d =
        subst (λ x. exposure_of s (f x) ≡ exposure_of s x +ℤ d) (sym same) h in
      rw this
        (ap (λ n. n +ℤ sum_exposure s os) more ∙ swap_last (exposure_of s o) d (sum_exposure s os))
  | inr other ↦ rw other (
      ap (◌+ℤ◌ (exposure_of s o)) (sum_exposure-change s k f os p d (rw other at found) h)
      ∙ move_last (exposure_of s o) (sum_exposure s os) d)
]

-- The quantity that a fill leaves of an order, negative for a sale.
abbrev pub left_after : OrderEvent → Order → ℤ
left_after e o =
    let left = o.original_qty -ℤ (o.filled_qty +ℤ e.fill_qty) in
    if is_buy o.side then left else neg left

-- A positive fill that leaves a quantity, and whose steps stay within their types.
pub record LeavesMore (e : OrderEvent) (o : Order) : Type 0 where
  pub filled_ge : pos 0 ≤ℤ o.filled_qty
  pub more : pos 0 <ℤ e.fill_qty
  pub short : o.filled_qty +ℤ e.fill_qty <ℤ o.original_qty
  pub fits : FillFits e o

filled_by-reopens :
    (e : OrderEvent) (o : Order)
    → LeavesMore e o
    → (filled_by e o).state ≡ OrderState.partially_filled
filled_by-reopens e o h =
    rw (filled_by-exact e o (omega (int_laws, h.filled_ge, h.more)) h.fits, not_done) refl
  where
    not_done : leb_ℤ o.original_qty (o.filled_qty +ℤ e.fill_qty) ≡ false
    not_done = ground (arith, h.short)

zero_add : (a : ℤ) → a ≡ pos 0 +ℤ a
zero_add a = omega int_laws

exposure_of-reopened :
    (s : Bytes) (e : OrderEvent) (o : Order)
    → is_open o ≡ false
    → strncmp_eq o.symbol s 8 ≡ true
    → LeavesMore e o
    → exposure_of s (filled_by e o) ≡ exposure_of s o +ℤ left_after e o
unfolding is_open
exposure_of-reopened s e o closed in_symbol h =
    rw
      (
        filled_by-exact e o (omega (int_laws, h.filled_ge, h.more)) h.fits,
        not_done,
        closed,
        in_symbol,
      )
      (zero_add (left_after e o))
  where
    not_done : leb_ℤ o.original_qty (o.filled_qty +ℤ e.fill_qty) ≡ false
    not_done = ground (arith, h.short)

abbrev pub FillType : EventType → Type 0
FillType t = (t ≡ EventType.partial_fill) ⊎ (t ≡ EventType.full_fill)

apply_event-fill :
    (m : OrderManager) (e : OrderEvent) → FillType e.type → apply_event m e ≡ handle_fill m e
unfolding apply_event dispatch
apply_event-fill m e (inl part) = ap (λ t. dispatch t m e) part
apply_event-fill m e (inr full) = ap (λ t. dispatch t m e) full

get-fill :
    (m : OrderManager) (e : OrderEvent) (o : Order)
    → FillType e.type
    → get m (order_id_view e) ≡ some o
    → get (apply_event m e) (order_id_view e) ≡ some (filled_by e o)
unfolding handle_fill find get order_id_view
get-fill m e o fill found =
    ap (λ t. get t (order_id_view e)) (apply_event-fill m e fill)
    ∙ get-update_at order_name (filled_by e) m (order_id_view e) (order_id_view e)
        (filled_by-name e)
    ∙ ap
        (λ b.
          if b then Option.map (filled_by e) (get m (order_id_view e)) else get m (order_id_view e))
        (strncmp_eq_refl e.order_id 8)
    ∙ ap (Option.map (filled_by e)) found

open_exposure-fill :
    (m : OrderManager) (e : OrderEvent) (v : StringView) (o : Order)
    → FillType e.type
    → get m (order_id_view e) ≡ some o
    → is_open o ≡ false
    → strncmp_eq o.symbol v.data_bytes 8 ≡ true
    → LeavesMore e o
    → open_exposure (apply_event m e) v ≡ wrap32 (open_exposure m v +ℤ left_after e o)
unfolding handle_fill find get order_id_view
open_exposure-fill m e v o fill found closed in_symbol h =
    ap (λ t. open_exposure t v) (apply_event-fill m e fill)
    ∙ open_exposure-sum (handle_fill m e) v
    ∙ ap (λ os. wrap32 (sum_exposure v.data_bytes os))
        (entries-update_at order_name m (order_id_view e) (filled_by e))
    ∙ ap wrap32 (
        sum_exposure-change v.data_bytes e.order_id (filled_by e) (entries m) o (left_after e o)
          (sym (get-entries order_name m (order_id_view e)) ∙ found)
          (exposure_of-reopened v.data_bytes e o closed in_symbol h))
    ∙ sym (wrap32-+ℤ (sum_exposure v.data_bytes (entries m)) (left_after e o))
    ∙ ap (λ x. wrap32 (x +ℤ left_after e o)) (sym (open_exposure-sum m v))

-- A fill event for an order of the table that is not open (a cancelled or rejected one, say) makes
-- it PartiallyFilled, which is open, and adds what the fill leaves of its quantity to the open
-- exposure of its symbol, to 32 bits, if the fill is positive and leaves a quantity, the order was
-- filled to no less than 0, and the steps stay within their types.
pub fill_reopens :
    (m : OrderManager) (e : OrderEvent) (v : StringView) (o : Order)
    → FillType e.type
    → get m (order_id_view e) ≡ some o
    → is_open o ≡ false
    → strncmp_eq o.symbol v.data_bytes 8 ≡ true
    → LeavesMore e o
    → ((o' : Order) × (get (apply_event m e) (order_id_view e) ≡ some o')
        × (o'.state ≡ OrderState.partially_filled))
      × (open_exposure (apply_event m e) v ≡ wrap32 (open_exposure m v +ℤ left_after e o))
fill_reopens m e v o fill found closed in_symbol h = (
  (filled_by e o, get-fill m e o fill found, filled_by-reopens e o h),
  open_exposure-fill m e v o fill found closed in_symbol h,
)
