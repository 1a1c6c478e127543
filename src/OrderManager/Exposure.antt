-- ===== src/OrderManager/Exposure.antt =====
-- The open exposure of a symbol: the sum over its open orders, and what a new order adds to it.
use hft_order_book.Base.{
  ◌≤◌, ◌<◌, ◌≡◌, sym, ap, ◌∙◌, ◌&&◌, none, List, [], ◌∷◌, ◌++◌, if◌then◌else◌, arith,
}
use hft_order_book.Base.Int.{ℤ, pos, ◌+ℤ◌, ◌-ℤ◌, neg, int_laws}
use hft_order_book.Base.Word.{wrap32, Fits32, wrap32_id, wrap32-Fits32, wrap32-+ℤ, wrap32-neg}
use hft_order_book.Base.Bytes.{Bytes, StringView, strncpy, strncmp_eq, strncmp_eq-strncpy}
use hft_order_book.OrderEvent.{OrderEvent, is_buy, order_id_view}
use hft_order_book.SlotTable.Lookup.{entries, foldl, for_each-entries}
use hft_order_book.SlotTable.Upsert.{entries-upsert_new, upsert_full}
use hft_order_book.OrderManager.{
  Order, OrderManager, max_orders, order_name, blank_order, is_open, remaining_qty, opened,
  handle_new, get, add_exposure, open_exposure, state_is_open,
}
use hft_order_book.OrderManager.Lifecycle.{IsValid}

-- What an order adds to the exposure of a symbol, in exact integers.
abbrev pub exposure_of : Bytes → Order → ℤ
exposure_of s o =
    if state_is_open o.state && strncmp_eq o.symbol s 8
    then (if is_buy o.side
        then o.original_qty -ℤ o.filled_qty
        else neg (o.original_qty -ℤ o.filled_qty))
    else pos 0

unfoldable pub sum_exposure : Bytes → List Order → ℤ
sum_exposure s [] = pos 0
sum_exposure s (o ∷ os) = exposure_of s o +ℤ sum_exposure s os

wrap32-+ℤ_right : (a b : ℤ) → wrap32 (a +ℤ wrap32 b) ≡ wrap32 (a +ℤ b)
wrap32-+ℤ_right a b =
    ap wrap32 {y = wrap32 b +ℤ a} (omega int_laws) ∙ wrap32-+ℤ b a ∙ ap wrap32 (omega int_laws)

wrap32-+ℤ_zero : (a : ℤ) → Fits32 a → a ≡ wrap32 (a +ℤ pos 0)
wrap32-+ℤ_zero a h = sym (wrap32_id a h) ∙ ap wrap32 (omega int_laws)

add_exposure-wrap :
    (s : Bytes) (acc : ℤ) (o : Order)
    → Fits32 acc
    → add_exposure s acc o ≡ wrap32 (acc +ℤ exposure_of s o)
unfolding is_open remaining_qty
add_exposure-wrap s acc o fits = ground (
  arith,
  wrap32-+ℤ_right acc (o.original_qty -ℤ o.filled_qty),
  wrap32-+ℤ_right acc (neg (o.original_qty -ℤ o.filled_qty)),
  wrap32-neg (o.original_qty -ℤ o.filled_qty),
  wrap32-+ℤ_zero acc fits,
)

+ℤ_assoc : (a b c : ℤ) → a +ℤ b +ℤ c ≡ a +ℤ (b +ℤ c)
+ℤ_assoc a b c = omega int_laws

foldl-add_exposure :
    (s : Bytes) (acc : ℤ) (os : List Order)
    → Fits32 acc
    → foldl (add_exposure s) acc os ≡ wrap32 (acc +ℤ sum_exposure s os)
unfolding sum_exposure
foldl-add_exposure s acc [] fits = wrap32-+ℤ_zero acc fits
foldl-add_exposure s acc (o ∷ os) fits =
    foldl-add_exposure s (add_exposure s acc o) os
      (rw (add_exposure-wrap s acc o fits) (wrap32-Fits32 _))
    ∙ ap (λ x. wrap32 (x +ℤ sum_exposure s os)) (add_exposure-wrap s acc o fits)
    ∙ wrap32-+ℤ _ _
    ∙ ap wrap32 (+ℤ_assoc _ _ _)

-- The exposure that the loop returns is the exact sum over the open orders of the symbol, reduced
-- to 32 bits.
pub open_exposure-sum :
    (m : OrderManager) (v : StringView)
    → open_exposure m v ≡ wrap32 (sum_exposure v.data_bytes (entries m))
unfolding open_exposure
open_exposure-sum m v =
    for_each-entries (add_exposure v.data_bytes) m (pos 0)
    ∙ foldl-add_exposure v.data_bytes (pos 0) (entries m) (omega arith)
    ∙ ap wrap32 (omega int_laws)

sum_exposure-append :
    (s : Bytes) (os : List Order) (o : Order)
    → sum_exposure s (os ++ o ∷ []) ≡ sum_exposure s os +ℤ exposure_of s o
unfolding sum_exposure
sum_exposure-append s [] o = omega int_laws
sum_exposure-append s (x ∷ os) o =
    ap (◌+ℤ◌ (exposure_of s x)) (sum_exposure-append s os o) ∙ sym (+ℤ_assoc _ _ _)

-- A new order's own exposure.
abbrev pub new_exposure : Bytes → OrderEvent → ℤ
new_exposure s e =
    if strncmp_eq e.symbol s 8 then (if is_buy e.side then e.qty else neg e.qty) else pos 0

sub_zero : (a : ℤ) → a -ℤ pos 0 ≡ a
sub_zero a = omega int_laws

exposure-opened :
    (s : Bytes) (e : OrderEvent) (o : Order) → exposure_of s (opened e o) ≡ new_exposure s e
unfolding opened
exposure-opened s e o = ground (arith, strncmp_eq-strncpy e.symbol s 8, sub_zero e.qty)

-- A new order under an unused id, while a valid table has a slot, adds its signed quantity to the open
-- exposure of its symbol and nothing to that of others, to 32 bits.
pub open_exposure-handle_new :
    (m : OrderManager) (e : OrderEvent) (v : StringView)
    → IsValid m
    → get m (order_id_view e) ≡ none
    → m.count < max_orders
    → open_exposure (handle_new m e) v ≡ wrap32 (open_exposure m v +ℤ new_exposure v.data_bytes e)
unfolding handle_new get
open_exposure-handle_new m e v valid fresh room =
    open_exposure-sum (handle_new m e) v
    ∙ ap (λ os. wrap32 (sum_exposure s os))
        (entries-upsert_new order_name max_orders blank_order (opened e) m (order_id_view e)
          valid.table fresh room)
    ∙ ap wrap32 (sum_exposure-append s (entries m) (opened e o))
    ∙ ap (λ x. wrap32 (sum_exposure s (entries m) +ℤ x)) (exposure-opened s e o)
    ∙ sym (wrap32-+ℤ (sum_exposure s (entries m)) (new_exposure s e))
    ∙ ap (λ x. wrap32 (x +ℤ new_exposure s e)) (sym (open_exposure-sum m v))
  where
    s : Bytes
    s = v.data_bytes

    o : Order
    o = blank_order (strncpy e.order_id 8)

-- While the table is full, a new order under an unused id is dropped: nothing at all changes.
pub handle_new_full :
    (m : OrderManager) (e : OrderEvent)
    → get m (order_id_view e) ≡ none
    → max_orders ≤ m.count
    → handle_new m e ≡ m
unfolding handle_new get
handle_new_full m e fresh full =
    upsert_full order_name max_orders blank_order (opened e) m (order_id_view e) fresh full
