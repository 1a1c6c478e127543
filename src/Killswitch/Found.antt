-- ===== src/Killswitch/Found.antt =====
-- The orders that the requests of `cancel_all` name, looked up in the table.
use hft_order_book.Base.{
  ℕ, suc, ◌^◌, ◌<◌, ◌≡◌, sym, ap, ◌∙◌, inl, inr, true, some, List, [], ◌∷◌, length, take, All,
  Bool-cases,
}
use hft_order_book.Base.Bytes.{Bytes, StringView, strnlen}
use hft_order_book.OrderManager.{Order, OrderManager, order_name, get, is_open}
use hft_order_book.OrderManager.Lifecycle.{IsValid}
use hft_order_book.SlotTable.Distinct.{first-strncpy, first-All}
use hft_order_book.SlotTable.Lookup.{first, get-entries, entries}
use hft_order_book.MessageTranslator.{OrderCancelRequest}
use hft_order_book.MessageTranslator.RoundTrip.{strncpy-text}
use hft_order_book.Killswitch.{cancel_all}
use hft_order_book.Killswitch.Loops.{open_orders}
use hft_order_book.Killswitch.Coverage.{CancelEach, cancel_all-open_orders}

-- The order that a request names in OrigClOrdID is found in the table, and open.
abbrev pub NamesOpen : OrderManager → OrderCancelRequest → Type 0
NamesOpen m r =
    let named : StringView = record {
      data_bytes = r.orig_cl_ord_id;
      size = length r.orig_cl_ord_id;
    } in
    (o : Order) × (get m named ≡ some o) × (is_open o ≡ true)

-- An open order that is found under its id is found under the text of its id.
found_by_text :
    (m : OrderManager) (o : Order)
    → first order_name o.order_id (entries m) ≡ some o
    → is_open o ≡ true
    → (r : OrderCancelRequest) → r.orig_cl_ord_id ≡ take (strnlen o.order_id 8) o.order_id
    → NamesOpen m r
unfolding get
found_by_text m o found is r text = (
  o,
  get-entries order_name m
        (record { data_bytes = r.orig_cl_ord_id; size = length r.orig_cl_ord_id })
      ∙ ap (λ k. first order_name k (entries m)) text
      ∙ sym (first-strncpy order_name _ (entries m))
      ∙ ap (λ k. first order_name k (entries m)) (strncpy-text o.order_id)
      ∙ first-strncpy order_name o.order_id (entries m)
      ∙ found,
  is,
)

CancelEach-NamesOpen :
    (m : OrderManager) (prefix : Bytes) (count : ℕ) (os : List Order) (rs : List OrderCancelRequest)
    → All (λ (o : Order). first order_name o.order_id (entries m) ≡ some o) os
    → CancelEach prefix count (open_orders os) rs
    → All (NamesOpen m) rs
CancelEach-NamesOpen m prefix count [] [] found each = tt
CancelEach-NamesOpen m prefix count [] (r ∷ rs) found each = absurd each
CancelEach-NamesOpen m prefix count (o ∷ os) [] found each = tt
CancelEach-NamesOpen m prefix count (o ∷ os) (r ∷ rs) (here, found) each =
    elim (Bool-cases (is_open o)) [
      | inl is ↦
          let both : CancelEach prefix count (o ∷ open_orders os) (r ∷ rs) = rw is at each in
          (
            found_by_text m o here is r both.0.of_order,
            CancelEach-NamesOpen m prefix (suc count) os rs found both.1,
          )
      | inr closed ↦ CancelEach-NamesOpen m prefix count os (r ∷ rs) found (rw closed at each)
    ]

-- Of a valid table of fewer than 2^32 orders, every request that `cancel_all` sends names an order in
-- OrigClOrdID that `get` finds in the table under this name, and that is open.
pub cancel_all-NamesOpen :
    (prefix : Bytes) (m : OrderManager)
    → IsValid m
    → length (entries m) < 2 ^ 32
    → All (NamesOpen m) (cancel_all prefix m).1
cancel_all-NamesOpen prefix m v h =
    CancelEach-NamesOpen m prefix 0 (entries m) (cancel_all prefix m).1
      (first-All order_name (entries m) v.distinct) (cancel_all-open_orders prefix m h).1
