-- ===== src/Killswitch/Confirmed.antt =====
-- The reports that confirm the cancels of `cancel_all`: they come under the cancels' own ids, which
-- are not those of the orders.
use hft_order_book.Base.{
  ℕ, suc, ◌^◌, ◌<◌, ◌≡◌, refl, sym, ap, ◌∙◌, inl, inr, true, none, some, List, [], ◌∷◌, ◌++◌,
  length, All, Bool-cases,
}
use hft_order_book.Base.Bytes.{
  Bytes, StringView, strncmp_eq, strncmp_eq-strncpy, strncpy-eq_of_strncmp_eq,
}
use hft_order_book.Base.Decimal.{to_string}
use hft_order_book.OrderEvent.{EventType, OrderEvent}
use hft_order_book.OrderManager.{Order, OrderManager, order_name, get, apply_event}
use hft_order_book.OrderManager.Lifecycle.{IsValid, get-apply_event}
use hft_order_book.SlotTable.Distinct.{first-strncpy}
use hft_order_book.SlotTable.Lookup.{first, get-entries, entries}
use hft_order_book.MessageTranslator.{
  Floats, OrderCancelRequest, ExecutionReport, ExecType, absent, present, done, from_fix_side,
  from_execution_report,
}
use hft_order_book.MessageTranslator.RoundTrip.{reported_side}
use hft_order_book.MessageTranslator.Reports.{named}
use hft_order_book.Killswitch.{cancel_all}
use hft_order_book.Killswitch.Loops.{open_orders}
use hft_order_book.Killswitch.Coverage.{CancelEach, cancel_all-open_orders}

-- A text as a `std::string_view`.
abbrev pub text_view : Bytes → StringView
text_view s = record { data_bytes = s; size = length s }

-- Ids that agree in their first eight bytes find the same.
get_same :
    (m : OrderManager) (s : Bytes) (w : StringView)
    → strncmp_eq s w.data_bytes 8 ≡ true
    → get m w ≡ get m (text_view s)
unfolding get
get_same m s w same =
    get-entries order_name m w
    ∙ sym (first-strncpy order_name w.data_bytes (entries m))
    ∙ ap (λ k. first order_name k (entries m))
        (sym (strncpy-eq_of_strncmp_eq s w.data_bytes 8 same))
    ∙ first-strncpy order_name s (entries m)
    ∙ sym (get-entries order_name m (text_view s))

module _ (F : Floats) where
  -- The report that confirms a cancel, under the cancel's ClOrdID.
  abbrev pub confirmation : OrderCancelRequest → ExecutionReport F
  confirmation r = record {
    exec_type = present ExecType.canceled;
    symbol = some r.symbol;
    cl_ord_id = some r.cl_ord_id;
    side = present (reported_side r.side);
    last_shares = absent;
    last_px = absent;
  }

  -- The confirmation is translated to an event that changes no order.
  abbrev pub ChangesNothing : OrderManager → OrderCancelRequest → Type 0
  ChangesNothing m r =
      (e : OrderEvent) × (from_execution_report F (confirmation r) ≡ done (some e))
      × ((w : StringView) → get (apply_event m e) w ≡ get m w)

  unknown_cancel :
      (m : OrderManager) (r : OrderCancelRequest)
      → IsValid m
      → get m (text_view r.cl_ord_id) ≡ none
      → ChangesNothing m r
  unfolding from_execution_report
  unknown_cancel m r v missing = (event, refl, same)
    where
      event : OrderEvent
      event = named EventType.cancel r.symbol r.cl_ord_id (from_fix_side (reported_side r.side))

      same : (w : StringView) → get (apply_event m event) w ≡ get m w
      same w =
          get-apply_event m event w v
          ∙ elim (Bool-cases (strncmp_eq event.order_id w.data_bytes 8)) [
            | inl this ↦
                let gone : get m w ≡ none =
                  get_same m r.cl_ord_id w
                    (sym (strncmp_eq-strncpy r.cl_ord_id w.data_bytes 8) ∙ this)
                  ∙ missing in
                rw (this, gone) refl
            | inr other ↦ rw other refl
          ]

  CancelEach-ChangesNothing :
      (m : OrderManager) (prefix : Bytes) (count : ℕ) (os : List Order)
      (rs : List OrderCancelRequest)
      → IsValid m
      → ((n : ℕ) → get m (text_view (prefix ++ to_string n)) ≡ none)
      → CancelEach prefix count os rs
      → All (ChangesNothing m) rs
  CancelEach-ChangesNothing m prefix count [] [] v unknown each = tt
  CancelEach-ChangesNothing m prefix count [] (r ∷ rs) v unknown each = absurd each
  CancelEach-ChangesNothing m prefix count (o ∷ os) [] v unknown each = absurd each
  CancelEach-ChangesNothing m prefix count (o ∷ os) (r ∷ rs) v unknown (this, rest) = (
    unknown_cancel m r v (ap (λ s. get m (text_view s)) this.numbered ∙ unknown (suc count)),
    CancelEach-ChangesNothing m prefix (suc count) os rs v unknown rest,
  )

  -- If in a valid table of fewer than 2^32 orders `get` finds no order under the prefix with a number,
  -- the report that confirms a request of `cancel_all`, under the request's ClOrdID, is translated to
  -- an event after which `get` finds under every id what it found before: the order that was to be
  -- cancelled is as it was.
  pub cancel_all-ChangesNothing :
      (prefix : Bytes) (m : OrderManager)
      → IsValid m
      → length (entries m) < 2 ^ 32
      → ((n : ℕ) → get m (text_view (prefix ++ to_string n)) ≡ none)
      → All (ChangesNothing m) (cancel_all prefix m).1
  cancel_all-ChangesNothing prefix m v h unknown =
      CancelEach-ChangesNothing m prefix 0 (open_orders (entries m)) (cancel_all prefix m).1 v
        unknown (cancel_all-open_orders prefix m h).1
