-- ===== src/FixGateway/Safety.antt =====
-- What has happened when an order is sent, and that the risk limit then holds of the books.
use hft_order_book.Base.{
  ℕ, ◌<◌, ◌≡◌, refl, sym, sym as sym_path, ap, ◌∙◌, inl, inr, Bool, true, false, not, none, [], ◌∷◌,
  ◌++◌, if◌then◌else◌, length, arith,
}
use mathlib.Core.Path.{subst}
use hft_order_book.Base.Int.{ℤ, ◌+ℤ◌, neg, ◌≤ℤ◌, int_laws}
use hft_order_book.Base.Word.{wrap32, Fits32, wrap32_id}
use hft_order_book.Base.Bytes.{Bytes, StringView, strncpy, strncmp_eq_refl, strncmp_eq-strncpy}
use hft_order_book.OrderEvent.{Side, OrderEvent, make_new_order, order_id_view}
use hft_order_book.EventLog.{EventLog, Result, ok, err, append}
use hft_order_book.EventLog.Contents.{contents, stamped, append-contents}
use hft_order_book.OrderManager.{OrderManager, order_name, max_orders, open_exposure, handle_new}
use hft_order_book.OrderManager
use hft_order_book.PositionTracker
use hft_order_book.SlotTable.Lookup.{entries, get-entries}
use hft_order_book.SlotTable.Distinct.{first-strncpy}
use hft_order_book.OrderManager.Lifecycle.{IsValid}
use hft_order_book.OrderManager.Exposure.{open_exposure-handle_new, new_exposure}
use hft_order_book.PositionTracker.{PositionTracker}
use hft_order_book.RiskChecker.{net_or_zero, RiskResult, check_with_orders}
use hft_order_book.RiskChecker.Limits.{
  CheckFits, WithinLimits, true_qty, signed_qty, projected_qty, check_with_orders-pass_iff,
}
use hft_order_book.MessageTranslator.{Floats, NewOrderSingle, to_new_order_single}
use hft_order_book.FixGateway.{
  Gateway, SendOutcome, not_connected, sent, view_of, next_order_id, record_and_send, send_checked,
  send_order,
}

-- The event of an order that the gateway is about to send.
abbrev pub order_event : StringView → Side → ℤ → ℤ → Gateway → OrderEvent
order_event symbol side qty price_fp g =
    make_new_order symbol side qty price_fp (view_of (next_order_id g).0)

module _ (F : Floats) (now : ℕ) (found : Bool) (symbol : StringView) (side : Side)
    (qty price_fp : ℤ) (g : Gateway) where
  -- What holds of an order that was sent, and of the gateway after it.
  pub record WasSent (oid : Bytes) (order : NewOrderSingle F) (g' : Gateway) : Type 0 where
    pub was_connected : g.connected ≡ true
    pub passed :
        check_with_orders g.limits symbol side qty price_fp g.tracker g.orders ≡ RiskResult.pass
    pub id : oid ≡ (next_order_id g).0
    pub message : order ≡ to_new_order_single F (order_event symbol side qty price_fp g)
    pub logged :
        contents g'.log
        ≡ contents g.log
          ++ stamped now (length (contents g.log)) (order_event symbol side qty price_fp g) ∷ []
    pub ordered :
        g'.orders ≡ OrderManager.apply_event g.orders (order_event symbol side qty price_fp g)
    pub same_tracker : g'.tracker ≡ g.tracker
    pub same_limits : g'.limits ≡ g.limits

  record_and_send-sent :
      (oid₀ : Bytes) (e : OrderEvent) (g₁ : Gateway) (r : Result (ℕ × EventLog)) (oid : Bytes)
      (order : NewOrderSingle F) (g' : Gateway)
      → record_and_send F now found oid₀ e g₁ r ≡ (sent oid order, g')
      → (seq : ℕ) × (log' : EventLog) × (r ≡ ok (seq, log'))
        × (oid ≡ oid₀)
        × (order ≡ to_new_order_single F e)
        × (g' ≡ record g₁ { log = log'; orders = OrderManager.apply_event g₁.orders e })
  unfolding record_and_send
  record_and_send-sent oid₀ e g₁ (err x) oid order g' h = cc (ap (λ r. r.0) h)
  record_and_send-sent oid₀ e g₁ (ok (seq, log')) oid order g' h =
      (seq, log', refl, ground arith, ground arith, ground arith)

  passes :
      (r : RiskResult) (oid : Bytes) (order : NewOrderSingle F) (g' : Gateway)
      → send_checked F now found symbol side qty price_fp g r ≡ (sent oid order, g')
      → r ≡ RiskResult.pass
  unfolding send_checked
  passes RiskResult.pass oid order g' h = refl
  passes _ oid order g' h = cc (ap (λ r. r.0) h)

  connected_of :
      (b : Bool) (r : SendOutcome F × Gateway) (oid : Bytes) (order : NewOrderSingle F)
      (g' : Gateway)
      → (if not b then (not_connected, g) else r) ≡ (sent oid order, g')
      → (b ≡ true) × (r ≡ (sent oid order, g'))
  connected_of true r oid order g' h = (refl, h)
  connected_of false r oid order g' h = cc (ap (λ r. r.0) h)

  -- A pass leads to the log, with the id taken.
  passed_on :
      (oid : Bytes) (order : NewOrderSingle F) (g' : Gateway)
      → send_checked F now found symbol side qty price_fp g RiskResult.pass ≡ (sent oid order, g')
      → record_and_send F now found
          (next_order_id g).0
          (order_event symbol side qty price_fp g)
          (next_order_id g).1
          (append now (order_event symbol side qty price_fp g) g.log)
        ≡ (sent oid order, g')
  unfolding send_checked next_order_id
  passed_on oid order g' h = h

  after_id :
      ((next_order_id g).1.orders ≡ g.orders)
      × ((next_order_id g).1.tracker ≡ g.tracker)
      × ((next_order_id g).1.limits ≡ g.limits)
  unfolding next_order_id
  after_id = (refl, refl, refl)

  logged_of :
      (e : OrderEvent) (seq : ℕ) (log' : EventLog)
      → append now e g.log ≡ ok (seq, log')
      → contents log' ≡ contents g.log ++ stamped now (length (contents g.log)) e ∷ []
  logged_of e seq log' h = elim (append-contents now e g.log) [
    | inl (full, refused) ↦ cc
    | inr (log'', room, appended, grown) ↦
        subst (λ l. contents l ≡ contents g.log ++ stamped now (length (contents g.log)) e ∷ [])
          (same_log appended) grown
  ]
    where
      same_log : {n : ℕ} {l : EventLog} → append now e g.log ≡ ok (n, l) → l ≡ log'
      same_log k = cc

  -- An order is sent only while connected, after it passed the check, under the next id, as the
  -- message of its event, and after that event was put at the end of the log and booked; the
  -- positions and the limits are as before.
  pub send_order-WasSent :
      (oid : Bytes) (order : NewOrderSingle F) (g' : Gateway)
      → send_order F now found symbol side qty price_fp g ≡ (sent oid order, g')
      → WasSent oid order g'
  unfolding send_order
  send_order-WasSent oid order g' h =
      let (on, checked) = connected_of g.connected _ oid order g' h in
      let passed = passes _ oid order g' checked in
      let taken =
        passed_on oid order g'
          (ap (send_checked F now found symbol side qty price_fp g) (sym passed) ∙ checked) in
      let (seq, log', appended, id, message, after) =
        record_and_send-sent _ (order_event symbol side qty price_fp g) _ _ oid order g' taken in
      record {
        was_connected = on;
        passed = passed;
        id = id;
        message = message;
        logged =
            ap (λ x. contents x.log) after
            ∙ logged_of (order_event symbol side qty price_fp g) seq log' appended;
        ordered =
            ap (λ x. x.orders) after
            ∙ ap (λ o. OrderManager.apply_event o (order_event symbol side qty price_fp g))
                after_id.0;
        same_tracker = ap (λ x. x.tracker) after ∙ after_id.1;
        same_limits = ap (λ x. x.limits) after ∙ after_id.2;
      }

pub handle_new_order :
    (m : OrderManager) (sym : StringView) (side : Side) (qty price_fp : ℤ) (oid : StringView)
    → OrderManager.apply_event m (make_new_order sym side qty price_fp oid)
      ≡ handle_new m (make_new_order sym side qty price_fp oid)
unfolding OrderManager.apply_event make_new_order
handle_new_order m sym side qty price_fp oid = refl

new_exposure-own :
    (sym : StringView) (side : Side) (qty price_fp : ℤ) (oid : StringView)
    → new_exposure sym.data_bytes (make_new_order sym side qty price_fp oid) ≡ signed_qty side qty
unfolding make_new_order
new_exposure-own sym side qty price_fp oid =
    ground
      (arith, strncmp_eq-strncpy sym.data_bytes sym.data_bytes 8, strncmp_eq_refl sym.data_bytes 8)

-- A new order's id is looked up by its first eight bytes.
pub get-order_id :
    (m : OrderManager) (sym : StringView) (side : Side) (qty price_fp : ℤ) (oid : StringView)
    → OrderManager.get m (order_id_view (make_new_order sym side qty price_fp oid))
      ≡ OrderManager.get m oid
unfolding make_new_order order_id_view OrderManager.get
get-order_id m sym side qty price_fp oid =
    rw
      (
        get-entries order_name m (record { data_bytes = strncpy oid.data_bytes 8; size = _ }),
        get-entries order_name m oid,
      )
      (first-strncpy order_name oid.data_bytes (entries m))

regroup : (a b c : ℤ) → a +ℤ (b +ℤ c) ≡ a +ℤ b +ℤ c
regroup a b c = omega int_laws

module _ (F : Floats) (now : ℕ) (found : Bool) (symbol : StringView) (side : Side)
    (qty price_fp : ℤ) (g : Gateway) (valid : IsValid g.orders)
    (fresh : OrderManager.get g.orders (view_of (next_order_id g).0) ≡ none)
    (room : g.orders.count < max_orders)
    (fits : CheckFits g.limits symbol side qty price_fp g.tracker g.orders)
    (sum_fits : Fits32 (open_exposure g.orders symbol +ℤ signed_qty side qty)) where
  exposure_after :
      open_exposure
        (OrderManager.apply_event g.orders (order_event symbol side qty price_fp g))
        symbol
      ≡ open_exposure g.orders symbol +ℤ signed_qty side qty
  exposure_after =
      ap (λ m. open_exposure m symbol) (handle_new_order g.orders symbol side qty price_fp _)
      ∙ open_exposure-handle_new g.orders (order_event symbol side qty price_fp g) symbol valid
          (get-order_id g.orders symbol side qty price_fp _ ∙ fresh) room
      ∙ ap (λ x. wrap32 (open_exposure g.orders symbol +ℤ x))
          (new_exposure-own symbol side qty price_fp _)
      ∙ wrap32_id _ sum_fits

  -- Once an order with an unused id has been sent while a valid order table has a slot, and if the
  -- arithmetic of the check and of the exposure stays within its types, the filled and the pending
  -- quantity of its symbol together are what the check projected, and within the limit.
  pub send_order-within_limit :
      (oid : Bytes) (order : NewOrderSingle F) (g' : Gateway)
      → send_order F now found symbol side qty price_fp g ≡ (sent oid order, g')
      → (true_qty symbol g'.tracker g'.orders ≡ projected_qty symbol side qty g.tracker g.orders)
        × (true_qty symbol g'.tracker g'.orders ≤ℤ g'.limits.max_net_position)
        × (neg g'.limits.max_net_position ≤ℤ true_qty symbol g'.tracker g'.orders)
  send_order-within_limit oid order g' h =
      rw (w.same_tracker, w.ordered, w.same_limits)
        (
          total,
          subst (λ x. x ≤ℤ g.limits.max_net_position) (sym_path total) limits.projected_le,
          subst (λ x. neg g.limits.max_net_position ≤ℤ x) (sym_path total) limits.projected_ge,
        )
    where
      w : WasSent F now found symbol side qty price_fp g oid order g'
      w = send_order-WasSent F now found symbol side qty price_fp g oid order g' h

      limits : WithinLimits g.limits symbol side qty price_fp g.tracker g.orders
      limits =
          (check_with_orders-pass_iff g.limits symbol side qty price_fp g.tracker g.orders fits).0
            w.passed

      total :
          true_qty symbol g.tracker
            (OrderManager.apply_event g.orders (order_event symbol side qty price_fp g))
          ≡ projected_qty symbol side qty g.tracker g.orders
      total =
          ap (λ x. net_or_zero (PositionTracker.get g.tracker symbol) +ℤ x) exposure_after
          ∙ regroup (net_or_zero (PositionTracker.get g.tracker symbol))
              (open_exposure g.orders symbol) (signed_qty side qty)
