-- ===== src/FixGateway.antt =====
-- gateway/FIXGateway.h and gateway/FIXGateway.cpp: between the session and the bookkeeping. The
-- components are fields, as the gateway holds references to them; a method returns the new
-- gateway. An outbound call is an outcome; the clock and whether QuickFIX finds the session are
-- arguments. Children: Safety (sending an order), Restart (order ids after a restart), Ids (the
-- order ids), Effects (what a call does to the books), Recovery (the books and the log), Session
-- (the first run), Types (the ranges of the fields), Durable (the file of the log), Application
-- (the callbacks as QuickFIX's interface), Reconcile (positions against orders) and Live (the
-- same in a run), Trace (the line printed of a report), FullTable (an order that finds no slot).
pub mod Safety
pub mod Restart
pub mod Ids
pub mod Effects
pub mod Session
pub mod Recovery
pub mod Types
pub mod Durable
pub mod Application
pub mod Reconcile
pub mod Live
pub mod Trace
pub mod FullTable
use hft_order_book.Base.{
  ℕ, ◌+◌, ◌%◌, ◌^◌, Bool, true, false, not, Option, none, some, List, [], ◌∷◌, ◌++◌, if◌then◌else◌,
}
use hft_order_book.Base.Int.{ℤ}
use hft_order_book.Base.Bytes.{Bytes, StringView}
use hft_order_book.Base.Decimal.{to_string}
use hft_order_book.Base.{length}
use hft_order_book.OrderEvent.{EventType, Side, OrderEvent, make_new_order}
use hft_order_book.EventLog.{EventLog, Result, ok, err, append}
use hft_order_book.OrderManager.{OrderManager, OrderState}
use hft_order_book.OrderManager
use hft_order_book.PositionTracker.{PositionTracker}
use hft_order_book.PositionTracker
use hft_order_book.RiskChecker.{RiskLimits, RiskResult, check_with_orders}
use hft_order_book.MessageTranslator.{
  Floats, ExecutionReport, NewOrderSingle, OrderCancelRequest, Translated, field_not_found,
  bad_format, done, from_execution_report, to_new_order_single, to_fixed,
}
use hft_order_book.Killswitch.{execute, cancel_prefix}
use hft_order_book.Killswitch

pub record Gateway : Type 0 where
  pub log : EventLog
  pub tracker : PositionTracker
  pub orders : OrderManager
  pub limits : RiskLimits
  pub session_id : Bytes
  pub connected : Bool
  pub order_counter : ℕ

-- The constructor over components that are there already: no session, and a counter of 0.
unfoldable pub create : EventLog → PositionTracker → OrderManager → RiskLimits → Gateway
create log tracker orders limits = record {
  log = log;
  tracker = tracker;
  orders = orders;
  limits = limits;
  session_id = [];
  connected = false;
  order_counter = 0;
}

unfoldable pub on_create : Bytes → Gateway → Gateway
on_create id g = record g { session_id = id }

unfoldable pub on_logon : Gateway → Gateway
on_logon g = record g { connected = true }

unfoldable pub on_logout : Gateway → Gateway
on_logout g = record g { connected = false }

-- The accessors of the session's state.
unfoldable pub is_connected : Gateway → Bool
is_connected g = g.connected

unfoldable pub session_id : Gateway → Bytes
session_id g = g.session_id

abbrev pub order_prefix : Bytes
order_prefix = b'O' ∷ b'R' ∷ b'D' ∷ []

-- The id, and the counter after `fetch_add` on a uint64_t.
unfoldable pub next_order_id : Gateway → Bytes × Gateway
unfolding to_string
next_order_id g = (
  order_prefix ++ to_string g.order_counter,
  record g { order_counter = (g.order_counter + 1) % 2 ^ 64 },
)

-- A std::string passed as a view.
abbrev pub view_of : Bytes → StringView
view_of s = record { data_bytes = s; size = length s }

-- How `send_order` ends: an empty id, an exception, or the id and the message that was sent.
pub data SendOutcome (F : Floats) : Type 0 where
  not_connected log_full : SendOutcome F
  blocked : RiskResult → SendOutcome F
  session_not_found sent : Bytes → NewOrderSingle F → SendOutcome F

module _ (F : Floats) where
  -- From the log on: record the intention, then send.
  record_and_send :
      ℕ → Bool → Bytes → OrderEvent → Gateway → Result (ℕ × EventLog) → SendOutcome F × Gateway
  record_and_send now found oid evt g (err e) = (log_full, g)
  record_and_send now found oid evt g (ok (seq, log')) =
      let g' : Gateway = record g { log = log'; orders = OrderManager.apply_event g.orders evt } in
      let order = to_new_order_single F evt in
      (if found then sent oid order else session_not_found oid order, g')

  send_checked :
      ℕ → Bool → StringView → Side → ℤ → ℤ → Gateway → RiskResult → SendOutcome F × Gateway
  unfolding record_and_send
  send_checked now found symbol side qty price_fp g RiskResult.pass =
      let (oid, g') = next_order_id g in
      let evt = make_new_order symbol side qty price_fp (view_of oid) in
      record_and_send now found oid evt g' (append now evt g'.log)
  send_checked now found symbol side qty price_fp g result = (blocked result, g)

  unfoldable pub send_order :
      ℕ → Bool → StringView → Side → ℤ → ℤ → Gateway → SendOutcome F × Gateway
  unfolding send_checked
  send_order now found symbol side qty price_fp g =
      if not g.connected
      then (not_connected, g)
      else send_checked now found symbol side qty price_fp g
          (check_with_orders g.limits symbol side qty price_fp g.tracker g.orders)

  -- The overload with a price in `double`.
  unfoldable pub send_order_at :
      ℕ → Bool → StringView → Side → ℤ → F.Double → Gateway → SendOutcome F × Gateway
  unfolding send_order
  send_order_at now found symbol side qty price g =
      send_order now found symbol side qty (to_fixed F price) g

-- How `onMessage` ends: nothing to book, booked, or `std::terminate`, as an exception leaves a
-- noexcept function.
pub data MessageOutcome : Type 0 where
  ignored terminated : MessageOutcome
  booked : OrderEvent → MessageOutcome

book_logged : OrderEvent → Gateway → Result (ℕ × EventLog) → MessageOutcome × Gateway
book_logged evt g (err e) = (terminated, g)
book_logged evt g (ok (seq, log')) = (
  booked evt,
  record g {
    log = log';
    tracker = PositionTracker.apply_event g.tracker evt;
    orders = OrderManager.apply_event g.orders evt;
  },
)

-- The three bookkeeping calls.
unfoldable pub book : ℕ → OrderEvent → Gateway → MessageOutcome × Gateway
unfolding book_logged
book now evt g = book_logged evt g (append now evt g.log)

book_translated : ℕ → Gateway → Translated (Option OrderEvent) → MessageOutcome × Gateway
unfolding book
book_translated now g field_not_found = (terminated, g)
book_translated now g bad_format = (terminated, g)
book_translated now g (done none) = (ignored, g)
book_translated now g (done (some evt)) = book now evt g

unfoldable pub on_message :
    (F : Floats) → ℕ → ExecutionReport F → Gateway → MessageOutcome × Gateway
unfolding book_translated
on_message F now report g = book_translated now g (from_execution_report F report)

-- What QuickFIX gives to `fromApp`: an execution report, or a message of another type, for which
-- `crack` may throw.
pub data AppMessage (F : Floats) : Type 0 where
  execution_report : ExecutionReport F → AppMessage F
  other_message : Bool → AppMessage F

-- `fromApp` is noexcept, too.
unfoldable pub from_app : (F : Floats) → ℕ → AppMessage F → Gateway → MessageOutcome × Gateway
unfolding on_message
from_app F now (execution_report report) g = on_message F now report g
from_app F now (other_message true) g = (terminated, g)
from_app F now (other_message false) g = (ignored, g)

-- The state that the debug trace of `onMessage` names for the type of the booked event.
unfoldable pub traced_state : EventType → OrderState
traced_state EventType.partial_fill = OrderState.partially_filled
traced_state EventType.full_fill = OrderState.filled
traced_state EventType.cancel = OrderState.cancelled
traced_state t = OrderState.rejected

-- The killswitch's default call.
unfoldable pub emergency_cancel_all : ℕ → ℕ → Gateway → ℕ × (ℕ × List OrderCancelRequest)
unfolding execute
emergency_cancel_all t0 t1 g =
    execute cancel_prefix t0 t1 (Killswitch.create g.orders g.tracker g.session_id)
