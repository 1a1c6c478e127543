-- ===== src/FixGateway/Types.antt =====
-- The books of the gateway stay within the types of their fields.
use hft_order_book.Base.{ℕ, ◌≡◌, refl, ◌≢◌, inl, inr, Option, none, some, All}
use hft_order_book.Base.Word.{Fits32, Fits64}
use hft_order_book.OrderEvent.{EventType, OrderEvent}
use hft_order_book.OrderEvent.Types.{IsEvent}
use hft_order_book.SlotTable.Lookup.{entries}
use hft_order_book.EventLog.{EventLog}
use hft_order_book.EventLog.Contents.{contents}
use hft_order_book.OrderManager
use hft_order_book.OrderManager.Types.{IsOrder, apply_event-IsOrder, replay_from-IsOrder}
use hft_order_book.PositionTracker
use hft_order_book.PositionTracker.Types.{
  IsPosition, apply_event-IsPosition, replay_from-IsPosition,
}
use hft_order_book.RiskChecker.{RiskLimits}
use hft_order_book.MessageTranslator.{
  Floats, ExecutionReport, Translated, field_not_found, bad_format, done, from_execution_report,
}
use hft_order_book.MessageTranslator.Reports.{from_execution_report-type}
use hft_order_book.MessageTranslator.Types.{from_execution_report-IsEvent}
use hft_order_book.FixGateway.{Gateway, book_translated, on_message, create}
use hft_order_book.FixGateway.Effects.{Untouched, Booked, book_effect}

-- Both tables are valid, and every field of their entries is within its type.
pub record IsTyped (g : Gateway) : Type 0 where
  pub orders_valid : OrderManager.Lifecycle.IsValid g.orders
  pub orders_typed : All IsOrder (entries g.orders)
  pub tracker_valid : PositionTracker.Lookup.IsValid g.tracker
  pub tracker_typed : All IsPosition (entries g.tracker)

pub Untouched-IsTyped : {n : ℕ} {g g' : Gateway} → Untouched n g g' → IsTyped g → IsTyped g'
Untouched-IsTyped u h = record {
  orders_valid = rw u.same_orders h.orders_valid;
  orders_typed = rw u.same_orders h.orders_typed;
  tracker_valid = rw u.same_tracker h.tracker_valid;
  tracker_typed = rw u.same_tracker h.tracker_typed;
}

Booked-IsTyped :
    (e : OrderEvent) {g g' : Gateway} → IsEvent e → Booked e g g' → IsTyped g → IsTyped g'
Booked-IsTyped e {g} {g'} is b h = record {
  orders_valid =
      rw b.ordered (OrderManager.Lifecycle.apply_event-IsValid g.orders e h.orders_valid);
  orders_typed = rw b.ordered (apply_event-IsOrder e is g.orders h.orders_valid h.orders_typed);
  tracker_valid =
      rw b.applied (PositionTracker.Lookup.apply_event-IsValid g.tracker e h.tracker_valid);
  tracker_typed =
      rw b.applied (apply_event-IsPosition e is g.tracker h.tracker_valid h.tracker_typed);
}

-- The books that a log of events within their types is replayed to.
pub create-IsTyped :
    (log : EventLog) (limits : RiskLimits)
    → All IsEvent (contents log)
    → IsTyped (create log (PositionTracker.replay_from log) (OrderManager.replay_from log) limits)
unfolding create
create-IsTyped log limits is = record {
  orders_valid = OrderManager.Replay.replay_from-IsValid log;
  orders_typed = replay_from-IsOrder log is;
  tracker_valid = PositionTracker.Lookup.replay_from-IsValid log;
  tracker_typed = replay_from-IsPosition log is;
}

translated-IsTyped :
    (now : ℕ) (g : Gateway) (t : Translated (Option OrderEvent))
    → ((e : OrderEvent) → t ≡ done (some e) → IsEvent e × (e.type ≢ EventType.new_order))
    → IsTyped g
    → IsTyped (book_translated now g t).1
unfolding book_translated
translated-IsTyped now g field_not_found is h = h
translated-IsTyped now g bad_format is h = h
translated-IsTyped now g (done none) is h = h
translated-IsTyped now g (done (some e)) is h =
    let (event, other) = is e refl in
    elim (book_effect now e g other) [
      | inl kept ↦ Untouched-IsTyped kept h
      | inr report ↦ Booked-IsTyped e event report.0 h
    ]

module _ (F : Floats) where
  module _ (in_int32 : (x : F.Double) → Fits32 (F.to_int32 x))
      (in_int64 : (x : F.Double) → Fits64 (F.to_int64 x)) where
    pub on_message-IsTyped :
        (now : ℕ) (report : ExecutionReport F) (g : Gateway)
        → IsTyped g
        → IsTyped (on_message F now report g).1
    unfolding on_message
    on_message-IsTyped now report g h =
        translated-IsTyped now g (from_execution_report F report)
          (λ e at. (
            from_execution_report-IsEvent F in_int32 in_int64 report e at,
            from_execution_report-type F report e at,
          ))
          h
