-- ===== src/OrderManager/Replay.antt =====
-- The history of one order: what is found under an id after a run of events depends on the events
-- of that id alone, and a log is replayed to the same orders.
use hft_order_book.Base.{
  ℕ, ◌≤◌, ◌<◌, ◌≡◌, refl, ap, ◌∙◌, false, Option, none, some, List, [], ◌∷◌, leb, if◌then◌else◌,
  arith,
}
use hft_order_book.Base.Bytes.{StringView, strncmp_eq}
use hft_order_book.OrderEvent.{EventType, OrderEvent, order_id_view}
use hft_order_book.EventLog.{EventLog, replay}
use hft_order_book.EventLog.Projection.{Projection, replay_from-contents, replay_from-kept}
use hft_order_book.EventLog.Contents.{contents}
use hft_order_book.SlotTable.{update_at}
use hft_order_book.SlotTable.Distinct.{upsert-count-ge}
use hft_order_book.SlotTable.Lookup.{foldl}
use hft_order_book.OrderManager.{
  Order, OrderManager, max_orders, get, apply_event, replay_from, empty, handle_new, handle_fill,
  handle_cancel, handle_reject, handle_amend, dispatch, find, opened, filled_by, cancelled_by,
  rejected_by, amended_by, order_name, blank_order,
}
use hft_order_book.OrderManager.Lifecycle.{
  IsValid, order_step, get-apply_event, apply_event-IsValid, empty-IsValid,
}

pub update_at-count :
    (f : Order → Order) (p : Option ℕ) (m : OrderManager) → (update_at f p m).count ≡ m.count
unfolding update_at
update_at-count f none m = refl
update_at-count f (some i) m = refl

dispatch-count :
    (t : EventType) (m : OrderManager) (e : OrderEvent) → m.count ≤ (dispatch t m e).count
unfolding dispatch handle_new handle_fill handle_cancel handle_reject handle_amend
dispatch-count EventType.unset m e = omega arith
dispatch-count EventType.new_order m e =
    upsert-count-ge order_name max_orders blank_order (opened e) m (order_id_view e)
dispatch-count EventType.partial_fill m e =
    omega (arith, update_at-count (filled_by e) (find m (order_id_view e)) m)
dispatch-count EventType.full_fill m e =
    omega (arith, update_at-count (filled_by e) (find m (order_id_view e)) m)
dispatch-count EventType.cancel m e =
    omega (arith, update_at-count (cancelled_by e) (find m (order_id_view e)) m)
dispatch-count EventType.reject m e =
    omega (arith, update_at-count (rejected_by e) (find m (order_id_view e)) m)
dispatch-count EventType.amend m e =
    omega (arith, update_at-count (amended_by e) (find m (order_id_view e)) m)

-- No event frees a slot.
pub count-apply_event : (m : OrderManager) (e : OrderEvent) → m.count ≤ (apply_event m e).count
unfolding apply_event
count-apply_event m e = dispatch-count e.type m e

count-foldl-apply_event :
    (es : List OrderEvent) (m : OrderManager) → m.count ≤ (foldl apply_event m es).count
count-foldl-apply_event [] m = omega arith
count-foldl-apply_event (e ∷ es) m =
    omega (arith, count-apply_event m e, count-foldl-apply_event es (apply_event m e))

-- One event in the history of the order of an id.
abbrev pub history_step : StringView → Option Order → OrderEvent → Option Order
history_step w o e = if strncmp_eq e.order_id w.data_bytes 8 then order_step e.type e false o else o

-- If the table has not filled up, the order of an id after a run of events is the fold
-- of its own events over what it was.
pub get-foldl-apply_event :
    (es : List OrderEvent) (m : OrderManager) (w : StringView)
    → IsValid m
    → (foldl apply_event m es).count < max_orders
    → get (foldl apply_event m es) w ≡ foldl (history_step w) (get m w) es
get-foldl-apply_event [] m w v h = refl
get-foldl-apply_event (e ∷ es) m w v h =
    get-foldl-apply_event es (apply_event m e) w (apply_event-IsValid m e v) h
    ∙ ap (λ o. foldl (history_step w) o es) (get-apply_event m e w v ∙ rw not_full)
  where
    not_full : leb max_orders m.count ≡ false
    not_full = ground (arith, count-apply_event m e, count-foldl-apply_event es (apply_event m e))

pub get-empty : (w : StringView) → get empty w ≡ none
unfolding get empty
get-empty w = refl

pub replay_from-replay : (log : EventLog) → replay_from log ≡ replay apply_event log empty
unfolding replay_from
replay_from-replay log = refl

-- The orders as a projection of the log.
abbrev pub orders_projection : Projection OrderManager
orders_projection = record {
  empty = empty;
  apply_event = apply_event;
  replay_from = replay_from;
  replays = replay_from-replay;
}

-- Replay is the fold of the events over the empty table.
pub replay_from-foldl : (log : EventLog) → replay_from log ≡ foldl apply_event empty (contents log)
replay_from-foldl = replay_from-contents orders_projection

-- The orders that a log is replayed to are valid, whatever the log holds.
pub replay_from-IsValid : (log : EventLog) → IsValid (replay_from log)
replay_from-IsValid =
    replay_from-kept orders_projection IsValid empty-IsValid (λ m e v. apply_event-IsValid m e v)

-- Replay of a log that does not fill the table: the order of an id is the fold of its own events
-- over no order.
pub get-replay_from :
    (log : EventLog) (w : StringView)
    → (replay_from log).count < max_orders
    → get (replay_from log) w ≡ foldl (history_step w) none (contents log)
get-replay_from log w h = rw (replay_from-foldl log) (
    get-foldl-apply_event (contents log) empty w empty-IsValid (rw (replay_from-foldl log) at h)
    ∙ ap (λ o. foldl (history_step w) o (contents log)) (get-empty w))
