-- ===== src/OrderManager/Counts.antt =====
-- How many orders an event can add.
use hft_order_book.Base.{◌+◌, ◌≤◌, ◌≡◌, ◌≢◌, refl}
use hft_order_book.OrderEvent.{EventType, OrderEvent, order_id_view}
use hft_order_book.SlotTable.Distinct.{upsert-count-le}
use hft_order_book.OrderManager.{
  OrderManager, max_orders, order_name, blank_order, find, opened, filled_by, cancelled_by,
  rejected_by, amended_by, handle_new, handle_fill, handle_cancel, handle_reject, handle_amend,
  dispatch, apply_event,
}
use hft_order_book.OrderManager.Replay.{update_at-count}

dispatch-count_other :
    (t : EventType) (m : OrderManager) (e : OrderEvent)
    → t ≢ EventType.new_order
    → (dispatch t m e).count ≡ m.count
unfolding dispatch handle_fill handle_cancel handle_reject handle_amend
dispatch-count_other EventType.unset m e h = refl
dispatch-count_other EventType.new_order m e h = absurd (h refl)
dispatch-count_other EventType.partial_fill m e h =
    update_at-count (filled_by e) (find m (order_id_view e)) m
dispatch-count_other EventType.full_fill m e h =
    update_at-count (filled_by e) (find m (order_id_view e)) m
dispatch-count_other EventType.cancel m e h =
    update_at-count (cancelled_by e) (find m (order_id_view e)) m
dispatch-count_other EventType.reject m e h =
    update_at-count (rejected_by e) (find m (order_id_view e)) m
dispatch-count_other EventType.amend m e h =
    update_at-count (amended_by e) (find m (order_id_view e)) m

-- Events that are no new order take no slot.
pub count-apply_event_other :
    (m : OrderManager) (e : OrderEvent)
    → e.type ≢ EventType.new_order
    → (apply_event m e).count ≡ m.count
unfolding apply_event
count-apply_event_other m e h = dispatch-count_other e.type m e h

-- A new order takes one slot at most.
pub count-handle_new : (m : OrderManager) (e : OrderEvent) → (handle_new m e).count ≤ m.count + 1
unfolding handle_new
count-handle_new m e =
    upsert-count-le order_name max_orders blank_order (opened e) m (order_id_view e)
