-- ===== src/OrderManager/Stamps.antt =====
-- The orders without their sequence numbers: what an event makes of them does not depend on the
-- stamp that the log gives the event.
use hft_order_book.Base.{ℕ, ◌≡◌, refl, sym, ap, ◌∙◌}
use hft_order_book.OrderEvent.{EventType, OrderEvent, order_id_view}
use hft_order_book.EventLog.Contents.{stamped}
use hft_order_book.SlotTable.{update_at, upsert}
use hft_order_book.SlotTable.Images.{image, image-update_at, image-upsert, find-image}
use hft_order_book.OrderManager.{
  Order, OrderManager, order_name, max_orders, blank_order, find, opened, filled_by, cancelled_by,
  rejected_by, amended_by, handle_new, handle_fill, handle_cancel, handle_reject, handle_amend,
  dispatch, apply_event,
}

abbrev pub unstamped : Order → Order
unstamped o = record o { opened_seq = 0; last_seq = 0 }

-- The table without sequence numbers.
abbrev pub unstamped_orders : OrderManager → OrderManager
unstamped_orders m = image unstamped m

-- What an event does to such a table.
unstamped_step : EventType → OrderEvent → OrderManager → OrderManager
unstamped_step EventType.unset e u = u
unstamped_step EventType.new_order e u =
    upsert order_name max_orders blank_order (λ o. unstamped (opened e o)) u (order_id_view e)
unstamped_step EventType.partial_fill e u =
    update_at (λ o. unstamped (filled_by e o)) (find u (order_id_view e)) u
unstamped_step EventType.full_fill e u =
    update_at (λ o. unstamped (filled_by e o)) (find u (order_id_view e)) u
unstamped_step EventType.cancel e u =
    update_at (λ o. unstamped (cancelled_by e o)) (find u (order_id_view e)) u
unstamped_step EventType.reject e u =
    update_at (λ o. unstamped (rejected_by e o)) (find u (order_id_view e)) u
unstamped_step EventType.amend e u =
    update_at (λ o. unstamped (amended_by e o)) (find u (order_id_view e)) u

updated :
    (f : Order → Order) (m : OrderManager) (e : OrderEvent)
    → ((o : Order) → unstamped (f o) ≡ unstamped (f (unstamped o)))
    → unstamped_orders (update_at f (find m (order_id_view e)) m)
      ≡ update_at
          (λ o. unstamped (f o))
          (find (unstamped_orders m) (order_id_view e))
          (unstamped_orders m)
unfolding find
updated f m e h =
    image-update_at unstamped f (λ o. unstamped (f o)) (find m (order_id_view e)) m h
    ∙ ap (λ p. update_at (λ o. unstamped (f o)) p (unstamped_orders m))
        (sym (find-image unstamped order_name (λ o. refl) m (order_id_view e)))

dispatch_unstamped :
    (t : EventType) (m : OrderManager) (e : OrderEvent)
    → unstamped_orders (dispatch t m e) ≡ unstamped_step t e (unstamped_orders m)
unfolding dispatch unstamped_step handle_new handle_fill handle_cancel handle_reject handle_amend
    opened filled_by cancelled_by rejected_by amended_by
dispatch_unstamped EventType.unset m e = refl
dispatch_unstamped EventType.new_order m e =
    image-upsert unstamped order_name (λ o. refl) max_orders blank_order (opened e)
      (λ o. unstamped (opened e o)) m (order_id_view e) (λ k. refl) (λ o. refl)
dispatch_unstamped EventType.partial_fill m e = updated (filled_by e) m e (λ o. refl)
dispatch_unstamped EventType.full_fill m e = updated (filled_by e) m e (λ o. refl)
dispatch_unstamped EventType.cancel m e = updated (cancelled_by e) m e (λ o. refl)
dispatch_unstamped EventType.reject m e = updated (rejected_by e) m e (λ o. refl)
dispatch_unstamped EventType.amend m e = updated (amended_by e) m e (λ o. refl)

step-stamped :
    (t : EventType) (now seq : ℕ) (e : OrderEvent) (u : OrderManager)
    → unstamped_step t (stamped now seq e) u ≡ unstamped_step t e u
unfolding unstamped_step opened filled_by cancelled_by rejected_by amended_by order_id_view
step-stamped EventType.unset now seq e u = refl
step-stamped EventType.new_order now seq e u = refl
step-stamped EventType.partial_fill now seq e u = refl
step-stamped EventType.full_fill now seq e u = refl
step-stamped EventType.cancel now seq e u = refl
step-stamped EventType.reject now seq e u = refl
step-stamped EventType.amend now seq e u = refl

-- Tables that differ in sequence numbers alone still do after an event, also where one of them is
-- given the event with its stamp.
pub apply_event-unstamped :
    (m m' : OrderManager) (now seq : ℕ) (e : OrderEvent)
    → unstamped_orders m ≡ unstamped_orders m'
    → unstamped_orders (apply_event m e) ≡ unstamped_orders (apply_event m' (stamped now seq e))
unfolding apply_event
apply_event-unstamped m m' now seq e h =
    dispatch_unstamped e.type m e
    ∙ ap (unstamped_step e.type e) h
    ∙ sym (step-stamped e.type now seq e (unstamped_orders m'))
    ∙ sym (dispatch_unstamped e.type m' (stamped now seq e))
