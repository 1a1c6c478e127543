-- ===== src/OrderManager/Lifecycle.antt =====
-- What an event does to one order, and that `apply_event` does this to the order it names and
-- nothing to any other.
use hft_order_book.Base.{[], ◌≡◌, refl, Bool, Option, leb, if◌then◌else◌, arith}
use mathlib.Core.Option
use hft_order_book.Base.Bytes.{StringView, strncpy, strncmp_eq}
use hft_order_book.OrderEvent.{EventType, OrderEvent, order_id_view}
use hft_order_book.SlotTable.{update_at}
use hft_order_book.SlotTable.Lookup.{entries, IsTable, clear-IsTable, update_at-IsTable}
use hft_order_book.SlotTable.Upsert.{upsert_entry, get-upsert, get-update_at}
use hft_order_book.SlotTable.Distinct.{
  Distinct, upsert-IsTable, upsert-Distinct, update_at-Distinct, clear-Distinct,
}
use hft_order_book.OrderManager.{
  Order, OrderManager, max_orders, order_name, blank_order, find, get, opened, filled_by,
  cancelled_by, rejected_by, amended_by, handle_new, handle_fill, handle_cancel, handle_reject,
  handle_amend, apply_event, empty, dispatch,
}

-- The array has its size, the count is within it, and no two orders share an id.
pub record IsValid (m : OrderManager) : Type 0 where
  pub table : IsTable max_orders m
  pub distinct : Distinct order_name (entries m)

-- What an event does to the order that it names; `full` says that a new order finds no slot.
abbrev pub order_step : EventType → OrderEvent → Bool → Option Order → Option Order
order_step EventType.unset e full o = o
order_step EventType.new_order e full o =
    upsert_entry (opened e) (blank_order (strncpy e.order_id 8)) full o
order_step EventType.partial_fill e full o = Option.map (filled_by e) o
order_step EventType.full_fill e full o = Option.map (filled_by e) o
order_step EventType.cancel e full o = Option.map (cancelled_by e) o
order_step EventType.reject e full o = Option.map (rejected_by e) o
order_step EventType.amend e full o = Option.map (amended_by e) o

pub opened-name : (e : OrderEvent) (o : Order) → order_name (opened e o) ≡ order_name o
unfolding opened
opened-name e o = refl

pub filled_by-name : (e : OrderEvent) (o : Order) → order_name (filled_by e o) ≡ order_name o
unfolding filled_by
filled_by-name e o = refl

pub cancelled_by-name : (e : OrderEvent) (o : Order) → order_name (cancelled_by e o) ≡ order_name o
unfolding cancelled_by
cancelled_by-name e o = refl

pub rejected_by-name : (e : OrderEvent) (o : Order) → order_name (rejected_by e o) ≡ order_name o
unfolding rejected_by
rejected_by-name e o = refl

pub amended_by-name : (e : OrderEvent) (o : Order) → order_name (amended_by e o) ≡ order_name o
unfolding amended_by
amended_by-name e o = refl

pub empty-IsValid : IsValid empty
unfolding empty
empty-IsValid = record {
  table = clear-IsTable max_orders (blank_order (strncpy [] 8));
  distinct = clear-Distinct order_name max_orders (blank_order (strncpy [] 8));
}

update_at-IsValid :
    (f : Order → Order) (m : OrderManager) (e : OrderEvent)
    → ((o : Order) → order_name (f o) ≡ order_name o)
    → IsValid m
    → IsValid (update_at f (find m (order_id_view e)) m)
unfolding find
update_at-IsValid f m e keeps v = record {
  table = update_at-IsTable max_orders f (find m (order_id_view e)) m v.table;
  distinct = update_at-Distinct order_name f m (order_id_view e) keeps v.distinct;
}

handle_new-IsValid : (m : OrderManager) (e : OrderEvent) → IsValid m → IsValid (handle_new m e)
unfolding handle_new
handle_new-IsValid m e v = record {
  table = upsert-IsTable order_name max_orders blank_order (opened e) m (order_id_view e) v.table;
  distinct =
      upsert-Distinct order_name max_orders blank_order (opened e) m (order_id_view e)
        (opened-name e) (λ k. refl) v.table v.distinct;
}

dispatch-IsValid :
    (t : EventType) (m : OrderManager) (e : OrderEvent) → IsValid m → IsValid (dispatch t m e)
unfolding dispatch handle_fill handle_cancel handle_reject handle_amend
dispatch-IsValid EventType.unset m e v = v
dispatch-IsValid EventType.new_order m e v = handle_new-IsValid m e v
dispatch-IsValid EventType.partial_fill m e v =
    update_at-IsValid (filled_by e) m e (filled_by-name e) v
dispatch-IsValid EventType.full_fill m e v =
    update_at-IsValid (filled_by e) m e (filled_by-name e) v
dispatch-IsValid EventType.cancel m e v =
    update_at-IsValid (cancelled_by e) m e (cancelled_by-name e) v
dispatch-IsValid EventType.reject m e v =
    update_at-IsValid (rejected_by e) m e (rejected_by-name e) v
dispatch-IsValid EventType.amend m e v = update_at-IsValid (amended_by e) m e (amended_by-name e) v

-- Every event keeps the order table valid: within its array, and with no id twice.
pub apply_event-IsValid :
    (m : OrderManager) (e : OrderEvent) → IsValid m → IsValid (apply_event m e)
unfolding apply_event
apply_event-IsValid m e v = dispatch-IsValid e.type m e v

updated-get :
    (f : Order → Order) (m : OrderManager) (e : OrderEvent) (w : StringView)
    → ((o : Order) → order_name (f o) ≡ order_name o)
    → get (update_at f (find m (order_id_view e)) m) w
      ≡ (if strncmp_eq e.order_id w.data_bytes 8 then Option.map f (get m w) else get m w)
unfolding get find order_id_view
updated-get f m e w keeps = get-update_at order_name f m (order_id_view e) w keeps

handle_new-get :
    (m : OrderManager) (e : OrderEvent) (w : StringView)
    → IsValid m
    → get (handle_new m e) w ≡ (
        if strncmp_eq e.order_id w.data_bytes 8
        then order_step EventType.new_order e (leb max_orders m.count) (get m w)
        else get m w)
unfolding handle_new get order_id_view
handle_new-get m e w v =
    get-upsert order_name max_orders blank_order (opened e) m (order_id_view e) w (opened-name e)
      (λ k. refl) v.table

dispatch-get :
    (t : EventType) (m : OrderManager) (e : OrderEvent) (w : StringView)
    → IsValid m
    → get (dispatch t m e) w ≡ (
        if strncmp_eq e.order_id w.data_bytes 8
        then order_step t e (leb max_orders m.count) (get m w)
        else get m w)
unfolding dispatch handle_fill handle_cancel handle_reject handle_amend
dispatch-get EventType.unset m e w v = ground arith
dispatch-get EventType.new_order m e w v = handle_new-get m e w v
dispatch-get EventType.partial_fill m e w v = updated-get (filled_by e) m e w (filled_by-name e)
dispatch-get EventType.full_fill m e w v = updated-get (filled_by e) m e w (filled_by-name e)
dispatch-get EventType.cancel m e w v = updated-get (cancelled_by e) m e w (cancelled_by-name e)
dispatch-get EventType.reject m e w v = updated-get (rejected_by e) m e w (rejected_by-name e)
dispatch-get EventType.amend m e w v = updated-get (amended_by e) m e w (amended_by-name e)

-- After an event on a valid table, `get` finds under the event's id what the event makes of that order (a new order
-- only if there is a slot for it), and under every other id what it found before.
pub get-apply_event :
    (m : OrderManager) (e : OrderEvent) (w : StringView)
    → IsValid m
    → get (apply_event m e) w ≡ (
        if strncmp_eq e.order_id w.data_bytes 8
        then order_step e.type e (leb max_orders m.count) (get m w)
        else get m w)
unfolding apply_event
get-apply_event m e w v = dispatch-get e.type m e w v
