-- ===== src/OrderManager.antt =====
-- include/OrderManager.h: the live view of every order, by order id. Children: Lifecycle (what an
-- event does to one order), Replay (one order's history), Fills (quantity and mean price),
-- History (an order from its opening through its fills), Commute (events of different orders),
-- Exposure (the sum over open orders), Sums (the sum of what is filled), States (an order
-- that is not open, filled), Stamps (orders without sequence numbers), Counts (the slots in use), Types (the
-- ranges of the fields), Views (what is there for printing).
pub mod Lifecycle
pub mod Replay
pub mod Fills
pub mod History
pub mod Commute
pub mod Exposure
pub mod Sums
pub mod States
pub mod Stamps
pub mod Counts
pub mod Views
pub mod Types
use hft_order_book.Base.{
  ℕ, zero, suc, ◌+◌, Bool, true, false, not, ◌||◌, Option, none, some, List, [], ◌∷◌, if◌then◌else◌,
}
use hft_order_book.Base.Int.{ℤ, pos, ◌+ℤ◌, ◌-ℤ◌, ◌*ℤ◌, ◌/ℤ◌, neg, ltb_ℤ, leb_ℤ}
use hft_order_book.Base.Word.{wrap32, wrap64}
use hft_order_book.Base.Bytes.{Bytes, StringView, strncpy, strncmp_eq}
use hft_order_book.OrderEvent.{EventType, Side, is_buy, OrderEvent, order_id_view}
use hft_order_book.EventLog.{EventLog, replay}
use hft_order_book.SlotTable.{Table, update_at, upsert, clear, for_each}
use hft_order_book.SlotTable

-- `unset` is the value 0 that `memset` leaves.
pub data OrderState : Type 0 where
  unset pending partially_filled filled cancelled rejected : OrderState

pub record Order : Type 0 where
  pub order_id : Bytes
  pub symbol : Bytes
  pub limit_price : ℤ
  pub avg_fill_price : ℤ
  pub opened_seq : ℕ
  pub last_seq : ℕ
  pub original_qty : ℤ
  pub filled_qty : ℤ
  pub state : OrderState
  pub side : Side

unfoldable pub remaining_qty : Order → ℤ
remaining_qty o = wrap32 (o.original_qty -ℤ o.filled_qty)

abbrev pub state_is_open : OrderState → Bool
state_is_open OrderState.pending = true
state_is_open OrderState.partially_filled = true
state_is_open _ = false

unfoldable pub is_open : Order → Bool
is_open o = state_is_open o.state

unfoldable pub is_terminal : Order → Bool
unfolding is_open
is_terminal o = not (is_open o)

abbrev pub max_orders : ℕ
max_orders = 512

abbrev pub OrderManager : Type 0
OrderManager = Table Order

abbrev pub order_name : Order → Bytes
order_name o = o.order_id

-- A slot of zero bytes, with the name written.
abbrev pub blank_order : Bytes → Order
blank_order k = record {
  order_id = k;
  symbol = strncpy [] 8;
  limit_price = pos 0;
  avg_fill_price = pos 0;
  opened_seq = 0;
  last_seq = 0;
  original_qty = pos 0;
  filled_qty = pos 0;
  state = OrderState.unset;
  side = Side.unset;
}

-- The constructor, and the state that `replay_from` starts from.
unfoldable pub empty : OrderManager
unfolding clear
empty = clear max_orders (blank_order (strncpy [] 8))

unfoldable pub find : OrderManager → StringView → Option ℕ
unfolding SlotTable.find
find m oid = SlotTable.find order_name m oid

unfoldable pub get : OrderManager → StringView → Option Order
unfolding SlotTable.get
get m oid = SlotTable.get order_name m oid

-- The writes of each handler through the order's pointer.
unfoldable pub opened : OrderEvent → Order → Order
opened e o = record o {
  symbol = strncpy e.symbol 8;
  state = OrderState.pending;
  side = e.side;
  limit_price = e.price;
  original_qty = e.qty;
  filled_qty = pos 0;
  avg_fill_price = pos 0;
  opened_seq = e.sequence;
  last_seq = e.sequence;
}

unfoldable pub filled_by : OrderEvent → Order → Order
unfolding remaining_qty
filled_by e o =
    let prev_cost = wrap64 (o.avg_fill_price *ℤ o.filled_qty) in
    let fill_cost = wrap64 (e.fill_price *ℤ e.fill_qty) in
    let new_filled = wrap32 (o.filled_qty +ℤ e.fill_qty) in
    let o' : Order = record o {
      avg_fill_price =
          if ltb_ℤ (pos 0) new_filled then wrap64 (prev_cost +ℤ fill_cost) /ℤ new_filled else pos 0;
      filled_qty = new_filled;
      last_seq = e.sequence;
    } in
    record o' {
      state =
          if leb_ℤ (remaining_qty o') (pos 0)
          then OrderState.filled
          else OrderState.partially_filled;
    }

unfoldable pub cancelled_by : OrderEvent → Order → Order
cancelled_by e o = record o { state = OrderState.cancelled; last_seq = e.sequence }

unfoldable pub rejected_by : OrderEvent → Order → Order
rejected_by e o = record o { state = OrderState.rejected; last_seq = e.sequence }

unfoldable pub amended_by : OrderEvent → Order → Order
amended_by e o = record o {
  original_qty = if ltb_ℤ (pos 0) e.qty then e.qty else o.original_qty;
  limit_price = if ltb_ℤ (pos 0) e.price then e.price else o.limit_price;
  last_seq = e.sequence;
}

unfoldable pub handle_new : OrderManager → OrderEvent → OrderManager
unfolding SlotTable.get_or_create opened update_at order_id_view
handle_new m e = upsert order_name max_orders blank_order (opened e) m (order_id_view e)

unfoldable pub handle_fill : OrderManager → OrderEvent → OrderManager
unfolding find filled_by update_at order_id_view
handle_fill m e = update_at (filled_by e) (find m (order_id_view e)) m

unfoldable pub handle_cancel : OrderManager → OrderEvent → OrderManager
unfolding find cancelled_by update_at order_id_view
handle_cancel m e = update_at (cancelled_by e) (find m (order_id_view e)) m

unfoldable pub handle_reject : OrderManager → OrderEvent → OrderManager
unfolding find rejected_by update_at order_id_view
handle_reject m e = update_at (rejected_by e) (find m (order_id_view e)) m

unfoldable pub handle_amend : OrderManager → OrderEvent → OrderManager
unfolding find amended_by update_at order_id_view
handle_amend m e = update_at (amended_by e) (find m (order_id_view e)) m

dispatch : EventType → OrderManager → OrderEvent → OrderManager
dispatch EventType.unset m e = m
dispatch EventType.new_order m e = handle_new m e
dispatch EventType.partial_fill m e = handle_fill m e
dispatch EventType.full_fill m e = handle_fill m e
dispatch EventType.cancel m e = handle_cancel m e
dispatch EventType.reject m e = handle_reject m e
dispatch EventType.amend m e = handle_amend m e

-- The `switch` on the event's type; PartialFill falls through to FullFill.
unfoldable pub apply_event : OrderManager → OrderEvent → OrderManager
unfolding dispatch
apply_event m e = dispatch e.type m e

unfoldable pub replay_from : EventLog → OrderManager
unfolding empty apply_event replay
replay_from log = replay apply_event log empty

-- The body of the loop in `open_exposure`.
abbrev pub add_exposure : Bytes → ℤ → Order → ℤ
add_exposure sym exp o =
    if not (is_open o)
    then exp
    else (if not (strncmp_eq o.symbol sym 8)
        then exp
        else wrap32
            (exp +ℤ (if is_buy o.side then remaining_qty o else wrap32 (neg (remaining_qty o)))))

unfoldable pub open_exposure : OrderManager → StringView → ℤ
unfolding for_each is_open remaining_qty
open_exposure m sym = for_each (add_exposure sym.data_bytes) m (pos 0)

unfoldable pub order_count : OrderManager → ℕ
order_count m = m.count

-- `for_each_open`, and the count of what it visits.
unfoldable pub for_each_open {ℓ} : {S : Type ℓ} → (S → Order → S) → OrderManager → S → S
unfolding for_each is_open
for_each_open fn m s = for_each (λ acc o. if is_open o then fn acc o else acc) m s

unfoldable pub open_order_count : OrderManager → ℕ
unfolding for_each is_open
open_order_count m = for_each (λ n o. if is_open o then n + 1 else n) m 0
