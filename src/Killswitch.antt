-- ===== src/Killswitch.antt =====
-- gateway/Killswitch.h: the messages that cancel every open order and close every position. What is
-- handed to `sendToTarget` is a list; a session that is not found is caught and changes nothing.
-- Children: Loops (the lists that are sent), Coverage (what the messages are for), Found
-- (the orders that they name), Confirmed (the reports that confirm cancels), Distinct (their ids).
pub mod Loops
pub mod Coverage
pub mod Found
pub mod Confirmed
pub mod Distinct
use hft_order_book.Base.{
  ℕ, suc, ◌+◌, ◌-◌, ◌/◌, ◌%◌, ◌^◌, Bool, true, false, not, Option, none, List, [], ◌∷◌, ◌++◌,
  if◌then◌else◌,
}
use hft_order_book.Base.Int.{ℤ, pos, neg, ltb_ℤ}
use hft_order_book.Base.Word.{wrap32, wrap64}
use hft_order_book.Base.Bytes.{Bytes, strncpy}
use hft_order_book.Base.Decimal.{to_string}
use hft_order_book.OrderEvent.{EventType, Side, OrderEvent, zero_event}
use hft_order_book.OrderManager.{Order, OrderManager, for_each_open}
use hft_order_book.PositionTracker.{Position, PositionTracker, is_flat}
use hft_order_book.SlotTable.{for_each}
use hft_order_book.MessageTranslator.{
  Floats, OrderCancelRequest, NewOrderSingle, OrdType, to_cancel_request, to_new_order_single,
}

-- `"KS"` and `"FL"`, the default prefixes.
abbrev pub cancel_prefix : Bytes
cancel_prefix = b'K' ∷ b'S' ∷ []

abbrev pub flatten_prefix : Bytes
flatten_prefix = b'F' ∷ b'L' ∷ []

-- The prefix and the decimal count.
unfoldable pub numbered_id : Bytes → ℕ → Bytes
unfolding to_string
numbered_id prefix count = prefix ++ to_string count

-- `++count` on a uint32_t.
abbrev pub next_count : ℕ → ℕ
next_count n = (n + 1) % 2 ^ 32

-- The minimal event that stands for an order.
unfoldable pub order_ref : Order → OrderEvent
unfolding zero_event
order_ref o = record zero_event { order_id = o.order_id; symbol = o.symbol; side = o.side }

-- The callback of `cancel_all`: the count, and the requests so far.
abbrev pub cancel_one : Bytes → ℕ × List OrderCancelRequest → Order → ℕ × List OrderCancelRequest
cancel_one prefix (count, sent) o = (
  next_count count,
  sent ++ to_cancel_request (order_ref o) (numbered_id prefix (next_count count)) ∷ [],
)

unfoldable pub cancel_all : Bytes → OrderManager → ℕ × List OrderCancelRequest
unfolding for_each_open
cancel_all prefix orders = for_each_open (cancel_one prefix) orders (0, [])

-- The event of the order that closes a position.
unfoldable pub flat_event : Bytes → Position → OrderEvent
unfolding zero_event
flat_event flat_id p = record zero_event {
  type = EventType.new_order;
  side = if ltb_ℤ (pos 0) p.net_qty then Side.sell else Side.buy;
  qty = wrap32 (if ltb_ℤ (pos 0) p.net_qty then p.net_qty else wrap64 (neg p.net_qty));
  price = pos 0;
  symbol = p.symbol;
  order_id = strncpy flat_id 8;
}

module _ (F : Floats) where
  -- The order turned into a market order, without its price.
  abbrev pub as_market : NewOrderSingle F → NewOrderSingle F
  as_market order = record order { ord_type = OrdType.market; price = none }

  abbrev pub flatten_one :
      Bytes → ℕ × List (NewOrderSingle F) → Position → ℕ × List (NewOrderSingle F)
  flatten_one prefix (count, sent) p = if is_flat p then (count, sent) else (
    next_count count,
    sent
        ++ as_market (to_new_order_single F (flat_event (numbered_id prefix (next_count count)) p))
          ∷ [],
  )

  unfoldable pub flatten : Bytes → PositionTracker → ℕ × List (NewOrderSingle F)
  unfolding for_each is_flat
  flatten prefix tracker = for_each (flatten_one prefix) tracker (0, [])

-- The object: what it refers to, and `armed_`, a flag that a signal handler sets.
pub record Killswitch : Type 0 where
  pub orders : OrderManager
  pub tracker : PositionTracker
  pub session_id : Bytes
  pub armed : Bool

abbrev pub create : OrderManager → PositionTracker → Bytes → Killswitch
create orders tracker session_id = record {
  orders = orders;
  tracker = tracker;
  session_id = session_id;
  armed = false;
}

unfoldable pub arm : Killswitch → Killswitch
arm ks = record ks { armed = true }

unfoldable pub is_armed : Killswitch → Bool
is_armed ks = ks.armed

-- `execute`: the milliseconds between the two readings of the clock, which are in nanoseconds (the
-- steady clock does not go back, and `duration_cast` drops the rest), and what was sent. Whether the
-- budget is exceeded is only printed.
unfoldable pub execute : Bytes → ℕ → ℕ → Killswitch → ℕ × (ℕ × List OrderCancelRequest)
unfolding cancel_all
execute prefix t0 t1 ks = ((t1 - t0) / 1_000_000, cancel_all prefix ks.orders)
