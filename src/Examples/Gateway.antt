-- ===== src/Examples/Gateway.antt =====
-- The theorems of the risk checker, the killswitch and the gateway at a sample gateway.
use hft_order_book.Base.{
  ℕ, none, ◌++◌, All, ◌^◌, ◌<◌, ◌≡◌, refl, ◌↔◌, true, some, [], ◌∷◌, length, arith,
}
use hft_order_book.Base.Int.{pos, neg, ◌+ℤ◌, ◌-ℤ◌, ◌*ℤ◌, ◌≤ℤ◌}
use hft_order_book.Base.Word.{wrap32, wrap64, Fits32}
use hft_order_book.Base.Bytes.{strncmp_eq}
use hft_order_book.Base.Decimal.{to_string}
use hft_order_book.OrderEvent.{OrderEvent, Side, make_new_order}
use hft_order_book.EventLog.{append, replay}
use hft_order_book.SlotTable.Lookup.{entries}
use hft_order_book.OrderManager.{
  Order, OrderManager, max_orders, open_exposure, opened, handle_new, handle_fill, filled_by,
  blank_order,
}
use hft_order_book.OrderManager
use hft_order_book.OrderManager.Lifecycle
use hft_order_book.OrderManager.Replay
use hft_order_book.PositionTracker.{Position, PositionTracker, is_flat}
use hft_order_book.PositionTracker
use hft_order_book.RiskChecker.{RiskResult, default_limits, check_with_orders}
use hft_order_book.RiskChecker.Limits.{CheckFits, true_qty, projected_qty}
use hft_order_book.RiskChecker.Precedence.{IsFirst, check_with_orders-IsFirst}
use hft_order_book.MessageTranslator.{to_new_order_single}
use hft_order_book.Killswitch.{cancel_prefix, flatten_prefix, cancel_all, flatten}
use hft_order_book.Killswitch.Found.{NamesOpen, cancel_all-NamesOpen}
use hft_order_book.Killswitch.Confirmed.{text_view, ChangesNothing, cancel_all-ChangesNothing}
use hft_order_book.Killswitch.Distinct.{DistinctIds, cancel_all-DistinctIds}
use hft_order_book.Killswitch.Loops.{open_orders, held_positions}
use hft_order_book.Killswitch.Coverage.{
  CancelEach, CanClose, CloseEach, cancel_all-open_orders, flatten-held_positions,
}
use hft_order_book.FixGateway.{Gateway, sent, view_of, next_order_id, send_order, create, on_logon}
use hft_order_book.FixGateway.Safety.{
  order_event, WasSent, send_order-WasSent, send_order-within_limit,
}
use hft_order_book.FixGateway.FullTable.{send_order_full}
use hft_order_book.EventLog.Contents.{contents, stamped}
use hft_order_book.FixGateway.Restart.{first_id, restarted, restart_overwrites}
use hft_order_book.Examples.Sample.{
  aapl, ord0, view, buy_order, part_fill, empty_log, two_events, short_30, whole,
}

-- A connected gateway over empty books, and over the books of the two events.
abbrev fresh_gateway : Gateway
fresh_gateway = record {
  log = empty_log;
  tracker = PositionTracker.empty;
  orders = OrderManager.empty;
  limits = default_limits;
  session_id = [];
  connected = true;
  order_counter = 0;
}

abbrev buy_100 : Gateway → OrderEvent
buy_100 = order_event (view aapl) Side.buy (pos 100) (pos 2_000_000)

-- What sending leaves.
abbrev gateway_after : Gateway → Gateway
gateway_after g = (send_order whole 7 true (view aapl) Side.buy (pos 100) (pos 2_000_000) g).1

is_sent : send_order whole 7 true (view aapl) Side.buy (pos 100) (pos 2_000_000) fresh_gateway ≡ (
  sent first_id (to_new_order_single whole (buy_100 fresh_gateway)),
  gateway_after fresh_gateway,
)
unfolding send_order check_with_orders OrderManager.empty PositionTracker.empty append next_order_id
    to_string open_exposure PositionTracker.get wrap64 ◌*ℤ◌ ◌+ℤ◌ neg
is_sent = refl

send_order-WasSent_example :
    WasSent whole 7 true
      (view aapl)
      Side.buy
      (pos 100)
      (pos 2_000_000)
      fresh_gateway
      first_id
      (to_new_order_single whole (buy_100 fresh_gateway))
      (gateway_after fresh_gateway)
send_order-WasSent_example =
    send_order-WasSent whole 7 true (view aapl) Side.buy (pos 100) (pos 2_000_000) fresh_gateway
      first_id (to_new_order_single whole (buy_100 fresh_gateway)) (gateway_after fresh_gateway)
      is_sent

check_fits :
    CheckFits default_limits
      (view aapl)
      Side.buy
      (pos 100)
      (pos 2_000_000)
      PositionTracker.empty
      OrderManager.empty
unfolding OrderManager.empty PositionTracker.empty open_exposure PositionTracker.get ◌*ℤ◌ ◌+ℤ◌ neg
check_fits = omega arith

sum_fits : Fits32 (open_exposure OrderManager.empty (view aapl) +ℤ pos 100)
unfolding OrderManager.empty open_exposure ◌+ℤ◌
sum_fits = omega arith

no_orders : OrderManager.empty.count < max_orders
unfolding OrderManager.empty
no_orders = omega arith

send_order-within_limit_example :
    (true_qty (view aapl) (gateway_after fresh_gateway).tracker (gateway_after fresh_gateway).orders
      ≡ projected_qty (view aapl) Side.buy (pos 100) PositionTracker.empty OrderManager.empty)
    × (true_qty
          (view aapl)
          (gateway_after fresh_gateway).tracker
          (gateway_after fresh_gateway).orders
        ≤ℤ (gateway_after fresh_gateway).limits.max_net_position)
    × (neg (gateway_after fresh_gateway).limits.max_net_position
        ≤ℤ true_qty
            (view aapl)
            (gateway_after fresh_gateway).tracker
            (gateway_after fresh_gateway).orders)
send_order-within_limit_example =
    send_order-within_limit whole 7 true (view aapl) Side.buy (pos 100) (pos 2_000_000)
      fresh_gateway OrderManager.Lifecycle.empty-IsValid
      (OrderManager.Replay.get-empty (view_of (next_order_id fresh_gateway).0)) no_orders check_fits
      sum_fits first_id (to_new_order_single whole (buy_100 fresh_gateway))
      (gateway_after fresh_gateway) is_sent

-- A gateway whose order table has no slot left.
abbrev full_gateway : Gateway
full_gateway = record fresh_gateway { orders = record { slots = []; count = 512 } }

sent_unseen :
    send_order whole 7 true (view aapl) Side.buy (pos 100) (pos 2_000_000) full_gateway
    ≡ (sent first_id (to_new_order_single whole (buy_100 full_gateway)), gateway_after full_gateway)
unfolding send_order check_with_orders OrderManager.empty PositionTracker.empty append next_order_id
    to_string open_exposure PositionTracker.get wrap64 ◌*ℤ◌ ◌+ℤ◌ neg
sent_unseen = refl

no_such_order : OrderManager.get full_gateway.orders (view_of (next_order_id full_gateway).0) ≡ none
unfolding OrderManager.get
no_such_order = refl

send_order_full_example :
    (contents (gateway_after full_gateway).log
      ≡ contents empty_log ++ stamped 7 (length (contents empty_log)) (buy_100 full_gateway) ∷ [])
    × ((gateway_after full_gateway).orders ≡ full_gateway.orders)
    × ((gateway_after full_gateway).tracker ≡ full_gateway.tracker)
    × (check_with_orders
          (gateway_after full_gateway).limits
          (view aapl)
          Side.buy
          (pos 100)
          (pos 2_000_000)
          (gateway_after full_gateway).tracker
          (gateway_after full_gateway).orders
        ≡ RiskResult.pass)
send_order_full_example =
    send_order_full whole 7 true (view aapl) Side.buy (pos 100) (pos 2_000_000) full_gateway
      first_id (to_new_order_single whole (buy_100 full_gateway)) (gateway_after full_gateway)
      no_such_order (omega arith) sent_unseen

-- An order of a quantity and a notional over the limits is refused for its quantity.
large_fits :
    CheckFits default_limits
      (view aapl)
      Side.buy
      (pos 20_000)
      (pos 400_000_000)
      PositionTracker.empty
      OrderManager.empty
unfolding PositionTracker.empty OrderManager.empty open_exposure PositionTracker.get ◌*ℤ◌ ◌+ℤ◌ neg
large_fits = omega arith

check_with_orders-IsFirst_example :
    (check_with_orders default_limits
        (view aapl)
        Side.buy
        (pos 20_000)
        (pos 400_000_000)
        PositionTracker.empty
        OrderManager.empty
      ≡ RiskResult.fail_max_qty)
    ↔ IsFirst RiskResult.fail_max_qty default_limits
        (view aapl)
        Side.buy
        (pos 20_000)
        (pos 400_000_000)
        PositionTracker.empty
        OrderManager.empty
check_with_orders-IsFirst_example =
    check_with_orders-IsFirst default_limits (view aapl) Side.buy (pos 20_000) (pos 400_000_000)
      PositionTracker.empty OrderManager.empty large_fits RiskResult.fail_max_qty

-- A tracker that holds one position.
abbrev tracker_of : Position → PositionTracker
tracker_of p = record { slots = p ∷ []; count = 1 }

one_order : length (entries (OrderManager.replay_from two_events)) < 2 ^ 32
unfolding OrderManager.replay_from replay OrderManager.empty OrderManager.apply_event handle_fill
    handle_new strncmp_eq
one_order = omega arith

cancel_all-open_orders_example :
    ((cancel_all cancel_prefix (OrderManager.replay_from two_events)).0
      ≡ length (open_orders (entries (OrderManager.replay_from two_events))))
    × CancelEach cancel_prefix 0
        (open_orders (entries (OrderManager.replay_from two_events)))
        (cancel_all cancel_prefix (OrderManager.replay_from two_events)).1
cancel_all-open_orders_example =
    cancel_all-open_orders cancel_prefix (OrderManager.replay_from two_events) one_order

cancel_all-NamesOpen_example :
    All
      (NamesOpen (OrderManager.replay_from two_events))
      (cancel_all cancel_prefix (OrderManager.replay_from two_events)).1
cancel_all-NamesOpen_example =
    cancel_all-NamesOpen cancel_prefix (OrderManager.replay_from two_events)
      (OrderManager.Replay.replay_from-IsValid two_events) one_order

not_cancels :
    (n : ℕ)
    → OrderManager.get
        (OrderManager.replay_from two_events)
        (text_view (cancel_prefix ++ to_string n))
      ≡ none
unfolding OrderManager.get OrderManager.replay_from replay OrderManager.empty
    OrderManager.apply_event handle_fill handle_new strncmp_eq filled_by
not_cancels n = refl

cancel_all-ChangesNothing_example :
    All
      (ChangesNothing whole (OrderManager.replay_from two_events))
      (cancel_all cancel_prefix (OrderManager.replay_from two_events)).1
cancel_all-ChangesNothing_example =
    cancel_all-ChangesNothing whole cancel_prefix (OrderManager.replay_from two_events)
      (OrderManager.Replay.replay_from-IsValid two_events) one_order not_cancels

cancel_all-DistinctIds_example :
    DistinctIds (cancel_all cancel_prefix (OrderManager.replay_from two_events)).1
cancel_all-DistinctIds_example =
    cancel_all-DistinctIds cancel_prefix (OrderManager.replay_from two_events) one_order

short_30-CanClose : All CanClose (held_positions (entries (tracker_of short_30)))
unfolding neg is_flat
short_30-CanClose = ((omega arith, omega arith), tt)

flatten-held_positions_example :
    ((flatten whole flatten_prefix (tracker_of short_30)).0
      ≡ length (held_positions (entries (tracker_of short_30))))
    × CloseEach whole flatten_prefix 0
        (held_positions (entries (tracker_of short_30)))
        (flatten whole flatten_prefix (tracker_of short_30)).1
flatten-held_positions_example =
    flatten-held_positions whole flatten_prefix (tracker_of short_30) (omega arith)
      short_30-CanClose

-- The order that the log of the two events ends with.
abbrev old_order : Order
old_order = filled_by part_fill (opened buy_order (blank_order ord0))

old_order_known :
    OrderManager.get (OrderManager.replay_from two_events) (view_of first_id) ≡ some old_order
unfolding OrderManager.get OrderManager.replay_from replay OrderManager.empty
    OrderManager.apply_event handle_fill handle_new strncmp_eq filled_by
old_order_known = refl

-- The gateway after a restart over that log.
abbrev second_run : Gateway
second_run = restarted two_events default_limits

is_sent_again :
    send_order whole 7 true (view aapl) Side.buy (pos 100) (pos 2_000_000) second_run
    ≡ (sent first_id (to_new_order_single whole (buy_100 second_run)), gateway_after second_run)
unfolding send_order check_with_orders OrderManager.empty PositionTracker.empty append next_order_id
    to_string open_exposure PositionTracker.get wrap64 ◌*ℤ◌ ◌+ℤ◌ neg OrderManager.replay_from replay
    PositionTracker.replay_from PositionTracker.apply_event OrderManager.apply_event handle_fill
    handle_new strncmp_eq filled_by create on_logon wrap32 ◌-ℤ◌
is_sent_again = refl

restart_overwrites_example :
    (first_id ≡ first_id)
    × (OrderManager.get (gateway_after second_run).orders (view_of first_id)
        ≡ some (
            opened
              (make_new_order (view aapl) Side.buy (pos 100) (pos 2_000_000) (view_of first_id))
              old_order))
restart_overwrites_example =
    restart_overwrites whole 7 true (view aapl) Side.buy (pos 100) (pos 2_000_000) two_events
      default_limits first_id (to_new_order_single whole (buy_100 second_run))
      (gateway_after second_run) old_order old_order_known is_sent_again
