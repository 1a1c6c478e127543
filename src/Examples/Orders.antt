-- ===== src/Examples/Orders.antt =====
-- The order manager's theorems at sample orders.
use hft_order_book.Base.{
  ◌<◌, ◌≡◌, refl, true, false, none, some, [], ◌∷◌, inl, arith, if◌then◌else◌, leb,
}
use hft_order_book.Base.Int.{◌+ℤ◌, ◌-ℤ◌, ◌*ℤ◌}
use hft_order_book.Base.Word.{wrap32}
use hft_order_book.Base.Bytes.{strncmp_eq}
use hft_order_book.OrderEvent.{EventType, order_id_view}
use hft_order_book.EventLog.{replay}
use hft_order_book.EventLog.Contents.{contents}
use hft_order_book.SlotTable.Lookup.{entries, foldl}
use hft_order_book.OrderManager.{
  Order, OrderManager, OrderState, max_orders, empty, get, apply_event, replay_from, open_exposure,
  handle_new, handle_fill, is_open,
}
use hft_order_book.OrderManager.Lifecycle.{
  IsValid, order_step, empty-IsValid, apply_event-IsValid, get-apply_event,
}
use hft_order_book.OrderManager.Replay.{history_step, get-replay_from}
use hft_order_book.OrderManager.Fills.{FillFits}
use hft_order_book.OrderManager.Exposure.{sum_exposure, open_exposure-sum}
use hft_order_book.OrderManager.States.{LeavesMore, left_after, fill_reopens}
use hft_order_book.Examples.Sample.{
  aapl, ord0, view, buy_order, part_fill, two_events, cancelled_order,
}

apply_event-IsValid_example : IsValid (apply_event empty buy_order)
apply_event-IsValid_example = apply_event-IsValid empty buy_order empty-IsValid

get-apply_event_example : get (apply_event empty buy_order) (view ord0) ≡ (
    if strncmp_eq ord0 ord0 8
    then order_step EventType.new_order buy_order
        (leb max_orders empty.count)
        (get empty (view ord0))
    else get empty (view ord0))
get-apply_event_example = get-apply_event empty buy_order (view ord0) empty-IsValid

few : (replay_from two_events).count < max_orders
unfolding replay_from replay empty apply_event handle_fill handle_new strncmp_eq
few = omega arith

get-replay_from_example :
    get (replay_from two_events) (view ord0)
    ≡ foldl (history_step (view ord0)) none (contents two_events)
get-replay_from_example = get-replay_from two_events (view ord0) few

sample_fits : FillFits part_fill cancelled_order
unfolding ◌*ℤ◌ ◌+ℤ◌ ◌-ℤ◌
sample_fits = omega arith

leaves_more : LeavesMore part_fill cancelled_order
unfolding ◌+ℤ◌
leaves_more = record {
  filled_ge = omega arith;
  more = omega arith;
  short = omega arith;
  fits = sample_fits;
}

-- A table with the cancelled order.
abbrev cancelled_table : OrderManager
cancelled_table = record { slots = cancelled_order ∷ []; count = 1 }

cancelled_known : get cancelled_table (order_id_view part_fill) ≡ some cancelled_order
unfolding get strncmp_eq order_id_view
cancelled_known = refl

cancelled_closed : is_open cancelled_order ≡ false
unfolding is_open
cancelled_closed = refl

in_aapl : strncmp_eq aapl aapl 8 ≡ true
unfolding strncmp_eq
in_aapl = refl

fill_reopens_example :
    ((o' : Order) × (get (apply_event cancelled_table part_fill) (order_id_view part_fill)
        ≡ some o')
      × (o'.state ≡ OrderState.partially_filled))
    × (open_exposure (apply_event cancelled_table part_fill) (view aapl)
        ≡ wrap32
            (open_exposure cancelled_table (view aapl) +ℤ left_after part_fill cancelled_order))
fill_reopens_example =
    fill_reopens cancelled_table part_fill (view aapl) cancelled_order (inl refl) cancelled_known
      cancelled_closed in_aapl leaves_more

open_exposure-sum_example :
    open_exposure (apply_event empty buy_order) (view aapl)
    ≡ wrap32 (sum_exposure aapl (entries (apply_event empty buy_order)))
open_exposure-sum_example = open_exposure-sum (apply_event empty buy_order) (view aapl)
