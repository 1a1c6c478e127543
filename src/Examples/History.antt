-- ===== src/Examples/History.antt =====
-- The theorems on the histories of orders: an order with one fill, and logs that interleave it with
-- another order.
use hft_order_book.Base.{◌<◌, ◌≡◌, refl, some, [], ◌∷◌, if◌then◌else◌, ◌==◌, inl, arith}
use mathlib.Core.Option
use hft_order_book.Base.Int.{pos, ◌+ℤ◌, ◌*ℤ◌}
use hft_order_book.Base.Word.{Fits32, Fits64}
use hft_order_book.Base.Bytes.{Bytes, strncmp_eq}
use hft_order_book.OrderEvent.{OrderEvent}
use hft_order_book.EventLog.{EventLog, replay}
use hft_order_book.EventLog.Contents.{contents, stamped}
use hft_order_book.OrderManager.{
  Order, max_orders, empty, get, apply_event, replay_from, handle_new, handle_fill,
}
use hft_order_book.OrderManager.History.{own, IsFillWithin, total_filled}
use hft_order_book.OrderManager.History.Outcome.{IsOutcome, get-replay_from_fills}
use hft_order_book.OrderManager.Commute.{
  unstamped_event, SameHistories, SameHistories-swap, replay_from-interleaved,
}
use hft_order_book.OrderManager.Stamps.{unstamped}
use hft_order_book.Examples.Sample.{ord0, view, buy_order, part_fill, two_events}

few : (replay_from two_events).count < max_orders
unfolding replay_from replay empty apply_event handle_fill handle_new strncmp_eq
few = omega arith

own_two : own (view ord0) (contents two_events) ≡ buy_order ∷ part_fill ∷ []
unfolding contents strncmp_eq
own_two = refl

fill_within : IsFillWithin (pos 1_000_000) (pos 3_000_000) part_fill
fill_within = record {
  fills = inl refl;
  more = omega arith;
  price_ge = omega arith;
  price_le = omega arith;
}

total_fits : Fits32 (total_filled (part_fill ∷ []))
unfolding ◌+ℤ◌
total_fits = omega arith

cost_fits : Fits64 (pos 3_000_000 *ℤ total_filled (part_fill ∷ []))
unfolding ◌+ℤ◌ ◌*ℤ◌
cost_fits = omega arith

get-replay_from_fills_example :
    (o : Order) × (get (replay_from two_events) (view ord0) ≡ some o)
    × IsOutcome (pos 1_000_000) (pos 3_000_000) (pos 100) (total_filled (part_fill ∷ [])) o
get-replay_from_fills_example =
    get-replay_from_fills two_events (view ord0) buy_order part_fill [] (pos 1_000_000)
      (pos 3_000_000) few own_two refl (omega arith) (omega arith) (omega arith) (fill_within, tt)
      total_fits cost_fits

-- "ORD1" in its array, and an order under it.
abbrev ord1 : Bytes
ord1 = b'O' ∷ b'R' ∷ b'D' ∷ b'1' ∷ 0 ∷ 0 ∷ 0 ∷ 0 ∷ []

abbrev other_order : OrderEvent
other_order = record buy_order { order_id = ord1 }

-- The events as `append` stores them in one log and in the other.
abbrev fill_first : EventLog
fill_first = record two_events {
  file = record two_events.file {
    header = record two_events.header { next_sequence = 3 };
    events = λ i.
        if i == 0
        then stamped 5 0 buy_order
        else (if i == 1 then stamped 6 1 part_fill else stamped 7 2 other_order);
  };
  next_seq = 3;
}

abbrev order_first : EventLog
order_first = record two_events {
  file = record two_events.file {
    header = record two_events.header { next_sequence = 3 };
    events = λ i.
        if i == 0
        then stamped 5 0 buy_order
        else (if i == 1 then stamped 6 1 other_order else stamped 7 2 part_fill);
  };
  next_seq = 3;
}

few_first : (replay_from fill_first).count < max_orders
unfolding replay_from replay empty apply_event handle_fill handle_new strncmp_eq
few_first = omega arith

few_second : (replay_from order_first).count < max_orders
unfolding replay_from replay empty apply_event handle_fill handle_new strncmp_eq
few_second = omega arith

swapped : SameHistories (contents fill_first) (contents order_first)
unfolding contents strncmp_eq
swapped =
    SameHistories-swap (contents fill_first) (contents order_first) (unstamped_event buy_order ∷ [])
      (unstamped_event part_fill) (unstamped_event other_order) [] refl refl refl

replay_from-interleaved_example :
    Option.map unstamped (get (replay_from fill_first) (view ord0))
    ≡ Option.map unstamped (get (replay_from order_first) (view ord0))
replay_from-interleaved_example =
    replay_from-interleaved fill_first order_first (view ord0) few_first few_second swapped
