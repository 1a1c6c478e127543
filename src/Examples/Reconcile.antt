-- ===== src/Examples/Reconcile.antt =====
-- The theorem on both projections at the log of an order and its fill, and a report after it.
use hft_order_book.Base.{[], ◌∷◌, ◌<◌, ◌≡◌, refl, some, arith}
use hft_order_book.Base.Int.{pos, ◌+ℤ◌, ◌-ℤ◌, ◌*ℤ◌, ◌/ℤ◌}
use hft_order_book.Base.Word.{wrap32, wrap64}
use hft_order_book.Base.Bytes.{strncmp_eq, strncpy}
use hft_order_book.OrderEvent.{OrderEvent, order_id_view}
use hft_order_book.EventLog.{replay, append}
use hft_order_book.EventLog.Contents.{contents, stamped}
use hft_order_book.SlotTable.Lookup.{entries}
use hft_order_book.OrderManager.{Order, OrderState, handle_new, handle_fill, filled_by}
use hft_order_book.OrderManager
use hft_order_book.OrderManager.Sums.{IsFillOf, sum_filled}
use hft_order_book.OrderManager.Exposure.{sum_exposure}
use hft_order_book.PositionTracker.{max_symbols}
use hft_order_book.PositionTracker
use hft_order_book.PositionTracker.Quantity.{net_of}
use hft_order_book.RiskChecker.Limits.{true_qty}
use hft_order_book.RiskChecker.{default_limits}
use hft_order_book.MessageTranslator.{from_execution_report, to_fixed}
use hft_order_book.FixGateway.{Gateway, create, on_message}
use hft_order_book.FixGateway.Recovery.{Runs, rebuilt, reported}
use hft_order_book.FixGateway.Reconcile.{IsHistory}
use hft_order_book.FixGateway.Live.{IsReconciled-Runs}
use hft_order_book.Examples.Recovery.{fill_report}
use hft_order_book.Examples.Sample.{aapl, ord0, view, buy_order, part_fill, two_events, whole}

abbrev opened_order : Order
opened_order = record {
  order_id = ord0;
  symbol = aapl;
  limit_price = pos 2_000_000;
  avg_fill_price = pos 0;
  opened_seq = 0;
  last_seq = 0;
  original_qty = pos 100;
  filled_qty = pos 0;
  state = OrderState.pending;
  side = buy_order.side;
}

found_order :
    OrderManager.get
      (OrderManager.apply_event OrderManager.empty buy_order)
      (order_id_view part_fill)
    ≡ some opened_order
unfolding OrderManager.get OrderManager.apply_event OrderManager.empty handle_new strncmp_eq
    order_id_view strncpy
found_order = refl

fill_of : IsFillOf part_fill opened_order
unfolding strncmp_eq ◌+ℤ◌
fill_of = record { same_symbol = refl; same_side = refl; filled_fits = omega arith }

-- A run that starts from that log and books another 40.
abbrev from_log : Gateway
from_log =
    create two_events (PositionTracker.replay_from two_events) (OrderManager.replay_from two_events)
      default_limits

abbrev with_report : Gateway
with_report = (on_message whole 7 fill_report from_log).1

reported_run : Runs whole two_events default_limits with_report
reported_run = reported 7 fill_report rebuilt

abbrev second_fill : OrderEvent
second_fill = stamped 7 2 (record part_fill { sequence = 0 })

three_logged : contents with_report.log ≡ buy_order ∷ part_fill ∷ second_fill ∷ []
unfolding contents on_message create append from_execution_report to_fixed ◌*ℤ◌ ◌+ℤ◌ wrap64 wrap32
    strncpy
three_logged = refl

abbrev filled_order : Order
filled_order = record opened_order {
  avg_fill_price = pos 2_000_000;
  last_seq = 1;
  filled_qty = pos 40;
  state = OrderState.partially_filled;
}

found_filled :
    OrderManager.get
      (OrderManager.apply_event (OrderManager.apply_event OrderManager.empty buy_order) part_fill)
      (order_id_view second_fill)
    ≡ some filled_order
unfolding OrderManager.get OrderManager.apply_event OrderManager.empty handle_new handle_fill
    filled_by strncmp_eq order_id_view strncpy wrap32 wrap64 ◌+ℤ◌ ◌-ℤ◌ ◌*ℤ◌ ◌/ℤ◌
found_filled = refl

second_fill_of : IsFillOf second_fill filled_order
unfolding strncmp_eq ◌+ℤ◌
second_fill_of = record { same_symbol = refl; same_side = refl; filled_fits = omega arith }

history : IsHistory OrderManager.empty (contents with_report.log)
history = rw three_logged (
  OrderManager.Replay.get-empty (order_id_view buy_order),
  ((opened_order, found_order, fill_of), ((filled_order, found_filled, second_fill_of), tt)),
)

few_positions : (PositionTracker.replay_from with_report.log).count < max_symbols
unfolding PositionTracker.replay_from replay PositionTracker.empty PositionTracker.apply_event
    strncmp_eq on_message create append from_execution_report
few_positions = omega arith

IsReconciled-Runs_example :
    (net_of with_report.tracker (view aapl) ≡ wrap64 (sum_filled aapl (entries with_report.orders)))
    × (true_qty (view aapl) with_report.tracker with_report.orders
        ≡ wrap64 (sum_filled aapl (entries with_report.orders))
          +ℤ wrap32 (sum_exposure aapl (entries with_report.orders)))
IsReconciled-Runs_example =
    IsReconciled-Runs whole two_events default_limits with_report (view aapl) reported_run history
      few_positions
