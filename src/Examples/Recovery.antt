-- ===== src/Examples/Recovery.antt =====
-- The recovery theorem after one report.
use hft_order_book.Base.{◌≡◌, some}
use hft_order_book.Base.Int.{pos}
use hft_order_book.OrderManager
use hft_order_book.PositionTracker.{max_symbols}
use hft_order_book.PositionTracker
use hft_order_book.RiskChecker.{default_limits}
use hft_order_book.MessageTranslator.{ExecutionReport, ExecType, FixSide, present}
use hft_order_book.FixGateway.{Gateway, create, on_message}
use hft_order_book.FixGateway.Recovery.{Runs, rebuilt, reported, unstamped-Runs}
use hft_order_book.Examples.Sample.{aapl, ord0, empty_log, whole}

-- 40 bought at 2.
abbrev pub fill_report : ExecutionReport whole
fill_report = record {
  exec_type = present ExecType.partial_fill;
  symbol = some aapl;
  cl_ord_id = some ord0;
  side = present FixSide.buy;
  last_shares = present (pos 40);
  last_px = present (pos 2);
}

abbrev first_run : Gateway
first_run =
    create empty_log (PositionTracker.replay_from empty_log) (OrderManager.replay_from empty_log)
      default_limits

abbrev after_report : Gateway
after_report = (on_message whole 7 fill_report first_run).1

run : Runs whole empty_log default_limits after_report
run = reported 7 fill_report rebuilt

unstamped-Runs_example :
    (OrderManager.Stamps.unstamped_orders (OrderManager.replay_from after_report.log)
      ≡ OrderManager.Stamps.unstamped_orders after_report.orders)
    × (PositionTracker.Stamps.unstamped_positions (PositionTracker.replay_from after_report.log)
        ≡ PositionTracker.Stamps.unstamped_positions after_report.tracker)
unstamped-Runs_example = unstamped-Runs whole empty_log default_limits after_report run
