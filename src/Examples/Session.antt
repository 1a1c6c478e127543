-- ===== src/Examples/Session.antt =====
-- The theorems on ids and on the first session, at an order after the logon.
use hft_order_book.Base.{ℕ, ◌≡◌, refl, true, [], arith}
use hft_order_book.Base.Int.{pos, neg, ◌+ℤ◌, ◌*ℤ◌, ◌≤ℤ◌}
use hft_order_book.Base.Word.{wrap64, Fits32}
use hft_order_book.Base.Bytes.{strncpy}
use hft_order_book.Base.Decimal.{to_string}
use hft_order_book.OrderEvent.{Side}
use hft_order_book.EventLog.{append, replay}
use hft_order_book.EventLog.Contents.{contents}
use hft_order_book.OrderManager.{open_exposure}
use hft_order_book.OrderManager
use hft_order_book.PositionTracker
use hft_order_book.RiskChecker.{default_limits, check_with_orders}
use hft_order_book.RiskChecker.Limits.{CheckFits, true_qty, projected_qty}
use hft_order_book.MessageTranslator.{to_new_order_single}
use hft_order_book.FixGateway.{Gateway, sent, next_order_id, send_order, create, on_logon}
use hft_order_book.FixGateway.Safety.{order_event}
use hft_order_book.FixGateway.Ids.{next_order_id_shared}
use hft_order_book.FixGateway.Recovery.{Runs, rebuilt, logged_on}
use hft_order_book.FixGateway.Session.{within_limit-Runs}
use hft_order_book.FixGateway.Restart.{first_id}
use hft_order_book.Examples.Sample.{aapl, view, empty_log, whole}

abbrev new_gateway : Gateway
new_gateway = on_logon (
    create empty_log (PositionTracker.replay_from empty_log) (OrderManager.replay_from empty_log)
      default_limits)

abbrev new_run : Runs whole empty_log default_limits new_gateway
new_run = logged_on rebuilt

no_events : contents empty_log ≡ []
unfolding contents
no_events = refl

abbrev gateway_after : Gateway
gateway_after =
    (send_order whole 7 true (view aapl) Side.buy (pos 100) (pos 2_000_000) new_gateway).1

is_sent : send_order whole 7 true (view aapl) Side.buy (pos 100) (pos 2_000_000) new_gateway ≡ (
  sent first_id (
      to_new_order_single whole
        (order_event (view aapl) Side.buy (pos 100) (pos 2_000_000) new_gateway)),
  gateway_after,
)
unfolding send_order check_with_orders OrderManager.empty PositionTracker.empty append next_order_id
    to_string open_exposure PositionTracker.get wrap64 ◌*ℤ◌ ◌+ℤ◌ neg replay OrderManager.replay_from
    PositionTracker.replay_from create on_logon
is_sent = refl

check_fits :
    CheckFits new_gateway.limits
      (view aapl)
      Side.buy
      (pos 100)
      (pos 2_000_000)
      new_gateway.tracker
      new_gateway.orders
unfolding OrderManager.empty PositionTracker.empty open_exposure PositionTracker.get ◌*ℤ◌ ◌+ℤ◌ neg
    replay OrderManager.replay_from PositionTracker.replay_from create on_logon
check_fits = omega arith

sum_fits : Fits32 (open_exposure new_gateway.orders (view aapl) +ℤ pos 100)
unfolding OrderManager.empty open_exposure ◌+ℤ◌ replay OrderManager.replay_from create on_logon
sum_fits = omega arith

within_limit-Runs_example :
    (true_qty (view aapl) gateway_after.tracker gateway_after.orders
      ≡ projected_qty (view aapl) Side.buy (pos 100) new_gateway.tracker new_gateway.orders)
    × (true_qty (view aapl) gateway_after.tracker gateway_after.orders
        ≤ℤ gateway_after.limits.max_net_position)
    × (neg gateway_after.limits.max_net_position
        ≤ℤ true_qty (view aapl) gateway_after.tracker gateway_after.orders)
within_limit-Runs_example =
    within_limit-Runs whole empty_log default_limits no_events {g = new_gateway} new_run
      (omega arith) 7 true (view aapl) Side.buy (pos 100) (pos 2_000_000) first_id
      (to_new_order_single whole
        (order_event (view aapl) Side.buy (pos 100) (pos 2_000_000) new_gateway))
      gateway_after check_fits sum_fits is_sent

-- A gateway that has given out `n` ids.
abbrev gateway_at : ℕ → Gateway
gateway_at n = record new_gateway { order_counter = n }

next_order_id_shared_example :
    strncpy (next_order_id (gateway_at 123_456)).0 8
    ≡ strncpy (next_order_id (gateway_at 12_345)).0 8
next_order_id_shared_example = next_order_id_shared (gateway_at 123_456) (omega arith)
