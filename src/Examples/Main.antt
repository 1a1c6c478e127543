-- ===== src/Examples/Main.antt =====
-- The theorems on the process: a logon and one round, then SIGINT with an order open; and a lost
-- session.
use hft_order_book.Base.{
  ℕ, zero, suc, ◌≡◌, refl, inr, true, false, some, List, [], ◌∷◌, ◌++◌, arith,
}
use hft_order_book.EventLog.{ok, open_or_create}
use hft_order_book.EventLog.Recovery.{existing}
use hft_order_book.MessageTranslator.{OrderCancelRequest}
use hft_order_book.OrderManager.Stamps.{unstamped_orders}
use hft_order_book.PositionTracker.Stamps.{unstamped_positions}
use hft_order_book.Killswitch.{cancel_all, cancel_prefix}
use hft_order_book.FixGateway.{
  on_create, on_logon, on_logout, emergency_cancel_all, other_message, from_app, send_order,
  not_connected,
}
use hft_order_book.FixGateway.Application.{from_admin}
use hft_order_book.Base.Int.{pos}
use hft_order_book.OrderEvent.{Side}
use hft_order_book.Main.{
  Process, Event, created, logon, logout, message, admin_received, signal, works, exited, Outside,
  handle, handle_all, main, rebuilt_process,
}
use hft_order_book.Main.Events.{has_signal, rounds_events}
use hft_order_book.Main.Restart.{rebuilt_process-main}
use hft_order_book.Main.Shutdown.{main-shutdown}
use hft_order_book.Main.Connection.{send_order-no_session}
use hft_order_book.Main.Quiet.{main-exit_zero}
use hft_order_book.Examples.Sample.{view, aapl, two_events, whole}

abbrev rounds_of : ℕ → List (Event whole)
rounds_of zero = message 5 (other_message false) ∷ []
rounds_of (suc n) = logon ∷ signal 3 5 ∷ []

abbrev pub outside : Outside whole
outside = record {
  argc = 2;
  files = existing two_events.file;
  setup = works;
  start = works;
  at_start = created aapl ∷ logon ∷ [];
  during = rounds_of;
  stop = works;
  at_stop = logout ∷ [];
}

abbrev at_signal : Process
at_signal = record (rebuilt_process two_events) {
  gateway = on_logon (on_logon (on_create aapl (rebuilt_process two_events).gateway));
}

abbrev pub at_end : Process
at_end = record at_signal {
  gateway = on_logout at_signal.gateway;
  shutdown = true;
  requests = (emergency_cancel_all 3 5 at_signal.gateway).1.1;
}

pub reopened : open_or_create outside.files ≡ ok two_events
unfolding open_or_create
reopened = refl

all_handled :
    handle_all whole
      ((created aapl ∷ logon ∷ message 5 (other_message false) ∷ logon ∷ [])
        ++ signal 3 5 ∷ logout ∷ [])
      (some (rebuilt_process two_events))
    ≡ some at_end
unfolding handle_all handle from_app rebuilt_process
all_handled = refl

pub ends : main whole outside 4 ≡ exited 0 (some at_end)
ends =
    (main-shutdown whole outside 4 1 two_events (logon ∷ []) [] 3 5 at_end (omega arith) reopened
      refl refl refl (omega arith) refl refl all_handled).0

main-shutdown_example :
    (main whole outside 4 ≡ exited 0 (some at_end))
    × (at_end.shutdown ≡ true)
    × ((q : Process) × (later : List OrderCancelRequest) × (handle_all whole
            (created aapl ∷ logon ∷ message 5 (other_message false) ∷ logon ∷ [])
            (some (rebuilt_process two_events))
          ≡ some q)
        × (at_end.requests ≡ (cancel_all cancel_prefix q.gateway.orders).1 ++ later))
main-shutdown_example =
    main-shutdown whole outside 4 1 two_events (logon ∷ []) [] 3 5 at_end (omega arith) reopened
      refl refl refl (omega arith) refl refl all_handled

main-exit_zero_example : has_signal (outside.at_start ++ rounds_events outside.during 0 4) ≡ true
main-exit_zero_example = main-exit_zero whole outside 4 (some at_end) ends

rebuilt_process-main_example :
    (open_or_create (existing at_end.gateway.log.file) ≡ ok at_end.gateway.log)
    × (unstamped_orders (rebuilt_process at_end.gateway.log).gateway.orders
        ≡ unstamped_orders at_end.gateway.orders)
    × (unstamped_positions (rebuilt_process at_end.gateway.log).gateway.tracker
        ≡ unstamped_positions at_end.gateway.tracker)
rebuilt_process-main_example =
    rebuilt_process-main whole outside 4 two_events at_end reopened (inr (0, ends))

-- A session that has begun and ended, and then an administrative message and a report.
abbrev lost_session : List (Event whole)
lost_session =
    created aapl ∷ logon ∷ logout ∷ admin_received [] ∷ message 5 (other_message false) ∷ []

after_logout : Process
after_logout = record (rebuilt_process two_events) {
  gateway = on_logout (on_logon (on_create aapl (rebuilt_process two_events).gateway));
}

lost_handled : handle_all whole lost_session (some (rebuilt_process two_events)) ≡ some after_logout
unfolding handle_all handle from_app rebuilt_process from_admin after_logout
lost_handled = refl

send_order-no_session_example :
    send_order whole 7 true (view aapl) Side.buy (pos 100) (pos 2_000_000) after_logout.gateway
    ≡ (not_connected, after_logout.gateway)
send_order-no_session_example =
    send_order-no_session whole lost_session (rebuilt_process two_events) after_logout 7 true
      (view aapl) Side.buy (pos 100) (pos 2_000_000) refl lost_handled
