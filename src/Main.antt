-- ===== src/Main.antt =====
-- src/main.cpp: the process. What QuickFIX calls and the signals that come in are lists of
-- events, one for each round of the strategy loop; what the QuickFIX objects answer is an
-- argument. An event is handled at once: a signal that interrupts a callback is not modelled.
-- Children: Events and Handled (what events leave of the process), Everywhere (what all events
-- keep), Restart (what the next start finds), Types (the ranges of the fields), Shutdown and
-- Quiet (how the process ends, with a signal and without), Connection (whether there is a
-- session).
pub mod Events
pub mod Handled
pub mod Everywhere
pub mod Restart
pub mod Types
pub mod Shutdown
pub mod Quiet
pub mod Connection
use hft_order_book.Base.{
  ℕ, zero, suc, ◌+◌, Bool, true, false, Option, none, some, List, [], ◌∷◌, ◌++◌, ltb, if◌then◌else◌,
}
use hft_order_book.Base.Bytes.{Bytes}
use hft_order_book.EventLog.{EventLog, Result, ok, err, FileSystem, open_or_create}
use hft_order_book.OrderManager
use hft_order_book.PositionTracker
use hft_order_book.RiskChecker.{default_limits}
use hft_order_book.MessageTranslator.{Floats, OrderCancelRequest}
use hft_order_book.FixGateway.{
  Gateway, MessageOutcome, ignored, terminated, booked, AppMessage, create, on_create, on_logon,
  on_logout, from_app, emergency_cancel_all,
}
use hft_order_book.FixGateway.Application.{Application, application, to_admin, to_app, from_admin}

-- `g_gateway` (with whether it is set), `g_shutdown`, and what the signal handler has sent.
pub record Process : Type 0 where
  pub gateway : Gateway
  pub registered : Bool
  pub shutdown : Bool
  pub requests : List OrderCancelRequest

-- `signal_handler`; the readings of the clock are the killswitch's.
unfoldable pub signal_handler : ℕ → ℕ → Process → Process
unfolding emergency_cancel_all
signal_handler t0 t1 p =
    let p' : Process = record p { shutdown = true } in
    if p.registered
    then record p' { requests = p.requests ++ (emergency_cancel_all t0 t1 p.gateway).1.1 }
    else p'

-- What the rest of the system does to the process.
pub data Event (F : Floats) : Type 0 where
  created : Bytes → Event F
  logon logout : Event F
  message : ℕ → AppMessage F → Event F
  admin_received admin_to_send app_to_send : Bytes → Event F
  signal : ℕ → ℕ → Event F

-- A std::terminate ends the process.
abbrev pub received : Process → MessageOutcome × Gateway → Option Process
received p (terminated, g) = none
received p (ignored, g) = some (record p { gateway = g })
received p (booked e, g) = some (record p { gateway = g })

-- How a QuickFIX call ends.
pub data Call : Type 0 where
  works config_error failed : Call

-- How the strategy loop is left, or that the rounds were too few.
pub data Loop : Type 0 where
  left running : Process → Loop
  killed_in_loop : Loop

-- How the process ends: the exit code, with the process at that point when it came so far; an
-- exception that nothing catches; or that the rounds were too few.
pub data Exit : Type 0 where
  exited : ℕ → Option Process → Exit
  killed : Exit
  still_running : Process → Exit

-- What `main` meets: its arguments, the file of the log, the QuickFIX calls, and the events in the
-- start, in each round, and in the stop of the initiator.
pub record Outside (F : Floats) : Type 0 where
  pub argc : ℕ
  pub files : FileSystem
  pub setup : Call
  pub start : Call
  pub at_start : List (Event F)
  pub during : ℕ → List (Event F)
  pub stop : Call
  pub at_stop : List (Event F)

-- The components over the log, and the gateway over them.
unfoldable pub rebuilt_process : EventLog → Process
unfolding create
rebuilt_process log = record {
  gateway =
      create log (PositionTracker.replay_from log) (OrderManager.replay_from log) default_limits;
  registered = true;
  shutdown = false;
  requests = [];
}

module _ (F : Floats) where
  -- The gateway as QuickFIX sees it.
  abbrev app : Application F Gateway
  app = application F

  unfoldable pub handle : Event F → Process → Option Process
  unfolding signal_handler on_create on_logon on_logout from_app to_admin to_app from_admin
  handle (created id) p = some (record p { gateway = app.created id p.gateway })
  handle logon p = some (record p { gateway = app.logged_on p.gateway.session_id p.gateway })
  handle logout p = some (record p { gateway = app.logged_out p.gateway.session_id p.gateway })
  handle (message now m) p = received p (app.app_in now m p.gateway.session_id p.gateway)
  handle (admin_received m) p =
      some (record p { gateway = app.admin_in m p.gateway.session_id p.gateway })
  handle (admin_to_send m) p =
      some (record p { gateway = (app.admin_out m p.gateway.session_id p.gateway).1 })
  handle (app_to_send m) p =
      some (record p { gateway = (app.app_out m p.gateway.session_id p.gateway).1 })
  handle (signal t0 t1) p = some (signal_handler t0 t1 p)

  unfoldable pub handle_all : List (Event F) → Option Process → Option Process
  unfolding handle
  handle_all [] p = p
  handle_all (e ∷ es) none = none
  handle_all (e ∷ es) (some p) = handle_all es (handle e p)

  -- `while (!g_shutdown)`, for a number of rounds, from round `k` on: a round sleeps while events
  -- come in.
  unfoldable pub strategy_loop : (ℕ → List (Event F)) → ℕ → ℕ → Option Process → Loop
  unfolding handle_all
  strategy_loop during rounds k none = killed_in_loop
  strategy_loop during zero k (some p) = if p.shutdown then left p else running p
  strategy_loop during (suc rounds) k (some p) =
      let rest = strategy_loop during rounds (k + 1) (handle_all (during k) (some p)) in
      if p.shutdown then left p else rest

  -- After the initiator's stop.
  unfoldable pub stopped : Call → Option Process → Exit
  stopped call none = killed
  stopped works (some p) = exited 0 (some p)
  stopped config_error (some p) = exited 1 (some p)
  stopped failed (some p) = exited 1 (some p)

  unfoldable pub leave : Outside F → Loop → Exit
  unfolding stopped handle_all
  leave outside (left p) = stopped outside.stop (handle_all outside.at_stop (some p))
  leave outside (running p) = still_running p
  leave outside killed_in_loop = killed

  -- The try block, from a start that works on; any other start ends in a catch block.
  unfoldable pub started : Outside F → ℕ → Process → Call → Exit
  unfolding leave strategy_loop handle_all
  started outside rounds p works =
      leave outside (strategy_loop outside.during rounds 0 (handle_all outside.at_start (some p)))
  started outside rounds p config_error = exited 1 (some p)
  started outside rounds p failed = exited 1 (some p)

  unfoldable pub set_up : Outside F → ℕ → Process → Call → Exit
  unfolding started
  set_up outside rounds p works = started outside rounds p outside.start
  set_up outside rounds p config_error = exited 1 (some p)
  set_up outside rounds p failed = exited 1 (some p)

  -- The log's constructor stands outside the try block.
  unfoldable pub with_log : Outside F → ℕ → Result EventLog → Exit
  unfolding set_up rebuilt_process
  with_log outside rounds (err e) = killed
  with_log outside rounds (ok log) = set_up outside rounds (rebuilt_process log) outside.setup

  unfoldable pub main : Outside F → ℕ → Exit
  unfolding with_log
  main outside rounds =
      if ltb outside.argc 2
      then exited 1 none
      else with_log outside rounds (open_or_create outside.files)
