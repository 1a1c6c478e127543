-- ===== src/Main/Everywhere.antt =====
-- What the rebuilt gateway has and every callback keeps, the gateway has wherever the process is, in
-- its loop or at its end.
use hft_order_book.Base.{
  ℕ, zero, suc, ◌+◌, ◌≡◌, inl, inr, true, false, Option, none, some, List, ltb, if_has, Bool-cases,
}
use hft_order_book.Base.Bytes.{Bytes}
use hft_order_book.EventLog.{open_or_create, EventLog, ok}
use hft_order_book.MessageTranslator.{Floats, ExecutionReport}
use hft_order_book.FixGateway.{
  Gateway, MessageOutcome, ignored, terminated, booked, execution_report, other_message, from_app,
  on_message, on_create, on_logon, on_logout,
}
use hft_order_book.FixGateway.Application.{to_admin, to_app, from_admin}
use hft_order_book.Main.{
  Process, Event, created, logon, logout, message, admin_received, admin_to_send, app_to_send,
  signal, signal_handler, received, handle, handle_all, Call, works, config_error, failed, Loop,
  left, running, killed_in_loop, Exit, exited, killed, still_running, Outside, strategy_loop,
  stopped, leave, started, set_up, rebuilt_process, with_log, main,
}
use hft_order_book.Main.Events.{IfAlive}
use hft_order_book.Main.Handled.{handle_all-kept}

-- Of the process in a loop's end, and in an end of `main`.
abbrev pub LoopHas : (Process → Type 0) → Loop → Type 0
LoopHas P (left p) = P p
LoopHas P (running p) = P p
LoopHas P killed_in_loop = Unit

abbrev pub ExitHas : (Process → Type 0) → Exit → Type 0
ExitHas P (exited code o) = IfAlive P o
ExitHas P killed = Unit
ExitHas P (still_running p) = P p

module _ (F : Floats) (Q : Gateway → Type 0)
    (creates : (id : Bytes) (g : Gateway) → Q g → Q (on_create id g))
    (opens : (g : Gateway) → Q g → Q (on_logon g)) (closes : (g : Gateway) → Q g → Q (on_logout g))
    (reports : (now : ℕ) (report : ExecutionReport F) (g : Gateway)
      → Q g
      → Q (on_message F now report g).1) where
  abbrev pub HasGateway : Process → Type 0
  HasGateway p = Q p.gateway

  received-kept :
      (p : Process) (r : MessageOutcome × Gateway) → Q r.1 → IfAlive HasGateway (received p r)
  received-kept p (terminated, g) h = tt
  received-kept p (ignored, g) h = h
  received-kept p (booked e, g) h = h

  signal_handler-kept :
      (t0 t1 : ℕ) (p : Process) → HasGateway p → HasGateway (signal_handler t0 t1 p)
  unfolding signal_handler
  signal_handler-kept t0 t1 p h = elim (Bool-cases p.registered) [
    | inl known ↦ rw known h
    | inr unknown ↦ rw unknown h
  ]

  handle-kept : (e : Event F) (p : Process) → HasGateway p → IfAlive HasGateway (handle F e p)
  unfolding handle from_app to_admin to_app from_admin
  handle-kept (created id) p h = creates id p.gateway h
  handle-kept logon p h = opens p.gateway h
  handle-kept logout p h = closes p.gateway h
  handle-kept (admin_received m) p h = h
  handle-kept (admin_to_send m) p h = h
  handle-kept (app_to_send m) p h = h
  handle-kept (message now (execution_report report)) p h =
      received-kept p (on_message F now report p.gateway) (reports now report p.gateway h)
  handle-kept (message now (other_message true)) p h = tt
  handle-kept (message now (other_message false)) p h = h
  handle-kept (signal t0 t1) p h = signal_handler-kept t0 t1 p h

  events-kept :
      (es : List (Event F)) (o : Option Process)
      → IfAlive HasGateway o
      → IfAlive HasGateway (handle_all F es o)
  events-kept = handle_all-kept F HasGateway handle-kept

  strategy_loop-kept :
      (during : ℕ → List (Event F)) (rounds k : ℕ) (o : Option Process)
      → IfAlive HasGateway o
      → LoopHas HasGateway (strategy_loop F during rounds k o)
  unfolding strategy_loop
  strategy_loop-kept during rounds k none h = tt
  strategy_loop-kept during zero k (some p) h = if_has (LoopHas HasGateway) p.shutdown _ _ h h
  strategy_loop-kept during (suc rounds) k (some p) h =
      if_has (LoopHas HasGateway) p.shutdown _ _ h
        (strategy_loop-kept during rounds (k + 1) _ (events-kept (during k) (some p) h))

  stopped-kept :
      (call : Call) (o : Option Process)
      → IfAlive HasGateway o
      → ExitHas HasGateway (stopped F call o)
  unfolding stopped
  stopped-kept call none h = tt
  stopped-kept works (some p) h = h
  stopped-kept config_error (some p) h = h
  stopped-kept failed (some p) h = h

  leave-kept :
      (outside : Outside F) (l : Loop)
      → LoopHas HasGateway l
      → ExitHas HasGateway (leave F outside l)
  unfolding leave
  leave-kept outside (left p) h =
      stopped-kept outside.stop _ (events-kept outside.at_stop (some p) h)
  leave-kept outside (running p) h = h
  leave-kept outside killed_in_loop h = tt

  started-kept :
      (outside : Outside F) (rounds : ℕ) (p : Process) (call : Call)
      → HasGateway p
      → ExitHas HasGateway (started F outside rounds p call)
  unfolding started
  started-kept outside rounds p works h =
      leave-kept outside _
        (strategy_loop-kept outside.during rounds 0 _ (events-kept outside.at_start (some p) h))
  started-kept outside rounds p config_error h = h
  started-kept outside rounds p failed h = h

  set_up-kept :
      (outside : Outside F) (rounds : ℕ) (p : Process) (call : Call)
      → HasGateway p
      → ExitHas HasGateway (set_up F outside rounds p call)
  unfolding set_up
  set_up-kept outside rounds p works h = started-kept outside rounds p outside.start h
  set_up-kept outside rounds p config_error h = h
  set_up-kept outside rounds p failed h = h

  -- A process over a log that has been opened.
  pub main-kept :
      (outside : Outside F) (rounds : ℕ) (log : EventLog)
      → open_or_create outside.files ≡ ok log
      → Q (rebuilt_process log).gateway
      → ExitHas HasGateway (main F outside rounds)
  unfolding main with_log
  main-kept outside rounds log opened h = elim (Bool-cases (ltb outside.argc 2)) [
    | inl few ↦ rw few tt
    | inr enough ↦
        rw (enough, opened) (set_up-kept outside rounds (rebuilt_process log) outside.setup h)
  ]
