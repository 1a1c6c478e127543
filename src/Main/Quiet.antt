-- ===== src/Main/Quiet.antt =====
-- A process that no signal reaches does not end with success.
use hft_order_book.Base.{
  ℕ, zero, suc, ◌+◌, ◌≡◌, refl, sym, ◌∙◌, inl, inr, true, false, Option, none, some, List, ◌++◌,
  ltb, ◌||◌, Bool-cases,
}
use mathlib.Core.Path.{subst}
use hft_order_book.EventLog.{open_or_create, EventLog, Result, ok, err}
use hft_order_book.MessageTranslator.{Floats}
use hft_order_book.Main.{
  Process, Event, handle_all, Call, works, config_error, failed, Loop, left, running,
  killed_in_loop, Exit, exited, killed, still_running, Outside, strategy_loop, leave, started,
  set_up, rebuilt_process, with_log, main,
}
use hft_order_book.Main.Events.{
  IfAlive, IfAlive-map, has_signal, OnlyGateway-refl, rounds_events, if_false, has_signal-append,
  or_left, or_right,
}
use hft_order_book.Main.Handled.{handle_all-OnlyGateway}

module _ (F : Floats) where
  -- What a loop without a signal ends as.
  abbrev NotLeft : Loop → Type 0
  NotLeft (left p) = ⊥
  NotLeft (running p) = Unit
  NotLeft killed_in_loop = Unit

  strategy_loop-quiet :
      (during : ℕ → List (Event F)) (rounds i : ℕ) (o : Option Process)
      → IfAlive (λ p. p.shutdown ≡ false) o
      → has_signal (rounds_events during i rounds) ≡ false
      → NotLeft (strategy_loop F during rounds i o)
  unfolding strategy_loop
  strategy_loop-quiet during rounds i none up quiet = tt
  strategy_loop-quiet during zero i (some p) up quiet = subst NotLeft (sym (if_false _ _ up)) tt
  strategy_loop-quiet during (suc rounds) i (some p) up quiet =
      subst NotLeft (sym (if_false _ _ up)) (
        strategy_loop-quiet during rounds (i + 1) (handle_all F (during i) (some p))
          (IfAlive-map (handle_all F (during i) (some p)) (λ q k. k.same_shutdown ∙ up)
            (handle_all-OnlyGateway F (during i) (some p) p (or_left _ _ quiet_parts)
              (OnlyGateway-refl p)))
          (or_right _ _ quiet_parts))
    where
      quiet_parts :
          (has_signal (during i) || has_signal (rounds_events during (i + 1) rounds)) ≡ false
      quiet_parts = sym (has_signal-append (during i) _) ∙ quiet

  -- An end of `main` that is no success.
  abbrev NotZero : Exit → Type 0
  NotZero (exited zero o) = ⊥
  NotZero (exited (suc code) o) = Unit
  NotZero killed = Unit
  NotZero (still_running p) = Unit

  leave-quiet : (outside : Outside F) (l : Loop) → NotLeft l → NotZero (leave F outside l)
  unfolding leave
  leave-quiet outside (left p) h = absurd h
  leave-quiet outside (running p) h = tt
  leave-quiet outside killed_in_loop h = tt

  started-quiet :
      (outside : Outside F) (rounds : ℕ) (p : Process) (call : Call)
      → p.shutdown ≡ false
      → has_signal (outside.at_start ++ rounds_events outside.during 0 rounds) ≡ false
      → NotZero (started F outside rounds p call)
  unfolding started
  started-quiet outside rounds p config_error up quiet = tt
  started-quiet outside rounds p failed up quiet = tt
  started-quiet outside rounds p works up quiet = leave-quiet outside _ (
      strategy_loop-quiet outside.during rounds 0 (handle_all F outside.at_start (some p))
        (IfAlive-map (handle_all F outside.at_start (some p)) (λ q k. k.same_shutdown ∙ up)
          (handle_all-OnlyGateway F outside.at_start (some p) p (or_left _ _ parts)
            (OnlyGateway-refl p)))
        (or_right _ _ parts))
    where
      parts :
          (has_signal outside.at_start || has_signal (rounds_events outside.during 0 rounds))
          ≡ false
      parts = sym (has_signal-append outside.at_start _) ∙ quiet

  set_up-quiet :
      (outside : Outside F) (rounds : ℕ) (p : Process) (call : Call)
      → p.shutdown ≡ false
      → has_signal (outside.at_start ++ rounds_events outside.during 0 rounds) ≡ false
      → NotZero (set_up F outside rounds p call)
  unfolding set_up
  set_up-quiet outside rounds p works up quiet =
      started-quiet outside rounds p outside.start up quiet
  set_up-quiet outside rounds p config_error up quiet = tt
  set_up-quiet outside rounds p failed up quiet = tt

  with_log-quiet :
      (outside : Outside F) (rounds : ℕ) (opened : Result EventLog)
      → has_signal (outside.at_start ++ rounds_events outside.during 0 rounds) ≡ false
      → NotZero (with_log F outside rounds opened)
  unfolding with_log
  with_log-quiet outside rounds (err e) quiet = tt
  with_log-quiet outside rounds (ok log) quiet =
      set_up-quiet outside rounds (rebuilt_process log) outside.setup refl quiet

  main-quiet :
      (outside : Outside F) (rounds : ℕ)
      → has_signal (outside.at_start ++ rounds_events outside.during 0 rounds) ≡ false
      → NotZero (main F outside rounds)
  unfolding main
  main-quiet outside rounds quiet = elim (Bool-cases (ltb outside.argc 2)) [
    | inl few ↦ rw few tt
    | inr enough ↦ rw enough (with_log-quiet outside rounds (open_or_create outside.files) quiet)
  ]

  -- `main` ends with exit code 0 only if a signal came in, in the start or in one of the rounds.
  pub main-exit_zero :
      (outside : Outside F) (rounds : ℕ) (o : Option Process)
      → main F outside rounds ≡ exited 0 o
      → has_signal (outside.at_start ++ rounds_events outside.during 0 rounds) ≡ true
  main-exit_zero outside rounds o h =
      elim (Bool-cases (has_signal (outside.at_start ++ rounds_events outside.during 0 rounds))) [
        | inl signalled ↦ signalled
        | inr quiet ↦ absurd (subst NotZero h (main-quiet outside rounds quiet))
      ]
