-- ===== src/Main/Shutdown.antt =====
-- How the process ends: the first signal ends the strategy loop, after the orders are cancelled.
use hft_order_book.Base.{
  ℕ, zero, suc, ◌+◌, ◌≤◌, ◌<◌, ◌≡◌, refl, sym, ap, ◌∙◌, inl, inr, true, false, Option, none, some,
  List, [], ◌∷◌, ◌++◌, ltb, ◌||◌, Option-cases, arith,
}
use mathlib.Core.List.{append_assoc, append-nil}
use mathlib.Core.Path.{subst}
use hft_order_book.EventLog.{open_or_create, EventLog, ok}
use hft_order_book.MessageTranslator.{Floats, OrderCancelRequest}
use hft_order_book.Killswitch.{cancel_all, cancel_prefix}
use hft_order_book.FixGateway.{emergency_cancel_all}
use hft_order_book.Main.{
  Process, Event, signal, signal_handler, handle, handle_all, works, Loop, left, killed_in_loop,
  exited, Outside, strategy_loop, stopped, leave, started, set_up, rebuilt_process, with_log, main,
}
use hft_order_book.Main.Events.{
  IfAlive, IfAlive-map, has_signal, OnlyGateway, Grows, OnlyGateway-refl, rounds_events, if_true,
  if_false, has_signal-append, has_signal-later, or_left, or_right,
}
use hft_order_book.Main.Handled.{
  handle_all-none, handle_all-append, handle_all-Grows, handle_all-OnlyGateway, handle_all-signal,
  signal_handler-shutdown,
}

-- A loop that is left with the process, or with none.
abbrev left_with : Option Process → Loop
left_with none = killed_in_loop
left_with (some p) = left p

regroup {ℓ} :
    {A : Type ℓ} (a r b s t : List A) → a ++ ((r ++ (b ++ s)) ++ t) ≡ (a ++ (r ++ b)) ++ (s ++ t)
regroup a r b s t = simp append_assoc

module _ (F : Floats) where
  at_shutdown :
      (during : ℕ → List (Event F)) (rounds k : ℕ) (o : Option Process)
      → IfAlive (λ p. p.shutdown ≡ true) o
      → strategy_loop F during rounds k o ≡ left_with o
  unfolding strategy_loop
  at_shutdown during rounds k none h = refl
  at_shutdown during zero k (some p) h = if_true _ _ h
  at_shutdown during (suc rounds) k (some p) h = if_true _ _ h

  -- The loop handles the events of all rounds up to the one with the signal, and is left.
  strategy_loop-signal :
      (during : ℕ → List (Event F)) (n i rounds : ℕ) (o : Option Process)
      → n < rounds
      → IfAlive (λ p. p.shutdown ≡ false) o
      → has_signal (rounds_events during i n) ≡ false
      → has_signal (during (i + n)) ≡ true
      → strategy_loop F during rounds i o
        ≡ left_with (handle_all F (rounds_events during i (suc n)) o)
  unfolding strategy_loop
  strategy_loop-signal during n i rounds none below up quiet here =
      ap left_with (sym (handle_all-none F _))
  strategy_loop-signal during n i zero (some p) below up quiet here = absurd (omega arith)
  strategy_loop-signal during zero i (suc rounds) (some p) below up quiet here =
      if_false _ _ up
      ∙ at_shutdown during rounds (i + 1) _ (
          handle_all-signal F (during i) (some p)
            (ap (λ (k : ℕ). has_signal (during k)) {y = i + 0} (omega arith) ∙ here))
      ∙ ap (λ es. left_with (handle_all F es (some p))) (sym (append-nil (during i)))
  strategy_loop-signal during (suc n) i (suc rounds) (some p) below up quiet here =
      if_false _ _ up
      ∙ strategy_loop-signal during n (i + 1) rounds (handle_all F (during i) (some p))
          (omega arith)
          (IfAlive-map (handle_all F (during i) (some p)) (λ q k. k.same_shutdown ∙ up)
            (handle_all-OnlyGateway F (during i) (some p) p (or_left _ _ quiet_parts)
              (OnlyGateway-refl p)))
          (or_right _ _ quiet_parts)
          (ap (λ (k : ℕ). has_signal (during k)) {y = i + suc n} (omega arith) ∙ here)
      ∙ ap left_with (sym (handle_all-append F (during i) _ (some p)))
    where
      quiet_parts : (has_signal (during i) || has_signal (rounds_events during (i + 1) n)) ≡ false
      quiet_parts = sym (has_signal-append (during i) _) ∙ quiet

  leave-left_with :
      (outside : Outside F) (o : Option Process)
      → leave F outside (left_with o) ≡ stopped F outside.stop (handle_all F outside.at_stop o)
  unfolding leave
  leave-left_with outside none =
      sym (ap (stopped F outside.stop) (handle_all-none F outside.at_stop))
  leave-left_with outside (some p) = refl

  rounds_events-suc :
      (during : ℕ → List (Event F)) (i n : ℕ)
      → rounds_events during i (suc n) ≡ rounds_events during i n ++ during (i + n)
  rounds_events-suc during i zero = append-nil (during i) ∙ ap during {y = i + 0} (omega arith)
  rounds_events-suc during i (suc n) =
      ap (λ es. during i ++ es) (rounds_events-suc during (i + 1) n)
      ∙ sym (append_assoc (during i) (rounds_events during (i + 1) n) (during (i + 1 + n)))
      ∙ ap (λ (k : ℕ). (during i ++ rounds_events during (i + 1) n) ++ during k) (omega arith)

  signal_handler-requests :
      (t0 t1 : ℕ) (q : Process)
      → q.registered ≡ true
      → q.requests ≡ []
      → (signal_handler t0 t1 q).requests ≡ (cancel_all cancel_prefix q.gateway.orders).1
  unfolding signal_handler emergency_cancel_all
  signal_handler-requests t0 t1 q known none_yet =
      ap (λ (s : Process). s.requests) (if_true _ _ known)
      ∙ ap (λ l. l ++ (cancel_all cancel_prefix q.gateway.orders).1) none_yet

  -- The first signal: the handler cancels the orders that are open then.
  first_signal :
      (past rest : List (Event F)) (t0 t1 : ℕ) (r p : Process)
      → r.registered ≡ true
      → r.requests ≡ []
      → has_signal past ≡ false
      → handle_all F (past ++ signal t0 t1 ∷ rest) (some r) ≡ some p
      → (p.shutdown ≡ true)
        × ((q : Process) × (later : List OrderCancelRequest) × (handle_all F past (some r) ≡ some q)
            × (p.requests ≡ (cancel_all cancel_prefix q.gateway.orders).1 ++ later))
  unfolding handle_all handle
  first_signal past rest t0 t1 r p known none_yet quiet all =
      elim (Option-cases (handle_all F past (some r))) [
        | inl gone ↦
            absurd (cc (all, gone, handle_all-append F past (signal t0 t1 ∷ rest) (some r)))
        | inr (q, came) ↦
            let only : OnlyGateway r q =
              subst (IfAlive (OnlyGateway r)) came
                (handle_all-OnlyGateway F past (some r) r quiet (OnlyGateway-refl r)) in
            let ends : handle_all F rest (some (signal_handler t0 t1 q)) ≡ some p =
              sym (ap (handle_all F (signal t0 t1 ∷ rest)) came)
              ∙ sym (handle_all-append F past (signal t0 t1 ∷ rest) (some r))
              ∙ all in
            let grows : Grows (signal_handler t0 t1 q) p =
              subst (IfAlive (Grows (signal_handler t0 t1 q))) ends
                (handle_all-Grows F rest (signal_handler t0 t1 q)) in
            (
              grows.kept_shutdown (signal_handler-shutdown F t0 t1 q),
              (
                q,
                grows.more,
                came,
                grows.added
                    ∙ ap (λ l. l ++ grows.more)
                        (signal_handler-requests t0 t1 q (only.same_registered ∙ known)
                          (only.same_requests ∙ none_yet)),
              ),
            )
      ]

  -- `main` with everything in place, over the events that end its loop.
  main-left :
      (outside : Outside F) (rounds n : ℕ) (log : EventLog)
      → 2 ≤ outside.argc
      → open_or_create outside.files ≡ ok log
      → outside.setup ≡ works
      → outside.start ≡ works
      → n < rounds
      → has_signal outside.at_start ≡ false
      → has_signal (rounds_events outside.during 0 n) ≡ false
      → has_signal (outside.during n) ≡ true
      → main F outside rounds
        ≡ stopped F outside.stop (
            handle_all F
              (outside.at_start ++ (rounds_events outside.during 0 (suc n) ++ outside.at_stop))
              (some (rebuilt_process log)))
  unfolding main with_log set_up started
  main-left outside rounds n log args opened setup start below calm quiet here =
      rw (few_not, opened, setup, start)
        (ap (leave F outside) (
            strategy_loop-signal outside.during n 0 rounds _ below awake quiet
              (ap (λ (k : ℕ). has_signal (outside.during k)) {x = 0 + n} (omega arith) ∙ here))
          ∙ leave-left_with outside _
          ∙ ap (stopped F outside.stop) (
              sym (
                handle_all-append F (rounds_events outside.during 0 (suc n)) outside.at_stop
                  (handle_all F outside.at_start (some (rebuilt_process log))))
              ∙ sym (handle_all-append F outside.at_start _ (some (rebuilt_process log)))))
    where
      few_not : ltb outside.argc 2 ≡ false
      few_not = ground arith

      awake :
          IfAlive
            (λ p. p.shutdown ≡ false)
            (handle_all F outside.at_start (some (rebuilt_process log)))
      awake =
          IfAlive-map (handle_all F outside.at_start (some (rebuilt_process log)))
            (λ q k. k.same_shutdown)
            (handle_all-OnlyGateway F outside.at_start (some (rebuilt_process log))
              (rebuilt_process log) calm (OnlyGateway-refl (rebuilt_process log)))

  -- With the arguments, the log and the QuickFIX objects in place, the first signal, in a round after
  -- others without, ends `main` with exit code 0 if no callback terminates the process: more
  -- rounds change nothing, and the first requests sent are those that cancel every order
  -- that was open at the signal.
  pub main-shutdown :
      (outside : Outside F) (rounds n : ℕ) (log : EventLog) (before after : List (Event F))
      (t0 t1 : ℕ) (p : Process)
      → 2 ≤ outside.argc
      → open_or_create outside.files ≡ ok log
      → outside.setup ≡ works
      → outside.start ≡ works
      → outside.stop ≡ works
      → n < rounds
      → outside.during n ≡ before ++ signal t0 t1 ∷ after
      → has_signal (outside.at_start ++ (rounds_events outside.during 0 n ++ before)) ≡ false
      → handle_all F
          ((outside.at_start ++ (rounds_events outside.during 0 n ++ before))
            ++ signal t0 t1 ∷ (after ++ outside.at_stop))
          (some (rebuilt_process log))
        ≡ some p
      → (main F outside rounds ≡ exited 0 (some p))
        × (p.shutdown ≡ true)
        × ((q : Process) × (later : List OrderCancelRequest) × (handle_all F
                (outside.at_start ++ (rounds_events outside.during 0 n ++ before))
                (some (rebuilt_process log))
              ≡ some q)
            × (p.requests ≡ (cancel_all cancel_prefix q.gateway.orders).1 ++ later))
  unfolding rebuilt_process stopped
  main-shutdown outside rounds n log before after t0 t1 p args opened setup start stop below here
        quiet all =
      let (down, cancels) =
        first_signal (outside.at_start ++ (rounds_events outside.during 0 n ++ before))
          (after ++ outside.at_stop) t0 t1 (rebuilt_process log) p refl refl quiet all in
      (
        main-left outside rounds n log args opened setup start below (or_left _ _ parts)
              (or_left _ _ round_parts)
              (rw here (has_signal-later before (signal t0 t1) after refl))
            ∙ rw (stop, whole, all) refl,
        down,
        cancels,
      )
    where
      parts :
          (has_signal outside.at_start || has_signal (rounds_events outside.during 0 n ++ before))
          ≡ false
      parts = sym (has_signal-append outside.at_start _) ∙ quiet

      round_parts : (has_signal (rounds_events outside.during 0 n) || has_signal before) ≡ false
      round_parts =
          sym (has_signal-append (rounds_events outside.during 0 n) before)
          ∙ or_right (has_signal outside.at_start)
              (has_signal (rounds_events outside.during 0 n ++ before)) parts

      whole :
          outside.at_start ++ (rounds_events outside.during 0 (suc n) ++ outside.at_stop)
          ≡ (outside.at_start ++ (rounds_events outside.during 0 n ++ before))
            ++ signal t0 t1 ∷ (after ++ outside.at_stop)
      whole =
          ap (λ es. outside.at_start ++ (es ++ outside.at_stop))
            (rounds_events-suc outside.during 0 n
              ∙ ap (λ (k : ℕ). rounds_events outside.during 0 n ++ outside.during k) {y = n}
                  (omega arith)
              ∙ ap (λ es. rounds_events outside.during 0 n ++ es) here)
          ∙ regroup outside.at_start (rounds_events outside.during 0 n) before
              (signal t0 t1 ∷ after) outside.at_stop
