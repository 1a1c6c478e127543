-- ===== src/EventLog/Readers/Progress.antt =====
-- How many steps a reader beside the writer takes.
use hft_order_book.Base.{
  length, length-append, Bool-cases, ltb, ℕ, ◌+◌, ◌≤◌, ◌<◌, ◌≡◌, refl, ◌⊎◌, inl, inr, List, [], ◌∷◌,
  arith,
}
use mathlib.Core.Path.{subst}
use native.Mathlib.Nat.{add-zero}
use hft_order_book.OrderEvent.{OrderEvent}
use hft_order_book.EventLog.{EventLog, max_events, store_event, store_next_seq, store_header}
use hft_order_book.EventLog.Readers.{
  Writer, idle, writing, written, counting, Reader, before, reading, finished, System, Step, begin,
  write_part, write_last, publish, persist, load, visit, finish, Reach, start, later,
}

-- Whose step it is: 1 for the reader's, 0 for the writer's.
abbrev pub reader_turn : {s t : System} → Step s t → ℕ
reader_turn (begin now evt at room) = 0
reader_turn (write_part torn at) = 0
reader_turn (write_last at) = 0
reader_turn (publish at) = 0
reader_turn (persist at) = 0
reader_turn (load at) = 1
reader_turn (visit at below) = 1
reader_turn (finish at past) = 1

-- How many of the steps that lead to a system are the reader's.
abbrev pub reader_steps : {log : EventLog} {s : System} → Reach log s → ℕ
reader_steps start = 0
reader_steps (later run step) = reader_steps run + reader_turn step

-- What the writer's place says of the counter that it has loaded.
abbrev SeqFits : Writer → Type 0
SeqFits idle = Unit
SeqFits (writing seq e) = seq < max_events
SeqFits (written seq e) = seq < max_events
SeqFits (counting seq) = Unit

-- What the reader's place says of the number of its steps.
abbrev StepsFit : ℕ → Reader → Type 0
StepsFit n before = n ≡ 0
StepsFit n (reading head i seen) =
    (n ≡ length seen + 1) × (length seen ≡ i) × (i ≤ head) × (head ≤ max_events)
StepsFit n (finished seen) = (n ≡ length seen + 2) × (length seen ≤ max_events)

record Bounded (n : ℕ) (s : System) : Type 0 where
  seq_fits : SeqFits s.writer
  log_fits : s.log.next_seq ≤ max_events
  steps_fit : StepsFit n s.reader

Step-Bounded :
    {n : ℕ} {s t : System} → Bounded n s → (step : Step s t) → Bounded (n + reader_turn step) t
unfolding store_event store_next_seq store_header
Step-Bounded {n} {s} b (begin now evt at room) =
    rw add-zero (record { seq_fits = room; log_fits = b.log_fits; steps_fit = b.steps_fit })
Step-Bounded {n} {s} b (write_part {seq} {e} torn at) =
    rw add-zero (record { seq_fits = b.seq_fits; log_fits = b.log_fits; steps_fit = b.steps_fit })
Step-Bounded {n} {s} b (write_last {seq} {e} at) = rw add-zero (record {
  seq_fits = subst SeqFits at b.seq_fits;
  log_fits = b.log_fits;
  steps_fit = b.steps_fit;
})
Step-Bounded {n} {s} b (publish {seq} {e} at) =
    let room : seq < max_events = subst SeqFits at b.seq_fits in
    rw add-zero (record { seq_fits = tt; log_fits = omega arith; steps_fit = b.steps_fit })
Step-Bounded {n} {s} b (persist at) =
    rw add-zero (record { seq_fits = tt; log_fits = b.log_fits; steps_fit = b.steps_fit })
Step-Bounded {n} {s} b (load at) =
    let none_yet : n ≡ 0 = subst (StepsFit n) at b.steps_fit in
    record {
      seq_fits = b.seq_fits;
      log_fits = b.log_fits;
      steps_fit = (omega arith, refl, omega arith, b.log_fits);
    }
Step-Bounded {n} {s} b (visit {head} {i} {seen} at below) =
    let (taken, seen_so_far, in_head, capped) : StepsFit n (reading head i seen) =
      subst (StepsFit n) at b.steps_fit in
    let longer = length-append seen (s.log.events i ∷ []) in
    record {
      seq_fits = b.seq_fits;
      log_fits = b.log_fits;
      steps_fit = (omega arith, omega arith, omega arith, capped);
    }
Step-Bounded {n} {s} b (finish {head} {i} {seen} at past) =
    let (taken, seen_so_far, in_head, capped) : StepsFit n (reading head i seen) =
      subst (StepsFit n) at b.steps_fit in
    record { seq_fits = b.seq_fits; log_fits = b.log_fits; steps_fit = (omega arith, omega arith) }

Reach-Bounded :
    {log : EventLog} {s : System} (run : Reach log s)
    → log.next_seq ≤ max_events
    → Bounded (reader_steps run) s
Reach-Bounded start h = record { seq_fits = tt; log_fits = h; steps_fit = refl }
Reach-Bounded (later run step) h = Step-Bounded (Reach-Bounded run h) step

StepsFit-le : (n : ℕ) (r : Reader) → StepsFit n r → n ≤ max_events + 2
StepsFit-le n before h = omega arith
StepsFit-le n (reading head i seen) (a, b, c, d) = omega arith
StepsFit-le n (finished seen) (a, b) = omega arith

-- The reader's next step.
next-Step :
    (s : System) (r : Reader)
    → s.reader ≡ r
    → ((seen : List OrderEvent) × (r ≡ finished seen))
      ⊎ ((t : System) × (step : Step s t) × (reader_turn step ≡ 1))
next-Step s before at = inr (_, load at, refl)
next-Step s (reading head i seen) at = elim (Bool-cases (ltb i head)) [
  | inl below ↦ inr (_, visit at (ground arith), refl)
  | inr past ↦ inr (_, finish at (ground arith), refl)
]
next-Step s (finished seen) at = inl (seen, refl)

-- A reader of a log within its array waits for no writer: however the threads interleave, the reader
-- takes at most two steps more than the log has slots, exactly two more than the events that it has
-- seen once it has finished, and until then it has a step to take.
pub replay-wait_free :
    {log : EventLog} {s : System} (run : Reach log s)
    → log.next_seq ≤ max_events
    → (reader_steps run ≤ max_events + 2)
      × ((seen : List OrderEvent) → s.reader ≡ finished seen → reader_steps run ≡ length seen + 2)
      × (((seen : List OrderEvent) × (s.reader ≡ finished seen))
          ⊎ ((t : System) × (step : Step s t) × (reader_turn step ≡ 1)))
replay-wait_free {log} {s} run h =
    let b = Reach-Bounded run h in
    (
      StepsFit-le (reader_steps run) s.reader b.steps_fit,
      (λ seen at. (subst (StepsFit (reader_steps run)) at b.steps_fit).0),
      next-Step s s.reader refl,
    )
