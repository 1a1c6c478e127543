-- ===== src/EventLog/Readers/Safety.antt =====
-- What a reader beside the writer sees.
use hft_order_book.Base.{
  ℕ, ◌+◌, ◌≤◌, ◌≡◌, refl, sym, ap, ◌∙◌, List, [], ◌∷◌, ◌++◌, append_cancel, arith,
}
use mathlib.Core.Path.{subst}
use hft_order_book.OrderEvent.{OrderEvent}
use hft_order_book.EventLog.{EventLog, write_slot, store_event, store_next_seq, store_header}
use mathlib.Core.List.{append_assoc, append-nil}
use hft_order_book.EventLog.Contents.{
  collect, contents, collect-write_slot, collect-prefix, seen_more,
}
use hft_order_book.EventLog.Readers.{
  Writer, idle, writing, written, counting, Reader, before, reading, finished, System, Step, begin,
  write_part, write_last, publish, persist, load, visit, finish, Reach, start, later,
}

-- What the writer's place says of the log.
abbrev WriterFits : EventLog → Writer → Type 0
WriterFits log idle = Unit
WriterFits log (writing seq e) = seq ≡ log.next_seq
WriterFits log (written seq e) = (seq ≡ log.next_seq) × (log.events seq ≡ e)
WriterFits log (counting seq) = Unit

-- The reader has seen the first events of the log, as they are now.
abbrev ReaderFits : ℕ → EventLog → Reader → Type 0
ReaderFits n log before = Unit
ReaderFits n log (reading head i seen) =
    (n ≤ head) × (head ≤ log.next_seq) × (i ≤ head) × (seen ≡ collect log.events i 0)
ReaderFits n log (finished seen) =
    (h : ℕ) × (n ≤ h) × (h ≤ log.next_seq) × (seen ≡ collect log.events h 0)

record Inv (log : EventLog) (s : System) : Type 0 where
  grows : log.next_seq ≤ s.log.next_seq
  kept : collect s.log.events log.next_seq 0 ≡ contents log
  writer_fits : WriterFits s.log s.writer
  reader_fits : ReaderFits log.next_seq s.log s.reader
  whole : collect s.log.events s.log.next_seq 0 ≡ contents log ++ s.history

-- What a write at the counter leaves of the events below it.
WriterFits-keeps :
    (events : ℕ → OrderEvent) (n seq : ℕ) (e : OrderEvent)
    → n ≤ seq
    → collect (write_slot events seq e) n 0 ≡ collect events n 0
WriterFits-keeps events n seq e h = collect-write_slot events n 0 seq e (omega arith)

-- A reader keeps what it has when the events below the counter stay and the counter does not fall.
ReaderFits-write :
    (n seq : ℕ) (e : OrderEvent) (log : EventLog) (r : Reader)
    → seq ≡ log.next_seq
    → ReaderFits n log r
    → ReaderFits n (store_event seq e log) r
unfolding store_event
ReaderFits-write n seq e log before at fits = fits
ReaderFits-write n seq e log (reading head i seen) at (a, b, c, d) =
    (a, b, c, d ∙ sym (WriterFits-keeps log.events i seq e (omega arith)))
ReaderFits-write n seq e log (finished seen) at (h, a, b, d) =
    (h, a, b, d ∙ sym (WriterFits-keeps log.events h seq e (omega arith)))

ReaderFits-publish :
    (n seq : ℕ) (log : EventLog) (r : Reader)
    → seq ≡ log.next_seq
    → ReaderFits n log r
    → ReaderFits n (store_next_seq seq log) r
unfolding store_next_seq
ReaderFits-publish n seq log before at fits = fits
ReaderFits-publish n seq log (reading head i seen) at (a, b, c, d) = (a, omega arith, c, d)
ReaderFits-publish n seq log (finished seen) at (h, a, b, d) = (h, a, omega arith, d)

ReaderFits-persist :
    (n seq : ℕ) (log : EventLog) (r : Reader)
    → ReaderFits n log r
    → ReaderFits n (store_header seq log) r
unfolding store_header
ReaderFits-persist n seq log before fits = fits
ReaderFits-persist n seq log (reading head i seen) fits = fits
ReaderFits-persist n seq log (finished seen) fits = fits

kept_next :
    (seq : ℕ) (e : OrderEvent) (log : EventLog)
    → seq ≡ log.next_seq
    → seq ≡ (store_event seq e log).next_seq
unfolding store_event
kept_next seq e log h = h

stored : (seq : ℕ) (e : OrderEvent) (log : EventLog) → (store_event seq e log).events seq ≡ e
unfolding store_event
stored seq e log = ground arith

-- The system after a write to the slot at the counter.
write-Inv :
    {log : EventLog} {s : System} (seq : ℕ) (e : OrderEvent) (w : Writer)
    → seq ≡ s.log.next_seq
    → WriterFits (store_event seq e s.log) w
    → Inv log s
    → Inv log (record s { log = store_event seq e s.log; writer = w })
unfolding store_event
write-Inv {log} {s} seq e w fits next inv = record {
  grows = inv.grows;
  kept = collect-write_slot s.log.events log.next_seq 0 seq e (omega (arith, inv.grows)) ∙ inv.kept;
  writer_fits = next;
  reader_fits = ReaderFits-write log.next_seq seq e s.log s.reader fits inv.reader_fits;
  whole = collect-write_slot s.log.events s.log.next_seq 0 seq e (omega arith) ∙ inv.whole;
}

-- The counted events with the one that is counted next.
one_more :
    {log : EventLog} {s : System} (seq : ℕ) (e : OrderEvent)
    → seq ≡ s.log.next_seq
    → s.log.events seq ≡ e
    → Inv log s
    → collect s.log.events (seq + 1) 0 ≡ contents log ++ (s.history ++ e ∷ [])
one_more {log} {s} seq e fits is inv =
    sym (
      seen_more s.log.events seq (contents log ++ s.history)
        (sym inv.whole ∙ ap (λ (n : ℕ). collect s.log.events n 0) (sym fits)))
    ∙ ap (λ x. (contents log ++ s.history) ++ x ∷ []) is
    ∙ append_assoc (contents log) s.history (e ∷ [])

Step-Inv : {log : EventLog} {s t : System} → Inv log s → Step s t → Inv log t
unfolding store_next_seq store_header collect
Step-Inv {log} {s} inv (begin now evt at room) = record {
  grows = inv.grows;
  kept = inv.kept;
  writer_fits = refl;
  reader_fits = inv.reader_fits;
  whole = inv.whole;
}
Step-Inv {log} {s} inv (write_part {seq} {e} torn at) =
    let fits : seq ≡ s.log.next_seq = subst (WriterFits s.log) at inv.writer_fits in
    write-Inv seq torn s.writer fits
      (subst (WriterFits (store_event seq torn s.log)) (sym at) (kept_next seq torn s.log fits)) inv
Step-Inv {log} {s} inv (write_last {seq} {e} at) =
    let fits : seq ≡ s.log.next_seq = subst (WriterFits s.log) at inv.writer_fits in
    write-Inv seq e (written seq e) fits (kept_next seq e s.log fits, stored seq e s.log) inv
Step-Inv {log} {s} inv (publish {seq} {e} at) =
    let (fits, is) : (seq ≡ s.log.next_seq) × (s.log.events seq ≡ e) =
      subst (WriterFits s.log) at inv.writer_fits in
    record {
      grows = omega arith;
      kept = inv.kept;
      writer_fits = tt;
      reader_fits = ReaderFits-publish log.next_seq seq s.log s.reader fits inv.reader_fits;
      whole = one_more seq e fits is inv;
    }
Step-Inv {log} {s} inv (persist {seq} at) = record {
  grows = inv.grows;
  kept = inv.kept;
  writer_fits = tt;
  reader_fits = ReaderFits-persist log.next_seq seq s.log s.reader inv.reader_fits;
  whole = inv.whole;
}
Step-Inv {log} {s} inv (load at) = record {
  grows = inv.grows;
  kept = inv.kept;
  writer_fits = inv.writer_fits;
  reader_fits = (inv.grows, omega arith, omega arith, refl);
  whole = inv.whole;
}
Step-Inv {log} {s} inv (visit {head} {i} {seen} at below) =
    let (a, b, c, d) : ReaderFits log.next_seq s.log (reading head i seen) =
      subst (ReaderFits log.next_seq s.log) at inv.reader_fits in
    record {
      grows = inv.grows;
      kept = inv.kept;
      writer_fits = inv.writer_fits;
      reader_fits = (a, b, omega arith, seen_more s.log.events i seen d);
      whole = inv.whole;
    }
Step-Inv {log} {s} inv (finish {head} {i} {seen} at past) =
    let (a, b, c, d) : ReaderFits log.next_seq s.log (reading head i seen) =
      subst (ReaderFits log.next_seq s.log) at inv.reader_fits in
    record {
      grows = inv.grows;
      kept = inv.kept;
      writer_fits = inv.writer_fits;
      reader_fits = (i, omega arith, omega arith, d);
      whole = inv.whole;
    }

Reach-Inv : {log : EventLog} {s : System} → Reach log s → Inv log s
unfolding contents
Reach-Inv {log} start = record {
  grows = omega arith;
  kept = refl;
  writer_fits = tt;
  reader_fits = tt;
  whole = sym (append-nil (contents log));
}
Reach-Inv (later run step) = Step-Inv (Reach-Inv run) step

-- However the writer and a reader interleave, and whatever stands in a slot while an event is being
-- written: the log holds what it held and then the events that were to be appended, whole and in
-- order, and a finished reader has seen what the log held and the first of those.
pub replay_interleaved :
    {log : EventLog} {s : System} {seen : List OrderEvent}
    → Reach log s
    → s.reader ≡ finished seen
    → (contents s.log ≡ contents log ++ s.history)
      × ((new : List OrderEvent) × (more : List OrderEvent) × (seen ≡ contents log ++ new)
          × (s.history ≡ new ++ more))
unfolding contents
replay_interleaved {log} {s} {seen} run at =
    let inv = Reach-Inv run in
    let (h, low, high, same) : ReaderFits log.next_seq s.log (finished seen) =
      subst (ReaderFits log.next_seq s.log) at inv.reader_fits in
    let (new, is_new) = collect-prefix s.log.events log.next_seq h low in
    let (more, is_more) = collect-prefix s.log.events h s.log.next_seq high in
    let seen_new = is_new ∙ ap (λ l. l ++ new) inv.kept in
    (
      inv.whole,
      (
        new,
        more,
        same ∙ seen_new,
        append_cancel (contents log) s.history (new ++ more) (
            sym inv.whole
            ∙ is_more
            ∙ ap (λ l. l ++ more) seen_new
            ∙ append_assoc (contents log) new more),
      ),
    )
