-- ===== src/EventLog/Race.antt =====
-- Two threads in `append` at once: send_order appends on the strategy thread and onMessage on the
-- thread of QuickFIX, and `append` loads and stores the counter in separate steps.
use hft_order_book.Base.{ℕ, suc, ◌+◌, ◌≤◌, ◌<◌, ◌≡◌, refl, sym, ap, ◌∙◌, List, [], ◌∷◌, ◌++◌, arith}
use mathlib.Core.Path.{ap₂}
use mathlib.Core.List.{append_assoc, append-nil}
use hft_order_book.OrderEvent.{OrderEvent}
use hft_order_book.EventLog.{
  EventLog, ok, max_events, write_slot, store_event, store_next_seq, store_header, append,
}
use hft_order_book.EventLog.Contents.{collect, contents, stamped, collect-write_slot, collect-store}

-- What `append` does after it has loaded the counter and found room.
unfoldable pub finish_append : ℕ → ℕ → OrderEvent → EventLog → EventLog
unfolding store_event store_next_seq store_header
finish_append seq now evt log =
    let e : OrderEvent = record evt { sequence = seq; timestamp_ns = now } in
    store_header seq (store_next_seq seq (store_event seq e log))

-- The appends of one thread, one after another, and the events that they store.
pub data Appends (log : EventLog) : List OrderEvent → EventLog → Type 0 where
  none_yet : Appends log [] log
  one_more :
      {es : List OrderEvent} {mid next : EventLog} {seq : ℕ} (now : ℕ) (evt : OrderEvent)
      → Appends log es mid
      → append now evt mid ≡ ok (seq, next)
      → Appends log (es ++ stamped now seq evt ∷ []) next

-- The fields of the log that `append` leaves.
record Appended (now : ℕ) (evt : OrderEvent) (log : EventLog) (seq : ℕ) (next : EventLog)
    : Type 0 where
  at_counter : seq ≡ log.next_seq
  events_are : next.events ≡ write_slot log.events log.next_seq (stamped now log.next_seq evt)
  counted : next.next_seq ≡ log.next_seq + 1

append-Appended :
    (now : ℕ) (evt : OrderEvent) (log next : EventLog) (seq : ℕ)
    → append now evt log ≡ ok (seq, next)
    → Appended now evt log seq next
unfolding append store_event store_next_seq store_header
append-Appended now evt log next seq h = ground arith

-- The events that were in the log stay below where it ended, and the counter does not fall.
record Kept (log next : EventLog) (es : List OrderEvent) : Type 0 where
  grows : log.next_seq ≤ next.next_seq
  below : collect next.events log.next_seq 0 ≡ contents log
  whole : contents next ≡ contents log ++ es

Appended-Kept :
    {log mid next : EventLog} {es : List OrderEvent} {seq : ℕ} (now : ℕ) (evt : OrderEvent)
    → Kept log mid es
    → Appended now evt mid seq next
    → Kept log next (es ++ stamped now seq evt ∷ [])
unfolding contents
Appended-Kept {log} {mid} {next} {es} {seq} now evt kept is =
    let e = stamped now mid.next_seq evt in
    let one : next.next_seq ≡ suc mid.next_seq = omega (arith, is.counted) in
    record {
      grows = omega (arith, kept.grows, is.counted);
      below =
          ap (λ events. collect events log.next_seq 0) is.events_are
          ∙ collect-write_slot mid.events log.next_seq 0 mid.next_seq e (omega (arith, kept.grows))
          ∙ kept.below;
      whole =
          ap₂ (λ events (n : ℕ). collect events n 0) is.events_are one
          ∙ collect-store mid.events mid.next_seq e
          ∙ ap (λ l. l ++ e ∷ []) kept.whole
          ∙ append_assoc (contents log) es (e ∷ [])
          ∙ ap (λ (n : ℕ). contents log ++ (es ++ stamped now n evt ∷ [])) (sym is.at_counter);
    }

Appends-Kept : {log next : EventLog} {es : List OrderEvent} → Appends log es next → Kept log next es
unfolding contents
Appends-Kept {log} none_yet = record {
  grows = omega arith;
  below = refl;
  whole = sym (append-nil (contents log));
}
Appends-Kept (one_more {es} {mid} {next} {seq} now evt run is) =
    Appended-Kept now evt (Appends-Kept run) (append-Appended now evt mid next seq is)

-- When one thread has loaded the counter and another then appends any number of events before the
-- first goes on, the log first holds all of those, and in the end the first thread's event alone
-- after what was there when it loaded the counter: every event of the other thread is lost.
pub finish_append-loses :
    {log next : EventLog} {es : List OrderEvent} (now : ℕ) (evt : OrderEvent)
    → Appends log es next
    → (contents next ≡ contents log ++ es)
      × (contents (finish_append log.next_seq now evt next)
          ≡ contents log ++ stamped now log.next_seq evt ∷ [])
unfolding finish_append contents store_event store_next_seq store_header
finish_append-loses {log} {next} {es} now evt run =
    let kept = Appends-Kept run in
    let e = stamped now log.next_seq evt in
    (
      kept.whole,
      ap (λ (n : ℕ). collect (write_slot next.events log.next_seq e) n 0) {y = suc log.next_seq}
            (omega arith)
          ∙ collect-store next.events log.next_seq e
          ∙ ap (λ l. l ++ e ∷ []) kept.below,
    )

-- Alone, the steps after the load are the rest of `append`.
append-finish :
    (now : ℕ) (evt : OrderEvent) (log : EventLog)
    → log.next_seq < max_events
    → append now evt log ≡ ok (log.next_seq, finish_append log.next_seq now evt log)
unfolding append finish_append
append-finish now evt log room = ground arith
