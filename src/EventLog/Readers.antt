-- ===== src/EventLog/Readers.antt =====
-- The one writer and a reader of the log, interleaved: `append` in its separate writes, where the
-- event is not written at once, and `replay` with one load of the counter and then one event a step.
-- A store of `next_seq_` with release order makes the event that was written before it visible to a
-- load with acquire order, so the steps act on one log.
-- Children: Safety (what the reader sees), Progress (how many steps it takes).
pub mod Safety
pub mod Progress
use hft_order_book.Base.{
  ℕ, zero, suc, ◌+◌, ◌-◌, ◌≤◌, ◌<◌, ◌≡◌, refl, sym, ap, ◌∙◌, List, [], ◌∷◌, ◌++◌, append_cancel,
  arith,
}
use mathlib.Core.Path.{subst}
use hft_order_book.OrderEvent.{OrderEvent}
use hft_order_book.EventLog.{
  EventLog, max_events, write_slot, store_event, store_next_seq, store_header,
}
use mathlib.Core.List.{append_assoc, append-nil}
use hft_order_book.EventLog.Contents.{
  collect, contents, stamped, collect-write_slot, collect-prefix, seen_more,
}

-- Where the writer stands in `append`, with the sequence number that it has loaded and the event to
-- append: writing it, having written it, and having counted it.
pub data Writer : Type 0 where
  idle : Writer
  writing written : ℕ → OrderEvent → Writer
  counting : ℕ → Writer

-- Where a reader stands in `replay`: the loaded head, the index, and the events that `fn` was called on.
pub data Reader : Type 0 where
  before : Reader
  reading : ℕ → ℕ → List OrderEvent → Reader
  finished : List OrderEvent → Reader

-- The log, both threads, and the events that were to be appended and have been counted.
pub record System : Type 0 where
  pub log : EventLog
  pub writer : Writer
  pub reader : Reader
  pub history : List OrderEvent

pub data Step (s : System) : System → Type 0 where
  -- The writer loads the counter, and the log is not full.
  begin :
      (now : ℕ) (evt : OrderEvent)
      → s.writer ≡ idle
      → s.log.next_seq < max_events
      → Step s (record s { writer = writing s.log.next_seq (stamped now s.log.next_seq evt) })
  -- Some bytes of the slot are written, so it holds any event.
  write_part :
      {seq : ℕ} {e : OrderEvent} (torn : OrderEvent)
      → s.writer ≡ writing seq e
      → Step s (record s { log = store_event seq torn s.log })
  write_last :
      {seq : ℕ} {e : OrderEvent}
      → s.writer ≡ writing seq e
      → Step s (record s { log = store_event seq e s.log; writer = written seq e })
  -- The store of the counter, after the fence.
  publish :
      {seq : ℕ} {e : OrderEvent}
      → s.writer ≡ written seq e
      → Step s (record s {
        log = store_next_seq seq s.log;
        writer = counting seq;
        history = s.history ++ e ∷ [];
      })
  persist :
      {seq : ℕ}
      → s.writer ≡ counting seq
      → Step s (record s { log = store_header seq s.log; writer = idle })
  load : s.reader ≡ before → Step s (record s { reader = reading s.log.next_seq 0 [] })
  visit :
      {head i : ℕ} {seen : List OrderEvent}
      → s.reader ≡ reading head i seen
      → i < head
      → Step s (record s { reader = reading head (i + 1) (seen ++ s.log.events i ∷ []) })
  finish :
      {head i : ℕ} {seen : List OrderEvent}
      → s.reader ≡ reading head i seen
      → head ≤ i
      → Step s (record s { reader = finished seen })

-- The systems that a log leads to when the reader starts.
pub data Reach (log : EventLog) : System → Type 0 where
  start : Reach log (record { log = log; writer = idle; reader = before; history = [] })
  later : {s t : System} → Reach log s → Step s t → Reach log t
