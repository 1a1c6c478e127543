-- ===== src/EventLog.antt =====
-- include/EventLog.h: the append-only log in a memory-mapped file. Children: Contents (the log as
-- a list of events), Recovery (what a reopened file holds), Readers (a reader beside the writer),
-- Race (two writers), Layout (the bytes of the file), Projection (states that are replayed).
pub mod Contents
pub mod Recovery
pub mod Readers
pub mod Race
pub mod Layout
pub mod Projection
use hft_order_book.Base.{
  ℕ, zero, suc, ◌+◌, ◌*◌, ◌%◌, ◌^◌, ◌==◌, leb, if◌then◌else◌, Bool, Option, none, some, List, [],
  ◌∷◌,
}
use hft_order_book.OrderEvent.{OrderEvent}

pub record LogHeader : Type 0 where
  pub magic : ℕ
  pub next_sequence : ℕ

abbrev pub log_magic : ℕ
log_magic = 0xBAAD_F00D_1337_CAFE

abbrev pub max_events : ℕ
max_events = 10_000_000

-- The mapped file: the header, and the array of max_events events by index.
pub record MappedFile : Type 0 where
  pub header : LogHeader
  pub events : ℕ → OrderEvent

-- The object: the mapping and the atomic `next_seq_`.
pub record EventLog : Type 0 where
  pub file : MappedFile
  pub open file use *
  pub next_seq : ℕ

pub data Error : Type 0 where
  log_full cannot_open ftruncate_failed mmap_failed corrupt_file : Error

pub data Result {ℓ} (A : Type ℓ) : Type ℓ where
  ok : A → Result A
  err : Error → Result A

-- `events_[i] = e`
abbrev pub write_slot : (ℕ → OrderEvent) → ℕ → OrderEvent → ℕ → OrderEvent
write_slot events i e j = if j == i then e else events j

-- The three writes of `append`.
unfoldable pub store_event : ℕ → OrderEvent → EventLog → EventLog
store_event seq e log = record log {
  file = record log.file { events = write_slot log.events seq e };
}

unfoldable pub store_next_seq : ℕ → EventLog → EventLog
store_next_seq seq log = record log { next_seq = seq + 1 }

unfoldable pub store_header : ℕ → EventLog → EventLog
store_header seq log = record log {
  file = record log.file { header = record log.header { next_sequence = seq + 1 } };
}

-- `now_ns()` of what `clock_gettime` gives; both parts are converted to uint64_t.
unfoldable pub now_ns : ℕ → ℕ → ℕ
now_ns tv_sec tv_nsec = (tv_sec * 1_000_000_000 + tv_nsec) % 2 ^ 64

-- What `append` writes, in program order.
abbrev pub append_writes : ℕ → OrderEvent → List (EventLog → EventLog)
append_writes seq e = store_event seq e ∷ store_next_seq seq ∷ store_header seq ∷ []

-- The log after writes.
abbrev pub run_writes : List (EventLog → EventLog) → EventLog → EventLog
run_writes [] log = log
run_writes (w ∷ ws) log = run_writes ws (w log)

-- `now` is what `now_ns()` reads from the system's clock.
unfoldable pub append : ℕ → OrderEvent → EventLog → Result (ℕ × EventLog)
unfolding store_event store_next_seq store_header
append now evt log =
    let seq = log.next_seq in
    if leb max_events seq
    then err log_full
    else (let e : OrderEvent = record evt { sequence = seq; timestamp_ns = now } in
        ok (seq, run_writes (append_writes seq e) log))

unfoldable pub read : ℕ → EventLog → Option OrderEvent
read seq log = if leb log.next_seq seq then none else some (log.events seq)

-- The loop of `replay`, with the rounds left and the index; `fn` updates the state it captures.
replay_rounds {ℓ} : {S : Type ℓ} → (S → OrderEvent → S) → (ℕ → OrderEvent) → ℕ → ℕ → S → S
replay_rounds fn events zero i s = s
replay_rounds fn events (suc n) i s = replay_rounds fn events n (i + 1) (fn s (events i))

unfoldable pub replay {ℓ} : {S : Type ℓ} → (S → OrderEvent → S) → EventLog → S → S
unfolding replay_rounds
replay fn log s = replay_rounds fn log.events log.next_seq 0 s

unfoldable pub size : EventLog → ℕ
size log = log.next_seq

unfoldable pub is_empty : EventLog → Bool
unfolding size
is_empty log = size log == 0

-- What the system calls of `open_or_create` answer: whether the path exists, whether each call
-- succeeds, and the bytes of the mapping.
pub record FileSystem : Type 0 where
  pub exists : Bool
  pub opens : Bool
  pub truncates : Bool
  pub maps : Bool
  pub mapped : MappedFile

-- A new file gets its header; an old one must carry the magic number.
unfoldable pub open_or_create : FileSystem → Result EventLog
open_or_create fs =
    if fs.opens
    then (if (if fs.exists then fs.exists else fs.truncates)
        then (if fs.maps
            then (if fs.exists
                then (if fs.mapped.header.magic == log_magic
                    then ok (record { file = fs.mapped; next_seq = fs.mapped.header.next_sequence })
                    else err corrupt_file)
                else ok (record {
                  file = record fs.mapped {
                    header = record { magic = log_magic; next_sequence = 0 };
                  };
                  next_seq = 0;
                }))
            else err mmap_failed)
        else err ftruncate_failed)
    else err cannot_open
