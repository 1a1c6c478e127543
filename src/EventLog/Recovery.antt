-- ===== src/EventLog/Recovery.antt =====
-- What a reopened file holds: after appends, and after a crash between the writes of an append.
-- A crash of the process keeps the writes made so far, in program order.
use hft_order_book.Base.{
  ℕ, zero, suc, ◌≡◌, refl, sym, ap, ◌∙◌, true, inl, inr, List, [], ◌∷◌, ◌++◌, take, leb,
  if◌then◌else◌, Bool-cases, arith,
}
use mathlib.Core.Path.{subst}
use hft_order_book.OrderEvent.{OrderEvent}
use hft_order_book.EventLog.{
  EventLog, MappedFile, FileSystem, log_magic, max_events, ok, store_event, store_next_seq,
  store_header, append_writes, run_writes, append, open_or_create,
}
use hft_order_book.EventLog.Contents.{collect, contents, stamped, collect-write_slot, collect-store}

-- The header agrees with the counter.
pub record IsDurable (log : EventLog) : Type 0 where
  pub marked : log.header.magic ≡ log_magic
  pub counted : log.header.next_sequence ≡ log.next_seq

-- Every log that opens is durable.
pub open_or_create-IsDurable :
    (fs : FileSystem) (log : EventLog) → open_or_create fs ≡ ok log → IsDurable log
unfolding open_or_create
open_or_create-IsDurable fs log h = ground arith

pub append-IsDurable :
    (now seq : ℕ) (e : OrderEvent) (log log' : EventLog)
    → append now e log ≡ ok (seq, log')
    → IsDurable log
    → IsDurable log'
unfolding append
append-IsDurable now seq e log log' h d = ground arith

-- The file of an earlier run, found again.
abbrev pub existing : MappedFile → FileSystem
existing file = record { exists = true; opens = true; truncates = true; maps = true; mapped = file }

-- Reopening the file of a durable log (marked, and with the counter in its header) gives the log back.
pub reopen : (log : EventLog) → IsDurable log → open_or_create (existing log.file) ≡ ok log
unfolding open_or_create
reopen log d = ground arith

-- What the log holds when its file is opened again.
abbrev pub Reopens : EventLog → List OrderEvent → Type 0
Reopens log es =
    (log' : EventLog) × (open_or_create (existing log.file) ≡ ok log') × (contents log' ≡ es)

-- A successful `append` takes the counter as its place, and leaves what its writes lead to.
append-run_writes :
    (now seq : ℕ) (evt : OrderEvent) (log log' : EventLog)
    → append now evt log ≡ ok (seq, log')
    → (log.next_seq ≡ seq) × (run_writes (append_writes seq (stamped now seq evt)) log ≡ log')
unfolding append
append-run_writes now seq evt log log' h = elim (Bool-cases (leb max_events log.next_seq)) [
  | inl full ↦ absurd (cc (rw full at h))
  | inr room ↦
      let done : ok (
        log.next_seq,
        run_writes (append_writes log.next_seq (stamped now log.next_seq evt)) log,
      )
          ≡ ok (seq, log') =
        rw room at h in
      let place : log.next_seq ≡ seq = cc done in
      let after : run_writes (append_writes log.next_seq (stamped now log.next_seq evt)) log
          ≡ log' =
        cc done in
      (
        place,
        ap (λ (n : ℕ). run_writes (append_writes n (stamped now n evt)) log) (sym place) ∙ after,
      )
]

-- What the log, and its file when it is opened again, hold after the first writes of an append.
abbrev pub HoldsAfter : ℕ → EventLog → List OrderEvent → List OrderEvent → Type 0
HoldsAfter k log old new =
    (contents log ≡ (if leb 2 k then new else old)) × Reopens log (if leb 3 k then new else old)

counted_contents :
    (e : OrderEvent) (log : EventLog)
    → contents (store_next_seq log.next_seq (store_event log.next_seq e log))
      ≡ contents log ++ e ∷ []
unfolding contents store_event store_next_seq
counted_contents e log =
    ap (λ (n : ℕ). collect (store_event log.next_seq e log).events n 0) {y = suc log.next_seq}
      (omega arith)
    ∙ collect-store log.events log.next_seq e

written_contents :
    (e : OrderEvent) (log : EventLog) → contents (store_event log.next_seq e log) ≡ contents log
unfolding contents store_event
written_contents e log = collect-write_slot log.events log.next_seq 0 log.next_seq e (omega arith)

holds_after :
    (k : ℕ) (e : OrderEvent) (log : EventLog)
    → IsDurable log
    → HoldsAfter k
        (run_writes (take k (append_writes log.next_seq e)) log)
        (contents log)
        (contents log ++ e ∷ [])
unfolding open_or_create store_event store_next_seq store_header contents
holds_after zero e log d = (refl, (log, reopen log d, refl))
holds_after (suc zero) e log d =
    (written_contents e log, (store_event log.next_seq e log, ground arith, written_contents e log))
holds_after (suc (suc zero)) e log d =
    (counted_contents e log, (store_event log.next_seq e log, ground arith, written_contents e log))
holds_after (suc (suc (suc zero))) e log d = (
  counted_contents e log,
  (run_writes (append_writes log.next_seq e) log, ground arith, counted_contents e log),
)
holds_after (suc (suc (suc (suc k)))) e log d =
    let two : leb 2 (suc (suc (suc (suc k)))) ≡ true = ground arith in
    let three : leb 3 (suc (suc (suc (suc k)))) ≡ true = ground arith in
    rw (two, three)
      (
        counted_contents e log,
        (run_writes (append_writes log.next_seq e) log, ground arith, counted_contents e log),
      )

-- If the writes of a successful append to a durable log reach the file in program order, then after
-- any number of them the log holds the old events until the counter is written, and then the new one
-- too; the file, opened again, holds the old events until all three writes are made, and then the
-- new one too. The log that append leaves is what all three writes lead to.
pub append_atomic :
    (k now seq : ℕ) (evt : OrderEvent) (log log' : EventLog)
    → append now evt log ≡ ok (seq, log')
    → IsDurable log
    → (run_writes (append_writes seq (stamped now seq evt)) log ≡ log')
      × HoldsAfter k
          (run_writes (take k (append_writes seq (stamped now seq evt))) log)
          (contents log)
          (contents log ++ stamped now seq evt ∷ [])
append_atomic k now seq evt log log' h d =
    let (place, after) = append-run_writes now seq evt log log' h in
    (
      after,
      subst
          (λ (n : ℕ).
            HoldsAfter k (run_writes (take k (append_writes n (stamped now n evt))) log)
              (contents log) (contents log ++ stamped now n evt ∷ []))
          place (holds_after k (stamped now log.next_seq evt) log d),
    )
