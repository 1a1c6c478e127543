-- ===== src/EventLog/Contents.antt =====
-- The log as the list of the events below `next_seq_`: append, read, replay and size in its terms.
use hft_order_book.Base.{
  ℕ, zero, suc, ◌+◌, ◌-◌, ◌≤◌, sym, ◌<◌, ◌≡◌, refl, ap, ◌∙◌, ◌⊎◌, inl, inr, none, some, List, [],
  ◌∷◌, ◌++◌, leb, if◌then◌else◌, length, get_elem?, arith, Bool-cases,
}
use hft_order_book.OrderEvent.{OrderEvent}
use hft_order_book.SlotTable.Lookup.{foldl}
use hft_order_book.EventLog.{
  EventLog, max_events, ok, err, log_full, write_slot, store_event, store_next_seq, store_header,
  append, read, replay_rounds, replay,
}

-- The events at `i`, `i + 1`, … , `n` of them.
unfoldable pub collect : (ℕ → OrderEvent) → ℕ → ℕ → List OrderEvent
collect events zero i = []
collect events (suc n) i = events i ∷ collect events n (i + 1)

unfoldable pub contents : EventLog → List OrderEvent
unfolding collect
contents log = collect log.events log.next_seq 0

-- An event as `append` stores it.
abbrev pub stamped : ℕ → ℕ → OrderEvent → OrderEvent
stamped now seq e = record e { sequence = seq; timestamp_ns = now }

length-collect : (events : ℕ → OrderEvent) (n i : ℕ) → length (collect events n i) ≡ n
unfolding collect
length-collect events zero i = refl
length-collect events (suc n) i = ap suc (length-collect events n (i + 1))

pub length-contents : (log : EventLog) → length (contents log) ≡ log.next_seq
unfolding contents
length-contents log = length-collect log.events log.next_seq 0

pub collect-write_slot :
    (events : ℕ → OrderEvent) (n i k : ℕ) (e : OrderEvent)
    → i + n ≤ k
    → collect (write_slot events k e) n i ≡ collect events n i
unfolding collect
collect-write_slot events zero i k e h = refl
collect-write_slot events (suc n) i k e h =
    ground (arith, collect-write_slot events n (i + 1) k e (omega arith))

pub collect-suc :
    (events : ℕ → OrderEvent) (n i : ℕ)
    → collect events (suc n) i ≡ collect events n i ++ events (i + n) ∷ []
unfolding collect
collect-suc events zero i = ground arith
collect-suc events (suc n) i =
    ap (◌∷◌ (events i)) (collect-suc events n (i + 1))
    ∙ ap (λ (k : ℕ). events i ∷ (collect events n (i + 1) ++ events k ∷ [])) (omega arith)

-- The log after the event at `next_seq_` has been written and counted.
pub collect-store :
    (events : ℕ → OrderEvent) (n : ℕ) (e : OrderEvent)
    → collect (write_slot events n e) (suc n) 0 ≡ collect events n 0 ++ e ∷ []
collect-store events n e =
    collect-suc (write_slot events n e) n 0 ∙ ground (arith, collect-write_slot events n 0 n e)

-- The log that a successful `append` leaves.
appended : ℕ → OrderEvent → EventLog → EventLog
appended now e log =
    let seq = log.next_seq in
    store_header seq (store_next_seq seq (store_event seq (stamped now seq e) log))

contents-appended :
    (now : ℕ) (e : OrderEvent) (log : EventLog)
    → contents (appended now e log) ≡ contents log ++ stamped now log.next_seq e ∷ []
unfolding contents appended store_header store_next_seq store_event
contents-appended now e log =
    ap (λ (n : ℕ). collect (appended now e log).events n 0) {y = suc log.next_seq} (omega arith)
    ∙ collect-store log.events log.next_seq (stamped now log.next_seq e)

-- `append` refuses exactly a full log; else it adds the stamped event at the end of the contents
-- and returns its place there.
pub append-contents :
    (now : ℕ) (e : OrderEvent) (log : EventLog)
    → ((max_events ≤ length (contents log)) × (append now e log ≡ err log_full))
      ⊎ ((log' : EventLog) × (length (contents log) < max_events)
          × (append now e log ≡ ok (length (contents log), log'))
          × (contents log' ≡ contents log ++ stamped now (length (contents log)) e ∷ []))
unfolding append appended
append-contents now e log = elim (Bool-cases (leb max_events log.next_seq)) [
  | inl full ↦ inl (ground (arith, length-contents log), rw full)
  | inr room ↦ inr (
    appended now e log,
    ground (arith, length-contents log),
    rw (room, length-contents log),
    rw (length-contents log) (contents-appended now e log),
  )
]

get_elem?-collect :
    (events : ℕ → OrderEvent) (n i k : ℕ)
    → get_elem? (collect events n i) k ≡ (if leb n k then none else some (events (i + k)))
unfolding collect
get_elem?-collect events zero i k = ground arith
get_elem?-collect events (suc n) i zero = ground arith
get_elem?-collect events (suc n) i (suc k) = ground (arith, get_elem?-collect events n (i + 1) k)

-- `read` gives the event at that place of the contents, and none past the end.
pub read-contents : (seq : ℕ) (log : EventLog) → read seq log ≡ get_elem? (contents log) seq
unfolding read contents
read-contents seq log = ground (arith, get_elem?-collect log.events log.next_seq 0 seq)

replay_rounds-foldl {ℓ} :
    {S : Type ℓ} (fn : S → OrderEvent → S) (events : ℕ → OrderEvent) (n i : ℕ) (s : S)
    → replay_rounds fn events n i s ≡ foldl fn s (collect events n i)
unfolding replay_rounds collect
replay_rounds-foldl fn events zero i s = refl
replay_rounds-foldl fn events (suc n) i s =
    replay_rounds-foldl fn events n (i + 1) (fn s (events i))

-- `replay` calls its function on the contents, in order.
pub replay-contents {ℓ} :
    {S : Type ℓ} (fn : S → OrderEvent → S) (log : EventLog) (s : S)
    → replay fn log s ≡ foldl fn s (contents log)
unfolding replay contents
replay-contents fn log s = replay_rounds-foldl fn log.events log.next_seq 0 s

collect_split :
    (events : ℕ → OrderEvent) (a b i : ℕ)
    → collect events (a + b) i ≡ collect events a i ++ collect events b (i + a)
unfolding collect
collect_split events zero b i = ground arith
collect_split events (suc a) b i =
    ap (λ (n : ℕ). collect events n i) {y = suc (a + b)} (omega arith)
    ∙ ap (◌∷◌ (events i)) (collect_split events a b (i + 1))
    ∙ ap (λ (k : ℕ). events i ∷ (collect events a (i + 1) ++ collect events b k)) (omega arith)

-- The first events of a longer part are the shorter part.
pub collect-prefix :
    (events : ℕ → OrderEvent) (n m : ℕ)
    → n ≤ m
    → (rest : List OrderEvent) × (collect events m 0 ≡ collect events n 0 ++ rest)
collect-prefix events n m le = (
  collect events (m - n) (0 + n),
  ap (λ (k : ℕ). collect events k 0) {y = n + (m - n)} (omega arith)
      ∙ collect_split events n (m - n) 0,
)

pub seen_more :
    (events : ℕ → OrderEvent) (i : ℕ) (seen : List OrderEvent)
    → seen ≡ collect events i 0
    → seen ++ events i ∷ [] ≡ collect events (i + 1) 0
seen_more events i seen d =
    ap (λ l. l ++ events i ∷ []) d
    ∙ ap (λ (k : ℕ). collect events i 0 ++ events k ∷ []) {y = 0 + i} (omega arith)
    ∙ sym (collect-suc events i 0)
    ∙ ap (λ (n : ℕ). collect events n 0) {x = suc i} (omega arith)
