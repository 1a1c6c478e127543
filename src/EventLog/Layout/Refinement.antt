-- ===== src/EventLog/Layout/Refinement.antt =====
-- The header and the array of events as an abstraction of the bytes of the file: the writes of `append`
-- on bytes are its writes on them.
use hft_order_book.Base.{
  ℕ, ◌+◌, ◌^◌, ◌≤◌, ◌<◌, ◌==◌, ◌≡◌, sym, ap, ◌∙◌, some, length, Bool-cases, false, inl, inr, [],
  ◌⊎◌, arith,
}
use mathlib.Core.List.{append-nil}
use hft_order_book.Base.Bytes.{Bytes}
use hft_order_book.OrderEvent.{OrderEvent}
use hft_order_book.OrderEvent.Types.{IsEvent}
use hft_order_book.EventLog.{
  MappedFile, EventLog, max_events, ok, append, store_event, store_next_seq, store_header,
}
use hft_order_book.EventLog.Contents.{stamped}
use hft_order_book.EventLog.Layout.{
  le, from_le, event_bytes, event_of_bytes, read_bytes, write_bytes, event_size, file_size,
  slot_offset, write_event, read_event, read_u64, write_counter,
}
use hft_order_book.EventLog.Layout.RoundTrip.{
  values, from_le-le, length-le, event_of_bytes-event_bytes, length-event_bytes, write_bytes-before,
  write_bytes-after, read_bytes-same, read_bytes-write_bytes,
}

-- The bytes stand for the header and the events.
pub record Represents (file : ℕ → ℕ) (mapped : MappedFile) : Type 0 where
  pub magic_is : read_u64 file 0 ≡ mapped.header.magic
  pub next_is : read_u64 file 8 ≡ mapped.header.next_sequence
  pub events_are : (j : ℕ) → j < max_events → read_event file j ≡ some (mapped.events j)

-- An event's bytes lie in the file.
slot_within :
    (seq : ℕ) (e : OrderEvent)
    → IsEvent e
    → seq < max_events
    → slot_offset seq + length (event_bytes e) ≤ file_size
slot_within seq e typed room = omega (arith, length-event_bytes e typed)

-- The slot that is written, and the others.
read_event-same :
    (file : ℕ → ℕ) (seq : ℕ) (e : OrderEvent)
    → IsEvent e
    → read_event (write_event file seq e) seq ≡ some e
unfolding read_event write_event
read_event-same file seq e typed =
    ap
      (λ (n : ℕ).
        event_of_bytes
          (read_bytes (write_bytes file (slot_offset seq) (event_bytes e)) (slot_offset seq) n))
      (sym (length-event_bytes e typed))
    ∙ ap event_of_bytes (read_bytes-write_bytes (event_bytes e) file (slot_offset seq))
    ∙ event_of_bytes-event_bytes e typed

-- What a write to a slot leaves of a run of bytes outside it.
write_event-apart :
    (file : ℕ → ℕ) (seq : ℕ) (e : OrderEvent) (offset n : ℕ)
    → IsEvent e
    → (offset + n ≤ slot_offset seq) ⊎ (slot_offset seq + event_size ≤ offset)
    → read_bytes (write_event file seq e) offset n ≡ read_bytes file offset n
unfolding write_event
write_event-apart file seq e offset n typed (inl before) =
    read_bytes-same n _ file offset
      (λ j low high. write_bytes-before (event_bytes e) file (slot_offset seq) j (omega arith))
write_event-apart file seq e offset n typed (inr after) =
    read_bytes-same n _ file offset (λ j low high.
      write_bytes-after (event_bytes e) file (slot_offset seq) j
        (omega (arith, length-event_bytes e typed)))

read_event-other :
    (file : ℕ → ℕ) (seq j : ℕ) (e : OrderEvent)
    → IsEvent e
    → (j == seq) ≡ false
    → read_event (write_event file seq e) j ≡ read_event file j
unfolding read_event
read_event-other file seq j e typed other =
    ap event_of_bytes (write_event-apart file seq e (slot_offset j) event_size typed (ground arith))

store_event-Represents :
    (file : ℕ → ℕ) (seq : ℕ) (e : OrderEvent) (log : EventLog)
    → IsEvent e
    → Represents file log.file
    → Represents (write_event file seq e) (store_event seq e log).file
unfolding store_event
store_event-Represents file seq e log typed r = record {
  magic_is =
      ap (λ bs. (from_le 8 bs).0) (write_event-apart file seq e 0 8 typed (inl (omega arith)))
      ∙ r.magic_is;
  next_is =
      ap (λ bs. (from_le 8 bs).0) (write_event-apart file seq e 8 8 typed (inl (omega arith)))
      ∙ r.next_is;
  events_are = λ j within. elim (Bool-cases (j == seq)) [
    | inl this ↦ rw this (
        ap (read_event (write_event file seq e)) {y = seq} (ground arith)
        ∙ read_event-same file seq e typed)
    | inr other ↦ rw other (read_event-other file seq j e typed other ∙ r.events_are j within)
  ];
}

write_counter-apart :
    (file : ℕ → ℕ) (k offset n : ℕ)
    → (offset + n ≤ 8) ⊎ (16 ≤ offset)
    → read_bytes (write_counter file k) offset n ≡ read_bytes file offset n
unfolding write_counter
write_counter-apart file k offset n (inl before) =
    read_bytes-same n _ file offset
      (λ j low high. write_bytes-before (le 8 k) file 8 j (omega arith))
write_counter-apart file k offset n (inr after) =
    read_bytes-same n _ file offset
      (λ j low high. write_bytes-after (le 8 k) file 8 j (omega (arith, length-le 8 k)))

read_u64-write_counter :
    (file : ℕ → ℕ) (k : ℕ) → k < values 8 → read_u64 (write_counter file k) 8 ≡ k
unfolding write_counter
read_u64-write_counter file k fits =
    ap (λ (n : ℕ). (from_le 8 (read_bytes (write_bytes file 8 (le 8 k)) 8 n)).0)
      (sym (length-le 8 k))
    ∙ ap (λ bs. (from_le 8 bs).0)
        (read_bytes-write_bytes (le 8 k) file 8 ∙ sym (append-nil (le 8 k)))
    ∙ ap (λ (p : ℕ × Bytes). p.0) (from_le-le 8 k [] fits)

store_header-Represents :
    (file : ℕ → ℕ) (seq : ℕ) (log : EventLog)
    → seq < max_events
    → Represents file log.file
    → Represents (write_counter file (seq + 1)) (store_header seq log).file
unfolding store_header read_event
store_header-Represents file seq log room r = record {
  magic_is =
      ap (λ bs. (from_le 8 bs).0) (write_counter-apart file (seq + 1) 0 8 (inl (omega arith)))
      ∙ r.magic_is;
  next_is = read_u64-write_counter file (seq + 1) (omega arith);
  events_are = λ j within.
      ap event_of_bytes
        (write_counter-apart file (seq + 1) (slot_offset j) event_size (inr (omega arith)))
      ∙ r.events_are j within;
}

stamped-IsEvent :
    (now seq : ℕ) (e : OrderEvent)
    → now < 2 ^ 64
    → seq < max_events
    → IsEvent e
    → IsEvent (stamped now seq e)
stamped-IsEvent now seq e now_fits room typed = record {
  sequence_fits = omega arith;
  timestamp_fits = now_fits;
  price_fits = typed.price_fits;
  fill_price_fits = typed.fill_price_fits;
  qty_fits = typed.qty_fits;
  fill_qty_fits = typed.fill_qty_fits;
  symbol_sized = typed.symbol_sized;
  order_id_sized = typed.order_id_sized;
}

-- What a successful append writes to the file.
append-file :
    (now seq : ℕ) (e : OrderEvent) (log log' : EventLog)
    → append now e log ≡ ok (seq, log')
    → (seq < max_events)
      × (log'.file ≡ (store_header seq (store_event seq (stamped now seq e) log)).file)
unfolding append store_event store_next_seq store_header
append-file now seq e log log' h = ground arith

-- Let the bytes of the file stand for the header and the events of a log. When an append of an event
-- within its types succeeds, the event's 64 bytes lie in the file, and the bytes with those and the
-- new counter written stand for the header and the events afterwards.
pub append-Represents :
    (now seq : ℕ) (e : OrderEvent) (log log' : EventLog) (file : ℕ → ℕ)
    → append now e log ≡ ok (seq, log')
    → IsEvent e
    → now < 2 ^ 64
    → Represents file log.file
    → let written = stamped now seq e in
      (slot_offset seq + length (event_bytes written) ≤ file_size)
      × Represents (write_counter (write_event file seq written) (seq + 1)) log'.file
append-Represents now seq e log log' file h typed now_fits r =
    let (room, same) = append-file now seq e log log' h in
    let kept = stamped-IsEvent now seq e now_fits room typed in
    (
      slot_within seq (stamped now seq e) kept room,
      rw same (
          store_header-Represents (write_event file seq (stamped now seq e)) seq
            (store_event seq (stamped now seq e) log) room
            (store_event-Represents file seq (stamped now seq e) log kept r)),
    )
