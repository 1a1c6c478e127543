-- ===== src/Examples/Layout.antt =====
-- The theorem on the bytes of the file at a new file, which is zero after its magic number.
use hft_order_book.Base.{some, ℕ, ◌+◌, ◌≤◌, ◌≡◌, refl, ap, ◌∙◌, length, arith}
use hft_order_book.Base.Bytes.{strncpy}
use hft_order_book.OrderEvent.{zero_event}
use hft_order_book.OrderEvent.Types.{IsEvent}
use hft_order_book.EventLog.{
  EventLog, log_magic, ok, append, store_event, store_next_seq, store_header,
}
use hft_order_book.EventLog.Contents.{stamped}
use hft_order_book.EventLog.Layout.{
  le, from_le, chars, event_bytes, event_of_bytes, read_bytes, write_bytes, read_u64, event_size,
  file_size, slot_offset, write_event, read_event, write_counter,
}
use hft_order_book.EventLog.Layout.RoundTrip.{length-le, write_bytes-after, read_bytes-same}
use hft_order_book.EventLog.Layout.Refinement.{Represents, append-Represents}
use hft_order_book.Examples.Sample.{buy_order}

abbrev new_file : ℕ → ℕ
new_file = write_bytes (λ j. 0) 0 (le 8 log_magic)

abbrev new_log : EventLog
new_log = record {
  file = record {
    header = record { magic = log_magic; next_sequence = 0 };
    events = λ i. zero_event;
  };
  next_seq = 0;
}

magic_there : read_u64 new_file 0 ≡ log_magic
unfolding le from_le
magic_there = refl

no_count : read_u64 new_file 8 ≡ 0
unfolding le from_le
no_count = refl

zeros : event_of_bytes (read_bytes (λ j. 0) 0 event_size) ≡ some zero_event
unfolding event_of_bytes from_le chars zero_event strncpy
zeros = refl

new_file-Represents : Represents new_file new_log.file
unfolding read_event
new_file-Represents = record {
  magic_is = magic_there;
  next_is = no_count;
  events_are = λ j within.
      ap event_of_bytes (
        read_bytes-same event_size new_file (λ k. 0) (slot_offset j)
          (λ k low high.
            write_bytes-after (le 8 log_magic) (λ i. 0) 0 k (omega (arith, length-le 8 log_magic))))
      ∙ zeros;
}

buy_order-IsEvent : IsEvent buy_order
buy_order-IsEvent = record {
  sequence_fits = omega arith;
  timestamp_fits = omega arith;
  price_fits = omega arith;
  fill_price_fits = omega arith;
  qty_fits = omega arith;
  fill_qty_fits = omega arith;
  symbol_sized = refl;
  order_id_sized = refl;
}

abbrev one_order : EventLog
one_order = store_header 0 (store_next_seq 0 (store_event 0 (stamped 5 0 buy_order) new_log))

append_first : append 5 buy_order new_log ≡ ok (0, one_order)
unfolding append
append_first = refl

append-Represents_example :
    (slot_offset 0 + length (event_bytes (stamped 5 0 buy_order)) ≤ file_size)
    × Represents (write_counter (write_event new_file 0 (stamped 5 0 buy_order)) 1) one_order.file
append-Represents_example =
    append-Represents 5 0 buy_order new_log one_order new_file append_first buy_order-IsEvent
      (omega arith) new_file-Represents
