-- ===== src/Examples/Readers.antt =====
-- The theorems on threads at the log. A reader beside the writer: the log gets one event, a second one
-- is written but not counted while the reader runs, and is counted before the reader ends. Two writers:
-- a fill is appended before another append has stored the counter.
use hft_order_book.Base.{◌≤◌, ◌+◌, ◌⊎◌, length, ◌≡◌, refl, List, [], ◌∷◌, ◌++◌, arith}
use hft_order_book.OrderEvent.{OrderEvent}
use hft_order_book.EventLog.{
  EventLog, max_events, append, store_event, store_next_seq, store_header,
}
use hft_order_book.EventLog.Contents.{contents, stamped}
use hft_order_book.EventLog.Readers.{
  System, Step, Reach, idle, writing, counting, before, reading, finished,
}
use hft_order_book.EventLog.Readers.Safety.{replay_interleaved}
use hft_order_book.EventLog.Readers.Progress.{reader_turn, reader_steps, replay-wait_free}
use hft_order_book.EventLog.Race.{finish_append, Appends, finish_append-loses}
use hft_order_book.Examples.Sample.{empty_log, buy_order, part_fill}

-- The order and its fill as they are to be stored, at times 5 and 9.
abbrev first_event : OrderEvent
first_event = stamped 5 0 buy_order

abbrev second_event : OrderEvent
second_event = stamped 9 1 part_fill

abbrev second_at_0 : OrderEvent
second_at_0 = stamped 9 0 part_fill

abbrev one_event : EventLog
one_event = store_header 0 (store_next_seq 0 (store_event 0 first_event empty_log))

-- The reader has the first event, and the slot of the second holds the event without its stamp.
abbrev half_written : System
half_written = record {
  log = store_event 1 part_fill one_event;
  writer = writing 1 second_event;
  reader = reading 1 1 (first_event ∷ []);
  history = first_event ∷ [];
}

first_append :
    Reach empty_log
      (record { log = one_event; writer = idle; reader = before; history = first_event ∷ [] })
unfolding store_event store_next_seq store_header
first_append =
    Reach.later
      (Reach.later
        (Reach.later (Reach.later Reach.start (Step.begin 5 buy_order refl (omega arith)))
          (Step.write_last refl))
        (Step.publish refl))
      (Step.persist refl)

first_half : Reach empty_log half_written
unfolding store_event store_next_seq store_header
first_half =
    Reach.later
      (Reach.later
        (Reach.later (Reach.later first_append (Step.begin 9 part_fill refl (omega arith)))
          (Step.load refl))
        (Step.write_part part_fill refl))
      (Step.visit refl (omega arith))

abbrev done : System
done = record {
  log = store_next_seq 1 (store_event 1 second_event (store_event 1 part_fill one_event));
  writer = counting 1;
  reader = finished (first_event ∷ []);
  history = first_event ∷ second_event ∷ [];
}

second_half : Reach empty_log done
second_half =
    Reach.later (Reach.later (Reach.later first_half (Step.write_last refl)) (Step.publish refl))
      (Step.finish refl (omega arith))

replay_interleaved_example :
    (contents done.log ≡ contents empty_log ++ done.history)
    × ((new : List OrderEvent) × (more : List OrderEvent) × (first_event ∷ []
          ≡ contents empty_log ++ new)
        × (done.history ≡ new ++ more))
replay_interleaved_example = replay_interleaved second_half refl

replay-wait_free_example :
    (reader_steps second_half ≤ max_events + 2)
    × ((seen : List OrderEvent)
        → done.reader ≡ finished seen
        → reader_steps second_half ≡ length seen + 2)
    × (((seen : List OrderEvent) × (done.reader ≡ finished seen))
        ⊎ ((t : System) × (step : Step done t) × (reader_turn step ≡ 1)))
replay-wait_free_example = replay-wait_free second_half (omega arith)

-- The fill is appended while another append, at time 5, has loaded the counter.
one_append : Appends empty_log (second_at_0 ∷ []) (finish_append 0 9 part_fill empty_log)
unfolding append finish_append
one_append = Appends.one_more 9 part_fill Appends.none_yet refl

finish_append-loses_example :
    (contents (finish_append 0 9 part_fill empty_log) ≡ contents empty_log ++ second_at_0 ∷ [])
    × (contents (finish_append 0 5 buy_order (finish_append 0 9 part_fill empty_log))
        ≡ contents empty_log ++ first_event ∷ [])
finish_append-loses_example = finish_append-loses 5 buy_order one_append
