-- ===== src/Examples/Log.antt =====
-- The event log's theorems at small logs.
use hft_order_book.Base.{take, ◌≡◌, refl, [], ◌∷◌, ◌++◌}
use hft_order_book.EventLog.{EventLog, ok, append, append_writes, run_writes}
use hft_order_book.EventLog.Contents.{contents, stamped}
use hft_order_book.EventLog.Recovery.{IsDurable, HoldsAfter, append_atomic}
use hft_order_book.Examples.Sample.{buy_order, part_fill, two_events}

two_events-contents : contents two_events ≡ buy_order ∷ part_fill ∷ []
unfolding contents
two_events-contents = refl

two_events-IsDurable : IsDurable two_events
two_events-IsDurable = record { marked = refl; counted = refl }

abbrev three_events : EventLog
three_events = run_writes (append_writes 2 (stamped 7 2 part_fill)) two_events

third_appended : append 7 part_fill two_events ≡ ok (2, three_events)
unfolding append
third_appended = refl

-- A stop after two of the three writes.
append_atomic_example :
    (run_writes (append_writes 2 (stamped 7 2 part_fill)) two_events ≡ three_events)
    × HoldsAfter 2
        (run_writes (take 2 (append_writes 2 (stamped 7 2 part_fill))) two_events)
        (contents two_events)
        (contents two_events ++ stamped 7 2 part_fill ∷ [])
append_atomic_example =
    append_atomic 2 7 2 part_fill two_events three_events third_appended two_events-IsDurable
