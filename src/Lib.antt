-- ===== src/Lib.antt =====
-- The bookkeeping of the order book: a log of events, the orders and the positions that are
-- projected from it, the check before an order is sent, and the FIX gateway with its killswitch.
--
-- An `OrderEvent` (include/OrderEvent.h) is what everything happens through. The gateway
-- (gateway/FIXGateway.h, gateway/FIXGateway.cpp) makes one for an order that the strategy sends and,
-- by way of gateway/MessageTranslator.h, for a report that comes in; it appends it to the log
-- (include/EventLog.h) and applies it to the order manager (include/OrderManager.h) and the position
-- tracker (include/PositionTracker.h). Before it sends, it asks the risk checker
-- (include/RiskChecker.h), which reads both. The killswitch (gateway/Killswitch.h) turns the tables
-- into cancels and closing orders. After a restart src/main.cpp rebuilds both tables from the log.
--
-- Files:
--   Base and its children: the library's names passed on; lists measured by native numbers; ℤ with
--     C's division that rounds toward 0; `int32_t` and `int64_t` (Word); C strings in memory (Bytes);
--     std::to_string (Decimal, and Digits on its length).
--   OrderEvent: OrderEvent.h. make_fill, make_new_order, is_fill and the views have their names.
--   EventLog: EventLog.h. The state is the mapped file and `next_seq_`; `append` runs the list
--     `append_writes` of its three writes, `store_event`, `store_next_seq` and `store_header`.
--     Contents views a log as a list of events; Recovery is about the file after a stop; Readers
--     interleaves the writer, write by write, with a reader that replays (Safety on what it sees,
--     Progress on how long it takes); Race is about a writer that another one overtakes; Layout has
--     the file as bytes, which MappedFile is the abstraction of; Projection is the interface that
--     OrderManager and PositionTracker fill as states that are replayed.
--   SlotTable: the array of slots, the count and the search, which OrderManager.h and
--     PositionTracker.h each write out. A pointer to a slot is its index. Lookup and Upsert view a
--     table as the list of the slots in use; Distinct is about names that occur once, Images
--     about a table whose entries are changed and keep their names.
--   OrderManager: OrderManager.h. What a handler writes through the order's pointer is a function on
--     orders: `opened` for handle_new, `filled_by` for handle_fill, `cancelled_by`, `rejected_by` and
--     `amended_by`. Stamps forgets the sequence numbers, which live tables and replayed ones differ in.
--     History follows one order through its fills; Commute has the quotient of the lists of events
--     that forgets their stamps and how those of different orders are interleaved; States is about a
--     fill of an order that is not open.
--   PositionTracker: PositionTracker.h. `buy_fill` and `sell_fill` are the branches of apply_buy and
--     apply_sell.
--   RiskChecker: RiskChecker.h. The overloads of `check` are `check_with_orders` (positions and orders),
--     `check_position` (one position) and `check_tracker` (positions). Limits has the check in exact
--     integers, Precedence which limit a refusal names.
--   MessageTranslator: MessageTranslator.h, with a FIX message as the fields that are read or set;
--     RoundTrip is about an order and the report of its fill.
--     The conversions to double of the records stand in OrderEvent/Prices, OrderManager/Views and
--     PositionTracker/Views, which also have the texts for printing.
--   Killswitch: Killswitch.h, with what is handed to QuickFIX as a list. Coverage says what each message
--     is for, by the lists of Loops; Found is about the orders that they
--     name, Confirmed about the reports that confirm the cancels, Distinct about the ids.
--   FixGateway: FIXGateway.h and FIXGateway.cpp; Application is the interface of the callbacks
--     that QuickFIX calls, which Main calls them by; Effects says what each call does to the
--     books; `Runs`, in Recovery, is the step relation of a gateway from the rebuild on; Ids
--     and Session are about order ids, Restart about the ids after a restart, Reconcile and
--     Live about the positions against the orders, FullTable about an order that finds no slot, and
--     Trace about the line that is printed of a report.
--   Main: src/main.cpp, the process. What QuickFIX calls, and the signals, are a list of events for
--     each round of the strategy loop. Shutdown and Quiet say how the process ends, Restart what the
--     next one finds, by Everywhere, what all events keep; Connection is about the session.
--   The modules named Types, of OrderEvent, OrderManager, PositionTracker, MessageTranslator,
--     FixGateway and Main, are about the ranges of the C++ types; FixGateway/Durable is about
--     the header of the file and the log's counter.
--   Examples: sample values, and the theorems at them.
--
-- Conventions. Fields of signed types are ℤ and those of unsigned types ℕ. Every arithmetic result is
-- reduced to its type (`wrap32`, `wrap64`); a theorem in exact integers asks that the steps fit. An
-- enumeration has a further value `unset`, the zero that memset leaves. An exception is a value of the
-- result; a field of a message is absent, malformed or there (`Field`). Loops run on the table's or the log's count, which is the number of rounds they take, so
-- no fuel is invented. The strategy loop of `main` runs on a number of rounds; with more rounds than
-- the signal's it does not run out (main-shutdown).
--
-- Parameters: the clock and the answers of the system calls are arguments; whether QuickFIX knows the
-- session is a Boolean; arithmetic on `double` is the record `Floats`.
--
-- Not modelled: printing, but for the arguments of the line of onMessage and the texts; the time
-- stamps that QuickFIX puts into messages, its threads and its session; and the benchmarks. A
-- release store of the log's counter makes the writes before it visible to an acquire load; the
-- steps of Readers act on one log for that reason. Race has two threads in `append`. Elsewhere the
-- methods run one after the other, as the single writer that the gateway assumes, and a signal comes
-- between them. The destructors are left out.
pub mod Base
pub mod OrderEvent
pub mod EventLog
pub mod SlotTable
pub mod OrderManager
pub mod PositionTracker
pub mod RiskChecker
pub mod MessageTranslator
pub mod Killswitch
pub mod FixGateway
pub mod Main
mod Examples
