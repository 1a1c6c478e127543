-- ===== src/PositionTracker/Lookup.antt =====
-- What an event does to one position, and that `apply_event` does this to the position it names and
-- nothing to any other; properties of single positions that every event keeps.
use hft_order_book.Base.{
  ◌≤◌, ◌≡◌, refl, inl, inr, ◌&&◌, none, List, [], ◌∷◌, leb, if◌then◌else◌, arith, Bool-cases,
}
use mathlib.Core.Option
use hft_order_book.Base.Int.{ℤ}
use hft_order_book.Base.Bytes.{StringView, strncpy, strncmp_eq}
use hft_order_book.OrderEvent.{OrderEvent, is_buy, is_fill, symbol_view}
use hft_order_book.EventLog.{EventLog, replay}
use hft_order_book.EventLog.Projection.{Projection, replay_from-contents, replay_from-kept}
use hft_order_book.EventLog.Contents.{contents}
use hft_order_book.SlotTable.Lookup.{entries, IsTable, clear-IsTable, update_at-IsTable, foldl}
use hft_order_book.SlotTable.Upsert.{upsert_entry, get-upsert, get-update_at}
use hft_order_book.SlotTable.Distinct.{
  Distinct, upsert-IsTable, upsert-Distinct, update_at-Distinct, clear-Distinct, upsert-count-ge,
}
use hft_order_book.PositionTracker.{
  Position, PositionTracker, max_symbols, position_name, blank_position, empty, apply_fill,
  apply_event, buy_fill, sell_fill, replay_from, find, get, marked_at, mark_to_market,
}

-- The array has its size, the count is within it, and no two positions share a symbol.
pub record IsValid (t : PositionTracker) : Type 0 where
  pub table : IsTable max_symbols t
  pub distinct : Distinct position_name (entries t)

buy_fill-name : (qty price : ℤ) (p : Position) → (buy_fill qty price p).symbol ≡ p.symbol
unfolding buy_fill
buy_fill-name qty price p = ground arith

sell_fill-name : (qty price : ℤ) (p : Position) → (sell_fill qty price p).symbol ≡ p.symbol
unfolding sell_fill
sell_fill-name qty price p = ground arith

pub apply_fill-name :
    (e : OrderEvent) (p : Position) → position_name (apply_fill e p) ≡ position_name p
unfolding apply_fill
apply_fill-name e p = elim (Bool-cases (is_buy e.side)) [
  | inl b ↦ rw (b, apply_fill) (buy_fill-name e.fill_qty e.fill_price _)
  | inr b ↦ rw (b, apply_fill) (sell_fill-name e.fill_qty e.fill_price _)
]

pub marked_at-name :
    (price : ℤ) (p : Position) → position_name (marked_at price p) ≡ position_name p
unfolding marked_at
marked_at-name price p = ground arith

pub empty-IsValid : IsValid empty
unfolding empty
empty-IsValid = record {
  table = clear-IsTable max_symbols (blank_position (strncpy [] 8));
  distinct = clear-Distinct position_name max_symbols (blank_position (strncpy [] 8));
}

pub get-empty : (w : StringView) → get empty w ≡ none
unfolding get empty
get-empty w = refl

-- Every event keeps the position table valid: within its array, and with no symbol twice.
pub apply_event-IsValid :
    (t : PositionTracker) (e : OrderEvent) → IsValid t → IsValid (apply_event t e)
unfolding apply_event
apply_event-IsValid t e v = elim (Bool-cases (is_fill e)) [
  | inl fill ↦
      rw (fill, apply_event)
        (record {
          table =
              upsert-IsTable position_name max_symbols blank_position (apply_fill e) t
                (symbol_view e) v.table;
          distinct =
              upsert-Distinct position_name max_symbols blank_position (apply_fill e) t
                (symbol_view e) (apply_fill-name e) (λ k. refl) v.table v.distinct;
        })
  | inr other ↦ rw (other, apply_event) v
]

pub mark_to_market-IsValid :
    (sym : StringView) (price : ℤ) (t : PositionTracker)
    → IsValid t
    → IsValid (mark_to_market sym price t)
unfolding mark_to_market
mark_to_market-IsValid sym price t v = record {
  table = update_at-IsTable max_symbols (marked_at price) (find t sym) t v.table;
  distinct =
      update_at-Distinct position_name (marked_at price) t sym (marked_at-name price) v.distinct;
}

-- After a fill on a valid table, `get` finds the changed position under the fill's symbol (a new one only if there is
-- a slot for it), and under every other symbol what it found before; other events change nothing.
pub get-apply_event_position :
    (t : PositionTracker) (e : OrderEvent) (w : StringView)
    → IsValid t
    → get (apply_event t e) w ≡ (
        if is_fill e && strncmp_eq e.symbol w.data_bytes 8
        then upsert_entry
            (apply_fill e)
            (blank_position (strncpy e.symbol 8))
            (leb max_symbols t.count)
            (get t w)
        else get t w)
unfolding apply_event get symbol_view
get-apply_event_position t e w v = elim (Bool-cases (is_fill e)) [
  | inl fill ↦
      rw (fill, apply_event)
        (get-upsert position_name max_symbols blank_position (apply_fill e) t (symbol_view e) w
          (apply_fill-name e) (λ k. refl) v.table)
  | inr other ↦ rw (other, apply_event)
]

-- Marking changes the position of its symbol alone, and makes none.
pub get-mark_to_market :
    (sym w : StringView) (price : ℤ) (t : PositionTracker)
    → get (mark_to_market sym price t) w ≡ (
        if strncmp_eq sym.data_bytes w.data_bytes 8
        then Option.map (marked_at price) (get t w)
        else get t w)
unfolding mark_to_market get
get-mark_to_market sym w price t =
    get-update_at position_name (marked_at price) t sym w (marked_at-name price)

-- No event frees a slot.
pub count-apply_event : (t : PositionTracker) (e : OrderEvent) → t.count ≤ (apply_event t e).count
unfolding apply_event
count-apply_event t e = elim (Bool-cases (is_fill e)) [
  | inl fill ↦
      rw (fill, apply_event)
        (upsert-count-ge position_name max_symbols blank_position (apply_fill e) t (symbol_view e))
  | inr other ↦ rw (other, apply_event) (omega arith)
]

pub count-foldl-apply_event :
    (es : List OrderEvent) (t : PositionTracker) → t.count ≤ (foldl apply_event t es).count
count-foldl-apply_event [] t = omega arith
count-foldl-apply_event (e ∷ es) t =
    omega (arith, count-apply_event t e, count-foldl-apply_event es (apply_event t e))

pub replay_from-replay : (log : EventLog) → replay_from log ≡ replay apply_event log empty
unfolding replay_from
replay_from-replay log = refl

-- The positions as a projection of the log.
abbrev pub positions_projection : Projection PositionTracker
positions_projection = record {
  empty = empty;
  apply_event = apply_event;
  replay_from = replay_from;
  replays = replay_from-replay;
}

-- Replay is the fold of the events over the empty table.
pub replay_from-foldl : (log : EventLog) → replay_from log ≡ foldl apply_event empty (contents log)
replay_from-foldl = replay_from-contents positions_projection

pub replay_from-IsValid : (log : EventLog) → IsValid (replay_from log)
replay_from-IsValid =
    replay_from-kept positions_projection IsValid empty-IsValid (λ t e v. apply_event-IsValid t e v)
