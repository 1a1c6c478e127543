-- ===== src/EventLog/Layout.antt =====
-- include/EventLog.h and include/OrderEvent.h, the bytes of the file: a header of 64 bytes and
-- then the events, each as the compiler lays the struct out on a little-endian machine, its
-- padding zero. Children: RoundTrip (what is written is what is read), Refinement (the bytes
-- stand for the file's header and events).
pub mod RoundTrip
pub mod Refinement
use hft_order_book.Base.{
  ℕ, zero, suc, ◌+◌, ◌*◌, ◌-◌, ◌%◌, ◌/◌, ◌^◌, ◌==◌, Option, none, some, List, [], ◌∷◌, ◌++◌,
  if◌then◌else◌,
}
use hft_order_book.Base.Int.{ℤ, pos, negsuc}
use hft_order_book.Base.Word.{signed32, signed64}
use hft_order_book.Base.Bytes.{Bytes}
use hft_order_book.OrderEvent.{EventType, Side, OrderEvent}
use hft_order_book.EventLog.{max_events}

-- A number as so many bytes, the lowest first, and back, with the bytes that follow.
unfoldable pub le : ℕ → ℕ → Bytes
le zero n = []
le (suc w) n = n % 256 ∷ le w (n / 256)

abbrev pub with_low : ℕ → ℕ × Bytes → ℕ × Bytes
with_low b (n, rest) = (b + 256 * n, rest)

unfoldable pub from_le : ℕ → Bytes → ℕ × Bytes
from_le zero bs = (0, bs)
from_le (suc w) [] = (0, [])
from_le (suc w) (b ∷ bs) = with_low b (from_le w bs)

-- The bit patterns of the signed types.
abbrev pub bits32 : ℤ → ℕ
bits32 (pos n) = n
bits32 (negsuc n) = 2 ^ 32 - 1 - n

abbrev pub bits64 : ℤ → ℕ
bits64 (pos n) = n
bits64 (negsuc n) = 2 ^ 64 - 1 - n

-- The enumerators.
abbrev pub type_code : EventType → ℕ
type_code EventType.unset = 0
type_code EventType.new_order = 1
type_code EventType.partial_fill = 2
type_code EventType.full_fill = 3
type_code EventType.cancel = 4
type_code EventType.reject = 5
type_code EventType.amend = 6

abbrev pub type_of_code : ℕ → Option EventType
type_of_code c =
    if c == 0
    then some EventType.unset
    else (if c == 1
        then some EventType.new_order
        else (if c == 2
            then some EventType.partial_fill
            else (if c == 3
                then some EventType.full_fill
                else (if c == 4
                    then some EventType.cancel
                    else (if c == 5
                        then some EventType.reject
                        else (if c == 6 then some EventType.amend else none))))))

abbrev pub side_code : Side → ℕ
side_code Side.unset = 0
side_code Side.buy = 1
side_code Side.sell = 2

abbrev pub side_of_code : ℕ → Option Side
side_of_code c =
    if c == 0
    then some Side.unset
    else (if c == 1 then some Side.buy else (if c == 2 then some Side.sell else none))

abbrev pub padding : Bytes
padding = 0 ∷ 0 ∷ 0 ∷ 0 ∷ 0 ∷ 0 ∷ []

-- The 64 bytes of an event.
unfoldable pub event_bytes : OrderEvent → Bytes
event_bytes e =
    le 8 e.sequence
    ++ (le 8 e.timestamp_ns
        ++ (le 8 (bits64 e.price)
            ++ (le 8 (bits64 e.fill_price)
                ++ (le 4 (bits32 e.qty)
                    ++ (le 4 (bits32 e.fill_qty)
                        ++ (e.symbol
                            ++ (e.order_id ++ type_code e.type ∷ side_code e.side ∷ padding)))))))

-- So many characters, and the bytes that follow.
unfoldable pub chars : ℕ → Bytes → Bytes × Bytes
chars zero bs = ([], bs)
chars (suc n) [] = ([], [])
chars (suc n) (b ∷ bs) = let (cs, rest) = chars n bs in (b ∷ cs, rest)

abbrev pub coded : OrderEvent → Option EventType → Option Side → Option OrderEvent
coded e (some t) (some s) = some (record e { type = t; side = s })
coded e _ _ = none

-- The enumerators are read last; a byte that is none of them makes no event.
abbrev pub with_codes : OrderEvent → Bytes → Option OrderEvent
with_codes e (t ∷ s ∷ rest) = coded e (type_of_code t) (side_of_code s)
with_codes e _ = none

-- The event that 64 bytes are.
unfoldable pub event_of_bytes : Bytes → Option OrderEvent
event_of_bytes bs =
    let (sequence, bs1) = from_le 8 bs in
    let (timestamp_ns, bs2) = from_le 8 bs1 in
    let (price, bs3) = from_le 8 bs2 in
    let (fill_price, bs4) = from_le 8 bs3 in
    let (qty, bs5) = from_le 4 bs4 in
    let (fill_qty, bs6) = from_le 4 bs5 in
    let (symbol, bs7) = chars 8 bs6 in
    let (order_id, bs8) = chars 8 bs7 in
    with_codes
      (record {
        sequence = sequence;
        timestamp_ns = timestamp_ns;
        price = signed64 price;
        fill_price = signed64 fill_price;
        qty = signed32 qty;
        fill_qty = signed32 fill_qty;
        symbol = symbol;
        order_id = order_id;
        type = EventType.unset;
        side = Side.unset;
      })
      bs8

-- The bytes of the file, by their offset, and a run of them read and written.
abbrev pub read_bytes : (ℕ → ℕ) → ℕ → ℕ → Bytes
read_bytes file offset zero = []
read_bytes file offset (suc n) = file offset ∷ read_bytes file (offset + 1) n

abbrev pub write_bytes : (ℕ → ℕ) → ℕ → Bytes → ℕ → ℕ
write_bytes file offset [] j = file j
write_bytes file offset (b ∷ bs) j =
    write_bytes (λ k. if k == offset then b else file k) (offset + 1) bs j

abbrev pub header_size : ℕ
header_size = 64

abbrev pub event_size : ℕ
event_size = 64

abbrev pub file_size : ℕ
file_size = header_size + max_events * event_size

-- `events_ + seq`
abbrev pub slot_offset : ℕ → ℕ
slot_offset seq = header_size + seq * event_size

-- `events_[seq] = evt`, and `events_[seq]` as a value.
unfoldable pub write_event : (ℕ → ℕ) → ℕ → OrderEvent → ℕ → ℕ
write_event file seq e = write_bytes file (slot_offset seq) (event_bytes e)

unfoldable pub read_event : (ℕ → ℕ) → ℕ → Option OrderEvent
read_event file seq = event_of_bytes (read_bytes file (slot_offset seq) event_size)

-- The fields of the header, at their offsets.
abbrev pub read_u64 : (ℕ → ℕ) → ℕ → ℕ
read_u64 file offset = (from_le 8 (read_bytes file offset 8)).0

-- `header_->next_sequence = n`
unfoldable pub write_counter : (ℕ → ℕ) → ℕ → ℕ → ℕ
write_counter file n = write_bytes file 8 (le 8 n)
