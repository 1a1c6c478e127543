-- ===== src/EventLog/Layout/RoundTrip.antt =====
-- An event that is written to the bytes of the file is read back, and nothing else changes.
use hft_order_book.Base.{
  ℕ, zero, suc, ◌+◌, ◌*◌, ◌%◌, ◌/◌, ◌≤◌, ◌<◌, ◌==◌, ◌≡◌, refl, ap, ◌∙◌, some, [], ◌∷◌, ◌++◌,
  if◌then◌else◌, length, length-append, arith,
}
use mathlib.Core.Path.{ap₂}
use hft_order_book.Base.Int.{ℤ, pos, negsuc}
use hft_order_book.Base.Word.{signed32, signed64, Fits32, Fits64}
use hft_order_book.Base.Bytes.{Bytes}
use hft_order_book.OrderEvent.{EventType, Side, OrderEvent}
use hft_order_book.OrderEvent.Types.{IsEvent}
use hft_order_book.EventLog.Layout.{
  le, from_le, with_low, bits32, bits64, type_code, type_of_code, side_code, side_of_code,
  event_bytes, chars, event_of_bytes, read_bytes, write_bytes, event_size,
}

-- How many values so many bytes have.
abbrev pub values : ℕ → ℕ
values zero = 1
values (suc w) = 256 * values w

pub from_le-le : (w n : ℕ) (rest : Bytes) → n < values w → from_le w (le w n ++ rest) ≡ (n, rest)
unfolding le from_le
from_le-le zero n rest h = ap (λ (k : ℕ). (k, rest)) (omega arith)
from_le-le (suc w) n rest h =
    ap (with_low (n % 256)) (from_le-le w (n / 256) rest (omega arith))
    ∙ ap (λ (k : ℕ). (k, rest)) (omega arith)

pub length-le : (w n : ℕ) → length (le w n) ≡ w
unfolding le
length-le zero n = refl
length-le (suc w) n = ap suc (length-le w (n / 256))

signed64-bits64 : (a : ℤ) → Fits64 a → signed64 (bits64 a) ≡ a
signed64-bits64 (pos n) h = ground arith
signed64-bits64 (negsuc n) h = ground arith

signed32-bits32 : (a : ℤ) → Fits32 a → signed32 (bits32 a) ≡ a
signed32-bits32 (pos n) h = ground arith
signed32-bits32 (negsuc n) h = ground arith

bits64-lt : (a : ℤ) → Fits64 a → bits64 a < values 8
bits64-lt (pos n) h = omega arith
bits64-lt (negsuc n) h = omega arith

bits32-lt : (a : ℤ) → Fits32 a → bits32 a < values 4
bits32-lt (pos n) h = omega arith
bits32-lt (negsuc n) h = omega arith

chars-append : (n : ℕ) (cs rest : Bytes) → length cs ≡ n → chars n (cs ++ rest) ≡ (cs, rest)
unfolding chars
chars-append zero [] rest h = refl
chars-append (suc n) (c ∷ cs) rest h =
    ap (λ (p : Bytes × Bytes). (c ∷ p.0, p.1)) (chars-append n cs rest (omega arith))
chars-append zero (c ∷ cs) rest h = absurd (omega arith)
chars-append (suc n) [] rest h = absurd (omega arith)

type_of_code-type_code : (t : EventType) → type_of_code (type_code t) ≡ some t
type_of_code-type_code t = ground arith

side_of_code-side_code : (s : Side) → side_of_code (side_code s) ≡ some s
side_of_code-side_code s = ground arith

-- The 64 bytes of an event within its types are that event.
pub event_of_bytes-event_bytes :
    (e : OrderEvent) → IsEvent e → event_of_bytes (event_bytes e) ≡ some e
unfolding event_of_bytes event_bytes
event_of_bytes-event_bytes e typed =
    rw
      (
        from_le-le 8 e.sequence _ typed.sequence_fits,
        from_le-le 8 e.timestamp_ns _ typed.timestamp_fits,
        from_le-le 8 (bits64 e.price) _ (bits64-lt e.price typed.price_fits),
        from_le-le 8 (bits64 e.fill_price) _ (bits64-lt e.fill_price typed.fill_price_fits),
        from_le-le 4 (bits32 e.qty) _ (bits32-lt e.qty typed.qty_fits),
        from_le-le 4 (bits32 e.fill_qty) _ (bits32-lt e.fill_qty typed.fill_qty_fits),
        chars-append 8 e.symbol _ typed.symbol_sized,
        chars-append 8 e.order_id _ typed.order_id_sized,
        signed64-bits64 e.price typed.price_fits,
        signed64-bits64 e.fill_price typed.fill_price_fits,
        signed32-bits32 e.qty typed.qty_fits,
        signed32-bits32 e.fill_qty typed.fill_qty_fits,
        type_of_code-type_code e.type,
        side_of_code-side_code e.side,
      )
      refl

pub length-event_bytes : (e : OrderEvent) → IsEvent e → length (event_bytes e) ≡ event_size
unfolding event_bytes
length-event_bytes e typed =
    simp (length-append, length-le, typed.symbol_sized, typed.order_id_sized)

-- A run of bytes that is written is read back, and a run apart from it is as before.
pub write_bytes-before :
    (bs : Bytes) (file : ℕ → ℕ) (offset j : ℕ) → j < offset → write_bytes file offset bs j ≡ file j
write_bytes-before [] file offset j h = refl
write_bytes-before (b ∷ bs) file offset j h =
    write_bytes-before bs (λ k. if k == offset then b else file k) (offset + 1) j (omega arith)
    ∙ ground arith

pub write_bytes-after :
    (bs : Bytes) (file : ℕ → ℕ) (offset j : ℕ)
    → offset + length bs ≤ j
    → write_bytes file offset bs j ≡ file j
write_bytes-after [] file offset j h = refl
write_bytes-after (b ∷ bs) file offset j h =
    write_bytes-after bs (λ k. if k == offset then b else file k) (offset + 1) j (omega arith)
    ∙ ground arith

pub read_bytes-same :
    (n : ℕ) (file file' : ℕ → ℕ) (offset : ℕ)
    → ((j : ℕ) → offset ≤ j → j < offset + n → file j ≡ file' j)
    → read_bytes file offset n ≡ read_bytes file' offset n
read_bytes-same zero file file' offset h = refl
read_bytes-same (suc n) file file' offset h =
    ap₂ ◌∷◌ (h offset (omega arith) (omega arith))
      (read_bytes-same n file file' (offset + 1) (λ j low high. h j (omega arith) (omega arith)))

pub read_bytes-write_bytes :
    (bs : Bytes) (file : ℕ → ℕ) (offset : ℕ)
    → read_bytes (write_bytes file offset bs) offset (length bs) ≡ bs
read_bytes-write_bytes [] file offset = refl
read_bytes-write_bytes (b ∷ bs) file offset =
    ap₂ ◌∷◌
      (write_bytes-before bs (λ k. if k == offset then b else file k) (offset + 1) offset
          (omega arith)
        ∙ ground arith)
      (read_bytes-write_bytes bs (λ k. if k == offset then b else file k) (offset + 1))
