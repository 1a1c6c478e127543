-- ===== src/FixGateway/Trace.antt =====
-- gateway/FIXGateway.cpp, the line that `onMessage` prints of a booked event. `%s` takes the characters
-- of the symbol from its place in the event's 64 bytes up to the first NUL.
use hft_order_book.Base.{◌≡◌, refl, Bool, false, ◌||◌, ◌==◌, [], ◌∷◌, ◌++◌, if◌then◌else◌, arith}
use hft_order_book.Base.Int.{ℤ}
use hft_order_book.Base.Bytes.{Bytes}
use hft_order_book.OrderEvent.{OrderEvent, is_buy}
use hft_order_book.EventLog.Layout.{le, chars, event_bytes, type_code, side_code, padding}
use hft_order_book.OrderManager.Views.{to_string}
use hft_order_book.MessageTranslator.{Floats, from_fixed}
use hft_order_book.FixGateway.{traced_state}

-- The characters of a C string.
unfoldable pub c_text : Bytes → Bytes
c_text [] = []
c_text (b ∷ bs) = if b == 0 then [] else b ∷ c_text bs

abbrev pub has_nul : Bytes → Bool
has_nul [] = false
has_nul (b ∷ bs) = (b == 0) || has_nul bs

-- The arguments of the printf.
pub record Trace (F : Floats) : Type 0 where
  pub state : Bytes
  pub side : Bytes
  pub symbol : Bytes
  pub qty : ℤ
  pub price : F.Double

-- `symbol` stands after five fields of 40 bytes together.
unfoldable pub traced : (F : Floats) → OrderEvent → Trace F
traced F e = record {
  state = to_string (traced_state e.type);
  side = if is_buy e.side then b'B' ∷ b'U' ∷ b'Y' ∷ [] else b'S' ∷ b'E' ∷ b'L' ∷ b'L' ∷ [];
  symbol = c_text (chars 40 (event_bytes e)).1;
  qty = e.fill_qty;
  price = from_fixed F e.fill_price;
}

c_text-append : (s t : Bytes) → c_text (s ++ t) ≡ c_text s ++ (if has_nul s then [] else c_text t)
unfolding c_text
c_text-append [] t = refl
c_text-append (b ∷ s) t = ground (arith, c_text-append s t)

-- The printed symbol is the symbol's text if the symbol has a NUL; a symbol of eight characters is
-- printed with the text of the order id, and of the type and the side if the id has eight, after it.
pub traced_symbol :
    (F : Floats) (e : OrderEvent)
    → (traced F e).symbol
      ≡ c_text e.symbol
        ++ (if has_nul e.symbol
            then []
            else c_text (e.order_id ++ type_code e.type ∷ side_code e.side ∷ padding))
unfolding traced event_bytes le chars
traced_symbol F e =
    c_text-append e.symbol (e.order_id ++ type_code e.type ∷ side_code e.side ∷ padding)
