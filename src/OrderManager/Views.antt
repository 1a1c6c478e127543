-- ===== src/OrderManager/Views.antt =====
-- What include/OrderManager.h gives for printing: the views, the prices as doubles, a state's name.
use hft_order_book.Base.{[], ◌∷◌}
use hft_order_book.Base.Bytes.{Bytes, StringView, strnlen}
use hft_order_book.OrderManager.{Order, OrderState}
use hft_order_book.MessageTranslator.{Floats, from_fixed}

unfoldable pub order_id_view : Order → StringView
unfolding strnlen
order_id_view o = record { data_bytes = o.order_id; size = strnlen o.order_id 8 }

unfoldable pub symbol_view : Order → StringView
unfolding strnlen
symbol_view o = record { data_bytes = o.symbol; size = strnlen o.symbol 8 }

module _ (F : Floats) where
  -- A price over PRICE_SCALE.
  unfoldable pub limit_price_d : Order → F.Double
  unfolding from_fixed
  limit_price_d o = from_fixed F o.limit_price

  unfoldable pub avg_fill_price_d : Order → F.Double
  unfolding from_fixed
  avg_fill_price_d o = from_fixed F o.avg_fill_price

unfoldable pub to_string : OrderState → Bytes
to_string OrderState.pending = b'P' ∷ b'e' ∷ b'n' ∷ b'd' ∷ b'i' ∷ b'n' ∷ b'g' ∷ []
to_string OrderState.partially_filled =
    b'P' ∷ b'a' ∷ b'r' ∷ b't' ∷ b'i' ∷ b'a' ∷ b'l' ∷ b'l' ∷ b'y' ∷ b'F' ∷ b'i' ∷ b'l' ∷ b'l' ∷ b'e'
    ∷ b'd' ∷ []
to_string OrderState.filled = b'F' ∷ b'i' ∷ b'l' ∷ b'l' ∷ b'e' ∷ b'd' ∷ []
to_string OrderState.cancelled = b'C' ∷ b'a' ∷ b'n' ∷ b'c' ∷ b'e' ∷ b'l' ∷ b'l' ∷ b'e' ∷ b'd' ∷ []
to_string OrderState.rejected = b'R' ∷ b'e' ∷ b'j' ∷ b'e' ∷ b'c' ∷ b't' ∷ b'e' ∷ b'd' ∷ []
to_string OrderState.unset = b'U' ∷ b'n' ∷ b'k' ∷ b'n' ∷ b'o' ∷ b'w' ∷ b'n' ∷ []
