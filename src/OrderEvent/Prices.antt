-- ===== src/OrderEvent/Prices.antt =====
-- The prices of include/OrderEvent.h as doubles.
use hft_order_book.OrderEvent.{OrderEvent}
use hft_order_book.MessageTranslator.{Floats, from_fixed}

module _ (F : Floats) where
  unfoldable pub price_d : OrderEvent → F.Double
  unfolding from_fixed
  price_d e = from_fixed F e.price

  unfoldable pub fill_price_d : OrderEvent → F.Double
  unfolding from_fixed
  fill_price_d e = from_fixed F e.fill_price
