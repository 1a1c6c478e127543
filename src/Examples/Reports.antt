-- ===== src/Examples/Reports.antt =====
-- The round trip of an order at a sample order.
use hft_order_book.Base.{◌≡◌, true, some}
use hft_order_book.Base.Int.{pos}
use hft_order_book.Base.Word.{wrap32}
use hft_order_book.OrderEvent.{Side, make_fill, make_new_order}
use hft_order_book.MessageTranslator.{done, from_execution_report, to_new_order_single, to_fixed}
use hft_order_book.MessageTranslator.RoundTrip.{
  fill_report, from_execution_report-to_new_order_single,
}
use hft_order_book.Examples.Sample.{aapl, ord0, view, whole}

from_execution_report-to_new_order_single_example :
    from_execution_report whole (
      fill_report whole true (pos 40) (pos 2) (
        to_new_order_single whole
          (make_new_order (view aapl) Side.buy (pos 100) (pos 2_000_000) (view ord0))))
    ≡ done (
        some
          (record (make_fill
            (view aapl)
            Side.buy
            (wrap32 (pos 40))
            (to_fixed whole (pos 2))
            (view ord0)
            true) { qty = pos 0 }))
from_execution_report-to_new_order_single_example =
    from_execution_report-to_new_order_single whole true (pos 40) (pos 2) (view aapl) Side.buy
      (pos 100) (pos 2_000_000) (view ord0)
