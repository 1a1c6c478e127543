-- ===== src/OrderEvent/Types.antt =====
-- The ranges of the types of an event's fields, and that what the factories make keeps within them.
use hft_order_book.Base.{◌^◌, ◌<◌, ◌≡◌, arith, length}
use hft_order_book.Base.Int.{ℤ}
use hft_order_book.Base.Word.{Fits32, Fits64}
use hft_order_book.Base.Bytes.{StringView, length-strncpy}
use hft_order_book.OrderEvent.{Side, OrderEvent, make_new_order}

pub record IsEvent (e : OrderEvent) : Type 0 where
  pub sequence_fits : e.sequence < 2 ^ 64
  pub timestamp_fits : e.timestamp_ns < 2 ^ 64
  pub price_fits : Fits64 e.price
  pub fill_price_fits : Fits64 e.fill_price
  pub qty_fits : Fits32 e.qty
  pub fill_qty_fits : Fits32 e.fill_qty
  pub symbol_sized : length e.symbol ≡ 8
  pub order_id_sized : length e.order_id ≡ 8

pub make_new_order-IsEvent :
    (sym : StringView) (side : Side) (qty price_fp : ℤ) (oid : StringView)
    → Fits32 qty
    → Fits64 price_fp
    → IsEvent (make_new_order sym side qty price_fp oid)
unfolding make_new_order
make_new_order-IsEvent sym side qty price_fp oid h k = record {
  sequence_fits = omega arith;
  timestamp_fits = omega arith;
  price_fits = k;
  fill_price_fits = ground arith;
  qty_fits = h;
  fill_qty_fits = ground arith;
  symbol_sized = length-strncpy sym.data_bytes 8;
  order_id_sized = length-strncpy oid.data_bytes 8;
}
