-- ===== src/MessageTranslator/Types.antt =====
-- A report is translated to an event within its types, if the conversions from double are.
use hft_order_book.Base.{◌≡◌, some, if_has, arith}
use hft_order_book.Base.Word.{Fits32, Fits64}
use hft_order_book.Base.Bytes.{Bytes, length-strncpy}
use hft_order_book.OrderEvent.{EventType, Side, OrderEvent, zero_event}
use hft_order_book.OrderEvent.Types.{IsEvent}
use hft_order_book.MessageTranslator.{
  Floats, Field, absent, malformed, present, ExecutionReport, done, is_fill_type, to_fixed,
  with_fill, from_execution_report,
}
use hft_order_book.MessageTranslator.Reports.{IfDone, named, from_execution_report-holds}

named-IsEvent : (t : EventType) (s c : Bytes) (side : Side) → IsEvent (named t s c side)
unfolding zero_event
named-IsEvent t s c side = record {
  sequence_fits = omega arith;
  timestamp_fits = omega arith;
  price_fits = ground arith;
  fill_price_fits = ground arith;
  qty_fits = ground arith;
  fill_qty_fits = ground arith;
  symbol_sized = length-strncpy s 8;
  order_id_sized = length-strncpy c 8;
}

module _ (F : Floats) (in_int32 : (x : F.Double) → Fits32 (F.to_int32 x))
    (in_int64 : (x : F.Double) → Fits64 (F.to_int64 x)) where
  with_fill-IsEvent :
      (a b : Field F.Double) (e : OrderEvent) → IsEvent e → IfDone IsEvent (with_fill F a b e)
  unfolding with_fill to_fixed
  with_fill-IsEvent absent b e h = h
  with_fill-IsEvent malformed absent e h = h
  with_fill-IsEvent malformed malformed e h = tt
  with_fill-IsEvent malformed (present b) e h = tt
  with_fill-IsEvent (present a) absent e h = h
  with_fill-IsEvent (present a) malformed e h = tt
  with_fill-IsEvent (present a) (present b) e h = record {
    sequence_fits = h.sequence_fits;
    timestamp_fits = h.timestamp_fits;
    price_fits = h.price_fits;
    fill_price_fits = in_int64 _;
    qty_fits = h.qty_fits;
    fill_qty_fits = in_int32 a;
    symbol_sized = h.symbol_sized;
    order_id_sized = h.order_id_sized;
  }

  -- The event that a report is translated to has every field within its type.
  pub from_execution_report-IsEvent :
      (report : ExecutionReport F) (e : OrderEvent)
      → from_execution_report F report ≡ done (some e)
      → IsEvent e
  from_execution_report-IsEvent report e h =
      from_execution_report-holds F IsEvent report
        (λ t s c side ne.
          if_has (IfDone IsEvent) (is_fill_type t) _ _
            (with_fill-IsEvent report.last_shares report.last_px _ (named-IsEvent t s c side))
            (named-IsEvent t s c side))
        e h
