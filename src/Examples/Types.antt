-- ===== src/Examples/Types.antt =====
-- The theorems on the types of the fields: an order of the first gateway, and the process at its end.
use hft_order_book.Base.{refl, inr, All, arith}
use hft_order_book.Base.Word.{Fits32, Fits64, wrap32-Fits32, wrap64-Fits64}
use hft_order_book.OrderEvent.Types.{IsEvent}
use hft_order_book.EventLog.Contents.{contents}
use hft_order_book.RiskChecker.{default_limits}
use hft_order_book.FixGateway.{Gateway, create}
use hft_order_book.FixGateway.Types.{IsTyped}
use hft_order_book.OrderManager
use hft_order_book.PositionTracker
use hft_order_book.Main.Types.{main-IsTyped}
use hft_order_book.Examples.Sample.{buy_order, part_fill, empty_log, two_events, whole}
use hft_order_book.Examples.Main.{outside, at_end, ends, reopened}

abbrev fresh : Gateway
fresh =
    create empty_log (PositionTracker.replay_from empty_log) (OrderManager.replay_from empty_log)
      default_limits

no_events : All IsEvent (contents empty_log)
unfolding contents
no_events = tt

buy_order-IsEvent : IsEvent buy_order
buy_order-IsEvent = record {
  sequence_fits = omega arith;
  timestamp_fits = omega arith;
  price_fits = ground arith;
  fill_price_fits = ground arith;
  qty_fits = ground arith;
  fill_qty_fits = ground arith;
  symbol_sized = refl;
  order_id_sized = refl;
}

part_fill-IsEvent : IsEvent part_fill
part_fill-IsEvent = record {
  sequence_fits = omega arith;
  timestamp_fits = omega arith;
  price_fits = ground arith;
  fill_price_fits = ground arith;
  qty_fits = ground arith;
  fill_qty_fits = ground arith;
  symbol_sized = refl;
  order_id_sized = refl;
}

both_events : All IsEvent (contents two_events)
unfolding contents
both_events = (buy_order-IsEvent, (part_fill-IsEvent, tt))

whole-Fits32 : (x : whole.Double) → Fits32 (whole.to_int32 x)
whole-Fits32 x = wrap32-Fits32 _

whole-Fits64 : (x : whole.Double) → Fits64 (whole.to_int64 x)
whole-Fits64 x = wrap64-Fits64 _

main-IsTyped_example : IsTyped at_end.gateway
main-IsTyped_example =
    main-IsTyped whole whole-Fits32 whole-Fits64 outside 4 two_events at_end reopened both_events
      (inr (0, ends))
