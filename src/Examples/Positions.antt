-- ===== src/Examples/Positions.antt =====
-- The position tracker's theorems at sample positions.
use hft_order_book.Base.{◌<◌, ◌≡◌, refl, ◌&&◌, some, arith, if◌then◌else◌, leb}
use hft_order_book.Base.Int.{pos, neg, ◌+ℤ◌, ◌-ℤ◌, ◌*ℤ◌}
use hft_order_book.Base.Word.{wrap64}
use hft_order_book.Base.Bytes.{strncmp_eq, strncpy}
use hft_order_book.OrderEvent.{is_fill}
use hft_order_book.EventLog.{replay}
use hft_order_book.EventLog.Contents.{contents}
use hft_order_book.SlotTable.Upsert.{upsert_entry}
use hft_order_book.PositionTracker.{
  Position, max_symbols, empty, get, apply_event, apply_fill, replay_from, buy_fill, sell_fill,
  blank_position, marked_at, mark_to_market,
}
use hft_order_book.PositionTracker.Lookup.{empty-IsValid, get-apply_event_position}
use hft_order_book.PositionTracker.Quantity.{
  net_of, sum_fills, TotalsAgree, net-replay_from, replay_from-TotalsAgree,
}
use hft_order_book.PositionTracker.Marks.{
  IsConsistent, Reachable, start, on_event, on_market, step, event, market, Reachable-IsConsistent,
}
use hft_order_book.PositionTracker.Equity.{equity, CoverFits, buy_fill-equity}
use hft_order_book.PositionTracker.EquitySell.{CloseFits, sell_fill-equity}
use hft_order_book.Examples.Sample.{aapl, view, part_fill, two_events, short_30, long_30}

get-apply_event_position_example : get (apply_event empty part_fill) (view aapl) ≡ (
    if is_fill part_fill && strncmp_eq aapl aapl 8
    then upsert_entry
        (apply_fill part_fill)
        (blank_position (strncpy aapl 8))
        (leb max_symbols empty.count)
        (get empty (view aapl))
    else get empty (view aapl))
get-apply_event_position_example =
    get-apply_event_position empty part_fill (view aapl) empty-IsValid

few_symbols : (replay_from two_events).count < max_symbols
unfolding replay_from replay empty apply_event
few_symbols = omega arith

net-replay_from_example :
    net_of (replay_from two_events) (view aapl)
    ≡ wrap64 (sum_fills (view aapl) (contents two_events))
net-replay_from_example = net-replay_from two_events (view aapl) few_symbols

-- The position after the fill, and after a market price.
abbrev held_40 : Position
held_40 = apply_fill part_fill (blank_position aapl)

found_40 : get (replay_from two_events) (view aapl) ≡ some held_40
unfolding get replay_from replay empty apply_event strncmp_eq apply_fill
found_40 = refl

replay_from-TotalsAgree_example : TotalsAgree held_40
replay_from-TotalsAgree_example = replay_from-TotalsAgree two_events (view aapl) held_40 found_40

-- A fill, and then a price of 3.
filled_and_marked :
    Reachable (step (step empty (event part_fill)) (market (view aapl) (pos 3_000_000)))
filled_and_marked = on_market (view aapl) (pos 3_000_000) (omega arith) (on_event part_fill start)

found_marked :
    get (step (step empty (event part_fill)) (market (view aapl) (pos 3_000_000))) (view aapl)
    ≡ some (marked_at (pos 3_000_000) held_40)
unfolding get empty apply_event strncmp_eq apply_fill step mark_to_market marked_at wrap64 ◌+ℤ◌
found_marked = refl

Reachable-IsConsistent_example : IsConsistent (marked_at (pos 3_000_000) held_40)
Reachable-IsConsistent_example =
    Reachable-IsConsistent (view aapl) (marked_at (pos 3_000_000) held_40) filled_and_marked
      found_marked

-- Buying 50 at 3 covers the 30 and goes 20 long.
cover_fits : CoverFits (pos 50) (pos 3_000_000) short_30
unfolding ◌*ℤ◌ ◌+ℤ◌ ◌-ℤ◌ neg
cover_fits = omega arith

buy_fill-equity_example :
    equity (pos 3_000_000) (buy_fill (pos 50) (pos 3_000_000) short_30)
    ≡ equity (pos 3_000_000) short_30
buy_fill-equity_example = buy_fill-equity (pos 50) (pos 3_000_000) short_30 (omega arith) cover_fits

-- Selling 50 at 3 closes the 30 and goes 20 short.
close_fits : CloseFits (pos 50) (pos 3_000_000) long_30
unfolding ◌*ℤ◌ ◌+ℤ◌ ◌-ℤ◌
close_fits = omega arith

sell_fill-equity_example :
    equity (pos 3_000_000) (sell_fill (pos 50) (pos 3_000_000) long_30)
    ≡ equity (pos 3_000_000) long_30
sell_fill-equity_example =
    sell_fill-equity (pos 50) (pos 3_000_000) long_30 (omega arith) close_fits
