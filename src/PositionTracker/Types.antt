-- ===== src/PositionTracker/Types.antt =====
-- Every field of every position stays within its type.
use hft_order_book.Base.{
  ℕ, ◌≡◌, ◌%◌, ◌^◌, arith, length, Bool, not, ◌&&◌, if◌then◌else◌, if_has, All, List, [], ◌∷◌,
}
use hft_order_book.Base.Int.{ℤ, pos, ◌+ℤ◌, ◌-ℤ◌, ◌*ℤ◌, ◌/ℤ◌, neg, ltb_ℤ, leb_ℤ, eqb_ℤ}
use hft_order_book.Base.Word.{
  Fits32, Fits64, wrap32, wrap64, wrap32-Fits32, wrap64-Fits64, signed64, signed64-Fits64,
}
use hft_order_book.Base.Division.{mean-Fits64}
use hft_order_book.Base.Bytes.{Bytes, length-strncpy}
use hft_order_book.OrderEvent.{OrderEvent, symbol_view, is_fill, is_buy}
use hft_order_book.OrderEvent.Types.{IsEvent}
use hft_order_book.EventLog.{EventLog}
use hft_order_book.EventLog.Contents.{contents}
use hft_order_book.SlotTable.Lookup.{entries, foldl}
use hft_order_book.SlotTable.Everywhere.{All-upsert}
use hft_order_book.PositionTracker.{
  Position, PositionTracker, position_name, max_symbols, blank_position, marked_value,
  refresh_unrealized, buy_fill, sell_fill, apply_buy, apply_sell, apply_fill, apply_event,
  replay_from, empty,
}
use hft_order_book.PositionTracker.Lookup.{
  IsValid, apply_event-IsValid, empty-IsValid, replay_from-foldl,
}

pub record IsPosition (p : Position) : Type 0 where
  pub net_qty_fits : Fits64 p.net_qty
  pub avg_entry_price_fits : Fits64 p.avg_entry_price
  pub realized_pnl_fits : Fits64 p.realized_pnl
  pub unrealized_pnl_fits : Fits64 p.unrealized_pnl
  pub total_buy_qty_fits : Fits32 p.total_buy_qty
  pub total_sell_qty_fits : Fits32 p.total_sell_qty
  pub last_price_fits : Fits64 p.last_price
  pub last_updated_seq_fits : Fits64 p.last_updated_seq
  pub symbol_sized : length p.symbol ≡ 8

zero_fits : Fits64 (pos 0)
zero_fits = ground arith

blank_position-IsPosition : (k : Bytes) → length k ≡ 8 → IsPosition (blank_position k)
blank_position-IsPosition k h = record {
  net_qty_fits = zero_fits;
  avg_entry_price_fits = zero_fits;
  realized_pnl_fits = zero_fits;
  unrealized_pnl_fits = zero_fits;
  total_buy_qty_fits = ground arith;
  total_sell_qty_fits = ground arith;
  last_price_fits = zero_fits;
  last_updated_seq_fits = zero_fits;
  symbol_sized = h;
}

-- A position whose quantity, price and realised gain are written.
traded :
    (p : Position) (net avg realized : ℤ)
    → IsPosition p
    → Fits64 net
    → Fits64 avg
    → Fits64 realized
    → IsPosition (record p { net_qty = net; avg_entry_price = avg; realized_pnl = realized })
traded p net avg realized h n a r = record {
  net_qty_fits = n;
  avg_entry_price_fits = a;
  realized_pnl_fits = r;
  unrealized_pnl_fits = h.unrealized_pnl_fits;
  total_buy_qty_fits = h.total_buy_qty_fits;
  total_sell_qty_fits = h.total_sell_qty_fits;
  last_price_fits = h.last_price_fits;
  last_updated_seq_fits = h.last_updated_seq_fits;
  symbol_sized = h.symbol_sized;
}

marked_fits :
    (p : Position)
    → Fits64 (
        if ltb_ℤ (pos 0) p.last_price && not (eqb_ℤ p.net_qty (pos 0))
        then marked_value p.last_price p
        else pos 0)
marked_fits p =
    if_has Fits64 (ltb_ℤ (pos 0) p.last_price && not (eqb_ℤ p.net_qty (pos 0)))
      (marked_value p.last_price p) (pos 0)
      (wrap64-Fits64 (wrap64 (p.last_price -ℤ p.avg_entry_price) *ℤ p.net_qty)) zero_fits

refresh_unrealized-IsPosition : (p : Position) → IsPosition p → IsPosition (refresh_unrealized p)
unfolding refresh_unrealized
refresh_unrealized-IsPosition p h = record {
  net_qty_fits = h.net_qty_fits;
  avg_entry_price_fits = h.avg_entry_price_fits;
  realized_pnl_fits = h.realized_pnl_fits;
  unrealized_pnl_fits = marked_fits p;
  total_buy_qty_fits = h.total_buy_qty_fits;
  total_sell_qty_fits = h.total_sell_qty_fits;
  last_price_fits = h.last_price_fits;
  last_updated_seq_fits = h.last_updated_seq_fits;
  symbol_sized = h.symbol_sized;
}

-- The price after a fill that covers or closes.
price_after :
    (b c : Bool) (price avg : ℤ)
    → Fits64 price
    → Fits64 avg
    → Fits64 (if b then price else (if c then pos 0 else avg))
price_after b c price avg h k =
    if_has Fits64 b price (if c then pos 0 else avg) h (if_has Fits64 c (pos 0) avg zero_fits k)

module _ (qty price : ℤ) (in_range : Fits64 price) where
  buy_fill-IsPosition : (p : Position) → IsPosition p → IsPosition (buy_fill qty price p)
  unfolding buy_fill
  buy_fill-IsPosition p h =
      let new_qty = wrap64 (p.net_qty +ℤ qty) in
      let sum = wrap64 (p.avg_entry_price *ℤ p.net_qty) +ℤ wrap64 (price *ℤ qty) in
      let short_qty = wrap64 (neg p.net_qty) in
      let cover = if leb_ℤ qty short_qty then qty else short_qty in
      let gain = p.realized_pnl +ℤ wrap64 (wrap64 (p.avg_entry_price -ℤ price) *ℤ cover) in
      if_has IsPosition (leb_ℤ (pos 0) p.net_qty) _ _
        (traded p new_qty (if ltb_ℤ (pos 0) new_qty then wrap64 sum /ℤ new_qty else pos 0)
          p.realized_pnl h (wrap64-Fits64 (p.net_qty +ℤ qty))
          (mean-Fits64 (wrap64 sum) new_qty (wrap64-Fits64 sum)) h.realized_pnl_fits)
        (traded p new_qty
          (if ltb_ℤ (pos 0) new_qty
            then price
            else (if eqb_ℤ new_qty (pos 0) then pos 0 else p.avg_entry_price))
          (wrap64 gain) h (wrap64-Fits64 (p.net_qty +ℤ qty))
          (price_after (ltb_ℤ (pos 0) new_qty) (eqb_ℤ new_qty (pos 0)) price p.avg_entry_price
            in_range h.avg_entry_price_fits)
          (wrap64-Fits64 gain))

  sell_fill-IsPosition : (p : Position) → IsPosition p → IsPosition (sell_fill qty price p)
  unfolding sell_fill
  sell_fill-IsPosition p h =
      let close = if leb_ℤ qty p.net_qty then qty else p.net_qty in
      let left_qty = wrap64 (p.net_qty -ℤ qty) in
      let gain = p.realized_pnl +ℤ wrap64 (wrap64 (price -ℤ p.avg_entry_price) *ℤ close) in
      let short_qty = wrap64 (neg p.net_qty) in
      let new_qty = wrap64 (short_qty +ℤ qty) in
      let sum = wrap64 (p.avg_entry_price *ℤ short_qty) +ℤ wrap64 (price *ℤ qty) in
      if_has IsPosition (ltb_ℤ (pos 0) p.net_qty) _ _
        (traded p left_qty
          (if ltb_ℤ left_qty (pos 0)
            then price
            else (if eqb_ℤ left_qty (pos 0) then pos 0 else p.avg_entry_price))
          (wrap64 gain) h (wrap64-Fits64 (p.net_qty -ℤ qty))
          (price_after (ltb_ℤ left_qty (pos 0)) (eqb_ℤ left_qty (pos 0)) price p.avg_entry_price
            in_range h.avg_entry_price_fits)
          (wrap64-Fits64 gain))
        (traded p left_qty (if ltb_ℤ (pos 0) new_qty then wrap64 sum /ℤ new_qty else pos 0)
          p.realized_pnl h (wrap64-Fits64 (p.net_qty -ℤ qty))
          (mean-Fits64 (wrap64 sum) new_qty (wrap64-Fits64 sum)) h.realized_pnl_fits)

  -- A position with the totals and the sequence number written.
  counted :
      (p : Position) (bought sold : ℤ)
      → IsPosition p
      → Fits32 bought
      → Fits32 sold
      → IsPosition (record p { total_buy_qty = bought; total_sell_qty = sold })
  counted p bought sold h b s = record {
    net_qty_fits = h.net_qty_fits;
    avg_entry_price_fits = h.avg_entry_price_fits;
    realized_pnl_fits = h.realized_pnl_fits;
    unrealized_pnl_fits = h.unrealized_pnl_fits;
    total_buy_qty_fits = b;
    total_sell_qty_fits = s;
    last_price_fits = h.last_price_fits;
    last_updated_seq_fits = h.last_updated_seq_fits;
    symbol_sized = h.symbol_sized;
  }

  updated :
      (p : Position) (seq : ℕ)
      → IsPosition p
      → IsPosition (record p { last_updated_seq = signed64 (seq % 2 ^ 64) })
  updated p seq h = record {
    net_qty_fits = h.net_qty_fits;
    avg_entry_price_fits = h.avg_entry_price_fits;
    realized_pnl_fits = h.realized_pnl_fits;
    unrealized_pnl_fits = h.unrealized_pnl_fits;
    total_buy_qty_fits = h.total_buy_qty_fits;
    total_sell_qty_fits = h.total_sell_qty_fits;
    last_price_fits = h.last_price_fits;
    last_updated_seq_fits = signed64-Fits64 seq;
    symbol_sized = h.symbol_sized;
  }

  apply_buy-IsPosition :
      (seq : ℕ) (p : Position) → IsPosition p → IsPosition (apply_buy qty price seq p)
  unfolding apply_buy
  apply_buy-IsPosition seq p h = updated _ seq (
      refresh_unrealized-IsPosition _ (
        buy_fill-IsPosition _ (
          counted p (wrap32 (p.total_buy_qty +ℤ qty)) p.total_sell_qty h
            (wrap32-Fits32 (p.total_buy_qty +ℤ qty)) h.total_sell_qty_fits)))

  apply_sell-IsPosition :
      (seq : ℕ) (p : Position) → IsPosition p → IsPosition (apply_sell qty price seq p)
  unfolding apply_sell
  apply_sell-IsPosition seq p h = updated _ seq (
      refresh_unrealized-IsPosition _ (
        sell_fill-IsPosition _ (
          counted p p.total_buy_qty (wrap32 (p.total_sell_qty +ℤ qty)) h h.total_buy_qty_fits
            (wrap32-Fits32 (p.total_sell_qty +ℤ qty)))))

module _ (e : OrderEvent) (is : IsEvent e) where
  apply_fill-IsPosition : (p : Position) → IsPosition p → IsPosition (apply_fill e p)
  unfolding apply_fill
  apply_fill-IsPosition p h =
      if_has IsPosition (is_buy e.side) _ _
        (apply_buy-IsPosition e.fill_qty e.fill_price is.fill_price_fits e.sequence p h)
        (apply_sell-IsPosition e.fill_qty e.fill_price is.fill_price_fits e.sequence p h)

  -- An event within its types keeps every field of every position of a valid table within its type.
  pub apply_event-IsPosition :
      (t : PositionTracker)
      → IsValid t
      → All IsPosition (entries t)
      → All IsPosition (entries (apply_event t e))
  unfolding apply_event
  apply_event-IsPosition t v h =
      if_has (λ (u : PositionTracker). All IsPosition (entries u)) (is_fill e) _ t
        (All-upsert IsPosition position_name (apply_fill e) apply_fill-IsPosition max_symbols
          blank_position t (symbol_view e)
          (blank_position-IsPosition _ (length-strncpy (symbol_view e).data_bytes 8)) v.table h)
        h

apply_events-IsPosition :
    (es : List OrderEvent) (t : PositionTracker)
    → All IsEvent es
    → IsValid t
    → All IsPosition (entries t)
    → All IsPosition (entries (foldl apply_event t es))
apply_events-IsPosition [] t is v h = h
apply_events-IsPosition (e ∷ es) t (is, rest) v h =
    apply_events-IsPosition es (apply_event t e) rest (apply_event-IsValid t e v)
      (apply_event-IsPosition e is t v h)

none_yet : All IsPosition (entries empty)
unfolding empty
none_yet = tt

pub replay_from-IsPosition :
    (log : EventLog) → All IsEvent (contents log) → All IsPosition (entries (replay_from log))
replay_from-IsPosition log is =
    rw (replay_from-foldl log)
      (apply_events-IsPosition (contents log) empty is empty-IsValid none_yet)
