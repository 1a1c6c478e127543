-- ===== src/OrderManager/Types.antt =====
-- Every field of every order stays within its type.
use hft_order_book.Base.{◌^◌, ◌<◌, ◌≡◌, arith, length, if_has, All, List, [], ◌∷◌}
use hft_order_book.Base.Int.{◌+ℤ◌}
use hft_order_book.Base.Word.{Fits32, Fits64, wrap32-Fits32, wrap64-Fits64}
use hft_order_book.Base.Division.{mean-Fits64}
use hft_order_book.Base.Bytes.{Bytes, length-strncpy}
use hft_order_book.OrderEvent.{EventType, OrderEvent, order_id_view}
use hft_order_book.OrderEvent.Types.{IsEvent}
use hft_order_book.EventLog.{EventLog}
use hft_order_book.EventLog.Contents.{contents}
use hft_order_book.SlotTable.Lookup.{entries, foldl}
use hft_order_book.SlotTable.Everywhere.{All-update_at, All-upsert}
use hft_order_book.OrderManager.{
  Order, OrderManager, order_name, max_orders, blank_order, opened, filled_by, cancelled_by,
  rejected_by, amended_by, handle_new, handle_fill, handle_cancel, handle_reject, handle_amend,
  find, dispatch, apply_event, replay_from, empty,
}
use hft_order_book.OrderManager.Lifecycle.{IsValid, apply_event-IsValid, empty-IsValid}
use hft_order_book.OrderManager.Replay.{replay_from-foldl}

pub record IsOrder (o : Order) : Type 0 where
  pub limit_price_fits : Fits64 o.limit_price
  pub avg_fill_price_fits : Fits64 o.avg_fill_price
  pub opened_seq_fits : o.opened_seq < 2 ^ 64
  pub last_seq_fits : o.last_seq < 2 ^ 64
  pub original_qty_fits : Fits32 o.original_qty
  pub filled_qty_fits : Fits32 o.filled_qty
  pub symbol_sized : length o.symbol ≡ 8
  pub order_id_sized : length o.order_id ≡ 8

blank_order-IsOrder : (k : Bytes) → length k ≡ 8 → IsOrder (blank_order k)
blank_order-IsOrder k h = record {
  limit_price_fits = ground arith;
  avg_fill_price_fits = ground arith;
  opened_seq_fits = omega arith;
  last_seq_fits = omega arith;
  original_qty_fits = ground arith;
  filled_qty_fits = ground arith;
  symbol_sized = length-strncpy _ 8;
  order_id_sized = h;
}

module _ (e : OrderEvent) (is : IsEvent e) where
  opened-IsOrder : (o : Order) → IsOrder o → IsOrder (opened e o)
  unfolding opened
  opened-IsOrder o h = record {
    limit_price_fits = is.price_fits;
    avg_fill_price_fits = ground arith;
    opened_seq_fits = is.sequence_fits;
    last_seq_fits = is.sequence_fits;
    original_qty_fits = is.qty_fits;
    filled_qty_fits = ground arith;
    symbol_sized = length-strncpy e.symbol 8;
    order_id_sized = h.order_id_sized;
  }

  filled_by-IsOrder : (o : Order) → IsOrder o → IsOrder (filled_by e o)
  unfolding filled_by
  filled_by-IsOrder o h = record {
    limit_price_fits = h.limit_price_fits;
    avg_fill_price_fits = mean-Fits64 _ _ (wrap64-Fits64 _);
    opened_seq_fits = h.opened_seq_fits;
    last_seq_fits = is.sequence_fits;
    original_qty_fits = h.original_qty_fits;
    filled_qty_fits = wrap32-Fits32 (o.filled_qty +ℤ e.fill_qty);
    symbol_sized = h.symbol_sized;
    order_id_sized = h.order_id_sized;
  }

  cancelled_by-IsOrder : (o : Order) → IsOrder o → IsOrder (cancelled_by e o)
  unfolding cancelled_by
  cancelled_by-IsOrder o h = record {
    limit_price_fits = h.limit_price_fits;
    avg_fill_price_fits = h.avg_fill_price_fits;
    opened_seq_fits = h.opened_seq_fits;
    last_seq_fits = is.sequence_fits;
    original_qty_fits = h.original_qty_fits;
    filled_qty_fits = h.filled_qty_fits;
    symbol_sized = h.symbol_sized;
    order_id_sized = h.order_id_sized;
  }

  rejected_by-IsOrder : (o : Order) → IsOrder o → IsOrder (rejected_by e o)
  unfolding rejected_by
  rejected_by-IsOrder o h = record {
    limit_price_fits = h.limit_price_fits;
    avg_fill_price_fits = h.avg_fill_price_fits;
    opened_seq_fits = h.opened_seq_fits;
    last_seq_fits = is.sequence_fits;
    original_qty_fits = h.original_qty_fits;
    filled_qty_fits = h.filled_qty_fits;
    symbol_sized = h.symbol_sized;
    order_id_sized = h.order_id_sized;
  }

  amended_by-IsOrder : (o : Order) → IsOrder o → IsOrder (amended_by e o)
  unfolding amended_by
  amended_by-IsOrder o h = record {
    limit_price_fits = if_has Fits64 _ _ _ is.price_fits h.limit_price_fits;
    avg_fill_price_fits = h.avg_fill_price_fits;
    opened_seq_fits = h.opened_seq_fits;
    last_seq_fits = is.sequence_fits;
    original_qty_fits = if_has Fits32 _ _ _ is.qty_fits h.original_qty_fits;
    filled_qty_fits = h.filled_qty_fits;
    symbol_sized = h.symbol_sized;
    order_id_sized = h.order_id_sized;
  }

  dispatch-IsOrder :
      (t : EventType) (m : OrderManager)
      → IsValid m
      → All IsOrder (entries m)
      → All IsOrder (entries (dispatch t m e))
  unfolding dispatch handle_new handle_fill handle_cancel handle_reject handle_amend find
  dispatch-IsOrder EventType.unset m v h = h
  dispatch-IsOrder EventType.new_order m v h =
      All-upsert IsOrder order_name (opened e) opened-IsOrder max_orders blank_order m
        (order_id_view e) (blank_order-IsOrder _ (length-strncpy (order_id_view e).data_bytes 8))
        v.table h
  dispatch-IsOrder EventType.partial_fill m v h =
      All-update_at IsOrder order_name (filled_by e) filled_by-IsOrder m (order_id_view e) h
  dispatch-IsOrder EventType.full_fill m v h =
      All-update_at IsOrder order_name (filled_by e) filled_by-IsOrder m (order_id_view e) h
  dispatch-IsOrder EventType.cancel m v h =
      All-update_at IsOrder order_name (cancelled_by e) cancelled_by-IsOrder m (order_id_view e) h
  dispatch-IsOrder EventType.reject m v h =
      All-update_at IsOrder order_name (rejected_by e) rejected_by-IsOrder m (order_id_view e) h
  dispatch-IsOrder EventType.amend m v h =
      All-update_at IsOrder order_name (amended_by e) amended_by-IsOrder m (order_id_view e) h

  -- An event within its types keeps every field of every order of a valid table within its type.
  pub apply_event-IsOrder :
      (m : OrderManager)
      → IsValid m
      → All IsOrder (entries m)
      → All IsOrder (entries (apply_event m e))
  unfolding apply_event
  apply_event-IsOrder m v h = dispatch-IsOrder e.type m v h

apply_events-IsOrder :
    (es : List OrderEvent) (m : OrderManager)
    → All IsEvent es
    → IsValid m
    → All IsOrder (entries m)
    → All IsOrder (entries (foldl apply_event m es))
apply_events-IsOrder [] m is v h = h
apply_events-IsOrder (e ∷ es) m (is, rest) v h =
    apply_events-IsOrder es (apply_event m e) rest (apply_event-IsValid m e v)
      (apply_event-IsOrder e is m v h)

none_yet : All IsOrder (entries empty)
unfolding empty
none_yet = tt

pub replay_from-IsOrder :
    (log : EventLog) → All IsEvent (contents log) → All IsOrder (entries (replay_from log))
replay_from-IsOrder log is =
    rw (replay_from-foldl log) (apply_events-IsOrder (contents log) empty is empty-IsValid none_yet)
