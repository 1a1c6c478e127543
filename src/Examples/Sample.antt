-- ===== src/Examples/Sample.antt =====
-- The sample values.
use hft_order_book.Base.{◌==◌, [], ◌∷◌, if◌then◌else◌}
use hft_order_book.Base.Int.{ℤ, pos, negsuc, ◌+ℤ◌, ◌*ℤ◌, ◌/ℤ◌}
use hft_order_book.Base.Word.{wrap32, wrap64}
use hft_order_book.Base.Bytes.{Bytes, StringView}
use hft_order_book.OrderEvent.{OrderEvent, EventType, Side}
use hft_order_book.EventLog.{EventLog, log_magic}
use hft_order_book.OrderManager.{Order, OrderState}
use hft_order_book.PositionTracker.{Position}
use hft_order_book.MessageTranslator.{Floats}

-- "AAPL" and "ORD0" in their arrays.
abbrev pub aapl : Bytes
aapl = b'A' ∷ b'A' ∷ b'P' ∷ b'L' ∷ 0 ∷ 0 ∷ 0 ∷ 0 ∷ []

abbrev pub ord0 : Bytes
ord0 = b'O' ∷ b'R' ∷ b'D' ∷ b'0' ∷ 0 ∷ 0 ∷ 0 ∷ 0 ∷ []

abbrev pub view : Bytes → StringView
view s = record { data_bytes = s; size = 4 }

-- Buy 100 at 2, and a fill of 40 at 2.
abbrev pub buy_order : OrderEvent
buy_order = record {
  sequence = 0;
  timestamp_ns = 0;
  price = pos 2_000_000;
  fill_price = pos 0;
  qty = pos 100;
  fill_qty = pos 0;
  symbol = aapl;
  order_id = ord0;
  type = EventType.new_order;
  side = Side.buy;
}

abbrev pub part_fill : OrderEvent
part_fill = record buy_order {
  sequence = 1;
  price = pos 0;
  qty = pos 0;
  fill_price = pos 2_000_000;
  fill_qty = pos 40;
  type = EventType.partial_fill;
}

abbrev pub empty_log : EventLog
empty_log = record {
  file = record {
    header = record { magic = log_magic; next_sequence = 0 };
    events = λ i. buy_order;
  };
  next_seq = 0;
}

-- The order and its fill.
abbrev pub two_events : EventLog
two_events = record {
  file = record {
    header = record { magic = log_magic; next_sequence = 2 };
    events = λ i. if i == 0 then buy_order else part_fill;
  };
  next_seq = 2;
}

-- A cancelled order of 100, of which 10 had been filled at 2.
abbrev pub cancelled_order : Order
cancelled_order = record {
  order_id = ord0;
  symbol = aapl;
  limit_price = pos 2_000_000;
  avg_fill_price = pos 2_000_000;
  opened_seq = 0;
  last_seq = 2;
  original_qty = pos 100;
  filled_qty = pos 10;
  state = OrderState.cancelled;
  side = Side.buy;
}

-- Short 30 at 2, and long 30 at 2.
abbrev pub short_30 : Position
short_30 = record {
  symbol = aapl;
  net_qty = negsuc 29;
  avg_entry_price = pos 2_000_000;
  realized_pnl = pos 0;
  unrealized_pnl = pos 0;
  total_buy_qty = pos 0;
  total_sell_qty = pos 30;
  last_price = pos 0;
  last_updated_seq = pos 0;
}

abbrev pub long_30 : Position
long_30 = record short_30 { net_qty = pos 30; total_buy_qty = pos 30; total_sell_qty = pos 0 }

-- Numbers of no fraction in place of doubles.
abbrev pub whole : Floats
whole = record {
  Double = ℤ;
  of_int = λ n. n;
  add = ◌+ℤ◌;
  mul = ◌*ℤ◌;
  div = ◌/ℤ◌;
  to_int32 = wrap32;
  to_int64 = wrap64;
}
