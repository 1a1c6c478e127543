-- ===== src/OrderEvent.antt =====
-- include/OrderEvent.h: the event that the log stores and the trackers consume.
-- Prices are fixed-point integers; the fields of signed types are ℤ, those of unsigned types ℕ.
-- The padding is left out. Children: Prices (the prices as doubles) and
-- Types (the ranges of the fields).
pub mod Prices
pub mod Types
use hft_order_book.Base.{ℕ, Bool, true, false, ◌||◌, if◌then◌else◌, []}
use hft_order_book.Base.Int.{ℤ, pos}
use hft_order_book.Base.Bytes.{Bytes, StringView, strnlen, strncpy}

abbrev pub price_scale : ℕ
price_scale = 1_000_000

-- `unset` is the value 0 of the underlying uint8_t, which zero-initialisation leaves and which is
-- none of the enumerators.
pub data EventType : Type 0 where
  unset new_order partial_fill full_fill cancel reject amend : EventType

pub data Side : Type 0 where
  unset buy sell : Side

-- `side == Side::Buy`
abbrev pub is_buy : Side → Bool
is_buy Side.buy = true
is_buy _ = false

pub record OrderEvent : Type 0 where
  pub sequence : ℕ
  pub timestamp_ns : ℕ
  pub price : ℤ
  pub fill_price : ℤ
  pub qty : ℤ
  pub fill_qty : ℤ
  pub symbol : Bytes
  pub order_id : Bytes
  pub type : EventType
  pub side : Side

unfoldable pub symbol_view : OrderEvent → StringView
unfolding strnlen
symbol_view e = record { data_bytes = e.symbol; size = strnlen e.symbol 8 }

unfoldable pub order_id_view : OrderEvent → StringView
unfolding strnlen
order_id_view e = record { data_bytes = e.order_id; size = strnlen e.order_id 8 }

is_partial : EventType → Bool
is_partial EventType.partial_fill = true
is_partial _ = false

is_full : EventType → Bool
is_full EventType.full_fill = true
is_full _ = false

unfoldable pub is_fill : OrderEvent → Bool
unfolding is_partial is_full
is_fill e = is_partial e.type || is_full e.type

-- `OrderEvent e{}`: every byte zero.
unfoldable pub zero_event : OrderEvent
unfolding strncpy
zero_event = record {
  sequence = 0;
  timestamp_ns = 0;
  price = pos 0;
  fill_price = pos 0;
  qty = pos 0;
  fill_qty = pos 0;
  symbol = strncpy [] 8;
  order_id = strncpy [] 8;
  type = EventType.unset;
  side = Side.unset;
}

unfoldable pub make_fill : StringView → Side → ℤ → ℤ → StringView → Bool → OrderEvent
unfolding zero_event
make_fill sym side fqty fprice oid partial = record zero_event {
  type = if partial then EventType.partial_fill else EventType.full_fill;
  side = side;
  qty = fqty;
  fill_qty = fqty;
  fill_price = fprice;
  symbol = strncpy sym.data_bytes 8;
  order_id = strncpy oid.data_bytes 8;
}

unfoldable pub make_new_order : StringView → Side → ℤ → ℤ → StringView → OrderEvent
unfolding zero_event
make_new_order sym side qty price_fp oid = record zero_event {
  type = EventType.new_order;
  side = side;
  qty = qty;
  price = price_fp;
  symbol = strncpy sym.data_bytes 8;
  order_id = strncpy oid.data_bytes 8;
}
