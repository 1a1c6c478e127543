-- ===== src/MessageTranslator.antt =====
-- gateway/MessageTranslator.h: between FIX messages and events. A FIX message is what the program
-- reads from it or sets in it. `double` is a parameter, `Floats`: the arithmetic is the machine's.
-- The time stamp that QuickFIX puts in an outbound message is left out. Children: RoundTrip (an order
-- and the report of its fill), Reports (the types of the events), Types (the ranges of
-- their fields).
pub mod RoundTrip
pub mod Reports
pub mod Types
use hft_order_book.Base.{ℕ, Bool, true, false, Option, none, some, if◌then◌else◌, take}
use hft_order_book.Base.Int.{ℤ, pos}
use hft_order_book.Base.Bytes.{Bytes, strncpy, strnlen}
use hft_order_book.OrderEvent.{EventType, Side, is_buy, OrderEvent, zero_event, price_scale}

-- `double` with the operations that the program uses.
pub record Floats : Type 1 where
  pub Double : Type 0
  pub of_int : ℤ → Double
  pub add : Double → Double → Double
  pub mul : Double → Double → Double
  pub div : Double → Double → Double
  pub to_int32 : Double → ℤ
  pub to_int64 : Double → ℤ

-- The values of FIX::ExecType that the switch names; `other` is any other.
pub data ExecType : Type 0 where
  partial_fill fill canceled rejected new other : ExecType

-- FIX::Side, by the one test on it.
pub data FixSide : Type 0 where
  buy other : FixSide

-- FIX::Side as the program sets it.
pub data SentSide : Type 0 where
  buy sell : SentSide

pub data OrdType : Type 0 where
  limit market : OrdType

pub data TimeInForce : Type 0 where
  day : TimeInForce

-- A field that is read as a character or a number: absent, there with a text that is none, or there.
pub data Field {ℓ} (A : Type ℓ) : Type ℓ where
  absent malformed : Field A
  present : A → Field A

-- A required field that is absent makes `report.get` throw, and one whose text does not convert makes
-- `getValue` throw.
pub data Translated {ℓ} (A : Type ℓ) : Type ℓ where
  field_not_found bad_format : Translated A
  done : A → Translated A

infixl 5 ◌>>=◌
abbrev pub ◌>>=◌ {ℓ κ} :
    {A : Type ℓ} {B : Type κ} → Translated A → (A → Translated B) → Translated B
field_not_found >>= f = field_not_found
bad_format >>= f = bad_format
done a >>= f = f a

-- `report.get` and `getValue` of a field that converts, and `getString` of a text.
abbrev value_of {ℓ} : {A : Type ℓ} → Field A → Translated A
value_of absent = field_not_found
value_of malformed = bad_format
value_of (present a) = done a

abbrev text_of : Option Bytes → Translated Bytes
text_of none = field_not_found
text_of (some s) = done s

-- The event type of an ExecType, none for a report with nothing to book.
unfoldable pub booked_type : ExecType → Option EventType
booked_type ExecType.partial_fill = some EventType.partial_fill
booked_type ExecType.fill = some EventType.full_fill
booked_type ExecType.canceled = some EventType.cancel
booked_type ExecType.rejected = some EventType.reject
booked_type ExecType.new = none
booked_type ExecType.other = none

abbrev pub is_fill_type : EventType → Bool
is_fill_type EventType.partial_fill = true
is_fill_type EventType.full_fill = true
is_fill_type _ = false

abbrev pub from_fix_side : FixSide → Side
from_fix_side FixSide.buy = Side.buy
from_fix_side FixSide.other = Side.sell

abbrev pub to_fix_side : Side → SentSide
to_fix_side side = if is_buy side then SentSide.buy else SentSide.sell

-- `std::string(s, strnlen(s, 8))`
unfoldable pub fixed_string : Bytes → Bytes
unfolding strnlen
fixed_string s = take (strnlen s 8) s

pub record OrderCancelRequest : Type 0 where
  pub orig_cl_ord_id : Bytes
  pub cl_ord_id : Bytes
  pub symbol : Bytes
  pub side : SentSide

-- Build a cancel for an order.
unfoldable pub to_cancel_request : OrderEvent → Bytes → OrderCancelRequest
unfolding fixed_string
to_cancel_request original new_cl_ord_id = record {
  orig_cl_ord_id = fixed_string original.order_id;
  cl_ord_id = new_cl_ord_id;
  symbol = fixed_string original.symbol;
  side = to_fix_side original.side;
}

module _ (F : Floats) where
  open F use {Double, of_int, mul, div, to_int32, to_int64}

  pub record ExecutionReport : Type 0 where
    pub exec_type : Field ExecType
    pub symbol : Option Bytes
    pub cl_ord_id : Option Bytes
    pub side : Field FixSide
    pub last_shares : Field Double
    pub last_px : Field Double

  pub record NewOrderSingle : Type 0 where
    pub cl_ord_id : Bytes
    pub handl_inst : ℕ
    pub symbol : Bytes
    pub side : SentSide
    pub ord_type : OrdType
    pub order_qty : Double
    pub price : Option Double
    pub time_in_force : TimeInForce

  unfoldable pub to_fixed : Double → ℤ
  to_fixed price = to_int64 (mul price (of_int (pos price_scale)))

  unfoldable pub from_fixed : ℤ → Double
  from_fixed price_fp = div (of_int price_fp) (of_int (pos price_scale))

  -- The fill fields, set only where the report has both.
  unfoldable pub with_fill : Field Double → Field Double → OrderEvent → Translated OrderEvent
  unfolding to_fixed
  with_fill absent px e = done e
  with_fill malformed absent e = done e
  with_fill malformed malformed e = bad_format
  with_fill malformed (present px) e = bad_format
  with_fill (present qty) absent e = done e
  with_fill (present qty) malformed e = bad_format
  with_fill (present qty) (present px) e =
      done (record e { fill_qty = to_int32 qty; fill_price = to_fixed px })

  -- The event of a report whose ExecType is booked.
  unfoldable pub event_of : ExecutionReport → EventType → Translated OrderEvent
  unfolding with_fill zero_event
  event_of report etype = do
    symbol ← text_of report.symbol
    cl_ord_id ← text_of report.cl_ord_id
    side ← value_of report.side
    let evt : OrderEvent = record zero_event {
      type = etype;
      symbol = strncpy symbol 8;
      order_id = strncpy cl_ord_id 8;
      side = from_fix_side side;
    }
    if is_fill_type etype then with_fill report.last_shares report.last_px evt else done evt

  -- The early return of a report with nothing to book.
  unfoldable pub booked_or_none :
      ExecutionReport → Option EventType → Translated (Option OrderEvent)
  unfolding event_of
  booked_or_none report none = done none
  booked_or_none report (some etype) = do evt ← event_of report etype; done (some evt)

  unfoldable pub from_execution_report : ExecutionReport → Translated (Option OrderEvent)
  unfolding booked_type booked_or_none
  from_execution_report report = do
    exec_type ← value_of report.exec_type
    booked_or_none report (booked_type exec_type)

  unfoldable pub to_new_order_single : OrderEvent → NewOrderSingle
  unfolding fixed_string from_fixed
  to_new_order_single evt = record {
    cl_ord_id = fixed_string evt.order_id;
    handl_inst = b'1';
    symbol = fixed_string evt.symbol;
    side = to_fix_side evt.side;
    ord_type = OrdType.limit;
    order_qty = of_int evt.qty;
    price = some (from_fixed evt.price);
    time_in_force = TimeInForce.day;
  }
