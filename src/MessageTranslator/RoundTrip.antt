-- ===== src/MessageTranslator/RoundTrip.antt =====
-- From an order to its FIX message and, by a fill report that names it, back to an event.
use hft_order_book.Base.{
  ℕ, zero, suc, ◌≡◌, refl, Bool, true, false, some, [], ◌∷◌, take, arith, if◌then◌else◌,
}
use hft_order_book.Base.Int.{ℤ, pos}
use hft_order_book.Base.Bytes.{Bytes, StringView, strncpy, strnlen, rest_bytes}
use hft_order_book.OrderEvent.{Side, is_buy, make_fill, make_new_order}
use hft_order_book.MessageTranslator.{
  Floats, ExecType, FixSide, SentSide, from_fix_side, to_fix_side, ExecutionReport, NewOrderSingle,
  present, done, fixed_string, from_execution_report, to_new_order_single, to_fixed,
}

strncpy-take :
    (s : Bytes) (n : ℕ) → strncpy (take (strnlen (strncpy s n) n) (strncpy s n)) n ≡ strncpy s n
unfolding strncpy strnlen
strncpy-take s zero = refl
strncpy-take s (suc n) = ground (arith, strncpy-take (rest_bytes s) n)

-- A name that is read out of its array as a string and copied back is the same.
pub strncpy-fixed_string : (s : Bytes) → strncpy (fixed_string (strncpy s 8)) 8 ≡ strncpy s 8
unfolding fixed_string
strncpy-fixed_string s = strncpy-take s 8

strncpy-take_text : (s : Bytes) (n : ℕ) → strncpy (take (strnlen s n) s) n ≡ strncpy s n
unfolding strncpy strnlen
strncpy-take_text s zero = refl
strncpy-take_text [] (suc n) = refl
strncpy-take_text (c ∷ s) (suc n) = ground (arith, strncpy-take_text s n)

-- Of any array, it is the same up to its NUL.
pub strncpy-text : (s : Bytes) → strncpy (take (strnlen s 8) s) 8 ≡ strncpy s 8
strncpy-text s = strncpy-take_text s 8

-- The side that an exchange reports for an order.
abbrev pub reported_side : SentSide → FixSide
reported_side SentSide.buy = FixSide.buy
reported_side SentSide.sell = FixSide.other

-- The side of a sent message as an event has it again.
abbrev pub side_again : Side → Side
side_again side = if is_buy side then Side.buy else Side.sell

side_again_lem : (side : Side) → from_fix_side (reported_side (to_fix_side side)) ≡ side_again side
side_again_lem side = ground arith

module _ (F : Floats) where
  -- The report of a fill of an order that was sent, or of a part of it.
  abbrev pub fill_report : Bool → F.Double → F.Double → NewOrderSingle F → ExecutionReport F
  fill_report partial shares px order = record {
    exec_type = present (if partial then ExecType.partial_fill else ExecType.fill);
    symbol = some order.symbol;
    cl_ord_id = some order.cl_ord_id;
    side = present (reported_side order.side);
    last_shares = present shares;
    last_px = present px;
  }

  -- The report of a fill of an order that was sent is translated to the fill of that order: of the
  -- same id and symbol, with the reported quantity and price.
  pub from_execution_report-to_new_order_single :
      (partial : Bool) (shares px : F.Double) (sym : StringView) (side : Side) (qty price_fp : ℤ)
      (oid : StringView)
      → from_execution_report F (
          fill_report partial shares px
            (to_new_order_single F (make_new_order sym side qty price_fp oid)))
        ≡ done (
            some
              (record (make_fill sym
                (side_again side)
                (F.to_int32 shares)
                (to_fixed F px)
                oid
                partial) { qty = pos 0 }))
  unfolding from_execution_report to_new_order_single make_new_order make_fill
  from_execution_report-to_new_order_single true shares px sym side qty price_fp oid =
      rw
        (
          strncpy-fixed_string sym.data_bytes,
          strncpy-fixed_string oid.data_bytes,
          side_again_lem side,
        )
        refl
  from_execution_report-to_new_order_single false shares px sym side qty price_fp oid =
      rw
        (
          strncpy-fixed_string sym.data_bytes,
          strncpy-fixed_string oid.data_bytes,
          side_again_lem side,
        )
        refl
