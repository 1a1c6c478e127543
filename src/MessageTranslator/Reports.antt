-- ===== src/MessageTranslator/Reports.antt =====
-- What reports are translated to: never to a new order.
use hft_order_book.Base.{
  ◌≡◌, ◌≢◌, refl, ap, Option, none, some, inl, inr, arith, Bool-cases, if◌then◌else◌,
}
use mathlib.Core.Path.{subst}
use hft_order_book.Base.Bytes.{Bytes, strncpy}
use hft_order_book.OrderEvent.{EventType, Side, OrderEvent, zero_event}
use hft_order_book.MessageTranslator.{
  Floats, ExecType, FixSide, Field, absent, malformed, present, ExecutionReport, Translated,
  field_not_found, bad_format, done, ◌>>=◌, booked_type, is_fill_type, with_fill, event_of,
  booked_or_none, from_execution_report, from_fix_side,
}

-- Of what is translated, if it is.
abbrev pub IfDone {ℓ} : {A : Type ℓ} → (A → Type 0) → Translated A → Type 0
IfDone P field_not_found = Unit
IfDone P bad_format = Unit
IfDone P (done a) = P a

-- Of the event, if there is one.
abbrev pub IfSome : (OrderEvent → Type 0) → Option OrderEvent → Type 0
IfSome P none = Unit
IfSome P (some e) = P e

IfDone-some :
    (P : OrderEvent → Type 0) (t : Translated OrderEvent)
    → IfDone P t
    → IfDone (IfSome P) (t >>= λ e. done (some e))
IfDone-some P field_not_found h = tt
IfDone-some P bad_format h = tt
IfDone-some P (done e) h = h

with_fill-named :
    (F : Floats) (a b : Field F.Double) (e : OrderEvent)
    → e.type ≢ EventType.new_order
    → IfDone (λ (d : OrderEvent). d.type ≢ EventType.new_order) (with_fill F a b e)
unfolding with_fill
with_fill-named F absent b e h = h
with_fill-named F malformed absent e h = h
with_fill-named F malformed malformed e h = tt
with_fill-named F malformed (present b) e h = tt
with_fill-named F (present a) absent e h = h
with_fill-named F (present a) malformed e h = tt
with_fill-named F (present a) (present b) e h = h

booked_type-ne : (x : ExecType) (t : EventType) → booked_type x ≡ some t → t ≢ EventType.new_order
unfolding booked_type
booked_type-ne ExecType.partial_fill t h = ground arith
booked_type-ne ExecType.fill t h = ground arith
booked_type-ne ExecType.canceled t h = ground arith
booked_type-ne ExecType.rejected t h = ground arith
booked_type-ne ExecType.new t h = ground arith
booked_type-ne ExecType.other t h = ground arith

-- The event of a report before its fill fields.
abbrev pub named : EventType → Bytes → Bytes → Side → OrderEvent
named t s c side = record zero_event {
  type = t;
  symbol = strncpy s 8;
  order_id = strncpy c 8;
  side = side;
}

-- What holds of every event that a report can be booked as holds of the one that it is translated to.
module _ (F : Floats) (P : OrderEvent → Type 0) (a b : Field F.Double)
    (holds : (t : EventType) (s c : Bytes) (side : Side)
      → t ≢ EventType.new_order
      → IfDone P (
          if is_fill_type t
          then with_fill F a b (named t s c side)
          else done (named t s c side))) where
  event_of-holds :
      (x : Field ExecType) (t : EventType) (s c : Option Bytes) (side : Field FixSide)
      → t ≢ EventType.new_order
      → IfDone P (
          event_of F
            (record {
              exec_type = x;
              symbol = s;
              cl_ord_id = c;
              side = side;
              last_shares = a;
              last_px = b;
            })
            t)
  unfolding event_of
  event_of-holds x t none c side ne = tt
  event_of-holds x t (some s) none side ne = tt
  event_of-holds x t (some s) (some c) absent ne = tt
  event_of-holds x t (some s) (some c) malformed ne = tt
  event_of-holds x t (some s) (some c) (present side) ne = holds t s c (from_fix_side side) ne

  booked_or_none-holds :
      (x : Field ExecType) (t : Option EventType) (s c : Option Bytes) (side : Field FixSide)
      → (t ≢ some EventType.new_order)
      → IfDone (IfSome P) (
          booked_or_none F
            (record {
              exec_type = x;
              symbol = s;
              cl_ord_id = c;
              side = side;
              last_shares = a;
              last_px = b;
            })
            t)
  unfolding booked_or_none
  booked_or_none-holds x none s c side ne = tt
  booked_or_none-holds x (some t) s c side ne =
      IfDone-some P _ (event_of-holds x t s c side (λ e. ne (ap some e)))

  by_fields :
      (x : Field ExecType) (s c : Option Bytes) (side : Field FixSide)
      → IfDone (IfSome P) (
          from_execution_report F (record {
            exec_type = x;
            symbol = s;
            cl_ord_id = c;
            side = side;
            last_shares = a;
            last_px = b;
          }))
  unfolding from_execution_report
  by_fields absent s c side = tt
  by_fields malformed s c side = tt
  by_fields (present x) s c side =
      booked_or_none-holds (present x) (booked_type x) s c side
        (λ e. booked_type-ne x EventType.new_order e refl)

pub from_execution_report-holds :
    (F : Floats) (P : OrderEvent → Type 0) (report : ExecutionReport F)
    → ((t : EventType) (s c : Bytes) (side : Side)
        → t ≢ EventType.new_order
        → IfDone P (
            if is_fill_type t
            then with_fill F report.last_shares report.last_px (named t s c side)
            else done (named t s c side)))
    → (e : OrderEvent) → from_execution_report F report ≡ done (some e)
    → P e
from_execution_report-holds F P report holds e h = subst (IfDone (IfSome P)) h (
    by_fields F P report.last_shares report.last_px holds report.exec_type report.symbol
      report.cl_ord_id report.side)

-- No report is translated to a new order.
pub from_execution_report-type :
    (F : Floats) (report : ExecutionReport F) (e : OrderEvent)
    → from_execution_report F report ≡ done (some e)
    → e.type ≢ EventType.new_order
from_execution_report-type F report e h =
    from_execution_report-holds F (λ (d : OrderEvent). d.type ≢ EventType.new_order) report
      (λ t s c side ne. elim (Bool-cases (is_fill_type t)) [
        | inl fill ↦
            rw fill (with_fill-named F report.last_shares report.last_px (named t s c side) ne)
        | inr other ↦ rw other ne
      ])
      e h
