-- ===== src/FixGateway/Durable.antt =====
-- The gateway keeps the header of the log in step with its counter, so the file opens again.
use hft_order_book.Base.{ℕ, ◌≡◌, refl, Bool, Option, none, some, not, if_has}
use hft_order_book.Base.Int.{ℤ}
use hft_order_book.Base.Bytes.{Bytes, StringView}
use hft_order_book.OrderEvent.{Side, OrderEvent}
use hft_order_book.EventLog.{EventLog, Result, ok, err, append}
use hft_order_book.EventLog.Recovery.{IsDurable, append-IsDurable}
use hft_order_book.RiskChecker.{RiskLimits, RiskResult}
use hft_order_book.OrderManager
use hft_order_book.PositionTracker
use hft_order_book.FixGateway.Recovery.{
  Runs, rebuilt, created, logged_on, logged_out, reported, ordered,
}
use hft_order_book.MessageTranslator.{
  Floats, ExecutionReport, Translated, field_not_found, bad_format, done, from_execution_report,
}
use hft_order_book.FixGateway.{
  Gateway, SendOutcome, not_connected, next_order_id, record_and_send, send_checked, send_order,
  book_logged, book, book_translated, on_message, create, on_create, on_logon, on_logout,
}

abbrev pub HasDurable : Gateway → Type 0
HasDurable g = IsDurable g.log

book_logged-HasDurable :
    (now : ℕ) (e : OrderEvent) (g : Gateway) (r : Result (ℕ × EventLog))
    → append now e g.log ≡ r
    → HasDurable g
    → HasDurable (book_logged e g r).1
unfolding book_logged
book_logged-HasDurable now e g (err x) at d = d
book_logged-HasDurable now e g (ok (seq, log')) at d = append-IsDurable now seq e g.log log' at d

book_translated-HasDurable :
    (now : ℕ) (g : Gateway) (t : Translated (Option OrderEvent))
    → HasDurable g
    → HasDurable (book_translated now g t).1
unfolding book_translated book
book_translated-HasDurable now g field_not_found d = d
book_translated-HasDurable now g bad_format d = d
book_translated-HasDurable now g (done none) d = d
book_translated-HasDurable now g (done (some e)) d =
    book_logged-HasDurable now e g (append now e g.log) refl d

on_create-HasDurable : (id : Bytes) (g : Gateway) → HasDurable g → HasDurable (on_create id g)
unfolding on_create
on_create-HasDurable id g d = d

on_logon-HasDurable : (g : Gateway) → HasDurable g → HasDurable (on_logon g)
unfolding on_logon
on_logon-HasDurable g d = d

on_logout-HasDurable : (g : Gateway) → HasDurable g → HasDurable (on_logout g)
unfolding on_logout
on_logout-HasDurable g d = d

module _ (F : Floats) where
  on_message-HasDurable :
      (now : ℕ) (report : ExecutionReport F) (g : Gateway)
      → HasDurable g
      → HasDurable (on_message F now report g).1
  unfolding on_message
  on_message-HasDurable now report g d =
      book_translated-HasDurable now g (from_execution_report F report) d

  record_and_send-HasDurable :
      (now : ℕ) (found : Bool) (oid : Bytes) (e : OrderEvent) (g : Gateway)
      (r : Result (ℕ × EventLog))
      → append now e g.log ≡ r
      → HasDurable g
      → HasDurable (record_and_send F now found oid e g r).1
  unfolding record_and_send
  record_and_send-HasDurable now found oid e g (err x) at d = d
  record_and_send-HasDurable now found oid e g (ok (seq, log')) at d =
      append-IsDurable now seq e g.log log' at d

  module _ (now : ℕ) (found : Bool) (symbol : StringView) (side : Side) (qty price_fp : ℤ)
      (g : Gateway) where
    send_checked-HasDurable :
        (r : RiskResult)
        → HasDurable g
        → HasDurable (send_checked F now found symbol side qty price_fp g r).1
    unfolding send_checked next_order_id
    send_checked-HasDurable RiskResult.pass d =
        record_and_send-HasDurable now found _ _ (next_order_id g).1 _ refl d
    send_checked-HasDurable RiskResult.fail_max_qty d = d
    send_checked-HasDurable RiskResult.fail_max_notional d = d
    send_checked-HasDurable RiskResult.fail_position_limit d = d
    send_checked-HasDurable RiskResult.fail_max_loss d = d
    send_checked-HasDurable RiskResult.fail_position_cross d = d

    send_order-HasDurable :
        HasDurable g → HasDurable (send_order F now found symbol side qty price_fp g).1
    unfolding send_order
    send_order-HasDurable d =
        if_has (λ (x : SendOutcome F × Gateway). HasDurable x.1) (not g.connected)
          (not_connected, g) _ d (send_checked-HasDurable _ d)

  rebuilt-HasDurable :
      (log : EventLog) (limits : RiskLimits)
      → IsDurable log
      → HasDurable
          (create log (PositionTracker.replay_from log) (OrderManager.replay_from log) limits)
  unfolding create
  rebuilt-HasDurable log limits d = d

  -- In a run on a log whose header has its counter, the log always is one.
  pub Runs-HasDurable :
      {log : EventLog} {limits : RiskLimits} {g : Gateway}
      → IsDurable log
      → Runs F log limits g
      → HasDurable g
  Runs-HasDurable {log} {limits} d rebuilt = rebuilt-HasDurable log limits d
  Runs-HasDurable d (created id r) = on_create-HasDurable id _ (Runs-HasDurable d r)
  Runs-HasDurable d (logged_on r) = on_logon-HasDurable _ (Runs-HasDurable d r)
  Runs-HasDurable d (logged_out r) = on_logout-HasDurable _ (Runs-HasDurable d r)
  Runs-HasDurable d (reported now report r) =
      on_message-HasDurable now report _ (Runs-HasDurable d r)
  Runs-HasDurable d (ordered now found symbol side qty price r) =
      send_order-HasDurable now found symbol side qty price _ (Runs-HasDurable d r)
