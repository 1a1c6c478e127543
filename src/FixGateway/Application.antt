-- ===== src/FixGateway/Application.antt =====
-- gateway/FIXGateway.h, the interface FIX::Application that the gateway gives to QuickFIX: the
-- callbacks, each with the session it is for. A message that is only passed on is its text.
use hft_order_book.Base.{ℕ, ◌≡◌, refl, true, false, Option, none, some}
use hft_order_book.Base.Bytes.{Bytes}
use hft_order_book.OrderEvent.{OrderEvent}
use hft_order_book.EventLog.{EventLog, Result, ok, err, append}
use hft_order_book.MessageTranslator.{
  Floats, Translated, field_not_found, bad_format, done, from_execution_report,
}
use hft_order_book.FixGateway.{
  Gateway, MessageOutcome, AppMessage, on_create, on_logon, on_logout, from_app, on_message,
  book_translated, book, book_logged, execution_report, other_message,
}

-- What QuickFIX calls, on an application with a state `G`. `to_admin` and `to_app` may change the
-- message before it is sent.
pub record Application (F : Floats) (G : Type 0) : Type 0 where
  pub created : Bytes → G → G
  pub logged_on : Bytes → G → G
  pub logged_out : Bytes → G → G
  pub admin_out : Bytes → Bytes → G → Bytes × G
  pub app_out : Bytes → Bytes → G → Bytes × G
  pub admin_in : Bytes → Bytes → G → G
  pub app_in : ℕ → AppMessage F → Bytes → G → MessageOutcome × G

-- The callbacks that the gateway leaves empty.
unfoldable pub to_admin : Bytes → Bytes → Gateway → Bytes × Gateway
to_admin message id g = (message, g)

unfoldable pub to_app : Bytes → Bytes → Gateway → Bytes × Gateway
to_app message id g = (message, g)

unfoldable pub from_admin : Bytes → Bytes → Gateway → Gateway
from_admin message id g = g

-- The gateway's callbacks.
abbrev pub application : (F : Floats) → Application F Gateway
application F = record {
  created = on_create;
  logged_on = λ id g. on_logon g;
  logged_out = λ id g. on_logout g;
  admin_out = to_admin;
  app_out = to_app;
  admin_in = from_admin;
  app_in = λ now m id g. from_app F now m g;
}

-- No report changes whether there is a session.
book_logged-connected :
    (e : OrderEvent) (g : Gateway) (r : Result (ℕ × EventLog))
    → (book_logged e g r).1.connected ≡ g.connected
unfolding book_logged
book_logged-connected e g (err x) = refl
book_logged-connected e g (ok (seq, log)) = refl

book_translated-connected :
    (now : ℕ) (g : Gateway) (r : Translated (Option OrderEvent))
    → (book_translated now g r).1.connected ≡ g.connected
unfolding book_translated book
book_translated-connected now g field_not_found = refl
book_translated-connected now g bad_format = refl
book_translated-connected now g (done none) = refl
book_translated-connected now g (done (some e)) = book_logged-connected e g (append now e g.log)

pub from_app-connected :
    (F : Floats) (now : ℕ) (m : AppMessage F) (g : Gateway)
    → (from_app F now m g).1.connected ≡ g.connected
unfolding from_app on_message
from_app-connected F now (execution_report report) g =
    book_translated-connected now g (from_execution_report F report)
from_app-connected F now (other_message true) g = refl
from_app-connected F now (other_message false) g = refl
