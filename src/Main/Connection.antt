-- ===== src/Main/Connection.antt =====
-- The session as the callbacks leave it, and what an order does without one.
use hft_order_book.Base.{
  ℕ, ◌≡◌, refl, ap, ◌∙◌, Bool, true, false, Option, none, some, Bool-cases, inl, inr, List, [], ◌∷◌,
  not,
}
use mathlib.Core.Path.{subst}
use hft_order_book.Base.Int.{ℤ}
use hft_order_book.Base.Bytes.{StringView}
use hft_order_book.OrderEvent.{Side}
use hft_order_book.MessageTranslator.{Floats}
use hft_order_book.FixGateway.{
  Gateway, MessageOutcome, ignored, terminated, booked, not_connected, send_order, on_create,
  on_logon, on_logout, from_app,
}
use hft_order_book.FixGateway.Application.{from_app-connected, to_admin, to_app, from_admin}
use hft_order_book.Main.{
  Process, Event, created, logon, logout, message, admin_received, admin_to_send, app_to_send,
  signal, signal_handler, received, handle, handle_all,
}
use hft_order_book.Main.Events.{if_true, IfAlive, IfAlive-map}

-- Whether there is a session after some events: the last logon or logout says so.
abbrev pub in_session : {F : Floats} → Bool → List (Event F) → Bool
in_session c [] = c
in_session c (logon ∷ es) = in_session true es
in_session c (logout ∷ es) = in_session false es
in_session c (created id ∷ es) = in_session c es
in_session c (message now m ∷ es) = in_session c es
in_session c (admin_received m ∷ es) = in_session c es
in_session c (admin_to_send m ∷ es) = in_session c es
in_session c (app_to_send m ∷ es) = in_session c es
in_session c (signal t0 t1 ∷ es) = in_session c es

received-connected :
    (p : Process) (r : MessageOutcome × Gateway)
    → IfAlive (λ q. q.gateway.connected ≡ r.1.connected) (received p r)
received-connected p (terminated, g) = tt
received-connected p (ignored, g) = refl
received-connected p (booked e, g) = refl

signal_handler-gateway : (t0 t1 : ℕ) (p : Process) → (signal_handler t0 t1 p).gateway ≡ p.gateway
unfolding signal_handler
signal_handler-gateway t0 t1 p = elim (Bool-cases p.registered) [
  | inl known ↦ rw known refl
  | inr unknown ↦ rw unknown refl
]

module _ (F : Floats) where
  handle-connected :
      (e : Event F) (es : List (Event F)) (p : Process)
      → IfAlive
          (λ q. in_session q.gateway.connected es ≡ in_session p.gateway.connected (e ∷ es))
          (handle F e p)
  unfolding handle on_create on_logon on_logout to_admin to_app from_admin
  handle-connected (created id) es p = refl
  handle-connected logon es p = refl
  handle-connected logout es p = refl
  handle-connected (admin_received m) es p = refl
  handle-connected (admin_to_send m) es p = refl
  handle-connected (app_to_send m) es p = refl
  handle-connected (message now m) es p =
      IfAlive-map (received p (from_app F now m p.gateway))
        (λ q k. ap (λ c. in_session {F = F} c es) (k ∙ from_app-connected F now m p.gateway))
        (received-connected p (from_app F now m p.gateway))
  handle-connected (signal t0 t1) es p =
      ap (λ (g : Gateway). in_session g.connected es) (signal_handler-gateway t0 t1 p)

  handle_all-connected :
      (es : List (Event F)) (o : Option Process) (c : Bool)
      → IfAlive (λ p. in_session p.gateway.connected es ≡ c) o
      → IfAlive (λ q. q.gateway.connected ≡ c) (handle_all F es o)
  unfolding handle_all
  handle_all-connected [] o c h = h
  handle_all-connected (e ∷ es) none c h = tt
  handle_all-connected (e ∷ es) (some p) c h =
      handle_all-connected es (handle F e p) c
        (IfAlive-map (handle F e p) (λ q k. k ∙ h) (handle-connected e es p))

  -- From when the session is lost (or while none has begun) until the next logon, whatever else the
  -- process meets, `send_order` sends nothing and leaves the gateway as it is.
  pub send_order-no_session :
      (es : List (Event F)) (p q : Process) (now : ℕ) (found : Bool) (symbol : StringView)
      (side : Side) (qty price_fp : ℤ)
      → in_session p.gateway.connected es ≡ false
      → handle_all F es (some p) ≡ some q
      → send_order F now found symbol side qty price_fp q.gateway ≡ (not_connected, q.gateway)
  unfolding send_order
  send_order-no_session es p q now found symbol side qty price_fp lost handled =
      let apart : q.gateway.connected ≡ false =
        subst (IfAlive (λ r. r.gateway.connected ≡ false)) handled
          (handle_all-connected es (some p) false lost) in
      if_true _ _ (ap not apart)
