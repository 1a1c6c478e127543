-- ===== src/Main/Handled.antt =====
-- What one event, and what a list of events, leave of the process.
use hft_order_book.Base.{
  ℕ, ◌≡◌, refl, sym, inl, inr, true, false, Option, none, some, List, [], ◌∷◌, ◌++◌, Bool-cases,
  arith,
}
use mathlib.Core.List.{append-nil}
use hft_order_book.MessageTranslator.{Floats}
use hft_order_book.FixGateway.{Gateway, from_app, emergency_cancel_all}
use hft_order_book.Main.{
  Process, Event, created, logon, logout, message, admin_received, admin_to_send, app_to_send,
  signal, signal_handler, handle, handle_all,
}
use hft_order_book.Main.Events.{
  IfAlive, is_signal, has_signal, OnlyGateway, Grows, received-OnlyGateway, OnlyGateway-Grows,
  Grows-refl, Grows-trans, OnlyGateway-trans, or_left, or_right, IfAlive-map,
}

module _ (F : Floats) where
  only_gateway : (p : Process) (g : Gateway) → OnlyGateway p (record p { gateway = g })
  only_gateway p g = record { same_registered = refl; same_shutdown = refl; same_requests = refl }

  handle-OnlyGateway :
      (e : Event F) (p : Process) → is_signal e ≡ false → IfAlive (OnlyGateway p) (handle F e p)
  unfolding handle
  handle-OnlyGateway (created id) p h = only_gateway p _
  handle-OnlyGateway logon p h = only_gateway p _
  handle-OnlyGateway logout p h = only_gateway p _
  handle-OnlyGateway (admin_received m) p h = only_gateway p _
  handle-OnlyGateway (admin_to_send m) p h = only_gateway p _
  handle-OnlyGateway (app_to_send m) p h = only_gateway p _
  handle-OnlyGateway (message now m) p h = received-OnlyGateway p (from_app F now m p.gateway)
  handle-OnlyGateway (signal t0 t1) p h = absurd cc

  signal_handler-Grows : (t0 t1 : ℕ) (p : Process) → Grows p (signal_handler t0 t1 p)
  unfolding signal_handler
  signal_handler-Grows t0 t1 p = elim (Bool-cases p.registered) [
    | inl known ↦ rw known (record {
      kept_registered = refl;
      kept_shutdown = λ h. refl;
      more = (emergency_cancel_all t0 t1 p.gateway).1.1;
      added = refl;
    })
    | inr unknown ↦ rw unknown (record {
      kept_registered = refl;
      kept_shutdown = λ h. refl;
      more = [];
      added = sym (append-nil p.requests);
    })
  ]

  pub signal_handler-shutdown : (t0 t1 : ℕ) (p : Process) → (signal_handler t0 t1 p).shutdown ≡ true
  unfolding signal_handler
  signal_handler-shutdown t0 t1 p = ground arith

  handle-Grows : (e : Event F) (p : Process) → IfAlive (Grows p) (handle F e p)
  unfolding handle
  handle-Grows (created id) p = OnlyGateway-Grows (handle-OnlyGateway (created id) p refl)
  handle-Grows logon p = OnlyGateway-Grows (handle-OnlyGateway logon p refl)
  handle-Grows logout p = OnlyGateway-Grows (handle-OnlyGateway logout p refl)
  handle-Grows (admin_received m) p =
      OnlyGateway-Grows (handle-OnlyGateway (admin_received m) p refl)
  handle-Grows (admin_to_send m) p = OnlyGateway-Grows (handle-OnlyGateway (admin_to_send m) p refl)
  handle-Grows (app_to_send m) p = OnlyGateway-Grows (handle-OnlyGateway (app_to_send m) p refl)
  handle-Grows (message now m) p =
      IfAlive-map (handle F (message now m) p) (λ q k. OnlyGateway-Grows k)
        (handle-OnlyGateway (message now m) p refl)
  handle-Grows (signal t0 t1) p = signal_handler-Grows t0 t1 p

  -- What holds of a process and is kept by every event holds after all of them.
  pub handle_all-kept :
      (P : Process → Type 0)
      → ((e : Event F) (p : Process) → P p → IfAlive P (handle F e p))
      → (es : List (Event F)) (o : Option Process) → IfAlive P o
      → IfAlive P (handle_all F es o)
  unfolding handle_all
  handle_all-kept P f [] o h = h
  handle_all-kept P f (e ∷ es) none h = tt
  handle_all-kept P f (e ∷ es) (some p) h = handle_all-kept P f es (handle F e p) (f e p h)

  pub handle_all-none : (es : List (Event F)) → handle_all F es none ≡ none
  unfolding handle_all
  handle_all-none [] = refl
  handle_all-none (e ∷ es) = refl

  pub handle_all-append :
      (es fs : List (Event F)) (o : Option Process)
      → handle_all F (es ++ fs) o ≡ handle_all F fs (handle_all F es o)
  unfolding handle_all
  handle_all-append [] fs o = refl
  handle_all-append (e ∷ es) fs none = sym (handle_all-none fs)
  handle_all-append (e ∷ es) fs (some p) = handle_all-append es fs (handle F e p)

  pub handle_all-Grows :
      (es : List (Event F)) (p : Process) → IfAlive (Grows p) (handle_all F es (some p))
  handle_all-Grows es p =
      handle_all-kept (Grows p)
        (λ e q k. IfAlive-map (handle F e q) (λ r l. Grows-trans k l) (handle-Grows e q)) es
        (some p) (Grows-refl p)

  pub handle_all-OnlyGateway :
      (es : List (Event F)) (o : Option Process) (P : Process)
      → has_signal es ≡ false
      → IfAlive (OnlyGateway P) o
      → IfAlive (OnlyGateway P) (handle_all F es o)
  unfolding handle_all
  handle_all-OnlyGateway [] o P h k = k
  handle_all-OnlyGateway (e ∷ es) none P h k = tt
  handle_all-OnlyGateway (e ∷ es) (some p) P h k =
      handle_all-OnlyGateway es (handle F e p) P (or_right (is_signal e) (has_signal es) h) (
        IfAlive-map (handle F e p) (λ r l. OnlyGateway-trans k l)
          (handle-OnlyGateway e p (or_left (is_signal e) (has_signal es) h)))

  -- A signal among the events sets the flag.
  pub handle_all-signal :
      (es : List (Event F)) (o : Option Process)
      → has_signal es ≡ true
      → IfAlive (λ q. q.shutdown ≡ true) (handle_all F es o)
  unfolding handle_all
  handle_all-signal [] o h = absurd cc
  handle_all-signal (e ∷ es) none h = tt
  handle_all-signal (created id ∷ es) (some p) h = handle_all-signal es _ h
  handle_all-signal (logon ∷ es) (some p) h = handle_all-signal es _ h
  handle_all-signal (logout ∷ es) (some p) h = handle_all-signal es _ h
  handle_all-signal (admin_received m ∷ es) (some p) h = handle_all-signal es _ h
  handle_all-signal (admin_to_send m ∷ es) (some p) h = handle_all-signal es _ h
  handle_all-signal (app_to_send m ∷ es) (some p) h = handle_all-signal es _ h
  handle_all-signal (message now m ∷ es) (some p) h = handle_all-signal es _ h
  handle_all-signal (signal t0 t1 ∷ es) (some p) h =
      IfAlive-map (handle_all F es (some (signal_handler t0 t1 p)))
        (λ q k. k.kept_shutdown (signal_handler-shutdown t0 t1 p))
        (handle_all-Grows es (signal_handler t0 t1 p))
