-- ===== src/Main/Events.antt =====
-- Events and what may hold of a process before and after them.
use hft_order_book.Base.{
  ℕ, zero, suc, ◌+◌, if◌then◌else◌, ◌≡◌, refl, sym, ap, ◌∙◌, ◌⊎◌, inl, inr, Bool, true, false, ◌||◌,
  Option, none, some, List, [], ◌∷◌, ◌++◌,
}
use mathlib.Core.List.{append_assoc, append-nil}
use hft_order_book.MessageTranslator.{Floats, OrderCancelRequest}
use hft_order_book.FixGateway.{Gateway, MessageOutcome, ignored, terminated, booked}
use hft_order_book.Main.{
  Process, Event, created, logon, logout, message, admin_received, admin_to_send, app_to_send,
  signal, received,
}

-- Of the process, if there still is one.
abbrev pub IfAlive : (Process → Type 0) → Option Process → Type 0
IfAlive P none = Unit
IfAlive P (some p) = P p

abbrev pub is_signal : {F : Floats} → Event F → Bool
is_signal (created id) = false
is_signal logon = false
is_signal logout = false
is_signal (message now m) = false
is_signal (admin_received m) = false
is_signal (admin_to_send m) = false
is_signal (app_to_send m) = false
is_signal (signal t0 t1) = true

abbrev pub has_signal : {F : Floats} → List (Event F) → Bool
has_signal [] = false
has_signal (e ∷ es) = is_signal e || has_signal es

-- The events of `n` rounds from round `i` on.
abbrev pub rounds_events : {F : Floats} → (ℕ → List (Event F)) → ℕ → ℕ → List (Event F)
rounds_events during i zero = []
rounds_events during i (suc n) = during i ++ rounds_events during (i + 1) n

pub if_true {ℓ} : {A : Type ℓ} {b : Bool} (x y : A) → b ≡ true → (if b then x else y) ≡ x
if_true x y h = rw h refl

pub if_false {ℓ} : {A : Type ℓ} {b : Bool} (x y : A) → b ≡ false → (if b then x else y) ≡ y
if_false x y h = rw h refl

-- The gateway's own change is all.
pub record OnlyGateway (p q : Process) : Type 0 where
  pub same_registered : q.registered ≡ p.registered
  pub same_shutdown : q.shutdown ≡ p.shutdown
  pub same_requests : q.requests ≡ p.requests

-- Nothing is taken back.
pub record Grows (p q : Process) : Type 0 where
  pub kept_registered : q.registered ≡ p.registered
  pub kept_shutdown : p.shutdown ≡ true → q.shutdown ≡ true
  pub more : List OrderCancelRequest
  pub added : q.requests ≡ p.requests ++ more

received-cases :
    (p : Process) (r : MessageOutcome × Gateway)
    → (received p r ≡ none) ⊎ (received p r ≡ some (record p { gateway = r.1 }))
received-cases p (terminated, g) = inl refl
received-cases p (ignored, g) = inr refl
received-cases p (booked e, g) = inr refl

pub received-OnlyGateway :
    (p : Process) (r : MessageOutcome × Gateway) → IfAlive (OnlyGateway p) (received p r)
received-OnlyGateway p r = elim (received-cases p r) [
  | inl gone ↦ rw gone tt
  | inr same ↦
      rw same (record { same_registered = refl; same_shutdown = refl; same_requests = refl })
]

pub OnlyGateway-Grows : {p q : Process} → OnlyGateway p q → Grows p q
OnlyGateway-Grows {p} {q} k = record {
  kept_registered = k.same_registered;
  kept_shutdown = λ h. k.same_shutdown ∙ h;
  more = [];
  added = k.same_requests ∙ sym (append-nil p.requests);
}

pub Grows-refl : (p : Process) → Grows p p
Grows-refl p = record {
  kept_registered = refl;
  kept_shutdown = λ h. h;
  more = [];
  added = sym (append-nil p.requests);
}

pub Grows-trans : {p q r : Process} → Grows p q → Grows q r → Grows p r
Grows-trans {p} {q} {r} k l = record {
  kept_registered = l.kept_registered ∙ k.kept_registered;
  kept_shutdown = λ h. l.kept_shutdown (k.kept_shutdown h);
  more = k.more ++ l.more;
  added = l.added ∙ ap (λ s. s ++ l.more) k.added ∙ append_assoc p.requests k.more l.more;
}

pub OnlyGateway-refl : (p : Process) → OnlyGateway p p
OnlyGateway-refl p = record { same_registered = refl; same_shutdown = refl; same_requests = refl }

pub OnlyGateway-trans : {p q r : Process} → OnlyGateway p q → OnlyGateway q r → OnlyGateway p r
OnlyGateway-trans k l = record {
  same_registered = l.same_registered ∙ k.same_registered;
  same_shutdown = l.same_shutdown ∙ k.same_shutdown;
  same_requests = l.same_requests ∙ k.same_requests;
}

pub has_signal-append :
    {F : Floats} (es fs : List (Event F)) → has_signal (es ++ fs) ≡ (has_signal es || has_signal fs)
has_signal-append [] fs = refl
has_signal-append (e ∷ es) fs =
    ap (λ b. is_signal e || b) (has_signal-append es fs)
    ∙ or_assoc (is_signal e) (has_signal es) (has_signal fs)
  where
    or_assoc : (a b c : Bool) → (a || (b || c)) ≡ ((a || b) || c)
    or_assoc true b c = refl
    or_assoc false b c = refl

pub has_signal-later :
    {F : Floats} (es : List (Event F)) (e : Event F) (fs : List (Event F))
    → is_signal e ≡ true
    → has_signal (es ++ e ∷ fs) ≡ true
has_signal-later [] e fs h = ap (λ b. b || has_signal fs) h
has_signal-later (d ∷ es) e fs h =
    ap (λ b. is_signal d || b) (has_signal-later es e fs h) ∙ or_true (is_signal d)
  where
    or_true : (a : Bool) → (a || true) ≡ true
    or_true true = refl
    or_true false = refl

pub or_left : (a b : Bool) → (a || b) ≡ false → a ≡ false
or_left false b h = refl
or_left true b h = h

pub or_right : (a b : Bool) → (a || b) ≡ false → b ≡ false
or_right false b h = h
or_right true b h = absurd cc

pub IfAlive-map :
    {P Q : Process → Type 0} (o : Option Process)
    → ((q : Process) → P q → Q q)
    → IfAlive P o
    → IfAlive Q o
IfAlive-map none f h = tt
IfAlive-map (some q) f h = f q h
