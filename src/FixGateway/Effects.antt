-- ===== src/FixGateway/Effects.antt =====
-- What the calls of the gateway do to its books: nothing, or they append one event to the log and
-- apply it to both trackers.
use hft_order_book.Base.{
  ℕ, ◌+◌, ◌%◌, ◌^◌, ◌≡◌, ◌≢◌, refl, sym, ◌⊎◌, inl, inr, Bool, true, false, not, Option, none, some,
  [], ◌∷◌, ◌++◌, if◌then◌else◌, length,
}
use hft_order_book.Base.Int.{ℤ}
use hft_order_book.Base.Bytes.{Bytes, StringView}
use hft_order_book.OrderEvent.{EventType, Side, OrderEvent, make_new_order, is_fill}
use hft_order_book.EventLog.{append}
use hft_order_book.EventLog.Contents.{contents, stamped, append-contents}
use hft_order_book.OrderManager
use hft_order_book.PositionTracker.{PositionTracker}
use hft_order_book.PositionTracker
use hft_order_book.RiskChecker.{RiskResult}
use hft_order_book.MessageTranslator.{
  Floats, ExecutionReport, Translated, field_not_found, bad_format, done, from_execution_report,
}
use hft_order_book.MessageTranslator.Reports.{from_execution_report-type}
use hft_order_book.FixGateway.{
  Gateway, next_order_id, record_and_send, send_checked, send_order, book, SendOutcome,
  not_connected, book_translated, on_message, on_create, on_logon, on_logout,
}
use hft_order_book.FixGateway.Safety.{order_event}

abbrev pub next_counter : ℕ → ℕ
next_counter n = (n + 1) % 2 ^ 64

-- The books stay, and the counter of orders is `n` afterwards.
pub record Untouched (n : ℕ) (g g' : Gateway) : Type 0 where
  pub same_log : contents g'.log ≡ contents g.log
  pub same_orders : g'.orders ≡ g.orders
  pub same_tracker : g'.tracker ≡ g.tracker
  pub counted : g'.order_counter ≡ n

-- One event is appended, with its stamp, and applied, without.
pub record Booked (e : OrderEvent) (g g' : Gateway) : Type 0 where
  pub now : ℕ
  pub seq : ℕ
  pub grown : contents g'.log ≡ contents g.log ++ stamped now seq e ∷ []
  pub ordered : g'.orders ≡ OrderManager.apply_event g.orders e
  pub applied : g'.tracker ≡ PositionTracker.apply_event g.tracker e

pub Untouched-refl : (g : Gateway) → Untouched g.order_counter g g
Untouched-refl g = record {
  same_log = refl;
  same_orders = refl;
  same_tracker = refl;
  counted = refl;
}

pub on_create-Untouched : (id : Bytes) (g : Gateway) → Untouched g.order_counter g (on_create id g)
unfolding on_create
on_create-Untouched id g = record {
  same_log = refl;
  same_orders = refl;
  same_tracker = refl;
  counted = refl;
}

pub on_logon-Untouched : (g : Gateway) → Untouched g.order_counter g (on_logon g)
unfolding on_logon
on_logon-Untouched g = record {
  same_log = refl;
  same_orders = refl;
  same_tracker = refl;
  counted = refl;
}

pub on_logout-Untouched : (g : Gateway) → Untouched g.order_counter g (on_logout g)
unfolding on_logout
on_logout-Untouched g = record {
  same_log = refl;
  same_orders = refl;
  same_tracker = refl;
  counted = refl;
}

-- An event that is not a new order, booked under the ids taken so far.
abbrev pub IsReport : OrderEvent → Gateway → Gateway → Type 0
IsReport e g g' =
    Booked e g g' × (e.type ≢ EventType.new_order) × (g'.order_counter ≡ g.order_counter)

pub book_effect :
    (now : ℕ) (e : OrderEvent) (g : Gateway)
    → e.type ≢ EventType.new_order
    → Untouched g.order_counter g (book now e g).1 ⊎ IsReport e g (book now e g).1
unfolding book
book_effect now e g other = elim (append-contents now e g.log) [
  | inl (full, refused) ↦ inl (rw refused (Untouched-refl g))
  | inr (log', room, appended, grown) ↦ inr (
      rw appended (
        record {
          now = now;
          seq = length (contents g.log);
          grown = grown;
          ordered = refl;
          applied = refl;
        },
        other,
        refl,
      ))
]

translated_effect :
    (now : ℕ) (g : Gateway) (t : Translated (Option OrderEvent))
    → ((e : OrderEvent) → t ≡ done (some e) → e.type ≢ EventType.new_order)
    → Untouched g.order_counter g (book_translated now g t).1
      ⊎ ((e : OrderEvent) × IsReport e g (book_translated now g t).1)
unfolding book_translated
translated_effect now g field_not_found other = inl (Untouched-refl g)
translated_effect now g bad_format other = inl (Untouched-refl g)
translated_effect now g (done none) other = inl (Untouched-refl g)
translated_effect now g (done (some e)) other = elim (book_effect now e g (other e refl)) [
  | inl kept ↦ inl kept
  | inr report ↦ inr (e, report)
]

-- A report leaves the books, or its event is booked, which is no new order.
pub on_message_effect :
    (F : Floats) (now : ℕ) (report : ExecutionReport F) (g : Gateway)
    → Untouched g.order_counter g (on_message F now report g).1
      ⊎ ((e : OrderEvent) × IsReport e g (on_message F now report g).1)
unfolding on_message
on_message_effect F now report g =
    translated_effect now g (from_execution_report F report) (from_execution_report-type F report)

-- A new order changes no position.
new_order_silent :
    (t : PositionTracker) (sym : StringView) (side : Side) (qty price_fp : ℤ) (oid : StringView)
    → PositionTracker.apply_event t (make_new_order sym side qty price_fp oid) ≡ t
unfolding PositionTracker.apply_event make_new_order is_fill
new_order_silent t sym side qty price_fp oid = refl

module _ (F : Floats) (now : ℕ) (found : Bool) (symbol : StringView) (side : Side)
    (qty price_fp : ℤ) where
  -- The next order, booked under the next id.
  abbrev pub IsOrder : Gateway → Gateway → Type 0
  IsOrder g g' =
      Booked (order_event symbol side qty price_fp g) g g'
      × (g'.order_counter ≡ next_counter g.order_counter)

  -- No order is sent; an id may have been taken.
  abbrev pub Unsent : Gateway → Gateway → Type 0
  Unsent g g' = Untouched g.order_counter g g' ⊎ Untouched (next_counter g.order_counter) g g'

  recorded_effect :
      (oid : Bytes) (e : OrderEvent) (g : Gateway)
      → PositionTracker.apply_event g.tracker e ≡ g.tracker
      → let g' = (record_and_send F now found oid e g (append now e g.log)).1 in
        (g' ≡ g) ⊎ (Booked e g g' × (g'.order_counter ≡ g.order_counter))
  unfolding record_and_send
  recorded_effect oid e g silent = elim (append-contents now e g.log) [
    | inl (full, refused) ↦ inl (rw refused)
    | inr (log', room, appended, grown) ↦ inr (
        rw appended (
          record {
            now = now;
            seq = length (contents g.log);
            grown = grown;
            ordered = refl;
            applied = sym silent;
          },
          refl,
        ))
  ]

  checked_effect :
      (g : Gateway) (r : RiskResult)
      → let g' = (send_checked F now found symbol side qty price_fp g r).1 in
        Unsent g g' ⊎ IsOrder g g'
  unfolding send_checked next_order_id
  checked_effect g RiskResult.pass =
      elim (recorded_effect (next_order_id g).0 (order_event symbol side qty price_fp g)
        (next_order_id g).1 (new_order_silent g.tracker symbol side qty price_fp _)) [
          | inl same ↦ inl (
              inr (
                rw same (record {
                  same_log = refl;
                  same_orders = refl;
                  same_tracker = refl;
                  counted = refl;
                })))
          | inr (booked, same) ↦ inr (
            record {
              now = booked.now;
              seq = booked.seq;
              grown = booked.grown;
              ordered = booked.ordered;
              applied = booked.applied;
            },
            same,
          )
        ]
  checked_effect g _ = inl (inl (Untouched-refl g))

  guarded_effect :
      (g : Gateway) (on : Bool) (r : SendOutcome F × Gateway)
      → Unsent g r.1 ⊎ IsOrder g r.1
      → let g' = (if not on then (not_connected, g) else r).1 in Unsent g g' ⊎ IsOrder g g'
  guarded_effect g true r k = k
  guarded_effect g false r k = inl (inl (Untouched-refl g))

  -- Sending leaves the books, or the next order is booked under the next id.
  pub send_order_effect :
      (g : Gateway)
      → let g' = (send_order F now found symbol side qty price_fp g).1 in Unsent g g' ⊎ IsOrder g g'
  unfolding send_order
  send_order_effect g = guarded_effect g g.connected _ (checked_effect g _)
