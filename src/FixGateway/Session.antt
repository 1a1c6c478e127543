-- ===== src/FixGateway/Session.antt =====
-- The first session, from an empty log on: no order id is used twice, so every order that is sent
-- keeps its symbol within the limit.
use hft_order_book.Base.{
  ℕ, suc, ◌+◌, ◌≤◌, ◌<◌, ◌≡◌, ◌≢◌, refl, sym as sym_path, ◌∙◌, inl, inr, Bool, true, Option, none,
  some, [], arith, Bool-cases, Option-cases,
}
use hft_order_book.Base.Int.{ℤ, ◌+ℤ◌, neg, ◌≤ℤ◌}
use hft_order_book.Base.Word.{Fits32}
use hft_order_book.Base.Bytes.{Bytes, StringView, strncmp_eq, strncmp_eq-strncpy}
use hft_order_book.OrderEvent.{EventType, Side, OrderEvent, make_new_order}
use hft_order_book.EventLog.{EventLog}
use hft_order_book.EventLog.Contents.{contents}
use hft_order_book.OrderManager.{Order, OrderManager, max_orders, open_exposure}
use hft_order_book.OrderManager
use hft_order_book.OrderManager.Lifecycle.{
  IsValid, order_step, get-apply_event, apply_event-IsValid,
}
use hft_order_book.OrderManager.Counts.{count-apply_event_other, count-handle_new}
use hft_order_book.PositionTracker
use hft_order_book.RiskChecker.{RiskLimits}
use hft_order_book.RiskChecker.Limits.{CheckFits, true_qty, projected_qty, signed_qty}
use hft_order_book.MessageTranslator.{Floats, NewOrderSingle}
use hft_order_book.FixGateway.{Gateway, sent, view_of, next_order_id, send_order, create}
use hft_order_book.FixGateway.Safety.{order_event, handle_new_order, send_order-within_limit}
use hft_order_book.FixGateway.Ids.{numbered, next_order_id-numbered, numbered-injective}
use hft_order_book.FixGateway.Effects.{
  next_counter, Untouched, IsReport, IsOrder, on_message_effect, send_order_effect,
  on_create-Untouched, on_logon-Untouched, on_logout-Untouched,
}
use hft_order_book.FixGateway.Recovery.{
  Runs, rebuilt, created, logged_on, logged_out, reported, ordered, sent_count,
}

-- Every order that is found has an id that was given out, and there are no more orders than ids.
record IsNumbered (g : Gateway) : Type 0 where
  valid : IsValid g.orders
  few : g.orders.count ≤ g.order_counter
  known :
      (w : StringView) (o : Order)
      → OrderManager.get g.orders w ≡ some o
      → (k : ℕ) × (k < g.order_counter) × (strncmp_eq (numbered k) w.data_bytes 8 ≡ true)

next_counter-suc : (n : ℕ) → n < 100_000 → next_counter n ≡ suc n
next_counter-suc n h = omega arith

Untouched-IsNumbered :
    {n : ℕ} {g g' : Gateway} → Untouched n g g' → g.order_counter ≤ n → IsNumbered g → IsNumbered g'
Untouched-IsNumbered u grows s = record {
  valid = rw u.same_orders s.valid;
  few = rw (u.same_orders, u.counted) (omega (arith, grows, s.few));
  known = λ w o found.
      let (k, below, same) = s.known w o (rw u.same_orders at found) in
      (k, rw u.counted (omega (arith, grows)), same);
}

-- Only a new order can make an order known.
order_step-other :
    (t : EventType) (e : OrderEvent) (full : Bool) (o : Option Order) (o' : Order)
    → t ≢ EventType.new_order
    → order_step t e full o ≡ some o'
    → (o₀ : Order) × (o ≡ some o₀)
order_step-other t e full (some o) o' h k = (o, refl)
order_step-other EventType.unset e full none o' h k = cc
order_step-other EventType.new_order e full none o' h k = absurd (h refl)
order_step-other EventType.partial_fill e full none o' h k = cc
order_step-other EventType.full_fill e full none o' h k = cc
order_step-other EventType.cancel e full none o' h k = cc
order_step-other EventType.reject e full none o' h k = cc
order_step-other EventType.amend e full none o' h k = cc

IsReport-IsNumbered :
    {g g' : Gateway} (e : OrderEvent) → IsReport e g g' → IsNumbered g → IsNumbered g'
IsReport-IsNumbered {g} {g'} e (b, other, same) s = record {
  valid = rw b.ordered (apply_event-IsValid g.orders e s.valid);
  few = rw (b.ordered, count-apply_event_other g.orders e other, same) s.few;
  known = λ w o found. rw same (was_known w o (rw b.ordered at found));
}
  where
    was_known :
        (w : StringView) (o : Order)
        → OrderManager.get (OrderManager.apply_event g.orders e) w ≡ some o
        → (k : ℕ) × (k < g.order_counter) × (strncmp_eq (numbered k) w.data_bytes 8 ≡ true)
    was_known w o found = elim (Bool-cases (strncmp_eq e.order_id w.data_bytes 8)) [
      | inl mine ↦
          let (o₀, old) =
            order_step-other e.type e _ _ o other
              (rw (get-apply_event g.orders e w s.valid, mine) at found) in
          s.known w o₀ old
      | inr theirs ↦ s.known w o (rw (get-apply_event g.orders e w s.valid, theirs) at found)
    ]

order_id_of :
    (sym : StringView) (side : Side) (qty price : ℤ) (g : Gateway) (w : Bytes)
    → strncmp_eq (order_event sym side qty price g).order_id w 8
      ≡ strncmp_eq (numbered g.order_counter) w 8
unfolding make_new_order next_order_id
order_id_of sym side qty price g w = strncmp_eq-strncpy (numbered g.order_counter) w 8

count-order :
    (sym : StringView) (side : Side) (qty price : ℤ) (g : Gateway)
    → (OrderManager.apply_event g.orders (order_event sym side qty price g)).count
      ≤ g.orders.count + 1
count-order sym side qty price g =
    rw (handle_new_order g.orders sym side qty price (view_of (next_order_id g).0))
      (count-handle_new g.orders (order_event sym side qty price g))

none_yet : OrderManager.empty.count ≤ 0
unfolding OrderManager.empty
none_yet = omega arith

module _ (F : Floats) where
  IsOrder-IsNumbered :
      (now : ℕ) (found : Bool) (sym : StringView) (side : Side) (qty price : ℤ) {g g' : Gateway}
      → IsOrder F now found sym side qty price g g'
      → g.order_counter < 100_000
      → IsNumbered g
      → IsNumbered g'
  IsOrder-IsNumbered now found sym side qty price {g} {g'} (b, counted) h s = record {
    valid = rw b.ordered (apply_event-IsValid g.orders e s.valid);
    few = rw (b.ordered, next) (omega (arith, count-order sym side qty price g, s.few));
    known = λ w o at_w. rw next (now_known w o (rw b.ordered at at_w));
  }
    where
      e : OrderEvent
      e = order_event sym side qty price g

      next : g'.order_counter ≡ suc g.order_counter
      next = counted ∙ next_counter-suc g.order_counter h

      now_known :
          (w : StringView) (o : Order)
          → OrderManager.get (OrderManager.apply_event g.orders e) w ≡ some o
          → (k : ℕ) × (k < suc g.order_counter) × (strncmp_eq (numbered k) w.data_bytes 8 ≡ true)
      now_known w o at_w = elim (Bool-cases (strncmp_eq e.order_id w.data_bytes 8)) [
        | inl mine ↦ (
          g.order_counter,
          omega arith,
          sym_path (order_id_of sym side qty price g w.data_bytes) ∙ mine,
        )
        | inr theirs ↦
            let (k, below, same) =
              s.known w o (rw (get-apply_event g.orders e w s.valid, theirs) at at_w) in
            (k, omega arith, same)
      ]

  module _ (log : EventLog) (limits : RiskLimits) (first : contents log ≡ []) where
    rebuilt-IsNumbered :
        IsNumbered
          (create log (PositionTracker.replay_from log) (OrderManager.replay_from log) limits)
    unfolding create
    rebuilt-IsNumbered =
        rw (OrderManager.Replay.replay_from-foldl log, first)
          (record {
            valid = OrderManager.Lifecycle.empty-IsValid;
            few = none_yet;
            known = λ w o found. absurd (cc (found, OrderManager.Replay.get-empty w));
          })

    none_taken :
        (create log
          (PositionTracker.replay_from log)
          (OrderManager.replay_from log)
          limits).order_counter
        ≤ 0
    unfolding create
    none_taken = omega arith

    kept_counter :
        {g g' : Gateway} {n : ℕ}
        → Untouched g.order_counter g g'
        → IsNumbered g × (g.order_counter ≤ n)
        → IsNumbered g' × (g'.order_counter ≤ n)
    kept_counter u (s, few) = (Untouched-IsNumbered u (omega arith) s, rw u.counted few)

    Runs-IsNumbered :
        {g : Gateway} (r : Runs F log limits g)
        → sent_count r < 100_000
        → IsNumbered g × (g.order_counter ≤ sent_count r)
    Runs-IsNumbered rebuilt h = (rebuilt-IsNumbered, none_taken)
    Runs-IsNumbered (created {g} id r) h =
        kept_counter (on_create-Untouched id g) (Runs-IsNumbered r h)
    Runs-IsNumbered (logged_on {g} r) h = kept_counter (on_logon-Untouched g) (Runs-IsNumbered r h)
    Runs-IsNumbered (logged_out {g} r) h =
        kept_counter (on_logout-Untouched g) (Runs-IsNumbered r h)
    Runs-IsNumbered (reported {g} now report r) h = elim (on_message_effect F now report g) [
      | inl kept ↦ kept_counter kept (Runs-IsNumbered r h)
      | inr (e, booked) ↦
          let (s, few) = Runs-IsNumbered r h in (IsReport-IsNumbered e booked s, rw booked.2 few)
    ]
    Runs-IsNumbered (ordered {g} now found symbol side qty price r) h =
        let (s, few) = Runs-IsNumbered r (omega arith) in
        let next = next_counter-suc g.order_counter (omega arith) in
        elim (send_order_effect F now found symbol side qty price g) [
          | inl (inl kept) ↦
              (Untouched-IsNumbered kept (omega arith) s, rw kept.counted (omega arith))
          | inl (inr taken) ↦ (
            Untouched-IsNumbered taken (rw next (omega arith)) s,
            rw (taken.counted, next) (omega arith),
          )
          | inr order ↦ (
            IsOrder-IsNumbered now found symbol side qty price order (omega arith) s,
            rw (order.1, next) (omega arith),
          )
        ]

    module _ {g : Gateway} (r : Runs F log limits g) (few : sent_count r < max_orders) where
      -- The next id is not in use.
      next_unused : OrderManager.get g.orders (view_of (next_order_id g).0) ≡ none
      next_unused = elim (Option-cases (OrderManager.get g.orders (view_of (next_order_id g).0))) [
        | inl unused ↦ unused
        | inr (o, found) ↦
            let (s, below) = Runs-IsNumbered r (omega arith) in
            let (k, smaller, same) = s.known _ o found in
            absurd (
              omega (
                arith,
                numbered-injective k g.order_counter (omega arith) (omega arith)
                    (rw (next_order_id-numbered g) at same),
              ))
      ]

      -- From an empty log on, with fewer than 512 calls of `send_order` so far and whatever reports
      -- came in, an order that is sent leaves the filled and the pending quantity of its symbol together
      -- at what the check projected, and within the limit, if the arithmetic of the check and of the
      -- exposure stays within its types.
      pub within_limit-Runs :
          (now : ℕ) (found : Bool) (symbol : StringView) (side : Side) (qty price_fp : ℤ)
          (oid : Bytes) (order : NewOrderSingle F) (g' : Gateway)
          → CheckFits g.limits symbol side qty price_fp g.tracker g.orders
          → Fits32 (open_exposure g.orders symbol +ℤ signed_qty side qty)
          → send_order F now found symbol side qty price_fp g ≡ (sent oid order, g')
          → (true_qty symbol g'.tracker g'.orders
              ≡ projected_qty symbol side qty g.tracker g.orders)
            × (true_qty symbol g'.tracker g'.orders ≤ℤ g'.limits.max_net_position)
            × (neg g'.limits.max_net_position ≤ℤ true_qty symbol g'.tracker g'.orders)
      within_limit-Runs now found symbol side qty price_fp oid order g' fits sum_fits h =
          let (s, below) = Runs-IsNumbered r (omega arith) in
          send_order-within_limit F now found symbol side qty price_fp g s.valid next_unused
            (omega (arith, s.few, below)) fits sum_fits oid order g' h
