-- ===== src/Killswitch/Loops.antt =====
-- The loops of `cancel_all` and of `flatten` as the lists that they go through and send.
use hft_order_book.Base.{
  ℕ, suc, ◌+◌, ◌^◌, ◌<◌, ◌≡◌, refl, sym, ◌∙◌, inl, inr, List, [], ◌∷◌, ◌++◌, if◌then◌else◌, length,
  arith, Bool-cases,
}
use mathlib.Core.List.{append_assoc, append-nil}
use hft_order_book.Base.Bytes.{Bytes}
use hft_order_book.OrderManager.{Order, OrderManager, is_open, for_each_open}
use hft_order_book.PositionTracker.{Position, PositionTracker, is_flat}
use hft_order_book.SlotTable.Lookup.{entries, foldl, for_each-entries}
use hft_order_book.MessageTranslator.{
  Floats, OrderCancelRequest, NewOrderSingle, to_cancel_request, to_new_order_single,
}
use hft_order_book.Killswitch.{
  next_count, numbered_id, order_ref, cancel_one, cancel_all, flat_event, as_market, flatten_one,
  flatten,
}

-- The open orders of a list.
abbrev pub open_orders : List Order → List Order
open_orders [] = []
open_orders (o ∷ os) = if is_open o then o ∷ open_orders os else open_orders os

-- The requests for a list of orders, numbered on from `count`.
abbrev pub requests : Bytes → ℕ → List Order → List OrderCancelRequest
requests prefix count [] = []
requests prefix count (o ∷ os) =
    to_cancel_request (order_ref o) (numbered_id prefix (suc count))
    ∷ requests prefix (suc count) os

pair_eq {ℓ κ} :
    {A : Type ℓ} {B : Type κ} {a a' : A} {b b' : B}
    → a ≡ a'
    → b ≡ b'
    → ◌≡◌ {A = A × B} (a, b) (a', b')
pair_eq p q = λ i. (p i, q i)

next_count-suc : (n : ℕ) → n + 1 < 2 ^ 32 → next_count n ≡ suc n
next_count-suc n h = omega arith

cancel_loop :
    (prefix : Bytes) (os : List Order) (count : ℕ) (sent : List OrderCancelRequest)
    → count + length os < 2 ^ 32
    → foldl (λ acc o. if is_open o then cancel_one prefix acc o else acc) (count, sent) os
      ≡ (count + length (open_orders os), sent ++ requests prefix count (open_orders os))
cancel_loop prefix [] count sent h = pair_eq (omega arith) (sym (append-nil sent))
cancel_loop prefix (o ∷ os) count sent h = elim (Bool-cases (is_open o)) [
  | inl is ↦
      rw (is, next_count-suc count (omega arith))
        (cancel_loop prefix os (suc count) (sent ++ request ∷ []) (omega arith)
          ∙ pair_eq (omega arith) (append_assoc sent (request ∷ []) _))
  | inr closed ↦ rw closed (cancel_loop prefix os count sent (omega arith))
]
  where
    request : OrderCancelRequest
    request = to_cancel_request (order_ref o) (numbered_id prefix (suc count))

-- What `cancel_all` sends, as one request after another.
pub cancel_all-requests :
    (prefix : Bytes) (m : OrderManager)
    → length (entries m) < 2 ^ 32
    → cancel_all prefix m
      ≡ (length (open_orders (entries m)), requests prefix 0 (open_orders (entries m)))
unfolding cancel_all for_each_open
cancel_all-requests prefix m h =
    for_each-entries (λ acc o. if is_open o then cancel_one prefix acc o else acc) m (0, [])
    ∙ cancel_loop prefix (entries m) 0 [] (omega arith)
    ∙ pair_eq (omega arith) refl

-- The positions that are not flat.
abbrev pub held_positions : List Position → List Position
held_positions [] = []
held_positions (p ∷ ps) = if is_flat p then held_positions ps else p ∷ held_positions ps

module _ (F : Floats) where
  -- The closing orders for a list of positions, numbered on from `count`.
  abbrev pub closings : Bytes → ℕ → List Position → List (NewOrderSingle F)
  closings prefix count [] = []
  closings prefix count (p ∷ ps) =
      as_market F (to_new_order_single F (flat_event (numbered_id prefix (suc count)) p))
      ∷ closings prefix (suc count) ps

  flatten_loop :
      (prefix : Bytes) (ps : List Position) (count : ℕ) (sent : List (NewOrderSingle F))
      → count + length ps < 2 ^ 32
      → foldl (flatten_one F prefix) (count, sent) ps
        ≡ (count + length (held_positions ps), sent ++ closings prefix count (held_positions ps))
  flatten_loop prefix [] count sent h = pair_eq (omega arith) (sym (append-nil sent))
  flatten_loop prefix (p ∷ ps) count sent h = elim (Bool-cases (is_flat p)) [
    | inl flat ↦ rw flat (flatten_loop prefix ps count sent (omega arith))
    | inr held ↦
        rw (held, next_count-suc count (omega arith))
          (flatten_loop prefix ps (suc count) (sent ++ order ∷ []) (omega arith)
            ∙ pair_eq (omega arith) (append_assoc sent (order ∷ []) _))
  ]
    where
      order : NewOrderSingle F
      order = as_market F (to_new_order_single F (flat_event (numbered_id prefix (suc count)) p))

  pub flatten-closings :
      (prefix : Bytes) (t : PositionTracker)
      → length (entries t) < 2 ^ 32
      → flatten F prefix t
        ≡ (length (held_positions (entries t)), closings prefix 0 (held_positions (entries t)))
  unfolding flatten
  flatten-closings prefix t h =
      for_each-entries (flatten_one F prefix) t (0, [])
      ∙ flatten_loop prefix (entries t) 0 [] (omega arith)
      ∙ pair_eq (omega arith) refl
