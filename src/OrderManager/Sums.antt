-- ===== src/OrderManager/Sums.antt =====
-- The filled quantities of a symbol's orders, summed: what each event does to the sum.
use hft_order_book.Base.{
  ◌≡◌, refl, sym, ap, ◌∙◌, inl, inr, true, none, some, List, [], ◌∷◌, ◌++◌, leb, if◌then◌else◌,
  Bool-cases, some-eq, arith,
}
use mathlib.Core.Path.{subst}
use hft_order_book.Base.Int.{ℤ, pos, ◌+ℤ◌, neg, int_laws, parts_of_eq}
use hft_order_book.Base.Word.{Fits32, wrap32_id}
use hft_order_book.Base.Bytes.{Bytes, strncpy, strncmp_eq, strncmp_eq_trans}
use hft_order_book.OrderEvent.{EventType, OrderEvent, is_buy, order_id_view}
use hft_order_book.SlotTable.{update_at}
use hft_order_book.SlotTable.Lookup.{entries, first, change, get-entries, entries-update_at}
use hft_order_book.SlotTable.Upsert.{entries-upsert}
use hft_order_book.OrderManager.{
  Order, OrderManager, max_orders, order_name, blank_order, find, get, opened, filled_by,
  cancelled_by, rejected_by, amended_by, handle_new, handle_fill, handle_cancel, handle_reject,
  handle_amend, dispatch, apply_event,
}
use hft_order_book.OrderManager.Lifecycle.{IsValid}

-- What has been filled of an order, negative for a sale, if it is in the symbol.
abbrev pub filled_in : Bytes → Order → ℤ
filled_in s o =
    if strncmp_eq o.symbol s 8
    then (if is_buy o.side then o.filled_qty else neg o.filled_qty)
    else pos 0

unfoldable pub sum_filled : Bytes → List Order → ℤ
sum_filled s [] = pos 0
sum_filled s (o ∷ os) = filled_in s o +ℤ sum_filled s os

sum_filled-append :
    (s : Bytes) (os : List Order) (o : Order)
    → filled_in s o ≡ pos 0
    → sum_filled s (os ++ o ∷ []) ≡ sum_filled s os
unfolding sum_filled
sum_filled-append s [] o h = omega (int_laws, parts_of_eq h)
sum_filled-append s (x ∷ os) o h = ap (◌+ℤ◌ (filled_in s x)) (sum_filled-append s os o h)

-- A change that keeps what has been filled.
sum_filled-change_same :
    (s k : Bytes) (f : Order → Order) (os : List Order)
    → ((o : Order) → filled_in s (f o) ≡ filled_in s o)
    → sum_filled s (change order_name k f os) ≡ sum_filled s os
unfolding sum_filled change
sum_filled-change_same s k f [] h = refl
sum_filled-change_same s k f (o ∷ os) h = elim (Bool-cases (strncmp_eq (order_name o) k 8)) [
  | inl this ↦ rw this (ap (λ n. n +ℤ sum_filled s os) (h o))
  | inr other ↦ rw other (ap (◌+ℤ◌ (filled_in s o)) (sum_filled-change_same s k f os h))
]

pub swap_last : (a d b : ℤ) → a +ℤ d +ℤ b ≡ a +ℤ b +ℤ d
swap_last a d b = omega int_laws

pub move_last : (a b d : ℤ) → a +ℤ (b +ℤ d) ≡ a +ℤ b +ℤ d
move_last a b d = omega int_laws

-- A change of one order by an amount.
sum_filled-change_add :
    (s k : Bytes) (f : Order → Order) (os : List Order) (p : Order) (d : ℤ)
    → first order_name k os ≡ some p
    → filled_in s (f p) ≡ filled_in s p +ℤ d
    → sum_filled s (change order_name k f os) ≡ sum_filled s os +ℤ d
unfolding sum_filled change first
sum_filled-change_add s k f [] p d found h = absurd cc
sum_filled-change_add s k f (o ∷ os) p d found h =
    elim (Bool-cases (strncmp_eq (order_name o) k 8)) [
      | inl this ↦
          let same : o ≡ p = some-eq (rw this at found) in
          let more : filled_in s (f o) ≡ filled_in s o +ℤ d =
            subst (λ x. filled_in s (f x) ≡ filled_in s x +ℤ d) (sym same) h in
          rw this
            (ap (λ n. n +ℤ sum_filled s os) more ∙ swap_last (filled_in s o) d (sum_filled s os))
      | inr other ↦ rw other (
          ap (◌+ℤ◌ (filled_in s o)) (sum_filled-change_add s k f os p d (rw other at found) h)
          ∙ move_last (filled_in s o) (sum_filled s os) d)
    ]

-- What an event adds to the sum of a symbol.
abbrev pub filled_by_event : Bytes → OrderEvent → ℤ
filled_by_event s e =
    if strncmp_eq e.symbol s 8
    then (if is_buy e.side then e.fill_qty else neg e.fill_qty)
    else pos 0

-- A fill is of an order that is there, of its symbol and side, and a new order has an id of its own.
pub record IsFillOf (e : OrderEvent) (o : Order) : Type 0 where
  pub same_symbol : strncmp_eq o.symbol e.symbol 8 ≡ true
  pub same_side : is_buy o.side ≡ is_buy e.side
  pub filled_fits : Fits32 (o.filled_qty +ℤ e.fill_qty)

abbrev pub Belongs : EventType → OrderManager → OrderEvent → Type 0
Belongs EventType.new_order m e = get m (order_id_view e) ≡ none
Belongs EventType.partial_fill m e = (o : Order) × (get m (order_id_view e) ≡ some o) × IsFillOf e o
Belongs EventType.full_fill m e = (o : Order) × (get m (order_id_view e) ≡ some o) × IsFillOf e o
Belongs _ m e = Unit

neg_sum : (a b : ℤ) → neg (a +ℤ b) ≡ neg a +ℤ neg b
neg_sum a b = omega int_laws

zero_sum : pos 0 ≡ pos 0 +ℤ pos 0
zero_sum = omega int_laws

filled_in-filled_by :
    (s : Bytes) (e : OrderEvent) (o : Order)
    → IsFillOf e o
    → filled_in s (filled_by e o) ≡ filled_in s o +ℤ filled_by_event s e
unfolding filled_by
filled_in-filled_by s e o is =
    rw
      (
        wrap32_id _ is.filled_fits,
        is.same_side,
        strncmp_eq_trans o.symbol e.symbol s 8 is.same_symbol,
      )
      (ground (arith, neg_sum o.filled_qty e.fill_qty, zero_sum))

opened-filled_in : (s : Bytes) (e : OrderEvent) (o : Order) → filled_in s (opened e o) ≡ pos 0
unfolding opened neg
opened-filled_in s e o = ground arith

add_none : (a : ℤ) → a ≡ a +ℤ pos 0
add_none a = omega int_laws

updated-sum :
    (s : Bytes) (f : Order → Order) (m : OrderManager) (e : OrderEvent)
    → ((o : Order) → filled_in s (f o) ≡ filled_in s o)
    → sum_filled s (entries (update_at f (find m (order_id_view e)) m))
      ≡ sum_filled s (entries m) +ℤ pos 0
unfolding find order_id_view
updated-sum s f m e same =
    ap (sum_filled s) (entries-update_at order_name m (order_id_view e) f)
    ∙ sum_filled-change_same s e.order_id f (entries m) same
    ∙ add_none (sum_filled s (entries m))

filled-sum :
    (s : Bytes) (m : OrderManager) (e : OrderEvent) (o : Order)
    → get m (order_id_view e) ≡ some o
    → IsFillOf e o
    → sum_filled s (entries (handle_fill m e)) ≡ sum_filled s (entries m) +ℤ filled_by_event s e
unfolding handle_fill find get order_id_view
filled-sum s m e o found is =
    ap (sum_filled s) (entries-update_at order_name m (order_id_view e) (filled_by e))
    ∙ sum_filled-change_add s e.order_id (filled_by e) (entries m) o (filled_by_event s e)
        (sym (get-entries order_name m (order_id_view e)) ∙ found) (filled_in-filled_by s e o is)

new-sum :
    (s : Bytes) (m : OrderManager) (e : OrderEvent)
    → IsValid m
    → get m (order_id_view e) ≡ none
    → sum_filled s (entries (handle_new m e)) ≡ sum_filled s (entries m) +ℤ pos 0
unfolding handle_new get
new-sum s m e v fresh =
    ap (sum_filled s)
      (entries-upsert order_name max_orders blank_order (opened e) m (order_id_view e) v.table)
    ∙ rw missing (elim (Bool-cases (leb max_orders m.count)) [
      | inl full ↦ rw full (add_none (sum_filled s (entries m)))
      | inr room ↦ rw room (
          sum_filled-append s (entries m) (opened e o) (opened-filled_in s e o)
          ∙ add_none (sum_filled s (entries m)))
    ])
  where
    missing : first order_name (order_id_view e).data_bytes (entries m) ≡ none
    missing = sym (get-entries order_name m (order_id_view e)) ∙ fresh

    o : Order
    o = blank_order (strncpy (order_id_view e).data_bytes 8)

-- What an event of a type adds to the sum of a symbol.
abbrev pub added : EventType → Bytes → OrderEvent → ℤ
added EventType.partial_fill s e = filled_by_event s e
added EventType.full_fill s e = filled_by_event s e
added _ s e = pos 0

dispatch-sum :
    (t : EventType) (s : Bytes) (m : OrderManager) (e : OrderEvent)
    → IsValid m
    → Belongs t m e
    → sum_filled s (entries (dispatch t m e)) ≡ sum_filled s (entries m) +ℤ added t s e
unfolding dispatch handle_cancel handle_reject handle_amend cancelled_by rejected_by amended_by
dispatch-sum EventType.unset s m e v b = add_none (sum_filled s (entries m))
dispatch-sum EventType.new_order s m e v b = new-sum s m e v b
dispatch-sum EventType.partial_fill s m e v (o, found, is) = filled-sum s m e o found is
dispatch-sum EventType.full_fill s m e v (o, found, is) = filled-sum s m e o found is
dispatch-sum EventType.cancel s m e v b = updated-sum s (cancelled_by e) m e (λ o. refl)
dispatch-sum EventType.reject s m e v b = updated-sum s (rejected_by e) m e (λ o. refl)
dispatch-sum EventType.amend s m e v b = updated-sum s (amended_by e) m e (λ o. refl)

-- An event that belongs to a valid table adds its fill to the sum of its symbol, and nothing else.
pub sum_filled-apply_event :
    (s : Bytes) (m : OrderManager) (e : OrderEvent)
    → IsValid m
    → Belongs e.type m e
    → sum_filled s (entries (apply_event m e)) ≡ sum_filled s (entries m) +ℤ added e.type s e
unfolding apply_event
sum_filled-apply_event s m e v b = dispatch-sum e.type s m e v b
