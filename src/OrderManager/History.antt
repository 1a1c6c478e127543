-- ===== src/OrderManager/History.antt =====
-- The fills of an order, one after another. Child: Outcome (what replay finds of an order that
-- was opened and then filled).
pub mod Outcome
use hft_order_book.Base.{
  ◌≡◌, refl, sym, ap, ◌∙◌, Bool, true, false, Option, none, some, List, [], ◌∷◌, All, if◌then◌else◌,
  Bool-cases, ◌⊎◌, inl, inr, ℕ, ◌<◌, arith,
}
use mathlib.Core.Path.{subst}
use hft_order_book.Base.Int.{
  neg, negsuc, ℤ, pos, ◌+ℤ◌, ◌-ℤ◌, ◌*ℤ◌, leb_ℤ, ◌≤ℤ◌, ◌<ℤ◌, int_laws, parts_of_eq,
}
use hft_order_book.Base.Ring.{*ℤ-add_left, *ℤ-zero, *ℤ_mono, *ℤ_comm, ℤ-trichotomy}
use hft_order_book.Base.Average.{weighted_bounds}
use hft_order_book.Base.Word.{Fits32, Fits64, Fits32-le, Fits64-le, Fits32-sub}
use hft_order_book.Base.Bytes.{StringView, strncmp_eq, strncpy}
use hft_order_book.OrderEvent.{EventType, OrderEvent}
use hft_order_book.EventLog.{EventLog}
use hft_order_book.EventLog.Contents.{contents}
use hft_order_book.SlotTable.Lookup.{foldl}
use hft_order_book.OrderManager.{
  Order, OrderState, max_orders, get, replay_from, filled_by, opened, blank_order,
}
use hft_order_book.OrderManager.Lifecycle.{order_step}
use hft_order_book.OrderManager.Replay.{history_step, get-replay_from}
use hft_order_book.OrderManager.Fills.{FillFits, filled_by-fill, filled_by-exact}

-- The events of one id.
abbrev pub own : StringView → List OrderEvent → List OrderEvent
own w [] = []
own w (e ∷ es) = if strncmp_eq e.order_id w.data_bytes 8 then e ∷ own w es else own w es

abbrev pub own_step : Option Order → OrderEvent → Option Order
own_step o e = order_step e.type e false o

pub foldl-own :
    (w : StringView) (es : List OrderEvent) (o : Option Order)
    → foldl (history_step w) o es ≡ foldl own_step o (own w es)
foldl-own w [] o = refl
foldl-own w (e ∷ es) o = elim (Bool-cases (strncmp_eq e.order_id w.data_bytes 8)) [
  | inl mine ↦ rw mine (foldl-own w es (own_step o e))
  | inr other ↦ rw other (foldl-own w es o)
]

-- A fill of a positive quantity at a price within bounds.
pub record IsFillWithin (lo hi : ℤ) (e : OrderEvent) : Type 0 where
  pub fills : (e.type ≡ EventType.partial_fill) ⊎ (e.type ≡ EventType.full_fill)
  pub more : pos 0 <ℤ e.fill_qty
  pub price_ge : lo ≤ℤ e.fill_price
  pub price_le : e.fill_price ≤ℤ hi

-- The quantity of the fills.
abbrev pub total_filled : List OrderEvent → ℤ
total_filled [] = pos 0
total_filled (e ∷ es) = e.fill_qty +ℤ total_filled es

-- An order during its fills.
pub record Filling (lo hi : ℤ) (o : Order) : Type 0 where
  pub size_ge : pos 0 ≤ℤ o.original_qty
  pub size_fits : Fits32 o.original_qty
  pub filled_ge : pos 0 ≤ℤ o.filled_qty
  pub mean : pos 0 <ℤ o.filled_qty → (lo ≤ℤ o.avg_fill_price) × (o.avg_fill_price ≤ℤ hi)

fits :
    (lo hi : ℤ) (e : OrderEvent) (o : Order)
    → pos 0 ≤ℤ lo
    → IsFillWithin lo hi e
    → Filling lo hi o
    → Fits32 (o.filled_qty +ℤ e.fill_qty)
    → Fits64 (hi *ℤ (o.filled_qty +ℤ e.fill_qty))
    → FillFits e o
fits lo hi e o low is filling filled_fits cost_fits =
    let (old_ge, old_le) =
      weighted_bounds lo hi o.avg_fill_price o.filled_qty low filling.filled_ge filling.mean in
    let (new_ge, new_le) =
      weighted_bounds lo hi e.fill_price e.fill_qty low (omega (int_laws, is.more))
        (λ h. (is.price_ge, is.price_le)) in
    let split = parts_of_eq (*ℤ-add_left hi o.filled_qty e.fill_qty) in
    record {
      old_fits = Fits64-le _ _ old_ge (omega int_laws) cost_fits;
      new_fits = Fits64-le _ _ new_ge (omega int_laws) cost_fits;
      cost_fits = Fits64-le _ _ (omega int_laws) (omega int_laws) cost_fits;
      filled_fits = filled_fits;
      left_fits =
          Fits32-sub o.original_qty (o.filled_qty +ℤ e.fill_qty) filling.size_ge
            (omega (int_laws, filling.filled_ge, is.more)) filling.size_fits filled_fits;
    }

pub total_filled-ge :
    (lo hi : ℤ) (es : List OrderEvent) → All (IsFillWithin lo hi) es → pos 0 ≤ℤ total_filled es
total_filled-ge lo hi [] h = omega int_laws
total_filled-ge lo hi (e ∷ es) (is, rest) = omega (int_laws, is.more, total_filled-ge lo hi es rest)

-- The state that a fill leaves an order in.
abbrev pub state_by_qty : ℤ → ℤ → OrderState
state_by_qty original filled =
    if leb_ℤ original filled then OrderState.filled else OrderState.partially_filled

-- An order after the fills of a quantity, and those are of it all.
pub record Filled (lo hi : ℤ) (o : Order) (qty : ℤ) (o' : Order) : Type 0 where
  pub filling : Filling lo hi o'
  pub filled_sum : o'.filled_qty ≡ o.filled_qty +ℤ qty
  pub same_size : o'.original_qty ≡ o.original_qty
  pub settled : o'.state ≡ state_by_qty o'.original_qty o'.filled_qty

same_original : (e : OrderEvent) (o : Order) → (filled_by e o).original_qty ≡ o.original_qty
unfolding filled_by
same_original e o = refl

filled_by-Filled :
    (lo hi : ℤ) (e : OrderEvent) (o : Order)
    → pos 0 ≤ℤ lo
    → IsFillWithin lo hi e
    → Filling lo hi o
    → Fits32 (o.filled_qty +ℤ e.fill_qty)
    → Fits64 (hi *ℤ (o.filled_qty +ℤ e.fill_qty))
    → Filled lo hi o e.fill_qty (filled_by e o)
filled_by-Filled lo hi e o low is filling filled_fits cost_fits =
    let (sum, state, ge, le) =
      filled_by-fill e o lo hi filling.filled_ge is.more
        (fits lo hi e o low is filling filled_fits cost_fits) filling.mean
        (is.price_ge, is.price_le) in
    let same = same_original e o in
    record {
      filling = record {
        size_ge = rw same filling.size_ge;
        size_fits = rw same filling.size_fits;
        filled_ge = omega (int_laws, parts_of_eq sum, filling.filled_ge, is.more);
        mean = λ h. (ge, le);
      };
      filled_sum = sum;
      same_size = same;
      settled = rw same state;
    }

own_step-fill :
    (lo hi : ℤ) (e : OrderEvent) (o : Order)
    → IsFillWithin lo hi e
    → own_step (some o) e ≡ some (filled_by e o)
own_step-fill lo hi e o is = elim is.fills [ inl part ↦ rw part refl | inr full ↦ rw full refl ]

-- A part of the quantity fits when all of it does.
part_fits :
    (hi a b : ℤ)
    → pos 0 ≤ℤ hi
    → pos 0 ≤ℤ a
    → pos 0 ≤ℤ b
    → Fits32 (a +ℤ b)
    → Fits64 (hi *ℤ (a +ℤ b))
    → Fits32 a × Fits64 (hi *ℤ a)
part_fits hi a b high ge_a ge_b sum_fits cost_fits =
    let bound : ℤ → Type 0 = λ n. (pos 0 ≤ℤ hi *ℤ n) × (hi *ℤ n ≤ℤ hi *ℤ n) in
    let first : bound a = weighted_bounds hi hi hi a high ge_a (λ h. (omega arith, omega arith)) in
    let second : bound b = weighted_bounds hi hi hi b high ge_b (λ h. (omega arith, omega arith)) in
    let split = parts_of_eq (*ℤ-add_left hi a b) in
    (
      Fits32-le a (a +ℤ b) ge_a (omega int_laws) sum_fits,
      Fits64-le (hi *ℤ a) (hi *ℤ (a +ℤ b)) first.0 (omega int_laws) cost_fits,
    )

Filled-trans :
    (lo hi a b : ℤ) (o p q : Order)
    → Filled lo hi o a p
    → Filled lo hi p b q
    → Filled lo hi o (a +ℤ b) q
Filled-trans lo hi a b o p q first second = record {
  filling = second.filling;
  filled_sum = omega (int_laws, parts_of_eq first.filled_sum, parts_of_eq second.filled_sum);
  same_size = second.same_size ∙ first.same_size;
  settled = second.settled;
}

-- A run of fills, of which there is one at least.
pub foldl-Filled :
    (lo hi : ℤ) (e : OrderEvent) (es : List OrderEvent) (o : Order)
    → pos 0 ≤ℤ lo
    → All (IsFillWithin lo hi) (e ∷ es)
    → Filling lo hi o
    → Fits32 (o.filled_qty +ℤ total_filled (e ∷ es))
    → Fits64 (hi *ℤ (o.filled_qty +ℤ total_filled (e ∷ es)))
    → (o' : Order) × (foldl own_step (some o) (e ∷ es) ≡ some o')
      × Filled lo hi o (total_filled (e ∷ es)) o'
foldl-Filled lo hi e [] o low (is, rest) filling sum_fits cost_fits =
    let all : e.fill_qty +ℤ pos 0 ≡ e.fill_qty = omega int_laws in
    (
      filled_by e o,
      own_step-fill lo hi e o is,
      rw all (filled_by-Filled lo hi e o low is filling (rw all at sum_fits) (rw all at cost_fits)),
    )
foldl-Filled lo hi e (d ∷ ds) o low (is, rest) filling sum_fits cost_fits =
    let more = total_filled (d ∷ ds) in
    let parts : o.filled_qty +ℤ (e.fill_qty +ℤ more) ≡ (o.filled_qty +ℤ e.fill_qty) +ℤ more =
      omega int_laws in
    let sum_parts : Fits32 ((o.filled_qty +ℤ e.fill_qty) +ℤ more) = subst Fits32 parts sum_fits in
    let cost_parts : Fits64 (hi *ℤ ((o.filled_qty +ℤ e.fill_qty) +ℤ more)) =
      subst (λ n. Fits64 (hi *ℤ n)) parts cost_fits in
    let (now_fits, now_cost) =
      part_fits hi (o.filled_qty +ℤ e.fill_qty) more (omega (int_laws, is.price_ge, is.price_le))
        (omega (int_laws, filling.filled_ge, is.more)) (total_filled-ge lo hi (d ∷ ds) rest)
        sum_parts cost_parts in
    let first = filled_by-Filled lo hi e o low is filling now_fits now_cost in
    let (o', same, second) =
      foldl-Filled lo hi d ds (filled_by e o) low rest first.filling (rw first.filled_sum sum_parts)
        (rw first.filled_sum cost_parts) in
    (
      o',
      rw (own_step-fill lo hi e o is) same,
      Filled-trans lo hi e.fill_qty more o (filled_by e o) o' first second,
    )
