-- ===== src/OrderManager/History/Outcome.antt =====
-- From the events of an order in the log to the quantity, mean price and state that replay finds.
use hft_order_book.Base.{◌≡◌, refl, sym, ap, ◌∙◌, some, none, false, List, ◌∷◌, All, ◌<◌}
use mathlib.Core.Path.{subst, ap₂}
use hft_order_book.Base.Int.{ℤ, pos, ◌+ℤ◌, ◌*ℤ◌, ◌≤ℤ◌, ◌<ℤ◌, int_laws}
use hft_order_book.Base.Word.{Fits32, Fits64}
use hft_order_book.Base.Bytes.{StringView, strncpy}
use hft_order_book.OrderEvent.{EventType, OrderEvent}
use hft_order_book.EventLog.{EventLog}
use hft_order_book.EventLog.Contents.{contents}
use hft_order_book.SlotTable.Lookup.{foldl}
use hft_order_book.OrderManager.{Order, max_orders, get, replay_from, opened, blank_order}
use hft_order_book.OrderManager.Lifecycle.{order_step}
use hft_order_book.OrderManager.Replay.{get-replay_from}
use hft_order_book.OrderManager.History.{
  own, own_step, foldl-own, IsFillWithin, total_filled, total_filled-ge, state_by_qty, Filling,
  Filled, foldl-Filled,
}

-- The order that a new order event opens.
abbrev opening : OrderEvent → Order
opening e = opened e (blank_order (strncpy e.order_id 8))

opening-Filling :
    (lo hi : ℤ) (e : OrderEvent) → pos 0 ≤ℤ e.qty → Fits32 e.qty → Filling lo hi (opening e)
unfolding opened
opening-Filling lo hi e size size_fits = record {
  size_ge = size;
  size_fits = size_fits;
  filled_ge = omega int_laws;
  mean = λ h. absurd (omega (int_laws, h));
}

opening-filled_qty : (e : OrderEvent) → (opening e).filled_qty ≡ pos 0
unfolding opened
opening-filled_qty e = refl

opening-original_qty : (e : OrderEvent) → (opening e).original_qty ≡ e.qty
unfolding opened
opening-original_qty e = refl

zero_add : (a : ℤ) → a ≡ pos 0 +ℤ a
zero_add a = omega int_laws

-- What the fills of a quantity make of an order, of the size that was ordered.
pub record IsOutcome (lo hi size total : ℤ) (o : Order) : Type 0 where
  pub ordered : o.original_qty ≡ size
  pub all_filled : o.filled_qty ≡ total
  pub settled : o.state ≡ state_by_qty size total
  pub mean_ge : lo ≤ℤ o.avg_fill_price
  pub mean_le : o.avg_fill_price ≤ℤ hi

Filled-IsOutcome :
    (lo hi : ℤ) (new : OrderEvent) (total : ℤ) (o : Order)
    → pos 0 <ℤ total
    → Filled lo hi (opening new) total o
    → IsOutcome lo hi new.qty total o
Filled-IsOutcome lo hi new total o more filled =
    let ordered = filled.same_size ∙ opening-original_qty new in
    let all_filled =
      filled.filled_sum ∙ ap (λ n. n +ℤ total) (opening-filled_qty new) ∙ sym (zero_add total) in
    let (ge, le) = filled.filling.mean (rw all_filled more) in
    record {
      ordered = ordered;
      all_filled = all_filled;
      settled = filled.settled ∙ ap₂ state_by_qty ordered all_filled;
      mean_ge = ge;
      mean_le = le;
    }

own_step-opening :
    (t : EventType) (e : OrderEvent)
    → t ≡ EventType.new_order
    → order_step t e false none ≡ some (opening e)
own_step-opening t e h = rw h refl

-- In a log that does not fill the order table, let the events of an id be a new order and then one
-- fill or more, of positive quantities and at prices between two bounds that are not negative. If the
-- ordered quantity, the filled quantity and what that costs at the upper bound stay within their
-- types, replay finds the order under the id, with the ordered quantity, the sum of the fills as its
-- filled quantity, the state Filled exactly when that reaches what was ordered and PartiallyFilled
-- otherwise, and a mean price between the bounds.
pub get-replay_from_fills :
    (log : EventLog) (w : StringView) (new e : OrderEvent) (es : List OrderEvent) (lo hi : ℤ)
    → (replay_from log).count < max_orders
    → own w (contents log) ≡ new ∷ e ∷ es
    → new.type ≡ EventType.new_order
    → pos 0 ≤ℤ new.qty
    → Fits32 new.qty
    → pos 0 ≤ℤ lo
    → All (IsFillWithin lo hi) (e ∷ es)
    → Fits32 (total_filled (e ∷ es))
    → Fits64 (hi *ℤ total_filled (e ∷ es))
    → (o : Order) × (get (replay_from log) w ≡ some o)
      × IsOutcome lo hi new.qty (total_filled (e ∷ es)) o
get-replay_from_fills log w new e es lo hi room history is_new size size_fits low fills sum_fits
      cost_fits =
    let total = total_filled (e ∷ es) in
    let whole : total ≡ (opening new).filled_qty +ℤ total =
      zero_add total ∙ ap (λ n. n +ℤ total) (sym (opening-filled_qty new)) in
    let (o, same, filled) =
      foldl-Filled lo hi e es (opening new) low fills (opening-Filling lo hi new size size_fits)
        (subst Fits32 whole sum_fits) (subst (λ n. Fits64 (hi *ℤ n)) whole cost_fits) in
    let (first, rest) = fills in
    (
      o,
      get-replay_from log w room
          ∙ foldl-own w (contents log) none
          ∙ ap (foldl own_step none) history
          ∙ ap (λ x. foldl own_step x (e ∷ es)) (own_step-opening new.type new is_new)
          ∙ same,
      Filled-IsOutcome lo hi new total o
          (omega (int_laws, first.more, total_filled-ge lo hi es rest)) filled,
    )
