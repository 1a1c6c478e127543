-- ===== src/OrderManager/Commute.antt =====
-- Logs that interleave the events of different orders in another way: the orders depend only on the
-- events of each order, in their order, and on their stamps in the sequence numbers alone.
use hft_order_book.Base.{
  ◌≡◌, refl, sym, ap, ◌∙◌, false, Bool-cases, inl, inr, Option, none, some, List, [], ◌∷◌, ◌++◌,
  ◌<◌, if◌then◌else◌,
}
use mathlib.Core.Option
use mathlib.Core.List.{map}
use mathlib.Core.Path.{fun_ext}
use mathlib.Core.Quot
use mathlib.Core.Quot.{Quot, Quot-set}
use hft_order_book.Base.Bytes.{StringView, strncmp_eq, strncmp_eq_trans, strncmp_eq_sym}
use hft_order_book.OrderEvent.{EventType, OrderEvent}
use hft_order_book.EventLog.{EventLog}
use hft_order_book.EventLog.Contents.{contents}
use hft_order_book.SlotTable.Lookup.{foldl}
use hft_order_book.OrderManager.{
  Order, max_orders, get, replay_from, opened, filled_by, cancelled_by, rejected_by, amended_by,
}
use hft_order_book.OrderManager.Lifecycle.{order_step}
use hft_order_book.OrderManager.Replay.{get-replay_from}
use hft_order_book.OrderManager.Stamps.{unstamped}
use hft_order_book.OrderManager.History.{own, own_step, foldl-own}

-- An event without what `append` stamps on it.
abbrev pub unstamped_event : OrderEvent → OrderEvent
unstamped_event e = record e { sequence = 0; timestamp_ns = 0 }

-- Two lists hold the same events of every id, in the same order, but for their stamps.
abbrev pub SameHistories : List OrderEvent → List OrderEvent → Type 0
SameHistories es fs =
    (w : StringView) → map unstamped_event (own w es) ≡ map unstamped_event (own w fs)

-- A run of events, up to their stamps and to how the histories of different ids are interleaved.
abbrev pub Trace : Type 0
Trace = Quot SameHistories

Order-set : IsSet Order
Order-set = hlevel

orders-set : IsSet (StringView → Option Order)
orders-set = hlevel

-- An event in the history of an order without sequence numbers.
abbrev unstamped_step : Option Order → OrderEvent → Option Order
unstamped_step o e = Option.map unstamped (own_step o e)

-- What an event makes of an order depends on neither's stamps, but for those of the result.
order_step-unstamped :
    (t : EventType) (e : OrderEvent) (o : Option Order)
    → Option.map unstamped (order_step t e false o)
      ≡ Option.map unstamped (order_step t (unstamped_event e) false (Option.map unstamped o))
unfolding opened filled_by cancelled_by rejected_by amended_by
order_step-unstamped EventType.unset e none = refl
order_step-unstamped EventType.unset e (some o) = refl
order_step-unstamped EventType.new_order e none = refl
order_step-unstamped EventType.new_order e (some o) = refl
order_step-unstamped EventType.partial_fill e none = refl
order_step-unstamped EventType.partial_fill e (some o) = refl
order_step-unstamped EventType.full_fill e none = refl
order_step-unstamped EventType.full_fill e (some o) = refl
order_step-unstamped EventType.cancel e none = refl
order_step-unstamped EventType.cancel e (some o) = refl
order_step-unstamped EventType.reject e none = refl
order_step-unstamped EventType.reject e (some o) = refl
order_step-unstamped EventType.amend e none = refl
order_step-unstamped EventType.amend e (some o) = refl

foldl-unstamped_step :
    (es : List OrderEvent) (o : Option Order)
    → Option.map unstamped (foldl own_step o es)
      ≡ foldl unstamped_step (Option.map unstamped o) (map unstamped_event es)
foldl-unstamped_step [] o = refl
foldl-unstamped_step (e ∷ es) o =
    foldl-unstamped_step es (own_step o e)
    ∙ ap (λ p. foldl unstamped_step p (map unstamped_event es)) (order_step-unstamped e.type e o)

-- The orders that a trace leads to, without sequence numbers.
pub orders_of : Trace → StringView → Option Order
orders_of =
    Quot.lift orders-set (λ es w. foldl unstamped_step none (map unstamped_event (own w es)))
      (λ es fs same. fun_ext (λ w. ap (foldl unstamped_step none) (same w)))

-- Replay of a log that does not fill the order table finds the orders of its trace.
pub get-replay_from-orders_of :
    (log : EventLog) (w : StringView)
    → (replay_from log).count < max_orders
    → Option.map unstamped (get (replay_from log) w) ≡ orders_of (Quot.mk (contents log)) w
unfolding orders_of
get-replay_from-orders_of log w room =
    ap (Option.map unstamped) (get-replay_from log w room ∙ foldl-own w (contents log) none)
    ∙ foldl-unstamped_step (own w (contents log)) none

swap_two :
    (e d : OrderEvent) (fs : List OrderEvent) (w : StringView)
    → strncmp_eq e.order_id d.order_id 8 ≡ false
    → own w (e ∷ d ∷ fs) ≡ own w (d ∷ e ∷ fs)
swap_two e d fs w differ = elim (Bool-cases (strncmp_eq e.order_id w.data_bytes 8)) [
  | inl mine ↦
      let other : strncmp_eq d.order_id w.data_bytes 8 ≡ false =
        strncmp_eq_sym d.order_id w.data_bytes 8
        ∙ sym (strncmp_eq_trans e.order_id w.data_bytes d.order_id 8 mine)
        ∙ differ in
      rw (mine, other) refl
  | inr not_mine ↦ rw not_mine refl
]

own-swap :
    (es : List OrderEvent) (e d : OrderEvent) (fs : List OrderEvent) (w : StringView)
    → strncmp_eq e.order_id d.order_id 8 ≡ false
    → own w (es ++ e ∷ d ∷ fs) ≡ own w (es ++ d ∷ e ∷ fs)
own-swap [] e d fs w differ = swap_two e d fs w differ
own-swap (x ∷ es) e d fs w differ =
    let rest = own-swap es e d fs w differ in
    ap (λ l. if strncmp_eq x.order_id w.data_bytes 8 then x ∷ l else l) rest

own-unstamped :
    (w : StringView) (es : List OrderEvent)
    → own w (map unstamped_event es) ≡ map unstamped_event (own w es)
own-unstamped w [] = refl
own-unstamped w (e ∷ es) = elim (Bool-cases (strncmp_eq e.order_id w.data_bytes 8)) [
  | inl mine ↦ rw mine (ap (◌∷◌ (unstamped_event e)) (own-unstamped w es))
  | inr other ↦ rw other (own-unstamped w es)
]

-- Events of different ids that stand side by side may change places, whatever the stamps are then.
pub SameHistories-swap :
    (ls rs es : List OrderEvent) (e d : OrderEvent) (fs : List OrderEvent)
    → map unstamped_event ls ≡ es ++ e ∷ d ∷ fs
    → map unstamped_event rs ≡ es ++ d ∷ e ∷ fs
    → strncmp_eq e.order_id d.order_id 8 ≡ false
    → SameHistories ls rs
SameHistories-swap ls rs es e d fs left right differ w =
    sym (own-unstamped w ls)
    ∙ ap (own w) left
    ∙ own-swap es e d fs w differ
    ∙ ap (own w) (sym right)
    ∙ own-unstamped w rs

-- Logs that do not fill the order table, and that hold the same events of every id in the same
-- order, but for the sequence numbers and time stamps that `append` gives them, are replayed to the
-- same orders but for their sequence numbers, however the events of different ids are interleaved.
pub replay_from-interleaved :
    (log log' : EventLog) (w : StringView)
    → (replay_from log).count < max_orders
    → (replay_from log').count < max_orders
    → SameHistories (contents log) (contents log')
    → Option.map unstamped (get (replay_from log) w)
      ≡ Option.map unstamped (get (replay_from log') w)
replay_from-interleaved log log' w room room' same =
    get-replay_from-orders_of log w room
    ∙ ap (λ t. orders_of t w) (Quot.sound same)
    ∙ sym (get-replay_from-orders_of log' w room')
