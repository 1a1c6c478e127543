-- ===== src/PositionTracker/Marks.antt =====
-- The values that a position derives: its unrealised gain, and the price and gain of a flat one.
use hft_order_book.Base.{
  ℕ, ◌≡◌, ◌≢◌, ◌⊎◌, refl, sym, ap, ◌∙◌, inl, inr, not, ◌&&◌, Option, none, some, some-eq,
  if◌then◌else◌, arith, Bool-cases,
}
use mathlib.Core.Path.{subst}
use mathlib.Core.Option
use hft_order_book.Base.Int.{ℤ, pos, ◌+ℤ◌, ◌-ℤ◌, neg, ltb_ℤ, eqb_ℤ, ◌<ℤ◌, int_laws}
use hft_order_book.Base.Word.{wrap64, wrap64-+ℤ, wrap64-neg}
use hft_order_book.Base.Bytes.{Bytes, StringView, strncmp_eq}
use hft_order_book.OrderEvent.{OrderEvent, is_buy}
use hft_order_book.PositionTracker.{
  Position, PositionTracker, marked_value, refresh_unrealized, buy_fill, sell_fill, apply_buy,
  apply_sell, apply_fill, apply_event, marked_at, mark_to_market, get, empty, blank_position,
}
use hft_order_book.PositionTracker.Lookup.{
  IsValid, get-mark_to_market, apply_event-IsValid, mark_to_market-IsValid, empty-IsValid,
}
use hft_order_book.PositionTracker.Everywhere.{none_ne, Everywhere, apply_event-Everywhere}

-- The unrealised gain is that of the last market price, and 0 with no price or no position; a flat
-- position has no entry price.
pub record IsConsistent (p : Position) : Type 0 where
  pub marked : p.unrealized_pnl ≡ (
      if ltb_ℤ (pos 0) p.last_price && not (eqb_ℤ p.net_qty (pos 0))
      then marked_value p.last_price p
      else pos 0)
  pub flat : (p.net_qty ≢ pos 0) ⊎ (p.avg_entry_price ≡ pos 0)

abbrev FlatIsFree : Position → Type 0
FlatIsFree p = p.net_qty ≡ pos 0 → p.avg_entry_price ≡ pos 0

free_or : (p : Position) → FlatIsFree p → (p.net_qty ≢ pos 0) ⊎ (p.avg_entry_price ≡ pos 0)
free_or p h = elim (Bool-cases (eqb_ℤ p.net_qty (pos 0))) [
  | inl zero ↦ inr (h (ground arith))
  | inr other ↦ inl (ground arith)
]

refresh-IsConsistent : (p : Position) → FlatIsFree p → IsConsistent (refresh_unrealized p)
unfolding refresh_unrealized
refresh-IsConsistent p h = record { marked = refl; flat = free_or p h }

buy_fill-FlatIsFree : (q x : ℤ) (p : Position) → FlatIsFree (buy_fill q x p)
unfolding buy_fill
buy_fill-FlatIsFree q x p = ground arith

sub_of_neg : (a b : ℤ) → neg a +ℤ b ≡ neg (a -ℤ b)
sub_of_neg a b = omega int_laws

-- The size of a short position after a sale is minus its net quantity.
pub short_qty_sum : (n q : ℤ) → wrap64 (wrap64 (neg n) +ℤ q) ≡ wrap64 (neg (wrap64 (n -ℤ q)))
short_qty_sum n q = wrap64-+ℤ (neg n) q ∙ ap wrap64 (sub_of_neg n q) ∙ sym (wrap64-neg (n -ℤ q))

wrap64-neg-zero : wrap64 (neg (pos 0)) ≡ pos 0
unfolding wrap64 neg
wrap64-neg-zero = refl

sell_fill-FlatIsFree : (q x : ℤ) (p : Position) → FlatIsFree (sell_fill q x p)
unfolding sell_fill
sell_fill-FlatIsFree q x p = ground (arith, short_qty_sum p.net_qty q, wrap64-neg-zero)

apply_buy-IsConsistent : (q x : ℤ) (n : ℕ) (p : Position) → IsConsistent (apply_buy q x n p)
unfolding apply_buy
apply_buy-IsConsistent q x n p =
    let c = refresh-IsConsistent (buy_fill q x _) (buy_fill-FlatIsFree q x _) in
    record { marked = c.marked; flat = c.flat }

apply_sell-IsConsistent : (q x : ℤ) (n : ℕ) (p : Position) → IsConsistent (apply_sell q x n p)
unfolding apply_sell
apply_sell-IsConsistent q x n p =
    let c = refresh-IsConsistent (sell_fill q x _) (sell_fill-FlatIsFree q x _) in
    record { marked = c.marked; flat = c.flat }

-- A fill leaves a consistent position, whatever it was before.
pub apply_fill-IsConsistent : (e : OrderEvent) (p : Position) → IsConsistent (apply_fill e p)
unfolding apply_fill
apply_fill-IsConsistent e p = elim (Bool-cases (is_buy e.side)) [
  | inl b ↦ rw (b, apply_fill) (apply_buy-IsConsistent e.fill_qty e.fill_price e.sequence p)
  | inr b ↦ rw (b, apply_fill) (apply_sell-IsConsistent e.fill_qty e.fill_price e.sequence p)
]

-- So does marking at a positive price.
pub marked_at-IsConsistent :
    (price : ℤ) (p : Position) → pos 0 <ℤ price → IsConsistent p → IsConsistent (marked_at price p)
unfolding marked_at
marked_at-IsConsistent price p h c = ground arith

-- What the tracker is called with: an event, or a market price for a symbol.
pub data Call : Type 0 where
  event : OrderEvent → Call
  market : StringView → ℤ → Call

unfoldable pub step : PositionTracker → Call → PositionTracker
step t (event e) = apply_event t e
step t (market sym price) = mark_to_market sym price t

-- The trackers that calls with positive market prices lead to.
pub data Reachable : PositionTracker → Type 0 where
  start : Reachable empty
  on_event : {t : PositionTracker} (e : OrderEvent) → Reachable t → Reachable (step t (event e))
  on_market :
      {t : PositionTracker} (sym : StringView) (price : ℤ)
      → pos 0 <ℤ price
      → Reachable t
      → Reachable (step t (market sym price))

mark_to_market-Everywhere :
    (sym : StringView) (price : ℤ) (t : PositionTracker)
    → pos 0 <ℤ price
    → Everywhere IsConsistent t
    → Everywhere IsConsistent (mark_to_market sym price t)
mark_to_market-Everywhere sym price t h c w p eq =
    elim (Bool-cases (strncmp_eq sym.data_bytes w.data_bytes 8)) [
      | inl mine ↦
          map-IsConsistent (get t w) (c w) p (rw (get-mark_to_market sym w price t, mine) at eq)
      | inr other ↦ c w p (rw (get-mark_to_market sym w price t, other) at eq)
    ]
  where
    map-IsConsistent :
        (o : Option Position)
        → ((q : Position) → o ≡ some q → IsConsistent q)
        → (p : Position) → Option.map (marked_at price) o ≡ some p
        → IsConsistent p
    map-IsConsistent (some q) k p e =
        subst IsConsistent (some-eq e) (marked_at-IsConsistent price q h (k q refl))
    map-IsConsistent none k p e = cc

Reachable-IsValid : {t : PositionTracker} → Reachable t → IsValid t
unfolding step
Reachable-IsValid start = empty-IsValid
Reachable-IsValid (on_event e r) = apply_event-IsValid _ e (Reachable-IsValid r)
Reachable-IsValid (on_market s price h r) = mark_to_market-IsValid s price _ (Reachable-IsValid r)

blank-IsConsistent : (k : Bytes) → IsConsistent (blank_position k)
blank-IsConsistent k = record { marked = refl; flat = inr refl }

Reachable-Everywhere : {t : PositionTracker} → Reachable t → Everywhere IsConsistent t
unfolding step
Reachable-Everywhere start = λ w p eq. absurd (none_ne w p eq)
Reachable-Everywhere (on_event e r) =
    apply_event-Everywhere IsConsistent blank-IsConsistent (λ e' p _. apply_fill-IsConsistent e' p)
      _ e (Reachable-IsValid r) (Reachable-Everywhere r)
Reachable-Everywhere (on_market s price h r) =
    mark_to_market-Everywhere s price _ h (Reachable-Everywhere r)

-- Whatever events and positive market prices have come in, every position found has the unrealised
-- gain of its last market price (0 with no price or no quantity), and no entry price if it is flat.
pub Reachable-IsConsistent :
    {t : PositionTracker} (w : StringView) (p : Position)
    → Reachable t
    → get t w ≡ some p
    → IsConsistent p
Reachable-IsConsistent w p r found = Reachable-Everywhere r w p found
