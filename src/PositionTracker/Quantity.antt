-- ===== src/PositionTracker/Quantity.antt =====
-- Net and total quantities: what a run of fills sums to.
use hft_order_book.Base.{
  ℕ, ◌<◌, ◌≡◌, sym, ap, ◌∙◌, inl, inr, false, ◌&&◌, Option, none, some, List, [], ◌∷◌, ◌++◌, leb,
  if◌then◌else◌, arith, Bool-cases,
}
use hft_order_book.Base.Int.{ℤ, pos, ◌+ℤ◌, ◌-ℤ◌, neg, int_laws}
use hft_order_book.Base.Word.{
  wrap32, wrap64, Fits64, wrap64_id, wrap64-Fits64, wrap64-+ℤ, wrap32-+ℤ, wrap32-wrap64, wrap32-neg,
}
use hft_order_book.Base.Bytes.{Bytes, StringView, strncpy, strncmp_eq}
use hft_order_book.OrderEvent.{OrderEvent, is_buy, is_fill}
use hft_order_book.EventLog.{EventLog}
use hft_order_book.EventLog.Contents.{contents}
use hft_order_book.SlotTable.Lookup.{foldl}
use hft_order_book.SlotTable.Upsert.{upsert_entry}
use hft_order_book.PositionTracker.{
  Position, PositionTracker, max_symbols, blank_position, empty, apply_buy, apply_sell, apply_fill,
  buy_fill, sell_fill, apply_event, get, replay_from,
}
use hft_order_book.PositionTracker.Lookup.{
  IsValid, get-apply_event_position, apply_event-IsValid, empty-IsValid, get-empty,
  count-apply_event, count-foldl-apply_event, replay_from-foldl,
}
use hft_order_book.PositionTracker.Everywhere.{replay_from-Everywhere}

-- A fill's quantity, negative for a sale.
abbrev pub signed_fill : OrderEvent → ℤ
signed_fill e = if is_buy e.side then e.fill_qty else neg e.fill_qty

-- What an event adds to the position in a symbol.
abbrev pub contribution : StringView → OrderEvent → ℤ
contribution w e = if is_fill e && strncmp_eq e.symbol w.data_bytes 8 then signed_fill e else pos 0

pub sum_fills : StringView → List OrderEvent → ℤ
sum_fills w [] = pos 0
sum_fills w (e ∷ es) = contribution w e +ℤ sum_fills w es

abbrev pub qty_of : Option Position → ℤ
qty_of none = pos 0
qty_of (some p) = p.net_qty

-- The net quantity in a symbol, 0 where there is no position.
abbrev pub net_of : PositionTracker → StringView → ℤ
net_of t w = qty_of (get t w)

buy_fill-net : (q x : ℤ) (p : Position) → (buy_fill q x p).net_qty ≡ wrap64 (p.net_qty +ℤ q)
unfolding buy_fill
buy_fill-net q x p = ground arith

sub_eq : (a b : ℤ) → a -ℤ b ≡ a +ℤ neg b
sub_eq a b = omega int_laws

sell_fill-net : (q x : ℤ) (p : Position) → (sell_fill q x p).net_qty ≡ wrap64 (p.net_qty +ℤ neg q)
unfolding sell_fill
sell_fill-net q x p = rw (← sub_eq p.net_qty q) (ground arith)

-- A fill moves the net quantity by its signed quantity.
pub apply_fill-net :
    (e : OrderEvent) (p : Position) → (apply_fill e p).net_qty ≡ wrap64 (p.net_qty +ℤ signed_fill e)
unfolding apply_fill
apply_fill-net e p = elim (Bool-cases (is_buy e.side)) [
  | inl b ↦ rw (b, apply_fill) (buy_fill-net e.fill_qty e.fill_price _)
  | inr b ↦ rw (b, apply_fill) (sell_fill-net e.fill_qty e.fill_price _)
]

upsert_entry-net :
    (e : OrderEvent) (k : Bytes) (o : Option Position)
    → qty_of (upsert_entry (apply_fill e) (blank_position k) false o)
      ≡ wrap64 (qty_of o +ℤ signed_fill e)
upsert_entry-net e k (some p) = apply_fill-net e p
upsert_entry-net e k none = apply_fill-net e (blank_position k)

add_zero_wrapped : (a : ℤ) → Fits64 a → a ≡ wrap64 (a +ℤ pos 0)
add_zero_wrapped a h = sym (wrap64_id a h) ∙ ap wrap64 (omega int_laws)

+ℤ_assoc : (a b c : ℤ) → a +ℤ b +ℤ c ≡ a +ℤ (b +ℤ c)
+ℤ_assoc a b c = omega int_laws

pub sum_fills-append :
    (w : StringView) (es : List OrderEvent) (e : OrderEvent)
    → sum_fills w (es ++ e ∷ []) ≡ sum_fills w es +ℤ contribution w e
unfolding sum_fills
sum_fills-append w [] e = omega int_laws
sum_fills-append w (x ∷ es) e =
    ap (◌+ℤ◌ (contribution w x)) (sum_fills-append w es e) ∙ sym (+ℤ_assoc _ _ _)

-- An event changes the net quantity of a symbol by its contribution, if there is a slot.
pub net-apply_event :
    (t : PositionTracker) (e : OrderEvent) (w : StringView)
    → IsValid t
    → t.count < max_symbols
    → Fits64 (net_of t w)
    → net_of (apply_event t e) w ≡ wrap64 (net_of t w +ℤ contribution w e)
net-apply_event t e w v room fits =
    elim (Bool-cases (is_fill e && strncmp_eq e.symbol w.data_bytes 8)) [
      | inl mine ↦
          rw (get-apply_event_position t e w v, mine, not_full)
            (upsert_entry-net e (strncpy e.symbol 8) (get t w))
      | inr other ↦
          rw (get-apply_event_position t e w v, other) (add_zero_wrapped (net_of t w) fits)
    ]
  where
    not_full : leb max_symbols t.count ≡ false
    not_full = ground arith

-- After a run of events that does not fill the table, the net quantity of a symbol is the old one
-- plus the signed fills in that symbol, reduced to 64 bits.
pub net-foldl-apply_event :
    (es : List OrderEvent) (t : PositionTracker) (w : StringView)
    → IsValid t
    → (foldl apply_event t es).count < max_symbols
    → Fits64 (net_of t w)
    → net_of (foldl apply_event t es) w ≡ wrap64 (net_of t w +ℤ sum_fills w es)
unfolding sum_fills
net-foldl-apply_event [] t w v h fits = add_zero_wrapped (net_of t w) fits
net-foldl-apply_event (e ∷ es) t w v h fits =
    net-foldl-apply_event es (apply_event t e) w (apply_event-IsValid t e v) h
      (rw step (wrap64-Fits64 _))
    ∙ ap (λ n. wrap64 (n +ℤ sum_fills w es)) step
    ∙ wrap64-+ℤ _ _
    ∙ ap wrap64 (+ℤ_assoc _ _ _)
  where
    step : net_of (apply_event t e) w ≡ wrap64 (net_of t w +ℤ contribution w e)
    step =
        net-apply_event t e w v
          (omega (arith, count-apply_event t e, count-foldl-apply_event es (apply_event t e))) fits

-- Replayed from a log that does not fill the table, the net quantity of a symbol is the sum of the
-- log's signed fills in it, reduced to 64 bits.
pub net-replay_from :
    (log : EventLog) (w : StringView)
    → (replay_from log).count < max_symbols
    → net_of (replay_from log) w ≡ wrap64 (sum_fills w (contents log))
net-replay_from log w h = rw (replay_from-foldl log) (
    net-foldl-apply_event (contents log) empty w empty-IsValid (rw (replay_from-foldl log) at h)
      (rw (get-empty w) (omega arith))
    ∙ rw (get-empty w) (ap wrap64 (omega int_laws)))

-- The totals bought and sold differ by the net quantity, to 32 bits.
abbrev pub TotalsAgree : Position → Type 0
TotalsAgree p = wrap32 (p.total_buy_qty -ℤ p.total_sell_qty) ≡ wrap32 p.net_qty

module _ (b s n q : ℤ) (h : wrap32 (b -ℤ s) ≡ wrap32 n) where
  agree_buy : wrap32 (wrap32 (b +ℤ q) -ℤ s) ≡ wrap32 (wrap64 (n +ℤ q))
  agree_buy =
      ap wrap32 (sub_eq _ s)
      ∙ wrap32-+ℤ (b +ℤ q) (neg s)
      ∙ ap wrap32 {y = b -ℤ s +ℤ q} (omega int_laws)
      ∙ sym (wrap32-+ℤ (b -ℤ s) q)
      ∙ ap (λ x. wrap32 (x +ℤ q)) h
      ∙ wrap32-+ℤ n q
      ∙ sym (wrap32-wrap64 (n +ℤ q))

  agree_sell : wrap32 (b -ℤ wrap32 (s +ℤ q)) ≡ wrap32 (wrap64 (n +ℤ neg q))
  agree_sell =
      ap wrap32 {y = neg (wrap32 (s +ℤ q)) +ℤ b} (omega int_laws)
      ∙ sym (wrap32-+ℤ (neg (wrap32 (s +ℤ q))) b)
      ∙ ap (λ x. wrap32 (x +ℤ b)) (wrap32-neg (s +ℤ q))
      ∙ wrap32-+ℤ (neg (s +ℤ q)) b
      ∙ ap wrap32 {y = b -ℤ s +ℤ neg q} (omega int_laws)
      ∙ sym (wrap32-+ℤ (b -ℤ s) (neg q))
      ∙ ap (λ x. wrap32 (x +ℤ neg q)) h
      ∙ wrap32-+ℤ n (neg q)
      ∙ sym (wrap32-wrap64 (n +ℤ neg q))

buy_fill-totals :
    (q x : ℤ) (p : Position)
    → ((buy_fill q x p).total_buy_qty ≡ p.total_buy_qty)
      × ((buy_fill q x p).total_sell_qty ≡ p.total_sell_qty)
unfolding buy_fill
buy_fill-totals q x p = ground arith

sell_fill-totals :
    (q x : ℤ) (p : Position)
    → ((sell_fill q x p).total_buy_qty ≡ p.total_buy_qty)
      × ((sell_fill q x p).total_sell_qty ≡ p.total_sell_qty)
unfolding sell_fill
sell_fill-totals q x p = ground arith

apply_buy-TotalsAgree :
    (q x : ℤ) (n : ℕ) (p : Position) → TotalsAgree p → TotalsAgree (apply_buy q x n p)
unfolding apply_buy
apply_buy-TotalsAgree q x n p h =
    rw ((buy_fill-totals q x _).0, (buy_fill-totals q x _).1, buy_fill-net q x _)
      (agree_buy p.total_buy_qty p.total_sell_qty p.net_qty q h)

apply_sell-TotalsAgree :
    (q x : ℤ) (n : ℕ) (p : Position) → TotalsAgree p → TotalsAgree (apply_sell q x n p)
unfolding apply_sell
apply_sell-TotalsAgree q x n p h =
    rw ((sell_fill-totals q x _).0, (sell_fill-totals q x _).1, sell_fill-net q x _)
      (agree_sell p.total_buy_qty p.total_sell_qty p.net_qty q h)

-- A fill keeps the totals in agreement with the net quantity.
pub apply_fill-TotalsAgree :
    (e : OrderEvent) (p : Position) → TotalsAgree p → TotalsAgree (apply_fill e p)
unfolding apply_fill
apply_fill-TotalsAgree e p h = elim (Bool-cases (is_buy e.side)) [
  | inl b ↦ rw (b, apply_fill) (apply_buy-TotalsAgree e.fill_qty e.fill_price e.sequence p h)
  | inr b ↦ rw (b, apply_fill) (apply_sell-TotalsAgree e.fill_qty e.fill_price e.sequence p h)
]

-- In every position that a log is replayed to, the totals bought and sold differ by the net
-- quantity, to 32 bits.
pub replay_from-TotalsAgree :
    (log : EventLog) (w : StringView) (p : Position)
    → get (replay_from log) w ≡ some p
    → TotalsAgree p
replay_from-TotalsAgree log w p found =
    replay_from-Everywhere TotalsAgree (λ k. ap wrap32 (omega int_laws)) apply_fill-TotalsAgree log
      w p found
