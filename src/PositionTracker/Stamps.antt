-- ===== src/PositionTracker/Stamps.antt =====
-- The positions without their sequence numbers: what an event makes of them does not depend on the
-- stamp that the log gives the event.
use hft_order_book.Base.{ℕ, ◌≡◌, refl, sym, ap, ◌∙◌, inl, inr, Bool-cases}
use mathlib.Core.Path.{fun_ext}
use hft_order_book.Base.Int.{ℤ, pos, leb_ℤ, ltb_ℤ}
use hft_order_book.Base.Bytes.{StringView}
use hft_order_book.OrderEvent.{OrderEvent, is_buy, is_fill, symbol_view}
use hft_order_book.EventLog.Contents.{stamped}
use hft_order_book.SlotTable.{upsert}
use hft_order_book.SlotTable.Images.{image, image-upsert}
use hft_order_book.PositionTracker.{
  Position, PositionTracker, position_name, max_symbols, blank_position, buy_fill, sell_fill,
  refresh_unrealized, apply_buy, apply_sell, apply_fill, apply_event,
}

abbrev pub unstamped : Position → Position
unstamped p = record p { last_updated_seq = pos 0 }

-- The table without sequence numbers.
abbrev pub unstamped_positions : PositionTracker → PositionTracker
unstamped_positions t = image unstamped t

buy_fill-unstamped :
    (q x : ℤ) (p : Position) → buy_fill q x (unstamped p) ≡ unstamped (buy_fill q x p)
unfolding buy_fill
buy_fill-unstamped q x p = elim (Bool-cases (leb_ℤ (pos 0) p.net_qty)) [
  | inl long ↦ rw long
  | inr short ↦ rw short
]

sell_fill-unstamped :
    (q x : ℤ) (p : Position) → sell_fill q x (unstamped p) ≡ unstamped (sell_fill q x p)
unfolding sell_fill
sell_fill-unstamped q x p = elim (Bool-cases (ltb_ℤ (pos 0) p.net_qty)) [
  | inl long ↦ rw long
  | inr short ↦ rw short
]

-- A fill of a position, without the number.
fill_unstamped : OrderEvent → Position → Position
fill_unstamped e p = unstamped (apply_fill e p)

-- What a fill does once the quantities are moved.
abbrev settle : Position → Position
settle p = unstamped (refresh_unrealized p)

unstamped-apply_fill :
    (e : OrderEvent) (p : Position) → unstamped (apply_fill e p) ≡ fill_unstamped e (unstamped p)
unfolding fill_unstamped apply_fill apply_buy apply_sell refresh_unrealized
unstamped-apply_fill e p = elim (Bool-cases (is_buy e.side)) [
  | inl b ↦ rw b (ap settle (sym (buy_fill-unstamped e.fill_qty e.fill_price _)))
  | inr b ↦ rw b (ap settle (sym (sell_fill-unstamped e.fill_qty e.fill_price _)))
]

fill_unstamped-stamped :
    (now seq : ℕ) (e : OrderEvent) (p : Position)
    → fill_unstamped (stamped now seq e) p ≡ fill_unstamped e p
unfolding fill_unstamped apply_fill apply_buy apply_sell
fill_unstamped-stamped now seq e p = elim (Bool-cases (is_buy e.side)) [
  | inl b ↦ rw b
  | inr b ↦ rw b
]

-- Tables that differ in sequence numbers alone still do after an event, also where one of them is
-- given the event with its stamp.
pub apply_event-unstamped :
    (t t' : PositionTracker) (now seq : ℕ) (e : OrderEvent)
    → unstamped_positions t ≡ unstamped_positions t'
    → unstamped_positions (apply_event t e)
      ≡ unstamped_positions (apply_event t' (stamped now seq e))
unfolding apply_event is_fill symbol_view
apply_event-unstamped t t' now seq e h = elim (Bool-cases (is_fill e)) [
  | inl fill ↦
      rw (fill, apply_event)
        (filled t e
          ∙ ap (λ u. upsert position_name max_symbols blank_position (fill_unstamped e) u v) h
          ∙ ap (λ f. upsert position_name max_symbols blank_position f (unstamped_positions t') v)
              (fun_ext (λ p. sym (fill_unstamped-stamped now seq e p)))
          ∙ sym (filled t' (stamped now seq e)))
  | inr other ↦ rw (other, apply_event) h
]
  where
    v : StringView
    v = symbol_view e

    filled :
        (u : PositionTracker) (a : OrderEvent)
        → unstamped_positions (upsert position_name max_symbols blank_position (apply_fill a) u v)
          ≡ upsert position_name max_symbols blank_position
              (fill_unstamped a)
              (unstamped_positions u)
              v
    filled u a =
        image-upsert unstamped position_name (λ p. refl) max_symbols blank_position (apply_fill a)
          (fill_unstamped a) u v (λ k. refl) (unstamped-apply_fill a)
