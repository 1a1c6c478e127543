-- ===== src/PositionTracker/Everywhere.antt =====
-- Properties of single positions that new positions have and every event keeps.
use hft_order_book.Base.{
  ◌≡◌, refl, inl, inr, Bool, true, false, ◌&&◌, Option, none, some, some-eq, List, [], ◌∷◌,
  Bool-cases,
}
use mathlib.Core.Path.{subst}
use hft_order_book.Base.Bytes.{Bytes, StringView, strncmp_eq}
use hft_order_book.OrderEvent.{OrderEvent, is_fill}
use hft_order_book.EventLog.{EventLog}
use hft_order_book.EventLog.Contents.{contents}
use hft_order_book.SlotTable.Lookup.{foldl}
use hft_order_book.SlotTable.Upsert.{upsert_entry}
use hft_order_book.PositionTracker.{
  Position, PositionTracker, blank_position, empty, apply_fill, apply_event, get, replay_from,
}
use hft_order_book.PositionTracker.Lookup.{
  IsValid, get-apply_event_position, apply_event-IsValid, empty-IsValid, get-empty,
  replay_from-foldl,
}

pub none_ne : (w : StringView) (p : Position) → get empty w ≡ some p → ⊥
none_ne w p eq = cc (get-empty w)

-- A property that new positions have and fills keep.
module _ (P : Position → Type 0) where
  -- Every position that `get` finds has it.
  abbrev pub Everywhere : PositionTracker → Type 0
  Everywhere t = (w : StringView) (p : Position) → get t w ≡ some p → P p

  module _ (blank : (k : Bytes) → P (blank_position k))
      (fill : (e : OrderEvent) (p : Position) → P p → P (apply_fill e p)) where
    upsert_entry-has :
        (e : OrderEvent) (k : Bytes) (full : Bool) (o : Option Position) (p : Position)
        → ((q : Position) → o ≡ some q → P q)
        → upsert_entry (apply_fill e) (blank_position k) full o ≡ some p
        → P p
    upsert_entry-has e k full (some q) p h eq = subst P (some-eq eq) (fill e q (h q refl))
    upsert_entry-has e k true none p h eq = cc
    upsert_entry-has e k false none p h eq = subst P (some-eq eq) (fill e _ (blank k))

    pub apply_event-Everywhere :
        (t : PositionTracker) (e : OrderEvent)
        → IsValid t
        → Everywhere t
        → Everywhere (apply_event t e)
    apply_event-Everywhere t e v h w p eq =
        elim (Bool-cases (is_fill e && strncmp_eq e.symbol w.data_bytes 8)) [
          | inl mine ↦
              upsert_entry-has e _ _ (get t w) p (h w)
                (rw (get-apply_event_position t e w v, mine) at eq)
          | inr other ↦ h w p (rw (get-apply_event_position t e w v, other) at eq)
        ]

    foldl-apply_event-Everywhere :
        (es : List OrderEvent) (t : PositionTracker)
        → IsValid t
        → Everywhere t
        → Everywhere (foldl apply_event t es)
    foldl-apply_event-Everywhere [] t v h = h
    foldl-apply_event-Everywhere (e ∷ es) t v h =
        foldl-apply_event-Everywhere es (apply_event t e) (apply_event-IsValid t e v)
          (apply_event-Everywhere t e v h)

    pub replay_from-Everywhere : (log : EventLog) → Everywhere (replay_from log)
    replay_from-Everywhere log = rw (replay_from-foldl log) (
        foldl-apply_event-Everywhere (contents log) empty empty-IsValid
          (λ w p eq. absurd (none_ne w p eq)))
