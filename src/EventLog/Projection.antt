-- ===== src/EventLog/Projection.antt =====
-- What OrderManager.h and PositionTracker.h have in common as views of the log: a state that events
-- are applied to, and that a replay builds from nothing.
use hft_order_book.Base.{◌≡◌, ◌∙◌, List, [], ◌∷◌}
use hft_order_book.OrderEvent.{OrderEvent}
use hft_order_book.SlotTable.Lookup.{foldl}
use hft_order_book.EventLog.{EventLog, replay}
use hft_order_book.EventLog.Contents.{contents, replay-contents}

-- The interface: the constructor's state, `apply_event`, and `replay_from`, which is the loop over the
-- log.
pub record Projection {ℓ} (S : Type ℓ) : Type ℓ where
  pub empty : S
  pub apply_event : S → OrderEvent → S
  pub replay_from : EventLog → S
  pub replays : (log : EventLog) → replay_from log ≡ replay apply_event log empty

-- What every step keeps, the fold keeps.
foldl-kept {ℓ κ μ} :
    {A : Type ℓ} {S : Type κ} (fn : S → A → S) (Q : S → Type μ)
    → ((s : S) (x : A) → Q s → Q (fn s x))
    → (xs : List A) (s : S) → Q s
    → Q (foldl fn s xs)
foldl-kept fn Q keeps [] s h = h
foldl-kept fn Q keeps (x ∷ xs) s h = foldl-kept fn Q keeps xs (fn s x) (keeps s x h)

module _ {ℓ} {S : Type ℓ} (P : Projection S) where
  -- Replay is the fold of the events.
  pub replay_from-contents :
      (log : EventLog) → P.replay_from log ≡ foldl P.apply_event P.empty (contents log)
  replay_from-contents log = P.replays log ∙ replay-contents P.apply_event log P.empty

  -- What the constructor's state has and every event keeps, a replayed state has.
  pub replay_from-kept {κ} :
      (Q : S → Type κ)
      → Q P.empty
      → ((s : S) (e : OrderEvent) → Q s → Q (P.apply_event s e))
      → (log : EventLog) → Q (P.replay_from log)
  replay_from-kept Q start keeps log =
      rw (replay_from-contents log) (foldl-kept P.apply_event Q keeps (contents log) P.empty start)
