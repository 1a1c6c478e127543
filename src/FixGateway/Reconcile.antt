-- ===== src/FixGateway/Reconcile.antt =====
-- The two projections of one log against each other: the positions and the filled quantities of the
-- orders, and what the risk check adds up from them.
use hft_order_book.Base.{◌<◌, ◌≡◌, refl, sym, ap, ◌∙◌, Option, none, some, List, [], ◌∷◌, arith}
use mathlib.Core.Path.{ap₂}
use hft_order_book.Base.Int.{◌+ℤ◌}
use hft_order_book.Base.Word.{wrap32, wrap64, wrap64-Fits64, wrap64-+ℤ}
use hft_order_book.Base.Bytes.{StringView}
use hft_order_book.OrderEvent.{OrderEvent, is_fill}
use hft_order_book.EventLog.{EventLog}
use hft_order_book.EventLog.Contents.{contents}
use hft_order_book.SlotTable.Lookup.{entries, foldl}
use hft_order_book.OrderManager.{OrderManager}
use hft_order_book.OrderManager
use hft_order_book.OrderManager.Lifecycle
use hft_order_book.OrderManager.Replay
use hft_order_book.OrderManager.Exposure.{sum_exposure, open_exposure-sum}
use hft_order_book.OrderManager.Sums.{sum_filled, added, Belongs, sum_filled-apply_event}
use hft_order_book.PositionTracker.{Position, PositionTracker, max_symbols}
use hft_order_book.PositionTracker
use hft_order_book.PositionTracker.Lookup
use hft_order_book.PositionTracker.Quantity.{qty_of, net_of, contribution, net-apply_event}
use hft_order_book.RiskChecker.{net_or_zero}
use hft_order_book.RiskChecker.Limits.{true_qty}

-- The position of every symbol is what has been filled of its orders, to 64 bits.
abbrev pub IsReconciled : PositionTracker → OrderManager → Type 0
IsReconciled t m = (w : StringView) → net_of t w ≡ wrap64 (sum_filled w.data_bytes (entries m))

-- Every event belongs to the orders that those before it have made.
abbrev pub IsHistory : OrderManager → List OrderEvent → Type 0
IsHistory m [] = Unit
IsHistory m (e ∷ es) = Belongs e.type m e × IsHistory (OrderManager.apply_event m e) es

contribution-added :
    (w : StringView) (e : OrderEvent) → contribution w e ≡ added e.type w.data_bytes e
unfolding is_fill
contribution-added w e = ground arith

apply_event-IsReconciled :
    (t : PositionTracker) (m : OrderManager) (e : OrderEvent)
    → PositionTracker.Lookup.IsValid t
    → OrderManager.Lifecycle.IsValid m
    → t.count < max_symbols
    → Belongs e.type m e
    → IsReconciled t m
    → IsReconciled (PositionTracker.apply_event t e) (OrderManager.apply_event m e)
apply_event-IsReconciled t m e vt vm room belongs same w =
    net-apply_event t e w vt room (rw (same w) (wrap64-Fits64 _))
    ∙ ap₂ (λ a b. wrap64 (a +ℤ b)) (same w) (contribution-added w e)
    ∙ wrap64-+ℤ (sum_filled w.data_bytes (entries m)) (added e.type w.data_bytes e)
    ∙ ap wrap64 (sym (sum_filled-apply_event w.data_bytes m e vm belongs))

foldl-IsReconciled :
    (es : List OrderEvent) (t : PositionTracker) (m : OrderManager)
    → PositionTracker.Lookup.IsValid t
    → OrderManager.Lifecycle.IsValid m
    → (foldl PositionTracker.apply_event t es).count < max_symbols
    → IsHistory m es
    → IsReconciled t m
    → IsReconciled (foldl PositionTracker.apply_event t es) (foldl OrderManager.apply_event m es)
foldl-IsReconciled [] t m vt vm room history same = same
foldl-IsReconciled (e ∷ es) t m vt vm room (belongs, history) same =
    let t' = PositionTracker.apply_event t e in
    let m' = OrderManager.apply_event m e in
    let room_now : t.count < max_symbols = omega (
      arith,
      PositionTracker.Lookup.count-apply_event t e,
      PositionTracker.Lookup.count-foldl-apply_event es t',
    ) in
    foldl-IsReconciled es t' m' (PositionTracker.Lookup.apply_event-IsValid t e vt)
      (OrderManager.Lifecycle.apply_event-IsValid m e vm) room history
      (apply_event-IsReconciled t m e vt vm room_now belongs same)

empty-IsReconciled : IsReconciled PositionTracker.empty OrderManager.empty
unfolding OrderManager.empty sum_filled wrap64
empty-IsReconciled w = rw (PositionTracker.Lookup.get-empty w) refl

pub net_or_zero-qty_of : (o : Option Position) → net_or_zero o ≡ qty_of o
net_or_zero-qty_of none = refl
net_or_zero-qty_of (some p) = refl

-- In a log whose positions do not fill their table, in which every new order has an unused id and
-- every fill is of an order that is there, of its symbol and side, within the type of its quantity:
-- replay gives every symbol the position that its orders' filled quantities sum to, to 64 bits, and
-- what the risk check starts from is that and the sum over its open orders, to 32 bits.
pub replay_from-IsReconciled :
    (log : EventLog) (w : StringView)
    → IsHistory OrderManager.empty (contents log)
    → (PositionTracker.replay_from log).count < max_symbols
    → let tracker = PositionTracker.replay_from log in
      let orders = OrderManager.replay_from log in
      (net_of tracker w ≡ wrap64 (sum_filled w.data_bytes (entries orders)))
      × (true_qty w tracker orders
          ≡ wrap64 (sum_filled w.data_bytes (entries orders))
            +ℤ wrap32 (sum_exposure w.data_bytes (entries orders)))
replay_from-IsReconciled log w history room =
    let positions = PositionTracker.Lookup.replay_from-foldl log in
    let same : net_of (PositionTracker.replay_from log) w
        ≡ wrap64 (sum_filled w.data_bytes (entries (OrderManager.replay_from log))) =
      rw (positions, OrderManager.Replay.replay_from-foldl log)
        (foldl-IsReconciled (contents log) PositionTracker.empty OrderManager.empty
          PositionTracker.Lookup.empty-IsValid OrderManager.Lifecycle.empty-IsValid
          (rw positions at room) history empty-IsReconciled w) in
    (
      same,
      ap₂ ◌+ℤ◌ (net_or_zero-qty_of (PositionTracker.get (PositionTracker.replay_from log) w) ∙ same)
          (open_exposure-sum (OrderManager.replay_from log) w),
    )
