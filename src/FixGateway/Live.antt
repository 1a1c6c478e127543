-- ===== src/FixGateway/Live.antt =====
-- The books of a running gateway against each other.
use hft_order_book.Base.{ℕ, zero, suc, ◌<◌, ◌≡◌, refl, sym, ap, ◌∙◌, List, [], ◌∷◌, map, take}
use mathlib.Core.Path.{ap₂}
use hft_order_book.Base.Int.{◌+ℤ◌}
use hft_order_book.Base.Word.{wrap32, wrap64}
use hft_order_book.Base.Bytes.{Bytes, StringView}
use hft_order_book.EventLog.{EventLog}
use hft_order_book.EventLog.Contents.{contents}
use hft_order_book.SlotTable.Lookup.{entries}
use hft_order_book.OrderManager.{Order, OrderManager}
use hft_order_book.OrderManager
use hft_order_book.OrderManager.Stamps.{unstamped, unstamped_orders}
use hft_order_book.OrderManager.Sums.{sum_filled, filled_in}
use hft_order_book.OrderManager.Exposure.{sum_exposure, open_exposure-sum}
use hft_order_book.PositionTracker.{max_symbols}
use hft_order_book.PositionTracker
use hft_order_book.PositionTracker.Quantity.{net_of}
use hft_order_book.RiskChecker.{RiskLimits}
use hft_order_book.RiskChecker.Limits.{true_qty}
use hft_order_book.MessageTranslator.{Floats}
use hft_order_book.FixGateway.{Gateway}
use hft_order_book.FixGateway.Recovery.{Runs, unstamped-Runs, net-Runs}
use hft_order_book.FixGateway.Reconcile.{IsHistory, net_or_zero-qty_of, replay_from-IsReconciled}

take-map : (n : ℕ) (f : Order → Order) (os : List Order) → take n (map f os) ≡ map f (take n os)
take-map zero f os = refl
take-map (suc n) f [] = refl
take-map (suc n) f (o ∷ os) = ap (◌∷◌ (f o)) (take-map n f os)

sum_filled-map :
    (s : Bytes) (f : Order → Order) (os : List Order)
    → ((o : Order) → filled_in s (f o) ≡ filled_in s o)
    → sum_filled s (map f os) ≡ sum_filled s os
unfolding sum_filled
sum_filled-map s f [] same = refl
sum_filled-map s f (o ∷ os) same = ap₂ ◌+ℤ◌ (same o) (sum_filled-map s f os same)

-- The sequence numbers do not count.
sum_filled-unstamped :
    (s : Bytes) (m : OrderManager)
    → sum_filled s (entries (unstamped_orders m)) ≡ sum_filled s (entries m)
sum_filled-unstamped s m =
    ap (sum_filled s) (take-map m.count unstamped m.slots)
    ∙ sum_filled-map s unstamped (entries m) (λ o. refl)

-- At any point of a run of a gateway from a rebuild on, if the positions of its log do not fill their
-- table, and if in the log every new order has an unused id and every fill is of an order that is
-- there, of its symbol and side, within the type of its quantity: the gateway's position in every
-- symbol is the sum of what is filled of its own orders, to 64 bits, and the quantity that its risk
-- check starts from is that and the sum over its open orders, to 32 bits.
pub IsReconciled-Runs :
    (F : Floats) (log : EventLog) (limits : RiskLimits) (g : Gateway) (w : StringView)
    → Runs F log limits g
    → IsHistory OrderManager.empty (contents g.log)
    → (PositionTracker.replay_from g.log).count < max_symbols
    → (net_of g.tracker w ≡ wrap64 (sum_filled w.data_bytes (entries g.orders)))
      × (true_qty w g.tracker g.orders
          ≡ wrap64 (sum_filled w.data_bytes (entries g.orders))
            +ℤ wrap32 (sum_exposure w.data_bytes (entries g.orders)))
IsReconciled-Runs F log limits g w run history room =
    let s = w.data_bytes in
    let replayed = (replay_from-IsReconciled g.log w history room).0 in
    let orders : sum_filled s (entries (OrderManager.replay_from g.log))
        ≡ sum_filled s (entries g.orders) =
      sym (sum_filled-unstamped s (OrderManager.replay_from g.log))
      ∙ ap (λ m. sum_filled s (entries m)) (unstamped-Runs F log limits g run).0
      ∙ sum_filled-unstamped s g.orders in
    let same : net_of g.tracker w ≡ wrap64 (sum_filled s (entries g.orders)) =
      sym (net-Runs F log limits g w run) ∙ replayed ∙ ap wrap64 orders in
    (
      same,
      ap₂ ◌+ℤ◌ (net_or_zero-qty_of (PositionTracker.get g.tracker w) ∙ same)
          (open_exposure-sum g.orders w),
    )
