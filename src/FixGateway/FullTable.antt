-- ===== src/FixGateway/FullTable.antt =====
-- Sending orders while the order table is full.
use hft_order_book.Base.{ℕ, ◌≤◌, ◌≡◌, ap, ◌∙◌, Bool, none, [], ◌∷◌, ◌++◌, length}
use hft_order_book.Base.Int.{ℤ}
use hft_order_book.Base.Bytes.{Bytes, StringView}
use hft_order_book.OrderEvent.{Side}
use hft_order_book.EventLog.Contents.{contents, stamped}
use hft_order_book.OrderManager.{OrderManager, max_orders}
use hft_order_book.OrderManager
use hft_order_book.OrderManager.Exposure.{handle_new_full}
use hft_order_book.RiskChecker.{RiskResult, check_with_orders}
use hft_order_book.MessageTranslator.{Floats, NewOrderSingle}
use hft_order_book.FixGateway.{Gateway, sent, view_of, next_order_id, send_order}
use hft_order_book.FixGateway.Safety.{
  order_event, send_order-WasSent, handle_new_order, get-order_id,
}

-- An order with an unused id that is sent while the order table is full is logged, but the order
-- table and the positions stay as they were, so the risk check passes the same order again.
pub send_order_full :
    (F : Floats) (now : ℕ) (found : Bool) (symbol : StringView) (side : Side) (qty price_fp : ℤ)
    (g : Gateway) (oid : Bytes) (order : NewOrderSingle F) (g' : Gateway)
    → OrderManager.get g.orders (view_of (next_order_id g).0) ≡ none
    → max_orders ≤ g.orders.count
    → send_order F now found symbol side qty price_fp g ≡ (sent oid order, g')
    → (contents g'.log
        ≡ contents g.log
          ++ stamped now (length (contents g.log)) (order_event symbol side qty price_fp g) ∷ [])
      × (g'.orders ≡ g.orders)
      × (g'.tracker ≡ g.tracker)
      × (check_with_orders g'.limits symbol side qty price_fp g'.tracker g'.orders
          ≡ RiskResult.pass)
send_order_full F now found symbol side qty price_fp g oid order g' fresh full h =
    let w = send_order-WasSent F now found symbol side qty price_fp g oid order g' h in
    let same : g'.orders ≡ g.orders =
      w.ordered
      ∙ handle_new_order g.orders symbol side qty price_fp _
      ∙ handle_new_full g.orders (order_event symbol side qty price_fp g)
          (get-order_id g.orders symbol side qty price_fp _ ∙ fresh) full in
    (
      w.logged,
      same,
      w.same_tracker,
      ap (λ l. check_with_orders l symbol side qty price_fp g'.tracker g'.orders) w.same_limits
          ∙ ap (λ t. check_with_orders g.limits symbol side qty price_fp t g'.orders) w.same_tracker
          ∙ ap (check_with_orders g.limits symbol side qty price_fp g.tracker) same
          ∙ w.passed,
    )
