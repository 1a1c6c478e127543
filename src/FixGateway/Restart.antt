-- ===== src/FixGateway/Restart.antt =====
-- What a restart does to order ids: the counter starts at 0 again while the replayed orders keep
-- their ids.
use hft_order_book.Base.{ℕ, ◌≡◌, refl, sym, ◌∙◌, Bool, some, [], ◌∷◌}
use hft_order_book.Base.Int.{ℤ}
use hft_order_book.Base.Bytes.{Bytes, StringView, strncmp_eq_refl, strncmp_eq-strncpy}
use hft_order_book.OrderEvent.{Side, make_new_order}
use hft_order_book.EventLog.{EventLog}
use hft_order_book.OrderManager.{Order, OrderManager, max_orders, opened}
use hft_order_book.OrderManager
use hft_order_book.OrderManager.Lifecycle.{IsValid, get-apply_event}
use hft_order_book.OrderManager.Replay.{replay_from-IsValid}
use hft_order_book.PositionTracker
use hft_order_book.RiskChecker.{RiskLimits}
use hft_order_book.MessageTranslator.{Floats, NewOrderSingle}
use hft_order_book.FixGateway.{Gateway, sent, view_of, next_order_id, send_order, create, on_logon}
use hft_order_book.FixGateway.Safety.{send_order-WasSent}

-- The gateway that `main` builds from a log, once the session is up.
abbrev pub restarted : EventLog → RiskLimits → Gateway
restarted log limits =
    on_logon (create log (PositionTracker.replay_from log) (OrderManager.replay_from log) limits)

-- "ORD0"
abbrev pub first_id : Bytes
first_id = b'O' ∷ b'R' ∷ b'D' ∷ b'0' ∷ []

new_order_get :
    (m : OrderManager) (sym : StringView) (side : Side) (qty price_fp : ℤ) (oid : StringView)
    (o : Order)
    → IsValid m
    → OrderManager.get m oid ≡ some o
    → let e = make_new_order sym side qty price_fp oid in
      OrderManager.get (OrderManager.apply_event m e) oid ≡ some (opened e o)
unfolding make_new_order
new_order_get m sym side qty price_fp oid o v h =
    get-apply_event m (make_new_order sym side qty price_fp oid) oid v
    ∙ rw (strncmp_eq-strncpy oid.data_bytes oid.data_bytes 8, strncmp_eq_refl oid.data_bytes 8, h)

module _ (F : Floats) (now : ℕ) (found : Bool) (symbol : StringView) (side : Side)
    (qty price_fp : ℤ) (log : EventLog) (limits : RiskLimits) where
  first_id_again : (next_order_id (restarted log limits)).0 ≡ first_id
  unfolding next_order_id create on_logon
  first_id_again = refl

  same_orders : (restarted log limits).orders ≡ OrderManager.replay_from log
  unfolding create on_logon
  same_orders = refl

  -- If the replayed log holds an order ORD0, the first order that is sent after the restart has that
  -- id too, and under that id the old order is found overwritten by the new one.
  pub restart_overwrites :
      (oid : Bytes) (order : NewOrderSingle F) (g' : Gateway) (o : Order)
      → OrderManager.get (OrderManager.replay_from log) (view_of first_id) ≡ some o
      → send_order F now found symbol side qty price_fp (restarted log limits)
        ≡ (sent oid order, g')
      → (oid ≡ first_id)
        × (OrderManager.get g'.orders (view_of first_id)
            ≡ some (opened (make_new_order symbol side qty price_fp (view_of first_id)) o))
  restart_overwrites oid order g' o known h =
      let w =
        send_order-WasSent F now found symbol side qty price_fp (restarted log limits) oid order g'
          h in
      (
        w.id ∙ first_id_again,
        rw (w.ordered, first_id_again, same_orders)
            (new_order_get (OrderManager.replay_from log) symbol side qty price_fp
              (view_of first_id) o (replay_from-IsValid log) known),
      )
