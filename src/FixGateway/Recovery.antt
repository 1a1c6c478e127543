-- ===== src/FixGateway/Recovery.antt =====
-- What a restart recovers: the books of a running gateway are those that its log is replayed to,
-- but for the sequence numbers, as the trackers are given events without the log's stamp.
use hft_order_book.Base.{
  ℕ, suc, ◌≡◌, refl, sym, ap, ◌∙◌, inl, inr, Bool, Option, none, some, List, [], ◌∷◌, ◌++◌,
}
use mathlib.Core.Option
use hft_order_book.Base.Int.{ℤ}
use hft_order_book.Base.Bytes.{Bytes, StringView}
use hft_order_book.OrderEvent.{Side, OrderEvent}
use hft_order_book.EventLog.{EventLog}
use hft_order_book.EventLog.Contents.{contents, stamped}
use hft_order_book.SlotTable.Lookup.{foldl}
use hft_order_book.SlotTable.Images.{get-image}
use hft_order_book.OrderManager
use hft_order_book.PositionTracker.{Position, PositionTracker, position_name}
use hft_order_book.PositionTracker
use hft_order_book.PositionTracker.Quantity.{net_of, qty_of}
use hft_order_book.RiskChecker.{RiskLimits}
use hft_order_book.MessageTranslator.{Floats, ExecutionReport}
use hft_order_book.FixGateway.{
  Gateway, send_order, on_message, on_create, on_logon, on_logout, create,
}
use hft_order_book.FixGateway.Effects.{
  Untouched, Booked, on_message_effect, send_order_effect, on_create-Untouched, on_logon-Untouched,
  on_logout-Untouched,
}

-- The gateways that a program runs through, from the rebuild on: reports come in, orders are sent,
-- and the session is made, opens and closes.
pub data Runs (F : Floats) (log : EventLog) (limits : RiskLimits) : Gateway → Type 0 where
  rebuilt :
      Runs F log limits
        (create log (PositionTracker.replay_from log) (OrderManager.replay_from log) limits)
  created : {g : Gateway} (id : Bytes) → Runs F log limits g → Runs F log limits (on_create id g)
  logged_on : {g : Gateway} → Runs F log limits g → Runs F log limits (on_logon g)
  logged_out : {g : Gateway} → Runs F log limits g → Runs F log limits (on_logout g)
  reported :
      {g : Gateway} (now : ℕ) (report : ExecutionReport F)
      → Runs F log limits g
      → Runs F log limits (on_message F now report g).1
  ordered :
      {g : Gateway} (now : ℕ) (found : Bool) (symbol : StringView) (side : Side) (qty price : ℤ)
      → Runs F log limits g
      → Runs F log limits (send_order F now found symbol side qty price g).1

-- How many times `send_order` was called.
abbrev pub sent_count :
    {F : Floats} {log : EventLog} {limits : RiskLimits} {g : Gateway} → Runs F log limits g → ℕ
sent_count rebuilt = 0
sent_count (created id r) = sent_count r
sent_count (logged_on r) = sent_count r
sent_count (logged_out r) = sent_count r
sent_count (reported now report r) = sent_count r
sent_count (ordered now found symbol side qty price r) = suc (sent_count r)

foldl-append {ℓ κ} :
    {A : Type ℓ} {S : Type κ} (fn : S → A → S) (s : S) (xs : List A) (x : A)
    → foldl fn s (xs ++ x ∷ []) ≡ fn (foldl fn s xs) x
foldl-append fn s [] x = refl
foldl-append fn s (y ∷ xs) x = foldl-append fn (fn s y) xs x

-- The books are those of the log, but for the sequence numbers.
record InSync (g : Gateway) : Type 0 where
  orders :
      OrderManager.Stamps.unstamped_orders g.orders
      ≡ OrderManager.Stamps.unstamped_orders
          (foldl OrderManager.apply_event OrderManager.empty (contents g.log))
  positions :
      PositionTracker.Stamps.unstamped_positions g.tracker
      ≡ PositionTracker.Stamps.unstamped_positions
          (foldl PositionTracker.apply_event PositionTracker.empty (contents g.log))

Untouched-InSync : {n : ℕ} {g g' : Gateway} → Untouched n g g' → InSync g → InSync g'
Untouched-InSync u s = record {
  orders = rw (u.same_orders, u.same_log) s.orders;
  positions = rw (u.same_tracker, u.same_log) s.positions;
}

Booked-InSync : {g g' : Gateway} (e : OrderEvent) → Booked e g g' → InSync g → InSync g'
Booked-InSync {g} e b s = record {
  orders =
      rw
        (
          b.ordered,
          b.grown,
          foldl-append OrderManager.apply_event OrderManager.empty (contents g.log)
              (stamped b.now b.seq e),
        )
        (OrderManager.Stamps.apply_event-unstamped g.orders _ b.now b.seq e s.orders);
  positions =
      rw
        (
          b.applied,
          b.grown,
          foldl-append PositionTracker.apply_event PositionTracker.empty (contents g.log)
              (stamped b.now b.seq e),
        )
        (PositionTracker.Stamps.apply_event-unstamped g.tracker _ b.now b.seq e s.positions);
}

rebuilt-InSync :
    (log : EventLog) (limits : RiskLimits)
    → InSync (create log (PositionTracker.replay_from log) (OrderManager.replay_from log) limits)
unfolding create
rebuilt-InSync log limits = record {
  orders = ap OrderManager.Stamps.unstamped_orders (OrderManager.Replay.replay_from-foldl log);
  positions =
      ap PositionTracker.Stamps.unstamped_positions (PositionTracker.Lookup.replay_from-foldl log);
}

net_of_unstamped :
    (t : PositionTracker) (w : StringView)
    → net_of (PositionTracker.Stamps.unstamped_positions t) w ≡ net_of t w
unfolding PositionTracker.get
net_of_unstamped t w =
    ap qty_of (get-image PositionTracker.Stamps.unstamped position_name (λ p. refl) t w)
    ∙ qty_of_unstamped (PositionTracker.get t w)
  where
    qty_of_unstamped :
        (o : Option Position) → qty_of (Option.map PositionTracker.Stamps.unstamped o) ≡ qty_of o
    qty_of_unstamped none = refl
    qty_of_unstamped (some p) = refl

module _ (F : Floats) (log : EventLog) (limits : RiskLimits) where
  Runs-InSync : {g : Gateway} → Runs F log limits g → InSync g
  Runs-InSync rebuilt = rebuilt-InSync log limits
  Runs-InSync (created {g} id r) = Untouched-InSync (on_create-Untouched id g) (Runs-InSync r)
  Runs-InSync (logged_on {g} r) = Untouched-InSync (on_logon-Untouched g) (Runs-InSync r)
  Runs-InSync (logged_out {g} r) = Untouched-InSync (on_logout-Untouched g) (Runs-InSync r)
  Runs-InSync (ordered {g} now found symbol side qty price r) =
      elim (send_order_effect F now found symbol side qty price g) [
        | inl (inl kept) ↦ Untouched-InSync kept (Runs-InSync r)
        | inl (inr kept) ↦ Untouched-InSync kept (Runs-InSync r)
        | inr (booked, counted) ↦ Booked-InSync _ booked (Runs-InSync r)
      ]
  Runs-InSync (reported {g} now report r) = elim (on_message_effect F now report g) [
    | inl kept ↦ Untouched-InSync kept (Runs-InSync r)
    | inr (e, report) ↦ Booked-InSync e report.0 (Runs-InSync r)
  ]

  -- At any point of a run from a rebuild on (reports, orders, logons and logouts, in any order), the
  -- log is replayed to the gateway's own tables of orders and of positions, slot by slot, but for the
  -- sequence numbers in them: a restart recovers the books.
  pub unstamped-Runs :
      (g : Gateway)
      → Runs F log limits g
      → (OrderManager.Stamps.unstamped_orders (OrderManager.replay_from g.log)
          ≡ OrderManager.Stamps.unstamped_orders g.orders)
        × (PositionTracker.Stamps.unstamped_positions (PositionTracker.replay_from g.log)
            ≡ PositionTracker.Stamps.unstamped_positions g.tracker)
  unstamped-Runs g r = (
    ap OrderManager.Stamps.unstamped_orders (OrderManager.Replay.replay_from-foldl g.log)
        ∙ sym (Runs-InSync r).orders,
    ap PositionTracker.Stamps.unstamped_positions (PositionTracker.Lookup.replay_from-foldl g.log)
        ∙ sym (Runs-InSync r).positions,
  )

  -- So the log is replayed to the net quantities that the gateway has.
  pub net-Runs :
      (g : Gateway) (w : StringView)
      → Runs F log limits g
      → net_of (PositionTracker.replay_from g.log) w ≡ net_of g.tracker w
  net-Runs g w r =
      sym (net_of_unstamped (PositionTracker.replay_from g.log) w)
      ∙ ap (λ t. net_of t w) (unstamped-Runs g r).1
      ∙ net_of_unstamped g.tracker w
