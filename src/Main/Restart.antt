-- ===== src/Main/Restart.antt =====
-- What the next start of the process finds: at any point of its run the log is replayed to the books
-- that the process has.
use hft_order_book.Base.{ℕ, ◌≡◌, ◌⊎◌, inl, inr, some}
use mathlib.Core.Path.{subst}
use hft_order_book.EventLog.{open_or_create, EventLog, ok}
use hft_order_book.EventLog.Recovery.{IsDurable, open_or_create-IsDurable, existing, reopen}
use hft_order_book.FixGateway.{create}
use hft_order_book.FixGateway.Durable.{Runs-HasDurable}
use hft_order_book.OrderManager.Stamps.{unstamped_orders}
use hft_order_book.PositionTracker.Stamps.{unstamped_positions}
use hft_order_book.MessageTranslator.{Floats}
use hft_order_book.RiskChecker.{default_limits}
use hft_order_book.FixGateway.Recovery.{
  Runs, created, rebuilt, logged_on, logged_out, reported, unstamped-Runs,
}
use hft_order_book.Main.{Process, exited, still_running, Outside, rebuilt_process, main}
use hft_order_book.Main.Everywhere.{ExitHas, main-kept}

module _ (F : Floats) where
  -- The gateway of a process over an opened log is in a run on that log.
  pub main-Runs :
      (outside : Outside F) (rounds : ℕ) (log : EventLog)
      → open_or_create outside.files ≡ ok log
      → ExitHas (λ p. Runs F log default_limits p.gateway) (main F outside rounds)
  unfolding rebuilt_process
  main-Runs outside rounds log opened =
      main-kept F (Runs F log default_limits) (λ id g r. created id r) (λ g r. logged_on r)
        (λ g r. logged_out r) (λ now report g r. reported now report r) outside rounds log opened
        rebuilt

  -- What a process over a log leaves for the next start.
  Recovers : Process → Type 0
  Recovers p =
      (open_or_create (existing p.gateway.log.file) ≡ ok p.gateway.log)
      × (unstamped_orders (rebuilt_process p.gateway.log).gateway.orders
          ≡ unstamped_orders p.gateway.orders)
      × (unstamped_positions (rebuilt_process p.gateway.log).gateway.tracker
          ≡ unstamped_positions p.gateway.tracker)

  recovered :
      (log : EventLog) (p : Process)
      → Runs F log default_limits p.gateway
      → IsDurable log
      → Recovers p
  unfolding rebuilt_process create Recovers
  recovered log p run durable =
      let (orders, positions) = unstamped-Runs F log default_limits p.gateway run in
      (reopen p.gateway.log (Runs-HasDurable F durable run), orders, positions)

  -- Wherever the process is over a log that it has opened, still in its loop after any number of
  -- rounds or returned from `main` with any code, the file that it has then opens again as the same
  -- log, and a start on it rebuilds the tables of orders and of positions, slot by slot, but for the
  -- sequence numbers.
  pub rebuilt_process-main :
      (outside : Outside F) (rounds : ℕ) (log : EventLog) (p : Process)
      → open_or_create outside.files ≡ ok log
      → (main F outside rounds ≡ still_running p)
        ⊎ ((code : ℕ) × (main F outside rounds ≡ exited code (some p)))
      → (open_or_create (existing p.gateway.log.file) ≡ ok p.gateway.log)
        × (unstamped_orders (rebuilt_process p.gateway.log).gateway.orders
            ≡ unstamped_orders p.gateway.orders)
        × (unstamped_positions (rebuilt_process p.gateway.log).gateway.tracker
            ≡ unstamped_positions p.gateway.tracker)
  unfolding Recovers
  rebuilt_process-main outside rounds log p opened (inl at) =
      recovered log p
        (subst (ExitHas (λ q. Runs F log default_limits q.gateway)) at
          (main-Runs outside rounds log opened))
        (open_or_create-IsDurable outside.files log opened)
  rebuilt_process-main outside rounds log p opened (inr (code, at)) =
      recovered log p
        (subst (ExitHas (λ q. Runs F log default_limits q.gateway)) at
          (main-Runs outside rounds log opened))
        (open_or_create-IsDurable outside.files log opened)
