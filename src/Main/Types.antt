-- ===== src/Main/Types.antt =====
-- The books of the process stay within the types of their fields.
use hft_order_book.Base.{ℕ, ◌≡◌, ◌⊎◌, inl, inr, some, All}
use hft_order_book.Base.Word.{Fits32, Fits64}
use mathlib.Core.Path.{subst}
use hft_order_book.OrderEvent.Types.{IsEvent}
use hft_order_book.EventLog.{open_or_create, EventLog, ok}
use hft_order_book.EventLog.Contents.{contents}
use hft_order_book.MessageTranslator.{Floats}
use hft_order_book.RiskChecker.{default_limits}
use hft_order_book.FixGateway.Effects.{on_create-Untouched, on_logon-Untouched, on_logout-Untouched}
use hft_order_book.FixGateway.Types.{IsTyped, Untouched-IsTyped, create-IsTyped, on_message-IsTyped}
use hft_order_book.Main.{Process, exited, still_running, Outside, rebuilt_process, main}
use hft_order_book.Main.Everywhere.{ExitHas, main-kept}

module _ (F : Floats) (in_int32 : (x : F.Double) → Fits32 (F.to_int32 x))
    (in_int64 : (x : F.Double) → Fits64 (F.to_int64 x)) where
  main-kept-IsTyped :
      (outside : Outside F) (rounds : ℕ) (log : EventLog)
      → open_or_create outside.files ≡ ok log
      → All IsEvent (contents log)
      → ExitHas (λ p. IsTyped p.gateway) (main F outside rounds)
  unfolding rebuilt_process
  main-kept-IsTyped outside rounds log opened events =
      main-kept F IsTyped (λ id g h. Untouched-IsTyped (on_create-Untouched id g) h)
        (λ g h. Untouched-IsTyped (on_logon-Untouched g) h)
        (λ g h. Untouched-IsTyped (on_logout-Untouched g) h)
        (λ now report g h. on_message-IsTyped F in_int32 in_int64 now report g h) outside rounds log
        opened (create-IsTyped log default_limits events)

  -- If the conversions from double give values of their types, and the events of the opened log are
  -- within the types of their fields, then so is every field of every order and position, in valid
  -- tables, wherever the process is: in its loop after any number of rounds, or returned from `main`.
  pub main-IsTyped :
      (outside : Outside F) (rounds : ℕ) (log : EventLog) (p : Process)
      → open_or_create outside.files ≡ ok log
      → All IsEvent (contents log)
      → (main F outside rounds ≡ still_running p)
        ⊎ ((code : ℕ) × (main F outside rounds ≡ exited code (some p)))
      → IsTyped p.gateway
  main-IsTyped outside rounds log p opened events (inl at) =
      subst (ExitHas (λ q. IsTyped q.gateway)) at
        (main-kept-IsTyped outside rounds log opened events)
  main-IsTyped outside rounds log p opened events (inr (code, at)) =
      subst (ExitHas (λ q. IsTyped q.gateway)) at
        (main-kept-IsTyped outside rounds log opened events)
