-- ===== src/Examples/Trace.antt =====
-- The theorem on the printed line at a symbol of eight characters.
use hft_order_book.Base.{◌≡◌, [], ◌∷◌, ◌++◌, if◌then◌else◌}
use hft_order_book.Base.Bytes.{Bytes}
use hft_order_book.OrderEvent.{OrderEvent}
use hft_order_book.EventLog.Layout.{padding}
use hft_order_book.FixGateway.Trace.{c_text, has_nul, traced, traced_symbol}
use hft_order_book.Examples.Sample.{ord0, part_fill, whole}

-- "BRK.A.US", whose array has no NUL.
abbrev long_symbol : Bytes
long_symbol = b'B' ∷ b'R' ∷ b'K' ∷ b'.' ∷ b'A' ∷ b'.' ∷ b'U' ∷ b'S' ∷ []

abbrev long_fill : OrderEvent
long_fill = record part_fill { symbol = long_symbol }

traced_symbol_example :
    (traced whole long_fill).symbol
    ≡ c_text long_symbol ++ (if has_nul long_symbol then [] else c_text (ord0 ++ 2 ∷ 1 ∷ padding))
traced_symbol_example = traced_symbol whole long_fill
