-- ===== src/PositionTracker/Views.antt =====
-- What include/PositionTracker.h gives for printing: the view, and the fields as doubles.
use hft_order_book.Base.Bytes.{StringView, strnlen}
use hft_order_book.PositionTracker.{Position}
use hft_order_book.MessageTranslator.{Floats, from_fixed}

unfoldable pub symbol_view : Position → StringView
unfolding strnlen
symbol_view p = record { data_bytes = p.symbol; size = strnlen p.symbol 8 }

module _ (F : Floats) where
  unfoldable pub net_qty_d : Position → F.Double
  net_qty_d p = F.of_int p.net_qty

  unfoldable pub avg_entry_price_d : Position → F.Double
  unfolding from_fixed
  avg_entry_price_d p = from_fixed F p.avg_entry_price

  unfoldable pub realized_pnl_d : Position → F.Double
  unfolding from_fixed
  realized_pnl_d p = from_fixed F p.realized_pnl

  unfoldable pub unrealized_pnl_d : Position → F.Double
  unfolding from_fixed
  unrealized_pnl_d p = from_fixed F p.unrealized_pnl

  unfoldable pub total_pnl_d : Position → F.Double
  unfolding realized_pnl_d unrealized_pnl_d
  total_pnl_d p = F.add (realized_pnl_d p) (unrealized_pnl_d p)
