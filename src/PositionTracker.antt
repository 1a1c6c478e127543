-- ===== src/PositionTracker.antt =====
-- include/PositionTracker.h: the position in every symbol. Children: Lookup (what an
-- event does to one position), Everywhere (properties of all positions), Quantity (sums of fills),
-- Marks (the unrealised gain), Equity and EquitySell (profit and loss), Stamps
-- (positions without sequence numbers), Types (the ranges of the fields), Views (what is
-- there for printing).
pub mod Lookup
pub mod Everywhere
pub mod Quantity
pub mod Marks
pub mod Equity
pub mod EquitySell
pub mod Stamps
pub mod Views
pub mod Types
use hft_order_book.Base.{
  ℕ, ◌%◌, ◌^◌, Bool, true, false, not, ◌&&◌, Option, none, some, List, [], if◌then◌else◌,
}
use hft_order_book.Base.Int.{ℤ, pos, ◌+ℤ◌, ◌-ℤ◌, ◌*ℤ◌, ◌/ℤ◌, neg, ltb_ℤ, leb_ℤ, eqb_ℤ}
use hft_order_book.Base.Word.{wrap32, wrap64, signed64}
use hft_order_book.Base.Bytes.{Bytes, StringView, strncpy}
use hft_order_book.OrderEvent.{is_buy, OrderEvent, symbol_view, is_fill}
use hft_order_book.EventLog.{EventLog, replay}
use hft_order_book.SlotTable.{Table, update_at, upsert, clear}
use hft_order_book.SlotTable

pub record Position : Type 0 where
  pub symbol : Bytes
  pub net_qty : ℤ
  pub avg_entry_price : ℤ
  pub realized_pnl : ℤ
  pub unrealized_pnl : ℤ
  pub total_buy_qty : ℤ
  pub total_sell_qty : ℤ
  pub last_price : ℤ
  pub last_updated_seq : ℤ

unfoldable pub is_flat : Position → Bool
is_flat p = eqb_ℤ p.net_qty (pos 0)

abbrev pub max_symbols : ℕ
max_symbols = 1024

abbrev pub PositionTracker : Type 0
PositionTracker = Table Position

abbrev pub position_name : Position → Bytes
position_name p = p.symbol

-- A slot of zero bytes, with the name written.
abbrev pub blank_position : Bytes → Position
blank_position k = record {
  symbol = k;
  net_qty = pos 0;
  avg_entry_price = pos 0;
  realized_pnl = pos 0;
  unrealized_pnl = pos 0;
  total_buy_qty = pos 0;
  total_sell_qty = pos 0;
  last_price = pos 0;
  last_updated_seq = pos 0;
}

-- The constructor, and the state that `replay_from` starts from.
unfoldable pub empty : PositionTracker
unfolding clear
empty = clear max_symbols (blank_position (strncpy [] 8))

-- `(last_price - avg_entry_price) * net_qty`
abbrev pub marked_value : ℤ → Position → ℤ
marked_value price p = wrap64 (wrap64 (price -ℤ p.avg_entry_price) *ℤ p.net_qty)

unfoldable pub refresh_unrealized : Position → Position
refresh_unrealized p = record p {
  unrealized_pnl =
      if ltb_ℤ (pos 0) p.last_price && not (eqb_ℤ p.net_qty (pos 0))
      then marked_value p.last_price p
      else pos 0;
}

-- What `apply_buy` does to quantity, price and realised gain: it adds to a long or flat position,
-- or covers a short one.
unfoldable pub buy_fill : ℤ → ℤ → Position → Position
buy_fill qty price p =
    if leb_ℤ (pos 0) p.net_qty
    then (let new_qty = wrap64 (p.net_qty +ℤ qty) in
        let new_cost = wrap64 (wrap64 (p.avg_entry_price *ℤ p.net_qty) +ℤ wrap64 (price *ℤ qty)) in
        record p {
          avg_entry_price = if ltb_ℤ (pos 0) new_qty then new_cost /ℤ new_qty else pos 0;
          net_qty = new_qty;
        })
    else (let short_qty = wrap64 (neg p.net_qty) in
        let cover = if leb_ℤ qty short_qty then qty else short_qty in
        let new_qty = wrap64 (p.net_qty +ℤ qty) in
        record p {
          realized_pnl =
              wrap64 (p.realized_pnl +ℤ wrap64 (wrap64 (p.avg_entry_price -ℤ price) *ℤ cover));
          net_qty = new_qty;
          avg_entry_price =
              if ltb_ℤ (pos 0) new_qty
              then price
              else (if eqb_ℤ new_qty (pos 0) then pos 0 else p.avg_entry_price);
        })

unfoldable pub sell_fill : ℤ → ℤ → Position → Position
sell_fill qty price p =
    if ltb_ℤ (pos 0) p.net_qty
    then (let close = if leb_ℤ qty p.net_qty then qty else p.net_qty in
        let new_qty = wrap64 (p.net_qty -ℤ qty) in
        record p {
          realized_pnl =
              wrap64 (p.realized_pnl +ℤ wrap64 (wrap64 (price -ℤ p.avg_entry_price) *ℤ close));
          net_qty = new_qty;
          avg_entry_price =
              if ltb_ℤ new_qty (pos 0)
              then price
              else (if eqb_ℤ new_qty (pos 0) then pos 0 else p.avg_entry_price);
        })
    else (let short_qty = wrap64 (neg p.net_qty) in
        let new_qty = wrap64 (short_qty +ℤ qty) in
        let new_cost = wrap64 (wrap64 (p.avg_entry_price *ℤ short_qty) +ℤ wrap64 (price *ℤ qty)) in
        record p {
          avg_entry_price = if ltb_ℤ (pos 0) new_qty then new_cost /ℤ new_qty else pos 0;
          net_qty = wrap64 (p.net_qty -ℤ qty);
        })

unfoldable pub apply_buy : ℤ → ℤ → ℕ → Position → Position
unfolding buy_fill refresh_unrealized
apply_buy qty price seq p =
    let counted : Position = record p { total_buy_qty = wrap32 (p.total_buy_qty +ℤ qty) } in
    record (refresh_unrealized (buy_fill qty price counted)) {
      last_updated_seq = signed64 (seq % 2 ^ 64);
    }

unfoldable pub apply_sell : ℤ → ℤ → ℕ → Position → Position
unfolding sell_fill refresh_unrealized
apply_sell qty price seq p =
    let counted : Position = record p { total_sell_qty = wrap32 (p.total_sell_qty +ℤ qty) } in
    record (refresh_unrealized (sell_fill qty price counted)) {
      last_updated_seq = signed64 (seq % 2 ^ 64);
    }

unfoldable pub apply_fill : OrderEvent → Position → Position
unfolding apply_buy apply_sell
apply_fill e p =
    if is_buy e.side
    then apply_buy e.fill_qty e.fill_price e.sequence p
    else apply_sell e.fill_qty e.fill_price e.sequence p

unfoldable pub apply_event : PositionTracker → OrderEvent → PositionTracker
unfolding apply_fill is_fill update_at SlotTable.get_or_create symbol_view
apply_event t e =
    if is_fill e
    then upsert position_name max_symbols blank_position (apply_fill e) t (symbol_view e)
    else t

unfoldable pub find : PositionTracker → StringView → Option ℕ
unfolding SlotTable.find
find t sym = SlotTable.find position_name t sym

unfoldable pub get : PositionTracker → StringView → Option Position
unfolding SlotTable.get
get t sym = SlotTable.get position_name t sym

unfoldable pub get_or_create : PositionTracker → StringView → Option ℕ × PositionTracker
unfolding SlotTable.get_or_create
get_or_create t sym = SlotTable.get_or_create position_name max_symbols blank_position t sym

unfoldable pub for_each {ℓ} : {S : Type ℓ} → (S → Position → S) → PositionTracker → S → S
unfolding SlotTable.for_each
for_each fn t s = SlotTable.for_each fn t s

-- The writes of `mark_to_market` through the position's pointer.
unfoldable pub marked_at : ℤ → Position → Position
unfolding is_flat
marked_at price p =
    if is_flat p then p else record p { last_price = price; unrealized_pnl = marked_value price p }

unfoldable pub mark_to_market : StringView → ℤ → PositionTracker → PositionTracker
unfolding find marked_at update_at
mark_to_market sym mkt_price_fp t = update_at (marked_at mkt_price_fp) (find t sym) t

unfoldable pub replay_from : EventLog → PositionTracker
unfolding empty apply_event replay
replay_from log = replay apply_event log empty

unfoldable pub symbol_count : PositionTracker → ℕ
symbol_count t = t.count
