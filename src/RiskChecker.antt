-- ===== src/RiskChecker.antt =====
-- include/RiskChecker.h: the check before an order is sent. Children: Limits (what passing means,
-- and how the overloads agree), Precedence (which limit a refusal names).
pub mod Limits
pub mod Precedence
use hft_order_book.Base.{
  Bool, true, false, not, ◌&&◌, ◌||◌, Option, none, some, [], ◌∷◌, if◌then◌else◌, ◌*◌,
}
use hft_order_book.Base.Int.{ℤ, pos, ◌+ℤ◌, ◌*ℤ◌, neg, ltb_ℤ}
use hft_order_book.Base.Word.{wrap32, wrap64}
use hft_order_book.Base.Bytes.{Bytes, StringView}
use hft_order_book.OrderEvent.{Side, is_buy, price_scale}
use hft_order_book.OrderManager.{OrderManager, open_exposure}
use hft_order_book.PositionTracker.{Position, PositionTracker}
use hft_order_book.PositionTracker

pub data RiskResult : Type 0 where
  pass fail_max_qty fail_max_notional fail_position_limit fail_max_loss fail_position_cross :
      RiskResult

pub record RiskLimits : Type 0 where
  pub max_order_qty : ℤ
  pub max_order_notional : ℤ
  pub max_net_position : ℤ
  pub max_loss_fp : ℤ
  pub allow_position_cross : Bool

-- The default member initialisers.
abbrev pub default_limits : RiskLimits
default_limits = record {
  max_order_qty = pos 10_000;
  max_order_notional = pos (5_000_000 * price_scale);
  max_net_position = pos 50_000;
  max_loss_fp = pos (100_000 * price_scale);
  allow_position_cross = false;
}

abbrev pub net_or_zero : Option Position → ℤ
net_or_zero none = pos 0
net_or_zero (some p) = p.net_qty

-- `pos && pos->realized_pnl < -limits_.max_loss_fp`
abbrev pub loss_exceeded : RiskLimits → Option Position → Bool
loss_exceeded l none = false
loss_exceeded l (some p) = ltb_ℤ p.realized_pnl (wrap64 (neg l.max_loss_fp))

-- `side == Side::Buy ? qty : -qty`
abbrev pub signed_order_qty : Side → ℤ → ℤ
signed_order_qty side qty = if is_buy side then qty else wrap32 (neg qty)

-- Whether an order would take a position across zero.
abbrev pub crosses : ℤ → ℤ → Bool
crosses before after =
    (ltb_ℤ (pos 0) before && ltb_ℤ after (pos 0)) || (ltb_ℤ before (pos 0) && ltb_ℤ (pos 0) after)

unfoldable pub to_string : RiskResult → Bytes
to_string RiskResult.pass = b'P' ∷ b'A' ∷ b'S' ∷ b'S' ∷ []
to_string RiskResult.fail_max_qty =
    b'F' ∷ b'A' ∷ b'I' ∷ b'L' ∷ b'_' ∷ b'M' ∷ b'A' ∷ b'X' ∷ b'_' ∷ b'Q' ∷ b'T' ∷ b'Y' ∷ []
to_string RiskResult.fail_max_notional =
    b'F' ∷ b'A' ∷ b'I' ∷ b'L' ∷ b'_' ∷ b'M' ∷ b'A' ∷ b'X' ∷ b'_' ∷ b'N' ∷ b'O' ∷ b'T' ∷ b'I' ∷ b'O'
    ∷ b'N' ∷ b'A' ∷ b'L' ∷ []
to_string RiskResult.fail_position_limit =
    b'F' ∷ b'A' ∷ b'I' ∷ b'L' ∷ b'_' ∷ b'P' ∷ b'O' ∷ b'S' ∷ b'I' ∷ b'T' ∷ b'I' ∷ b'O' ∷ b'N' ∷ b'_'
    ∷ b'L' ∷ b'I' ∷ b'M' ∷ b'I' ∷ b'T' ∷ []
to_string RiskResult.fail_max_loss =
    b'F' ∷ b'A' ∷ b'I' ∷ b'L' ∷ b'_' ∷ b'M' ∷ b'A' ∷ b'X' ∷ b'_' ∷ b'L' ∷ b'O' ∷ b'S' ∷ b'S' ∷ []
to_string RiskResult.fail_position_cross =
    b'F' ∷ b'A' ∷ b'I' ∷ b'L' ∷ b'_' ∷ b'P' ∷ b'O' ∷ b'S' ∷ b'I' ∷ b'T' ∷ b'I' ∷ b'O' ∷ b'N' ∷ b'_'
    ∷ b'C' ∷ b'R' ∷ b'O' ∷ b'S' ∷ b'S' ∷ []

-- The overload with both the positions and the open orders.
unfoldable pub check_with_orders :
    RiskLimits → StringView → Side → ℤ → ℤ → PositionTracker → OrderManager → RiskResult
check_with_orders limits sym side qty price_fp tracker orders =
    if ltb_ℤ limits.max_order_qty qty
    then RiskResult.fail_max_qty
    else (if ltb_ℤ limits.max_order_notional (wrap64 (qty *ℤ price_fp))
        then RiskResult.fail_max_notional
        else (let found = PositionTracker.get tracker sym in
            let filled_qty = net_or_zero found in
            let pending_qty = open_exposure orders sym in
            let true_qty = wrap64 (filled_qty +ℤ pending_qty) in
            let projected = wrap64 (true_qty +ℤ signed_order_qty side qty) in
            if ltb_ℤ limits.max_net_position projected
              || ltb_ℤ projected (wrap64 (neg limits.max_net_position))
            then RiskResult.fail_position_limit
            else (if not limits.allow_position_cross && crosses true_qty projected
                then RiskResult.fail_position_cross
                else (if loss_exceeded limits found
                    then RiskResult.fail_max_loss
                    else RiskResult.pass))))

-- The overload with one position, which may be null.
check_found : RiskLimits → Side → ℤ → Option Position → RiskResult
check_found limits side qty none = RiskResult.pass
check_found limits side qty (some p) =
    let projected = wrap64 (p.net_qty +ℤ signed_order_qty side qty) in
    if ltb_ℤ limits.max_net_position projected
      || ltb_ℤ projected (wrap64 (neg limits.max_net_position))
    then RiskResult.fail_position_limit
    else (if not limits.allow_position_cross && crosses p.net_qty projected
        then RiskResult.fail_position_cross
        else (if ltb_ℤ p.realized_pnl (wrap64 (neg limits.max_loss_fp))
            then RiskResult.fail_max_loss
            else RiskResult.pass))

unfoldable pub check_position : RiskLimits → Side → ℤ → ℤ → Option Position → RiskResult
unfolding check_found
check_position limits side qty price_fp found =
    if ltb_ℤ limits.max_order_qty qty
    then RiskResult.fail_max_qty
    else (if ltb_ℤ limits.max_order_notional (wrap64 (qty *ℤ price_fp))
        then RiskResult.fail_max_notional
        else check_found limits side qty found)

-- The overload that looks the position up.
unfoldable pub check_tracker : RiskLimits → StringView → Side → ℤ → ℤ → PositionTracker → RiskResult
unfolding check_position
check_tracker limits sym side qty price_fp tracker =
    check_position limits side qty price_fp (PositionTracker.get tracker sym)

unfoldable pub set_limits : RiskLimits → RiskLimits → RiskLimits
set_limits l old = l
