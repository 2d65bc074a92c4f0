-- ===== src/ProtocolMath/Pure.antt =====
-- packages/protocol-math/src/pure.ts, function by function.
pub mod Pnl
pub mod Rates
pub mod Indices
pub mod Triggers
use stellars_finance_contrac.Base.{Bool, true, false, ◌||◌, if◌then◌else◌}
use stellars_finance_contrac.Base.Int.{ℤ, pos, ◌+ℤ◌, ◌-ℤ◌, ◌*ℤ◌, neg, ltb_ℤ, leb_ℤ, eqb_ℤ}
use stellars_finance_contrac.Base.Quot.{◌/ℤ◌}
use stellars_finance_contrac.ProtocolMath.Constants.{bps, index_precision, seconds_per_year}

unfoldable pub calc_unrealized_pnl : ℤ → ℤ → ℤ → Bool → ℤ
calc_unrealized_pnl size entry_price mark_price is_long =
    if eqb_ℤ entry_price (pos 0) || eqb_ℤ size (pos 0)
    then pos 0
    else (size
        *ℤ (if is_long then mark_price -ℤ entry_price else entry_price -ℤ mark_price)
        /ℤ entry_price)

unfoldable pub calc_borrow_fee : ℤ → ℤ → ℤ → ℤ
calc_borrow_fee size entry_borrow_index current_borrow_index =
    (current_borrow_index -ℤ entry_borrow_index) *ℤ size /ℤ index_precision

unfoldable pub calc_funding_fee : ℤ → ℤ → ℤ → Bool → ℤ
calc_funding_fee size entry_funding_index current_funding_index is_long =
    let delta = current_funding_index -ℤ entry_funding_index in
    if is_long then neg (delta *ℤ size /ℤ index_precision) else delta *ℤ size /ℤ index_precision

unfoldable pub calc_health : ℤ → ℤ → ℤ → ℤ → ℤ
calc_health collateral unrealized_pnl borrow_fee funding_fee =
    collateral +ℤ unrealized_pnl -ℤ borrow_fee +ℤ funding_fee

unfoldable pub calc_utilization_bps : ℤ → ℤ → ℤ
calc_utilization_bps reserved total_assets =
    if leb_ℤ total_assets (pos 0) then pos 0 else reserved *ℤ bps /ℤ total_assets

unfoldable pub calc_borrow_rate : ℤ → ℤ → ℤ → ℤ → ℤ → ℤ
calc_borrow_rate utilization_bps base_borrow_rate slope1 slope2 optimal_util =
    if leb_ℤ utilization_bps optimal_util
    then base_borrow_rate +ℤ utilization_bps *ℤ slope1 /ℤ bps
    else (base_borrow_rate
        +ℤ optimal_util *ℤ slope1 /ℤ bps
        +ℤ (utilization_bps -ℤ optimal_util) *ℤ slope2 /ℤ bps)

unfoldable pub calc_funding_rate : ℤ → ℤ → ℤ → ℤ
calc_funding_rate long_oi short_oi base_funding_rate =
    let total = long_oi +ℤ short_oi in
    if eqb_ℤ total (pos 0) then pos 0 else (long_oi -ℤ short_oi) *ℤ base_funding_rate /ℤ total

unfoldable pub accumulate_borrow_index : ℤ → ℤ → ℤ → ℤ
accumulate_borrow_index current_index rate_bps time_delta =
    current_index +ℤ rate_bps *ℤ index_precision *ℤ time_delta /ℤ (bps *ℤ seconds_per_year)

unfoldable pub accumulate_funding_index : ℤ → ℤ → ℤ → ℤ
accumulate_funding_index current_index rate_bps time_delta =
    current_index +ℤ rate_bps *ℤ index_precision *ℤ time_delta /ℤ (bps *ℤ seconds_per_year)

unfoldable pub is_tp_triggered : ℤ → ℤ → Bool → Bool
is_tp_triggered take_profit mark_price is_long =
    if leb_ℤ take_profit (pos 0)
    then false
    else (if is_long then leb_ℤ take_profit mark_price else leb_ℤ mark_price take_profit)

unfoldable pub is_sl_triggered : ℤ → ℤ → Bool → Bool
is_sl_triggered stop_loss mark_price is_long =
    if leb_ℤ stop_loss (pos 0)
    then false
    else (if is_long then leb_ℤ mark_price stop_loss else leb_ℤ stop_loss mark_price)
