-- ===== src/ProtocolMath/Tick.antt =====
-- packages/protocol-math/src/tick.ts: `MarketTick`, its projection to `now` and the evaluation of a
-- position against it.
pub mod Funding
pub mod Projection
use stellars_finance_contrac.Base.{Bool, Option, none, some, if◌then◌else◌}
use stellars_finance_contrac.Base.Int.{ℤ, pos, ◌+ℤ◌, ◌-ℤ◌, ◌*ℤ◌, neg, ltb_ℤ, leb_ℤ}
use stellars_finance_contrac.Base.Quot.{◌/ℤ◌}
use stellars_finance_contrac.ProtocolMath.Constants.{bps}
use stellars_finance_contrac.ProtocolMath.Types.{
  MarketState, PositionState, PositionEvaluation, ProjectInput, Slice,
}
use stellars_finance_contrac.ProtocolMath.Pure
use stellars_finance_contrac.ProtocolMath.Pure.{
  calc_unrealized_pnl, calc_borrow_fee, calc_funding_fee, calc_health, calc_utilization_bps,
  calc_borrow_rate, calc_funding_rate, accumulate_borrow_index, accumulate_funding_index,
}

pub record MarketTick : Type 0 where
  pub market : MarketState
  pub mark_price : ℤ

-- `effective_start`, and the seconds since then.
unfoldable pub effective_start : ProjectInput → ℤ
effective_start i =
    if ltb_ℤ i.last_unpause_time i.market.last_index_update
    then i.market.last_index_update
    else i.last_unpause_time

unfoldable pub time_delta : ProjectInput → ℤ
time_delta i = if ltb_ℤ (effective_start i) i.now then i.now -ℤ effective_start i else pos 0

unfoldable pub projected_borrow_rate : ProjectInput → ℤ
projected_borrow_rate i =
    calc_borrow_rate (calc_utilization_bps i.vault.reserved_usdc i.vault.total_assets)
      i.rate_config.base_borrow_rate_bps i.rate_config.slope1_bps i.rate_config.slope2_bps
      i.rate_config.optimal_utilization_bps

unfoldable pub projected_funding_rate : ProjectInput → ℤ
projected_funding_rate i =
    calc_funding_rate i.market.long_open_interest i.market.short_open_interest
      i.rate_config.base_funding_rate_bps

unfoldable pub project : ProjectInput → MarketTick
project i =
    let advances = ltb_ℤ (pos 0) (time_delta i) in
    record {
      market = record (i.market) {
        acc_borrow_index =
            if advances
            then accumulate_borrow_index i.market.acc_borrow_index (projected_borrow_rate i)
                (time_delta i)
            else i.market.acc_borrow_index;
        acc_funding_index =
            if advances
            then accumulate_funding_index i.market.acc_funding_index (projected_funding_rate i)
                (time_delta i)
            else i.market.acc_funding_index;
        last_index_update = i.now;
      };
      mark_price = i.mark_price;
    }

unfoldable pub payer_oi : MarketState → Bool → ℤ
payer_oi m is_long = if is_long then m.short_open_interest else m.long_open_interest

unfoldable pub receiver_oi : MarketState → Bool → ℤ
receiver_oi m is_long = if is_long then m.long_open_interest else m.short_open_interest

-- The cap on what a receiver is paid, from the two open interests.
unfoldable pub zero_sum_funding : ℤ → ℤ → ℤ → ℤ
zero_sum_funding funding_fee payer receiver =
    if ltb_ℤ (pos 0) funding_fee
    then (if leb_ℤ receiver (pos 0)
        then pos 0
        else (if ltb_ℤ payer receiver then funding_fee *ℤ payer /ℤ receiver else funding_fee))
    else funding_fee

unfoldable pub funding_protocol_cut : ℤ → ℤ → ℤ
funding_protocol_cut zero_sum funding_cut_bps =
    if ltb_ℤ (pos 0) zero_sum then zero_sum *ℤ funding_cut_bps /ℤ bps else pos 0

-- `slice?.size ?? pos.size` and `slice?.collateral ?? pos.collateral`.
unfoldable pub sliced_size : PositionState → Option Slice → ℤ
sliced_size p none = p.size
sliced_size p (some s) = s.size

unfoldable pub sliced_collateral : PositionState → Option Slice → ℤ
sliced_collateral p none = p.collateral
sliced_collateral p (some s) = s.collateral

unfoldable pub evaluate : MarketTick → PositionState → Option Slice → ℤ → PositionEvaluation
evaluate t p slice funding_cut_bps =
    let size = sliced_size p slice in
    let collateral = sliced_collateral p slice in
    let pnl = calc_unrealized_pnl size p.entry_price t.mark_price p.is_long in
    let borrow_fee = calc_borrow_fee size p.entry_borrow_index t.market.acc_borrow_index in
    let funding_fee =
      calc_funding_fee size p.entry_funding_index t.market.acc_funding_index p.is_long in
    let zero_sum =
      zero_sum_funding funding_fee (payer_oi t.market p.is_long) (receiver_oi t.market p.is_long) in
    let cut = funding_protocol_cut zero_sum funding_cut_bps in
    let effective_funding = zero_sum -ℤ cut in
    record {
      pnl = pnl;
      borrow_fee = borrow_fee;
      funding_fee = funding_fee;
      effective_funding = effective_funding;
      funding_protocol_cut = cut;
      health = calc_health collateral pnl borrow_fee funding_fee;
      effective_health = calc_health collateral pnl borrow_fee effective_funding;
    }

unfoldable pub is_tp_triggered : MarketTick → ℤ → Bool → Bool
is_tp_triggered t take_profit is_long = Pure.is_tp_triggered take_profit t.mark_price is_long

unfoldable pub is_sl_triggered : MarketTick → ℤ → Bool → Bool
is_sl_triggered t stop_loss is_long = Pure.is_sl_triggered stop_loss t.mark_price is_long
