-- ===== src/ProtocolMath/Quote.antt =====
-- packages/protocol-math/src/quote.ts: the preview of an increase.
pub mod Liquidation
pub mod Liquidity
pub mod RoundTrip
use stellars_finance_contrac.Base.{Bool, Option, none, some, ◌&&◌, ◌||◌, if◌then◌else◌}
use stellars_finance_contrac.Base.Int.{ℤ, pos, ◌+ℤ◌, ◌-ℤ◌, ◌*ℤ◌, neg, ltb_ℤ, leb_ℤ}
use stellars_finance_contrac.Base.Quot.{◌/ℤ◌}
use stellars_finance_contrac.ProtocolMath.Constants.{bps, seconds_per_year, seconds_per_day}
use stellars_finance_contrac.ProtocolMath.Types.{BorrowRateConfig}
use stellars_finance_contrac.ProtocolMath.Pure.{
  calc_utilization_bps, calc_borrow_rate, calc_funding_rate,
}
use stellars_finance_contrac.ProtocolMath.Tick.{MarketTick}

pub record IncreaseIntent : Type 0 where
  pub collateral : ℤ
  pub size : ℤ
  pub is_long : Bool
  pub slippage_bps : Option ℤ

pub record FeeConfig : Type 0 where
  pub open_fee_bps : ℤ

pub record VaultSnapshot : Type 0 where
  pub reserved_usdc : ℤ
  pub total_assets : ℤ
  pub unclaimed_fees : ℤ

pub record ProtocolLimits : Type 0 where
  pub max_utilization_ratio_bps : ℤ
  pub liquidation_threshold_bps : ℤ

pub record IncreaseQuoteInput : Type 0 where
  pub intent : IncreaseIntent
  pub tick : MarketTick
  pub fee_config : FeeConfig
  pub vault : VaultSnapshot
  pub protocol_limits : ProtocolLimits
  pub rate_config : BorrowRateConfig

pub record IncreaseQuote : Type 0 where
  pub open_fee : ℤ
  pub daily_borrow : ℤ
  pub daily_funding : ℤ
  pub liquidation_price : Option ℤ
  pub acceptable_price : ℤ
  pub liquidity_headroom : ℤ
  pub exceeds_liquidity : Bool

unfoldable pub liquidation_price_at_open : ℤ → ℤ → ℤ → Bool → ℤ → Option ℤ
liquidation_price_at_open mark collateral size is_long liquidation_threshold_bps =
    let loss_buffer = collateral *ℤ (bps -ℤ liquidation_threshold_bps) /ℤ bps in
    let adjustment = mark *ℤ loss_buffer /ℤ size in
    if leb_ℤ collateral (pos 0) || leb_ℤ size (pos 0) || leb_ℤ mark (pos 0)
    then none
    else some (if is_long then mark -ℤ adjustment else mark +ℤ adjustment)

-- `intent.slippage_bps ?? 0n`
unfoldable pub slippage : Option ℤ → ℤ
slippage none = pos 0
slippage (some s) = s

unfoldable pub safe_basis : VaultSnapshot → ℤ
safe_basis v =
    if ltb_ℤ v.unclaimed_fees v.total_assets then v.total_assets -ℤ v.unclaimed_fees else pos 0

unfoldable pub acceptable_price : ℤ → ℤ → Bool → ℤ
acceptable_price mark slippage_bps is_long =
    if ltb_ℤ (pos 0) slippage_bps && ltb_ℤ (pos 0) mark
    then (if is_long
        then mark +ℤ mark *ℤ slippage_bps /ℤ bps
        else mark -ℤ mark *ℤ slippage_bps /ℤ bps)
    else pos 0

unfoldable pub liquidity_headroom : VaultSnapshot → ℤ → ℤ
liquidity_headroom v max_utilization_ratio_bps =
    let max_reserved = safe_basis v *ℤ max_utilization_ratio_bps /ℤ bps in
    if ltb_ℤ v.reserved_usdc max_reserved then max_reserved -ℤ v.reserved_usdc else pos 0

unfoldable pub evaluate_increase : IncreaseQuoteInput → IncreaseQuote
evaluate_increase i =
    let size = i.intent.size in
    let is_long = i.intent.is_long in
    let mark = i.tick.mark_price in
    let positive = ltb_ℤ (pos 0) size in
    let basis = safe_basis i.vault in
    let util_bps =
      if ltb_ℤ (pos 0) basis then calc_utilization_bps i.vault.reserved_usdc basis else pos 0 in
    let borrow_rate =
      calc_borrow_rate util_bps i.rate_config.base_borrow_rate_bps i.rate_config.slope1_bps
        i.rate_config.slope2_bps i.rate_config.optimal_utilization_bps in
    let funding_rate =
      calc_funding_rate i.tick.market.long_open_interest i.tick.market.short_open_interest
        i.rate_config.base_funding_rate_bps in
    let trader_rate = if is_long then neg funding_rate else funding_rate in
    let headroom = liquidity_headroom i.vault i.protocol_limits.max_utilization_ratio_bps in
    record {
      open_fee = if positive then size *ℤ i.fee_config.open_fee_bps /ℤ bps else pos 0;
      daily_borrow =
          if positive
          then size *ℤ borrow_rate *ℤ seconds_per_day /ℤ (bps *ℤ seconds_per_year)
          else pos 0;
      daily_funding =
          if positive
          then size *ℤ trader_rate *ℤ seconds_per_day /ℤ (bps *ℤ seconds_per_year)
          else pos 0;
      liquidation_price =
          liquidation_price_at_open mark i.intent.collateral size is_long
            i.protocol_limits.liquidation_threshold_bps;
      acceptable_price = acceptable_price mark (slippage i.intent.slippage_bps) is_long;
      liquidity_headroom = headroom;
      exceeds_liquidity = positive && ltb_ℤ headroom size;
    }
