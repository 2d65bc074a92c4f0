-- ===== src/ProtocolMath/Types.antt =====
-- packages/protocol-math/src/types.ts: the structural types of the projection and the evaluation.
use stellars_finance_contrac.Base.{Bool}
use stellars_finance_contrac.Base.Int.{ℤ}

pub record MarketState : Type 0 where
  pub acc_borrow_index : ℤ
  pub acc_funding_index : ℤ
  pub last_index_update : ℤ
  pub long_open_interest : ℤ
  pub short_open_interest : ℤ

pub record PositionState : Type 0 where
  pub is_long : Bool
  pub size : ℤ
  pub collateral : ℤ
  pub entry_price : ℤ
  pub entry_borrow_index : ℤ
  pub entry_funding_index : ℤ

pub record VaultLiquidity : Type 0 where
  pub reserved_usdc : ℤ
  pub total_assets : ℤ

pub record BorrowRateConfig : Type 0 where
  pub base_borrow_rate_bps : ℤ
  pub slope1_bps : ℤ
  pub slope2_bps : ℤ
  pub optimal_utilization_bps : ℤ
  pub base_funding_rate_bps : ℤ

pub record PositionEvaluation : Type 0 where
  pub pnl : ℤ
  pub borrow_fee : ℤ
  pub funding_fee : ℤ
  pub effective_funding : ℤ
  pub funding_protocol_cut : ℤ
  pub health : ℤ
  pub effective_health : ℤ

pub record Slice : Type 0 where
  pub size : ℤ
  pub collateral : ℤ

pub record ProjectInput : Type 0 where
  pub market : MarketState
  pub mark_price : ℤ
  pub vault : VaultLiquidity
  pub rate_config : BorrowRateConfig
  pub now : ℤ
  pub last_unpause_time : ℤ
