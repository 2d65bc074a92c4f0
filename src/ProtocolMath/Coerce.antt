-- ===== src/ProtocolMath/Coerce.antt =====
-- packages/protocol-math/src/coerce.ts: rows of nullable numeric columns to `bigint` states.
use stellars_finance_contrac.Base.{Bool, Option, none, some}
use stellars_finance_contrac.Base.Int.{ℤ, pos}
use stellars_finance_contrac.ProtocolMath.Types.{
  MarketState, PositionState, VaultLiquidity, BorrowRateConfig,
}

-- A column value. `numeral z` is the decimal text of the integer `z`: the columns are `numeric`,
-- and every writer stores an integer there.
pub data Stringy : Type 0 where
  null undefined empty : Stringy
  numeral : ℤ → Stringy

unfoldable pub to_big_int : Stringy → ℤ
to_big_int Stringy.null = pos 0
to_big_int Stringy.undefined = pos 0
to_big_int Stringy.empty = pos 0
to_big_int (Stringy.numeral z) = z

pub record MarketRowShape : Type 0 where
  pub acc_borrow_index : Stringy
  pub acc_funding_index : Stringy
  pub last_index_update : Stringy
  pub long_open_interest : Stringy
  pub short_open_interest : Stringy

unfoldable pub to_market_state : MarketRowShape → MarketState
unfolding to_big_int
to_market_state row = record {
  acc_borrow_index = to_big_int row.acc_borrow_index;
  acc_funding_index = to_big_int row.acc_funding_index;
  last_index_update = to_big_int row.last_index_update;
  long_open_interest = to_big_int row.long_open_interest;
  short_open_interest = to_big_int row.short_open_interest;
}

pub record PositionRowShape : Type 0 where
  pub is_long : Bool
  pub size : Stringy
  pub collateral : Stringy
  pub entry_price : Stringy
  pub entry_borrow_index : Stringy
  pub entry_funding_index : Stringy

unfoldable pub to_position_state : PositionRowShape → PositionState
unfolding to_big_int
to_position_state row = record {
  is_long = row.is_long;
  size = to_big_int row.size;
  collateral = to_big_int row.collateral;
  entry_price = to_big_int row.entry_price;
  entry_borrow_index = to_big_int row.entry_borrow_index;
  entry_funding_index = to_big_int row.entry_funding_index;
}

pub record VaultRowShape : Type 0 where
  pub reserved_usdc : Stringy
  pub total_assets : Stringy

-- `row?.column`: an absent row reads as `undefined` in every column.
unfoldable pub optional_chain : {R : Type 0} → Option R → (R → Stringy) → Stringy
optional_chain none column = Stringy.undefined
optional_chain (some row) column = column row

unfoldable pub to_vault_liquidity : Option VaultRowShape → VaultLiquidity
unfolding to_big_int optional_chain
to_vault_liquidity row = record {
  reserved_usdc = to_big_int (optional_chain row (λ r. r.reserved_usdc));
  total_assets = to_big_int (optional_chain row (λ r. r.total_assets));
}

pub record BorrowRateRowShape : Type 0 where
  pub base_borrow_rate_bps : Stringy
  pub slope1_bps : Stringy
  pub slope2_bps : Stringy
  pub optimal_utilization_bps : Stringy
  pub base_funding_rate_bps : Stringy

unfoldable pub to_borrow_rate_config : Option BorrowRateRowShape → BorrowRateConfig
unfolding to_big_int optional_chain
to_borrow_rate_config row = record {
  base_borrow_rate_bps = to_big_int (optional_chain row (λ r. r.base_borrow_rate_bps));
  slope1_bps = to_big_int (optional_chain row (λ r. r.slope1_bps));
  slope2_bps = to_big_int (optional_chain row (λ r. r.slope2_bps));
  optimal_utilization_bps = to_big_int (optional_chain row (λ r. r.optimal_utilization_bps));
  base_funding_rate_bps = to_big_int (optional_chain row (λ r. r.base_funding_rate_bps));
}
