-- ===== src/Indexer/Config/Settings.antt =====
-- packages/indexer/src/handlers/config-manager.ts: the columns of `protocol_config`, and what an event
-- has for each.
use stellars_finance_contrac.Base.{Option, none, some, List, [], ◌∷◌}
use stellars_finance_contrac.Base.Int.{ℤ}
use stellars_finance_contrac.Indexer.Event.{ParsedEvent}
use stellars_finance_contrac.Indexer.Config.{
  ConfigManagerEvent, ProtocolConfig, default_config, FeeSplitsUpdateData, FeeConfigUpdateData,
  LimitsUpdateData, BorrowRateUpdateData, ConfigDb,
}
use stellars_finance_contrac.Indexer.Config.Handlers.{handle_config_manager_event}

-- The names of the columns that only the config manager's events write; the fields of the data have
-- the same names.
pub data FeeSplit : Type 0 where
  lp_bps dev_bps staker_bps : FeeSplit

pub data FeeSetting : Type 0 where
  open_fee_bps liquidation_bounty_bps tp_sl_execution_fee : FeeSetting

pub data Limit : Type 0 where
  min_collateral cooldown_duration min_position_lifetime max_utilization_ratio funding_cut_bps
        adl_pnl_bps adl_utilization_bps liquidation_threshold_bps :
      Limit

pub data Rate : Type 0 where
  base_borrow_rate_bps slope1_bps slope2_bps optimal_utilization_bps base_funding_rate_bps : Rate

pub data Column : Type 0 where
  split : FeeSplit → Column
  fee : FeeSetting → Column
  limit : Limit → Column
  rate : Rate → Column

abbrev pub split_at : FeeSplit → FeeSplitsUpdateData → ℤ
split_at FeeSplit.lp_bps d = d.lp_bps
split_at FeeSplit.dev_bps d = d.dev_bps
split_at FeeSplit.staker_bps d = d.staker_bps

abbrev pub fee_at : FeeSetting → FeeConfigUpdateData → ℤ
fee_at FeeSetting.open_fee_bps d = d.open_fee_bps
fee_at FeeSetting.liquidation_bounty_bps d = d.liquidation_bounty_bps
fee_at FeeSetting.tp_sl_execution_fee d = d.tp_sl_execution_fee

abbrev pub limit_at : Limit → LimitsUpdateData → ℤ
limit_at Limit.min_collateral d = d.min_collateral
limit_at Limit.cooldown_duration d = d.cooldown_duration
limit_at Limit.min_position_lifetime d = d.min_position_lifetime
limit_at Limit.max_utilization_ratio d = d.max_utilization_ratio
limit_at Limit.funding_cut_bps d = d.funding_cut_bps
limit_at Limit.adl_pnl_bps d = d.adl_pnl_bps
limit_at Limit.adl_utilization_bps d = d.adl_utilization_bps
limit_at Limit.liquidation_threshold_bps d = d.liquidation_threshold_bps

abbrev pub rate_at : Rate → BorrowRateUpdateData → ℤ
rate_at Rate.base_borrow_rate_bps d = d.base_borrow_rate_bps
rate_at Rate.slope1_bps d = d.slope1_bps
rate_at Rate.slope2_bps d = d.slope2_bps
rate_at Rate.optimal_utilization_bps d = d.optimal_utilization_bps
rate_at Rate.base_funding_rate_bps d = d.base_funding_rate_bps

abbrev pub value_at : Column → ProtocolConfig → ℤ
value_at (Column.split x) c = split_at x c.fee_splits
value_at (Column.fee x) c = fee_at x c.fee_config
value_at (Column.limit x) c = limit_at x c.limits
value_at (Column.rate x) c = rate_at x c.rates

-- The value of a column in the row; a missing row stands for the defaults.
abbrev pub stored_at : Column → Option ProtocolConfig → ℤ
stored_at x none = value_at x default_config
stored_at x (some c) = value_at x c

-- The value that an event has for a column.
abbrev pub value_in : Column → ConfigManagerEvent → Option ℤ
value_in (Column.split x) (ConfigManagerEvent.feecfg d) = some (split_at x d)
value_in (Column.split x) (ConfigManagerEvent.feecnf d) = none
value_in (Column.split x) (ConfigManagerEvent.limits d) = none
value_in (Column.split x) (ConfigManagerEvent.rates d) = none
value_in (Column.fee x) (ConfigManagerEvent.feecfg d) = none
value_in (Column.fee x) (ConfigManagerEvent.feecnf d) = some (fee_at x d)
value_in (Column.fee x) (ConfigManagerEvent.limits d) = none
value_in (Column.fee x) (ConfigManagerEvent.rates d) = none
value_in (Column.limit x) (ConfigManagerEvent.feecfg d) = none
value_in (Column.limit x) (ConfigManagerEvent.feecnf d) = none
value_in (Column.limit x) (ConfigManagerEvent.limits d) = some (limit_at x d)
value_in (Column.limit x) (ConfigManagerEvent.rates d) = none
value_in (Column.rate x) (ConfigManagerEvent.feecfg d) = none
value_in (Column.rate x) (ConfigManagerEvent.feecnf d) = none
value_in (Column.rate x) (ConfigManagerEvent.limits d) = none
value_in (Column.rate x) (ConfigManagerEvent.rates d) = some (rate_at x d)
value_in x (ConfigManagerEvent.role d) = none
value_in x (ConfigManagerEvent.upgtl t) = none
value_in x ConfigManagerEvent.other = none

abbrev pub or_kept : Option ℤ → ℤ → ℤ
or_kept none kept = kept
or_kept (some n) kept = n

-- The value for a column in the last event that has one.
abbrev pub latest_at : Column → List (ParsedEvent ConfigManagerEvent) → ℤ → ℤ
latest_at x [] kept = kept
latest_at x (e ∷ es) kept = latest_at x es (or_kept (value_in x e.payload) kept)

abbrev pub handle_all : List (ParsedEvent ConfigManagerEvent) → ConfigDb → ConfigDb
handle_all [] db = db
handle_all (e ∷ es) db = handle_all es (handle_config_manager_event e db)
