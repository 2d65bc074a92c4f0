-- ===== src/Indexer/Config.antt =====
-- packages/indexer/src/handlers/config-manager.ts: the config manager's events, and the tables that
-- their handlers write. Every field of an event's data is there: an event that its contract published
-- has all of them, and `toNumericString` throws only where one is missing.
pub mod Handlers
pub mod Settings
pub mod Columns
use stellars_finance_contrac.Base.{ℕ, Bool, Option, List, [], ◌∷◌}
use stellars_finance_contrac.Base.Int.{ℤ, pos}
use stellars_finance_contrac.Indexer.Event.{ParsedEvent, unix_seconds, upsert}
use Prim.Native.String.{String}

-- The data of four of the topics.
pub record FeeSplitsUpdateData : Type 0 where
  pub lp_bps : ℤ
  pub dev_bps : ℤ
  pub staker_bps : ℤ

pub record FeeConfigUpdateData : Type 0 where
  pub open_fee_bps : ℤ
  pub liquidation_bounty_bps : ℤ
  pub tp_sl_execution_fee : ℤ

pub record LimitsUpdateData : Type 0 where
  pub min_collateral : ℤ
  pub cooldown_duration : ℤ
  pub min_position_lifetime : ℤ
  pub max_utilization_ratio : ℤ
  pub funding_cut_bps : ℤ
  pub adl_pnl_bps : ℤ
  pub adl_utilization_bps : ℤ
  pub liquidation_threshold_bps : ℤ

pub record BorrowRateUpdateData : Type 0 where
  pub base_borrow_rate_bps : ℤ
  pub slope1_bps : ℤ
  pub slope2_bps : ℤ
  pub optimal_utilization_bps : ℤ
  pub base_funding_rate_bps : ℤ

pub record RoleChangeData : Type 0 where
  pub role : String
  pub account : String
  pub is_grant : Bool

-- A topic with its data; `other` is any topic without a handler.
pub data ConfigManagerEvent : Type 0 where
  feecfg : FeeSplitsUpdateData → ConfigManagerEvent
  feecnf : FeeConfigUpdateData → ConfigManagerEvent
  limits : LimitsUpdateData → ConfigManagerEvent
  rates : BorrowRateUpdateData → ConfigManagerEvent
  role : RoleChangeData → ConfigManagerEvent
  upgtl : (timelock_seconds : ℤ) → ConfigManagerEvent
  other : ConfigManagerEvent

-- The row of `protocol_config` with `id = 1`: its columns in the groups that are written together,
-- which have the names of the fields of the data.
pub record ProtocolConfig : Type 0 where
  pub fee_splits : FeeSplitsUpdateData
  pub fee_config : FeeConfigUpdateData
  pub limits : LimitsUpdateData
  pub rates : BorrowRateUpdateData
  pub last_unpause_time : ℕ
  pub updated_at_ledger : ℕ

-- What a row holds in the columns that an insert leaves out.
abbrev pub default_config : ProtocolConfig
default_config = record {
  fee_splits = record { lp_bps = pos 0; dev_bps = pos 0; staker_bps = pos 0 };
  fee_config = record {
    open_fee_bps = pos 0;
    liquidation_bounty_bps = pos 0;
    tp_sl_execution_fee = pos 0;
  };
  limits = record {
    min_collateral = pos 0;
    cooldown_duration = pos 0;
    min_position_lifetime = pos 0;
    max_utilization_ratio = pos 0;
    funding_cut_bps = pos 0;
    adl_pnl_bps = pos 0;
    adl_utilization_bps = pos 0;
    liquidation_threshold_bps = pos 0;
  };
  rates = record {
    base_borrow_rate_bps = pos 0;
    slope1_bps = pos 0;
    slope2_bps = pos 0;
    optimal_utilization_bps = pos 0;
    base_funding_rate_bps = pos 0;
  };
  last_unpause_time = 0;
  updated_at_ledger = 0;
}

pub record RoleEventRow : Type 0 where
  pub tx_hash : String
  pub ledger : ℕ
  pub timestamp : ℕ
  pub change : RoleChangeData

pub record ConfigDb : Type 0 where
  pub protocol_config : Option ProtocolConfig
  pub role_events : List RoleEventRow

-- An upsert that sets the same columns in both cases.
abbrev pub write_config :
    ℕ → (ProtocolConfig → ProtocolConfig) → Option ProtocolConfig → Option ProtocolConfig
write_config ledger f row =
    upsert (f (record default_config { updated_at_ledger = ledger }))
      (λ c. f (record c { updated_at_ledger = ledger })) row
