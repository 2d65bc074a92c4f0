-- ===== src/Indexer/Config/Handlers.antt =====
-- packages/indexer/src/handlers/config-manager.ts: the handlers.
use stellars_finance_contrac.Base.{ℕ, ◌∷◌}
use stellars_finance_contrac.Indexer.Event.{ParsedEvent, unix_seconds, upsert}
use stellars_finance_contrac.Indexer.Config.{
  FeeSplitsUpdateData, FeeConfigUpdateData, LimitsUpdateData, BorrowRateUpdateData, RoleChangeData,
  ConfigManagerEvent, default_config, ConfigDb,
}

-- The values of an insert, and what its `onConflictDoUpdate` sets.
unfoldable pub handle_fee_splits : ℕ → FeeSplitsUpdateData → ConfigDb → ConfigDb
handle_fee_splits ledger d db = record db {
  protocol_config =
      upsert
        (record default_config {
          fee_splits = record { lp_bps = d.lp_bps; dev_bps = d.dev_bps; staker_bps = d.staker_bps };
          updated_at_ledger = ledger;
        })
        (λ c. record c {
          fee_splits = record { lp_bps = d.lp_bps; dev_bps = d.dev_bps; staker_bps = d.staker_bps };
          updated_at_ledger = ledger;
        })
        db.protocol_config;
}

unfoldable pub handle_fee_config : ℕ → FeeConfigUpdateData → ConfigDb → ConfigDb
handle_fee_config ledger d db = record db {
  protocol_config =
      upsert
        (record default_config {
          fee_config = record {
            open_fee_bps = d.open_fee_bps;
            liquidation_bounty_bps = d.liquidation_bounty_bps;
            tp_sl_execution_fee = d.tp_sl_execution_fee;
          };
          updated_at_ledger = ledger;
        })
        (λ c. record c {
          fee_config = record {
            open_fee_bps = d.open_fee_bps;
            liquidation_bounty_bps = d.liquidation_bounty_bps;
            tp_sl_execution_fee = d.tp_sl_execution_fee;
          };
          updated_at_ledger = ledger;
        })
        db.protocol_config;
}

unfoldable pub handle_limits : ℕ → LimitsUpdateData → ConfigDb → ConfigDb
handle_limits ledger d db = record db {
  protocol_config =
      upsert
        (record default_config {
          limits = record {
            min_collateral = d.min_collateral;
            cooldown_duration = d.cooldown_duration;
            min_position_lifetime = d.min_position_lifetime;
            max_utilization_ratio = d.max_utilization_ratio;
            funding_cut_bps = d.funding_cut_bps;
            adl_pnl_bps = d.adl_pnl_bps;
            adl_utilization_bps = d.adl_utilization_bps;
            liquidation_threshold_bps = d.liquidation_threshold_bps;
          };
          updated_at_ledger = ledger;
        })
        (λ c. record c {
          limits = record {
            min_collateral = d.min_collateral;
            cooldown_duration = d.cooldown_duration;
            min_position_lifetime = d.min_position_lifetime;
            max_utilization_ratio = d.max_utilization_ratio;
            funding_cut_bps = d.funding_cut_bps;
            adl_pnl_bps = d.adl_pnl_bps;
            adl_utilization_bps = d.adl_utilization_bps;
            liquidation_threshold_bps = d.liquidation_threshold_bps;
          };
          updated_at_ledger = ledger;
        })
        db.protocol_config;
}

unfoldable pub handle_borrow_rates : ℕ → BorrowRateUpdateData → ConfigDb → ConfigDb
handle_borrow_rates ledger d db = record db {
  protocol_config =
      upsert
        (record default_config {
          rates = record {
            base_borrow_rate_bps = d.base_borrow_rate_bps;
            slope1_bps = d.slope1_bps;
            slope2_bps = d.slope2_bps;
            optimal_utilization_bps = d.optimal_utilization_bps;
            base_funding_rate_bps = d.base_funding_rate_bps;
          };
          updated_at_ledger = ledger;
        })
        (λ c. record c {
          rates = record {
            base_borrow_rate_bps = d.base_borrow_rate_bps;
            slope1_bps = d.slope1_bps;
            slope2_bps = d.slope2_bps;
            optimal_utilization_bps = d.optimal_utilization_bps;
            base_funding_rate_bps = d.base_funding_rate_bps;
          };
          updated_at_ledger = ledger;
        })
        db.protocol_config;
}

unfoldable pub handle_role : ParsedEvent ConfigManagerEvent → RoleChangeData → ConfigDb → ConfigDb
handle_role event d db = record db {
  role_events =
      (record {
        tx_hash = event.tx_hash;
        ledger = event.ledger;
        timestamp = unix_seconds event.timestamp;
        change = d;
      })
      ∷ db.role_events;
}

-- The switch on the topic. `handleUpgradeTimelock` only logs.
abbrev pub dispatch : ParsedEvent ConfigManagerEvent → ConfigManagerEvent → ConfigDb → ConfigDb
dispatch event (ConfigManagerEvent.feecfg d) = handle_fee_splits event.ledger d
dispatch event (ConfigManagerEvent.feecnf d) = handle_fee_config event.ledger d
dispatch event (ConfigManagerEvent.limits d) = handle_limits event.ledger d
dispatch event (ConfigManagerEvent.rates d) = handle_borrow_rates event.ledger d
dispatch event (ConfigManagerEvent.role d) = handle_role event d
dispatch event (ConfigManagerEvent.upgtl timelock_seconds) = λ db. db
dispatch event ConfigManagerEvent.other = λ db. db

unfoldable pub handle_config_manager_event : ParsedEvent ConfigManagerEvent → ConfigDb → ConfigDb
handle_config_manager_event event db = dispatch event event.payload db
