-- ===== src/Indexer/Router.antt =====
-- packages/indexer/src/handlers/oracle-router.ts: the handlers of the oracle router's events.
use stellars_finance_contrac.Base.{ℕ, List, ◌∷◌}
use stellars_finance_contrac.Base.Int.{ℤ}
use stellars_finance_contrac.Indexer.Event.{ParsedEvent, unix_seconds}
use Prim.Native.String.{String}

pub record PriceFetchData : Type 0 where
  pub symbol : String
  pub price : ℤ
  pub timestamp : ℤ

pub record OracleConfigUpdateData : Type 0 where
  pub staleness : ℤ
  pub deviation : ℤ
  pub cache_duration : ℤ
  pub min_required_sources : ℕ

pub record OracleSourcesUpdateData : Type 0 where
  pub symbol : String
  pub sources : List String

-- A topic with its data; `other` is any topic without a handler.
pub data OracleRouterEvent : Type 0 where
  price : PriceFetchData → OracleRouterEvent
  orccfg : OracleConfigUpdateData → OracleRouterEvent
  orcsrc : OracleSourcesUpdateData → OracleRouterEvent
  other : OracleRouterEvent

-- A row of `oracle_prices`; its `id` is its place in the table.
pub record OraclePriceRow : Type 0 where
  pub ledger : ℕ
  pub timestamp : ℤ
  pub symbol : String
  pub price : ℤ

pub record OracleConfigEventRow : Type 0 where
  pub tx_hash : String
  pub ledger : ℕ
  pub timestamp : ℕ
  pub config : OracleConfigUpdateData

-- The tables, the latest row first.
pub record OracleDb : Type 0 where
  pub oracle_prices : List OraclePriceRow
  pub oracle_config_events : List OracleConfigEventRow

unfoldable pub handle_price : ℕ → PriceFetchData → OracleDb → OracleDb
handle_price ledger d db = record db {
  oracle_prices =
      (record { ledger = ledger; timestamp = d.timestamp; symbol = d.symbol; price = d.price })
      ∷ db.oracle_prices;
}

unfoldable pub handle_oracle_config :
    ParsedEvent OracleRouterEvent → OracleConfigUpdateData → OracleDb → OracleDb
handle_oracle_config event d db = record db {
  oracle_config_events =
      (record {
        tx_hash = event.tx_hash;
        ledger = event.ledger;
        timestamp = unix_seconds event.timestamp;
        config = d;
      })
      ∷ db.oracle_config_events;
}

-- `handleOracleSources` only logs.
abbrev pub dispatch : ParsedEvent OracleRouterEvent → OracleRouterEvent → OracleDb → OracleDb
dispatch event (OracleRouterEvent.price d) = handle_price event.ledger d
dispatch event (OracleRouterEvent.orccfg d) = handle_oracle_config event d
dispatch event (OracleRouterEvent.orcsrc d) = λ db. db
dispatch event OracleRouterEvent.other = λ db. db

unfoldable pub handle_oracle_router_event : ParsedEvent OracleRouterEvent → OracleDb → OracleDb
handle_oracle_router_event event db = dispatch event event.payload db
