-- ===== src/Indexer/Routes.antt =====
-- packages/indexer/src/handlers/index.ts: the handler of each contract's events, over the tables of
-- the whole database. Two tables are written by handlers of two contracts: both keep a copy of them,
-- and a handler writes both copies.
pub mod Row
pub mod Keeps
pub mod Vault
use stellars_finance_contrac.Base.{Bool, true, false, Option, none, some, [], if◌then◌else◌}
use stellars_finance_contrac.Base.Int.{ℤ}
use stellars_finance_contrac.Base.Dict.{Dict, set}
use stellars_finance_contrac.Indexer.Event.{ParsedEvent}
use stellars_finance_contrac.Indexer.Vault.{VaultEvent, VaultDb}
use stellars_finance_contrac.Indexer.Vault.Handlers.{handle_vault_event}
use stellars_finance_contrac.Indexer.Config.{ConfigManagerEvent, ConfigDb}
use stellars_finance_contrac.Indexer.Config.Handlers.{handle_config_manager_event}
use stellars_finance_contrac.Indexer.Positions.{PositionManagerEvent, PositionDb}
use stellars_finance_contrac.Indexer.Positions.Handlers.{handle_position_manager_event}
use stellars_finance_contrac.Indexer.Router.{
  OracleRouterEvent, OracleDb, handle_oracle_router_event,
}
use stellars_finance_contrac.Indexer.Pages.{HandlerEnd}
use Prim.Native.String.{String}
use text.Mathlib.Text.{◌==◌}

-- A parsed event of one of the contracts.
pub data ContractEvent : Type 0 where
  of_vault : ParsedEvent VaultEvent → ContractEvent
  of_position_manager : ParsedEvent PositionManagerEvent → ContractEvent
  of_config_manager : ParsedEvent ConfigManagerEvent → ContractEvent
  of_oracle_router : ParsedEvent OracleRouterEvent → ContractEvent

pub record Tables : Type 0 where
  pub vault : VaultDb
  pub positions : PositionDb
  pub config : ConfigDb
  pub oracle : OracleDb

-- The addresses; an empty one is of a contract that is not deployed.
pub record Addresses : Type 0 where
  pub vault : String
  pub position_manager : String
  pub config_manager : String
  pub oracle_router : String

abbrev pub Handler : Type 0
Handler = ContractEvent → Tables → HandlerEnd Tables

abbrev pub write_vault : Tables → VaultDb → Tables
write_vault t db = record t {
  vault = db;
  positions = record t.positions { pause_events = db.pause_events };
}

abbrev pub write_positions : Tables → Option PositionDb → HandlerEnd Tables
write_positions t none = HandlerEnd.threw t
write_positions t (some db) = HandlerEnd.returned (record t {
  positions = db;
  vault = record t.vault { pause_events = db.pause_events };
  config = record t.config { protocol_config = db.protocol_config };
})

abbrev pub write_configs : Tables → ConfigDb → Tables
write_configs t db = record t {
  config = db;
  positions = record t.positions { protocol_config = db.protocol_config };
}

-- The handlers. An event's route and its schema are those of one contract, so that a handler is not
-- called with an event of another one.
abbrev pub on_vault : Handler
on_vault (ContractEvent.of_vault e) t =
    HandlerEnd.returned (write_vault t (handle_vault_event e t.vault))
on_vault (ContractEvent.of_position_manager e) t = HandlerEnd.returned t
on_vault (ContractEvent.of_config_manager e) t = HandlerEnd.returned t
on_vault (ContractEvent.of_oracle_router e) t = HandlerEnd.returned t

abbrev pub on_positions : (ℤ → ℤ → ℤ) → Handler
on_positions quotient (ContractEvent.of_position_manager e) t =
    write_positions t (handle_position_manager_event quotient e t.positions)
on_positions quotient (ContractEvent.of_vault e) t = HandlerEnd.returned t
on_positions quotient (ContractEvent.of_config_manager e) t = HandlerEnd.returned t
on_positions quotient (ContractEvent.of_oracle_router e) t = HandlerEnd.returned t

abbrev pub on_config : Handler
on_config (ContractEvent.of_config_manager e) t =
    HandlerEnd.returned (write_configs t (handle_config_manager_event e t.config))
on_config (ContractEvent.of_vault e) t = HandlerEnd.returned t
on_config (ContractEvent.of_position_manager e) t = HandlerEnd.returned t
on_config (ContractEvent.of_oracle_router e) t = HandlerEnd.returned t

abbrev pub on_oracle : Handler
on_oracle (ContractEvent.of_oracle_router e) t =
    HandlerEnd.returned (record t { oracle = handle_oracle_router_event e t.oracle })
on_oracle (ContractEvent.of_vault e) t = HandlerEnd.returned t
on_oracle (ContractEvent.of_position_manager e) t = HandlerEnd.returned t
on_oracle (ContractEvent.of_config_manager e) t = HandlerEnd.returned t

-- `if (address) routes[address] = handler`
unfoldable pub add_route : String → Handler → Dict Handler → Dict Handler
add_route address handler routes = if address == "" then routes else set routes address handler

unfoldable pub build_routes : (ℤ → ℤ → ℤ) → Addresses → Dict Handler
build_routes quotient a = add_route a.oracle_router on_oracle (
    add_route a.config_manager on_config
      (add_route a.vault on_vault (add_route a.position_manager (on_positions quotient) [])))
