-- ===== src/Indexer/Positions.antt =====
-- packages/indexer/src/handlers/position-manager.ts: the position manager's events, and
-- the tables that their handlers write.
pub mod Finds
pub mod Entry
pub mod Rows
pub mod Handlers
pub mod Table
pub mod Aggregates
pub mod Effects
pub mod Lookup
use stellars_finance_contrac.Base.{
  ℕ, Bool, true, false, not, ◌&&◌, ◌||◌, Option, none, some, List, [], ◌∷◌, if◌then◌else◌,
}
use stellars_finance_contrac.Base.Int.{ℤ, pos, ◌+ℤ◌, ◌*ℤ◌, ltb_ℤ}
use stellars_finance_contrac.Base.Dict.{Dict, get, set}
use stellars_finance_contrac.Indexer.Event.{ParsedEvent, PauseEventRow, unix_seconds}
use stellars_finance_contrac.Indexer.Config.{ProtocolConfig, write_config}
use Prim.Native.String.{String}
use text.Mathlib.Text.{◌==◌}

-- The data of the topics. An event that its contract published has all the fields of its interface;
-- the three that the code tests for null may be missing here. `toNumericString` throws on any missing
-- field: of that the model has the throw at a missing index, on an update, and no other.
pub record IncreasePositionData : Type 0 where
  pub trader : String
  pub symbol : String
  pub size_delta : ℤ
  pub collateral : ℤ
  pub entry_price : ℤ
  pub is_long : Bool
  pub tp : ℤ
  pub sl : ℤ
  pub new_total_size : ℤ
  pub new_total_collateral : ℤ
  pub entry_borrow_index : Option ℤ
  pub entry_funding_index : Option ℤ
  pub last_increased_time : Option ℤ

pub record DecreasePositionData : Type 0 where
  pub trader : String
  pub symbol : String
  pub size_delta : ℤ
  pub pnl : ℤ
  pub borrow_fee : ℤ
  pub funding_fee : ℤ
  pub mark_price : ℤ
  pub is_full_close : Bool
  pub new_total_size : ℤ
  pub new_total_collateral : ℤ

pub record LiquidateData : Type 0 where
  pub trader : String
  pub symbol : String
  pub size : ℤ
  pub collateral : ℤ
  pub pnl : ℤ
  pub borrow_fee : ℤ
  pub funding_fee : ℤ
  pub mark_price : ℤ
  pub executor : String

pub record ExecuteOrderData : Type 0 where
  pub trader : String
  pub symbol : String
  pub size : ℤ
  pub pnl : ℤ
  pub mark_price : ℤ
  pub is_tp : Bool
  pub executor : String

pub record AdlData : Type 0 where
  pub trader : String
  pub symbol : String
  pub size : ℤ
  pub pnl : ℤ
  pub mark_price : ℤ

pub record UpdateIndicesData : Type 0 where
  pub symbol : String
  pub acc_borrow_index : ℤ
  pub acc_funding_index : ℤ
  pub timestamp : ℤ

pub record SetTpSlData : Type 0 where
  pub trader : String
  pub symbol : String
  pub take_profit : ℤ
  pub stop_loss : ℤ

-- A topic with its data; `other` is any topic without a handler.
pub data PositionManagerEvent : Type 0 where
  increase : IncreasePositionData → PositionManagerEvent
  decrease : DecreasePositionData → PositionManagerEvent
  liq : LiquidateData → PositionManagerEvent
  exec_ord : ExecuteOrderData → PositionManagerEvent
  adl : AdlData → PositionManagerEvent
  indices : UpdateIndicesData → PositionManagerEvent
  tp_sl : SetTpSlData → PositionManagerEvent
  max_lev : (symbol : String) → (max_leverage : ℤ) → PositionManagerEvent
  mkt_pnl : (symbol : String) → (unrealized_pnl : ℤ) → PositionManagerEvent
  pause : (is_paused : Bool) → (caller : String) → PositionManagerEvent
  other : PositionManagerEvent

-- A row of `positions`.
pub record Position : Type 0 where
  pub trader : String
  pub symbol : String
  pub collateral : ℤ
  pub size : ℤ
  pub entry_price : ℤ
  pub entry_borrow_index : ℤ
  pub entry_funding_index : ℤ
  pub is_long : Bool
  pub last_increased_time : ℤ
  pub take_profit : ℤ
  pub stop_loss : ℤ
  pub updated_at_ledger : ℕ
  pub updated_at_tx : String

-- A row of `markets`, without its symbol, which is the key.
pub record Market : Type 0 where
  pub global_long_avg_price : ℤ
  pub global_short_avg_price : ℤ
  pub long_open_interest : ℤ
  pub short_open_interest : ℤ
  pub acc_borrow_index : ℤ
  pub acc_funding_index : ℤ
  pub last_index_update : ℤ
  pub max_leverage : ℤ
  pub market_unrealized_pnl : ℤ
  pub updated_at_ledger : ℕ

abbrev pub default_market : Market
default_market = record {
  global_long_avg_price = pos 0;
  global_short_avg_price = pos 0;
  long_open_interest = pos 0;
  short_open_interest = pos 0;
  acc_borrow_index = pos 0;
  acc_funding_index = pos 0;
  last_index_update = pos 0;
  max_leverage = pos 0;
  market_unrealized_pnl = pos 0;
  updated_at_ledger = 0;
}

-- A row of `trades`.
pub record Trade : Type 0 where
  pub tx_hash : String
  pub ledger : ℕ
  pub timestamp : ℕ
  pub trader : String
  pub symbol : String
  pub event_type : String
  pub size_delta : ℤ
  pub collateral_delta : ℤ
  pub entry_price : ℤ
  pub mark_price : ℤ
  pub pnl : ℤ
  pub borrow_fee : ℤ
  pub funding_fee : ℤ
  pub is_long : Option Bool
  pub is_full_close : Option Bool
  pub is_tp : Option Bool
  pub executor : Option String

-- The tables that the handlers write.
pub record PositionDb : Type 0 where
  pub positions : List Position
  pub markets : Dict Market
  pub trades : List Trade
  pub pause_events : List PauseEventRow
  pub protocol_config : Option ProtocolConfig
