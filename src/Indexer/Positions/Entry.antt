-- ===== src/Indexer/Positions/Entry.antt =====
-- packages/indexer/src/handlers/position-manager.ts: what an event is to make of the entry of one
-- trader and symbol, column by column.
use stellars_finance_contrac.Base.{Option, none, some, if◌then◌else◌}
use stellars_finance_contrac.Base.Int.{pos}
use stellars_finance_contrac.Indexer.Event.{ParsedEvent, unix_seconds}
use stellars_finance_contrac.Indexer.Positions.{
  IncreasePositionData, DecreasePositionData, SetTpSlData, PositionManagerEvent, Position,
}
use stellars_finance_contrac.Indexer.Positions.Rows.{or_else}
use stellars_finance_contrac.Indexer.Positions.Table.{same_key, map_option}
use Prim.Native.String.{String}

-- What an increase writes, column by column: the first one with the indices and the time that the
-- event has, or else zero and the event's own time.
abbrev pub entry_opened : ParsedEvent PositionManagerEvent → IncreasePositionData → Position
entry_opened event d = record {
  trader = d.trader;
  symbol = d.symbol;
  size = d.new_total_size;
  collateral = d.new_total_collateral;
  entry_price = d.entry_price;
  is_long = d.is_long;
  take_profit = d.tp;
  stop_loss = d.sl;
  entry_borrow_index = or_else d.entry_borrow_index (pos 0);
  entry_funding_index = or_else d.entry_funding_index (pos 0);
  last_increased_time = or_else d.last_increased_time (pos (unix_seconds event.timestamp));
  updated_at_ledger = event.ledger;
  updated_at_tx = event.tx_hash;
}

-- A further one leaves the trader and the symbol only, and has the event's own time.
abbrev pub entry_replaced :
    ParsedEvent PositionManagerEvent → IncreasePositionData → Position → Position
entry_replaced event d p = record {
  trader = p.trader;
  symbol = p.symbol;
  size = d.new_total_size;
  collateral = d.new_total_collateral;
  entry_price = d.entry_price;
  is_long = d.is_long;
  take_profit = d.tp;
  stop_loss = d.sl;
  entry_borrow_index = or_else d.entry_borrow_index (pos 0);
  entry_funding_index = or_else d.entry_funding_index (pos 0);
  last_increased_time = pos (unix_seconds event.timestamp);
  updated_at_ledger = event.ledger;
  updated_at_tx = event.tx_hash;
}

abbrev pub entry_increased :
    ParsedEvent PositionManagerEvent → IncreasePositionData → Option Position → Option Position
entry_increased event d none = some (entry_opened event d)
entry_increased event d (some p) = some (entry_replaced event d p)

-- A partial decrease writes the event's totals.
abbrev pub entry_reduced :
    ParsedEvent PositionManagerEvent → DecreasePositionData → Position → Position
entry_reduced event d p = record p {
  size = d.new_total_size;
  collateral = d.new_total_collateral;
  updated_at_ledger = event.ledger;
  updated_at_tx = event.tx_hash;
}

abbrev pub entry_decreased :
    ParsedEvent PositionManagerEvent → DecreasePositionData → Option Position → Option Position
entry_decreased event d entry =
    if d.is_full_close then none else map_option (entry_reduced event d) entry

abbrev pub with_orders : ParsedEvent PositionManagerEvent → SetTpSlData → Position → Position
with_orders event d p = record p {
  take_profit = d.take_profit;
  stop_loss = d.stop_loss;
  updated_at_ledger = event.ledger;
  updated_at_tx = event.tx_hash;
}

-- What an event makes of the entry of a trader and a symbol.
abbrev pub entry_after :
    ParsedEvent PositionManagerEvent
    → PositionManagerEvent
    → String
    → String
    → Option Position
    → Option Position
entry_after event (PositionManagerEvent.increase d) trader symbol entry =
    if same_key d.trader d.symbol trader symbol then entry_increased event d entry else entry
entry_after event (PositionManagerEvent.decrease d) trader symbol entry =
    if same_key d.trader d.symbol trader symbol then entry_decreased event d entry else entry
entry_after event (PositionManagerEvent.liq d) trader symbol entry =
    if same_key d.trader d.symbol trader symbol then none else entry
entry_after event (PositionManagerEvent.exec_ord d) trader symbol entry =
    if same_key d.trader d.symbol trader symbol then none else entry
entry_after event (PositionManagerEvent.adl d) trader symbol entry =
    if same_key d.trader d.symbol trader symbol then none else entry
entry_after event (PositionManagerEvent.tp_sl d) trader symbol entry =
    if same_key d.trader d.symbol trader symbol
    then map_option (with_orders event d) entry
    else entry
entry_after event (PositionManagerEvent.indices d) trader symbol entry = entry
entry_after event (PositionManagerEvent.max_lev s n) trader symbol entry = entry
entry_after event (PositionManagerEvent.mkt_pnl s n) trader symbol entry = entry
entry_after event (PositionManagerEvent.pause is_paused caller) trader symbol entry = entry
entry_after event PositionManagerEvent.other trader symbol entry = entry
