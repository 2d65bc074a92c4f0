-- ===== src/Indexer/Positions/Rows.antt =====
-- packages/indexer/src/handlers/position-manager.ts: the queries of the tables, and the rows that
-- the handlers write.
use stellars_finance_contrac.Base.{
  ℕ, Bool, true, false, not, ◌&&◌, Option, none, some, List, [], ◌∷◌, if◌then◌else◌,
}
use stellars_finance_contrac.Base.Int.{ℤ, pos, ◌+ℤ◌, ◌*ℤ◌, ltb_ℤ}
use stellars_finance_contrac.Base.Dict.{Dict, get, set}
use stellars_finance_contrac.Indexer.Event.{ParsedEvent, unix_seconds}
use stellars_finance_contrac.Indexer.Positions.{
  IncreasePositionData, DecreasePositionData, PositionManagerEvent, Position, Market,
  default_market, Trade, PositionDb,
}
use Prim.Native.String.{String}
use text.Mathlib.Text.{◌==◌}

-- `and(eq(positions.trader, trader), eq(positions.symbol, symbol))`
abbrev pub is_at : String → String → Position → Bool
is_at trader symbol p = (p.trader == trader) && (p.symbol == symbol)

unfoldable pub exists_at : String → String → List Position → Bool
exists_at trader symbol [] = false
exists_at trader symbol (p ∷ ps) =
    if is_at trader symbol p then true else exists_at trader symbol ps

unfoldable pub update_at : String → String → (Position → Position) → List Position → List Position
update_at trader symbol f [] = []
update_at trader symbol f (p ∷ ps) =
    (if is_at trader symbol p then f p else p) ∷ update_at trader symbol f ps

unfoldable pub delete_at : String → String → List Position → List Position
delete_at trader symbol [] = []
delete_at trader symbol (p ∷ ps) =
    let rest = delete_at trader symbol ps in if is_at trader symbol p then rest else p ∷ rest

-- `SUM(CASE WHEN is_long = side THEN weight ELSE 0 END)` over the positions of a symbol.
unfoldable pub sum_where : (Position → ℤ) → Bool → String → List Position → ℤ
sum_where weight side symbol [] = pos 0
sum_where weight side symbol (p ∷ ps) =
    let rest = sum_where weight side symbol ps in
    if p.symbol == symbol
    then (if (if side then p.is_long else not p.is_long) then weight p +ℤ rest else rest)
    else rest

unfoldable pub open_interest : Bool → String → List Position → ℤ
open_interest side symbol ps = sum_where (λ p. p.size) side symbol ps

unfoldable pub average_price : (ℤ → ℤ → ℤ) → Bool → String → List Position → ℤ
average_price quotient side symbol ps =
    let oi = open_interest side symbol ps in
    if ltb_ℤ (pos 0) oi
    then quotient (sum_where (λ p. p.size *ℤ p.entry_price) side symbol ps) oi
    else pos 0

-- The market of a symbol, or the defaults that an insert starts from.
abbrev pub market_or_default : Option Market → Market
market_or_default none = default_market
market_or_default (some m) = m

-- `insert(markets).values(..).onConflictDoUpdate(..)`, which write the same columns.
unfoldable pub write_market : String → ℕ → (Market → Market) → Dict Market → Dict Market
write_market symbol ledger f markets =
    set markets symbol
      (f (record (market_or_default (get markets symbol)) { updated_at_ledger = ledger }))

-- `x != null ? toNumericString(x) : z`
abbrev pub or_else : Option ℤ → ℤ → ℤ
or_else none z = z
or_else (some x) z = x

-- A trade with the columns that every handler writes, the others at their defaults.
abbrev pub new_trade : ParsedEvent PositionManagerEvent → String → String → String → ℤ → Trade
new_trade event trader symbol event_type size_delta = record {
  tx_hash = event.tx_hash;
  ledger = event.ledger;
  timestamp = unix_seconds event.timestamp;
  trader = trader;
  symbol = symbol;
  event_type = event_type;
  size_delta = size_delta;
  collateral_delta = pos 0;
  entry_price = pos 0;
  mark_price = pos 0;
  pnl = pos 0;
  borrow_fee = pos 0;
  funding_fee = pos 0;
  is_long = none;
  is_full_close = none;
  is_tp = none;
  executor = none;
}

abbrev pub inserted_position : ParsedEvent PositionManagerEvent → IncreasePositionData → Position
inserted_position event d = record {
  trader = d.trader;
  symbol = d.symbol;
  collateral = d.new_total_collateral;
  size = d.new_total_size;
  entry_price = d.entry_price;
  entry_borrow_index = or_else d.entry_borrow_index (pos 0);
  entry_funding_index = or_else d.entry_funding_index (pos 0);
  is_long = d.is_long;
  last_increased_time = or_else d.last_increased_time (pos (unix_seconds event.timestamp));
  take_profit = d.tp;
  stop_loss = d.sl;
  updated_at_ledger = event.ledger;
  updated_at_tx = event.tx_hash;
}

abbrev pub increased_position :
    ParsedEvent PositionManagerEvent → IncreasePositionData → ℤ → ℤ → Position → Position
increased_position event d borrow_index funding_index p = record p {
  size = d.new_total_size;
  collateral = d.new_total_collateral;
  entry_price = d.entry_price;
  entry_borrow_index = borrow_index;
  entry_funding_index = funding_index;
  is_long = d.is_long;
  take_profit = d.tp;
  stop_loss = d.sl;
  last_increased_time = pos (unix_seconds event.timestamp);
  updated_at_ledger = event.ledger;
  updated_at_tx = event.tx_hash;
}

abbrev pub decreased_position :
    ParsedEvent PositionManagerEvent → DecreasePositionData → Position → Position
decreased_position event d p = record p {
  size = d.new_total_size;
  collateral = d.new_total_collateral;
  updated_at_ledger = event.ledger;
  updated_at_tx = event.tx_hash;
}

-- The update of an existing row throws, before it writes anything, if an index is missing.
unfoldable pub updated_positions :
    ParsedEvent PositionManagerEvent
    → IncreasePositionData
    → Option ℤ
    → Option ℤ
    → List Position
    → Option (List Position)
updated_positions event d none funding ps = none
updated_positions event d (some borrow) none ps = none
updated_positions event d (some borrow) (some funding) ps =
    some (update_at d.trader d.symbol (increased_position event d borrow funding) ps)

unfoldable pub increased_positions :
    ParsedEvent PositionManagerEvent → IncreasePositionData → List Position → Option (List Position)
increased_positions event d ps =
    if exists_at d.trader d.symbol ps
    then updated_positions event d d.entry_borrow_index d.entry_funding_index ps
    else some (inserted_position event d ∷ ps)

abbrev pub with_trade : PositionDb → List Position → Trade → PositionDb
with_trade db ps trade = record db { positions = ps; trades = trade ∷ db.trades }
