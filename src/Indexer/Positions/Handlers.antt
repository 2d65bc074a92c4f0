-- ===== src/Indexer/Positions/Handlers.antt =====
-- packages/indexer/src/handlers/position-manager.ts: the handlers. `quotient` is what the database
-- gives for `TRUNC` of a quotient of two `numeric` values.
use stellars_finance_contrac.Base.{
  ℕ, Bool, true, false, Option, none, some, List, ◌∷◌, if◌then◌else◌,
}
use stellars_finance_contrac.Base.Int.{ℤ}
use stellars_finance_contrac.Indexer.Event.{ParsedEvent, unix_seconds}
use stellars_finance_contrac.Indexer.Config.{write_config}
use stellars_finance_contrac.Indexer.Positions.{
  IncreasePositionData, DecreasePositionData, LiquidateData, ExecuteOrderData, AdlData,
  UpdateIndicesData, SetTpSlData, PositionManagerEvent, Position, PositionDb,
}
use Prim.Native.String.{String}
use stellars_finance_contrac.Indexer.Positions.Rows.{
  update_at, delete_at, open_interest, average_price, write_market, new_trade, decreased_position,
  increased_positions, with_trade,
}

module _ (quotient : ℤ → ℤ → ℤ) where
  unfoldable pub refresh_market_aggregates : String → ℕ → PositionDb → PositionDb
  refresh_market_aggregates symbol ledger db = record db {
    markets =
        write_market symbol ledger
          (λ m. record m {
            long_open_interest = open_interest true symbol db.positions;
            short_open_interest = open_interest false symbol db.positions;
            global_long_avg_price = average_price quotient true symbol db.positions;
            global_short_avg_price = average_price quotient false symbol db.positions;
          })
          db.markets;
  }

  -- `none` is an exception.
  unfoldable pub finish_increase :
      ParsedEvent PositionManagerEvent
      → IncreasePositionData
      → PositionDb
      → Option (List Position)
      → Option PositionDb
  finish_increase event d db none = none
  finish_increase event d db (some ps) = some (
      refresh_market_aggregates d.symbol event.ledger (
        with_trade db ps (record (new_trade event d.trader d.symbol "increase" d.size_delta) {
          collateral_delta = d.collateral;
          entry_price = d.entry_price;
          is_long = some d.is_long;
        })))

  unfoldable pub handle_increase :
      ParsedEvent PositionManagerEvent → IncreasePositionData → PositionDb → Option PositionDb
  handle_increase event d db = finish_increase event d db (increased_positions event d db.positions)

  unfoldable pub handle_decrease :
      ParsedEvent PositionManagerEvent → DecreasePositionData → PositionDb → PositionDb
  handle_decrease event d db = refresh_market_aggregates d.symbol event.ledger (
      with_trade db
        (if d.is_full_close
          then delete_at d.trader d.symbol db.positions
          else update_at d.trader d.symbol (decreased_position event d) db.positions)
        (record (new_trade event d.trader d.symbol "decrease" d.size_delta) {
          mark_price = d.mark_price;
          pnl = d.pnl;
          borrow_fee = d.borrow_fee;
          funding_fee = d.funding_fee;
          is_full_close = some d.is_full_close;
        }))

  unfoldable pub handle_liquidation :
      ParsedEvent PositionManagerEvent → LiquidateData → PositionDb → PositionDb
  handle_liquidation event d db = refresh_market_aggregates d.symbol event.ledger (
      with_trade db (delete_at d.trader d.symbol db.positions)
        (record (new_trade event d.trader d.symbol "liquidation" d.size) {
          collateral_delta = d.collateral;
          mark_price = d.mark_price;
          pnl = d.pnl;
          borrow_fee = d.borrow_fee;
          funding_fee = d.funding_fee;
          is_full_close = some true;
          executor = some d.executor;
        }))

  unfoldable pub handle_execute_order :
      ParsedEvent PositionManagerEvent → ExecuteOrderData → PositionDb → PositionDb
  handle_execute_order event d db = refresh_market_aggregates d.symbol event.ledger (
      with_trade db (delete_at d.trader d.symbol db.positions)
        (record (new_trade event d.trader d.symbol "order" d.size) {
          mark_price = d.mark_price;
          pnl = d.pnl;
          is_full_close = some true;
          is_tp = some d.is_tp;
          executor = some d.executor;
        }))

  unfoldable pub handle_adl : ParsedEvent PositionManagerEvent → AdlData → PositionDb → PositionDb
  handle_adl event d db = refresh_market_aggregates d.symbol event.ledger (
      with_trade db (delete_at d.trader d.symbol db.positions)
        (record (new_trade event d.trader d.symbol "adl" d.size) {
          mark_price = d.mark_price;
          pnl = d.pnl;
          is_full_close = some true;
        }))

unfoldable pub handle_indices : ℕ → UpdateIndicesData → PositionDb → PositionDb
handle_indices ledger d db = record db {
  markets =
      write_market d.symbol ledger
        (λ m. record m {
          acc_borrow_index = d.acc_borrow_index;
          acc_funding_index = d.acc_funding_index;
          last_index_update = d.timestamp;
        })
        db.markets;
}

unfoldable pub handle_tp_sl :
    ParsedEvent PositionManagerEvent → SetTpSlData → PositionDb → PositionDb
handle_tp_sl event d db = record db {
  positions =
      update_at d.trader d.symbol
        (λ p. record p {
          take_profit = d.take_profit;
          stop_loss = d.stop_loss;
          updated_at_ledger = event.ledger;
          updated_at_tx = event.tx_hash;
        })
        db.positions;
}

unfoldable pub handle_max_leverage : ℕ → String → ℤ → PositionDb → PositionDb
handle_max_leverage ledger symbol n db = record db {
  markets = write_market symbol ledger (λ m. record m { max_leverage = n }) db.markets;
}

unfoldable pub handle_market_pnl : ℕ → String → ℤ → PositionDb → PositionDb
handle_market_pnl ledger symbol n db = record db {
  markets = write_market symbol ledger (λ m. record m { market_unrealized_pnl = n }) db.markets;
}

unfoldable pub handle_pause :
    ParsedEvent PositionManagerEvent → Bool → String → PositionDb → PositionDb
handle_pause event is_paused caller db = record db {
  pause_events =
      (record {
        tx_hash = event.tx_hash;
        ledger = event.ledger;
        timestamp = unix_seconds event.timestamp;
        contract = "position_manager";
        is_paused = is_paused;
        caller = caller;
      })
      ∷ db.pause_events;
  protocol_config =
      if is_paused
      then db.protocol_config
      else write_config event.ledger
          (λ c. record c { last_unpause_time = unix_seconds event.timestamp }) db.protocol_config;
}

-- The switch on the topic.
abbrev pub dispatch :
    (ℤ → ℤ → ℤ)
    → ParsedEvent PositionManagerEvent
    → PositionManagerEvent
    → PositionDb
    → Option PositionDb
dispatch quotient event (PositionManagerEvent.increase d) db = handle_increase quotient event d db
dispatch quotient event (PositionManagerEvent.decrease d) db =
    some (handle_decrease quotient event d db)
dispatch quotient event (PositionManagerEvent.liq d) db =
    some (handle_liquidation quotient event d db)
dispatch quotient event (PositionManagerEvent.exec_ord d) db =
    some (handle_execute_order quotient event d db)
dispatch quotient event (PositionManagerEvent.adl d) db = some (handle_adl quotient event d db)
dispatch quotient event (PositionManagerEvent.indices d) db =
    some (handle_indices event.ledger d db)
dispatch quotient event (PositionManagerEvent.tp_sl d) db = some (handle_tp_sl event d db)
dispatch quotient event (PositionManagerEvent.max_lev symbol n) db =
    some (handle_max_leverage event.ledger symbol n db)
dispatch quotient event (PositionManagerEvent.mkt_pnl symbol n) db =
    some (handle_market_pnl event.ledger symbol n db)
dispatch quotient event (PositionManagerEvent.pause is_paused caller) db =
    some (handle_pause event is_paused caller db)
dispatch quotient event PositionManagerEvent.other db = some db

unfoldable pub handle_position_manager_event :
    (ℤ → ℤ → ℤ) → ParsedEvent PositionManagerEvent → PositionDb → Option PositionDb
handle_position_manager_event quotient event db = dispatch quotient event event.payload db
