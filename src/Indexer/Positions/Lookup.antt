-- ===== src/Indexer/Positions/Lookup.antt =====
-- packages/indexer/src/handlers/position-manager.ts: the table of positions as a map, by events.
use stellars_finance_contrac.Base.{Option, none, some, List, ◌≡◌, refl}
use stellars_finance_contrac.Base.Int.{ℤ}
use stellars_finance_contrac.Indexer.Event.{ParsedEvent}
use stellars_finance_contrac.Indexer.Positions.{
  IncreasePositionData, PositionManagerEvent, Position, PositionDb,
}
use stellars_finance_contrac.Indexer.Positions.Handlers.{
  refresh_market_aggregates, finish_increase, handle_increase, handle_decrease, handle_liquidation,
  handle_execute_order, handle_adl, handle_indices, handle_tp_sl, handle_max_leverage,
  handle_market_pnl, handle_pause, dispatch, handle_position_manager_event,
}
use stellars_finance_contrac.Indexer.Positions.Rows.{increased_positions}
use stellars_finance_contrac.Indexer.Positions.Table.{find_at, find_at-update_at, find_at-delete_at}
use stellars_finance_contrac.Indexer.Positions.Effects.{Holds}
use Prim.Native.String.{String}
use stellars_finance_contrac.Indexer.Positions.Entry.{with_orders, entry_after}
use stellars_finance_contrac.Indexer.Positions.Finds.{
  keeps, decreased-Finds, increased_positions-Becomes,
}

module _ (quotient : ℤ → ℤ → ℤ) (event : ParsedEvent PositionManagerEvent) (trader symbol : String)
    (db : PositionDb) where
  -- The entry in the table after the event.
  abbrev pub EntryIs : Option Position → PositionDb → Type 0
  EntryIs entry after = find_at trader symbol after.positions ≡ entry

  finish_increase-EntryIs :
      (d : IncreasePositionData) (r : Option (List Position)) (entry : Option Position)
      → Holds (λ ps. find_at trader symbol ps ≡ entry) r
      → Holds (EntryIs entry) (finish_increase quotient event d db r)
  unfolding finish_increase refresh_market_aggregates
  finish_increase-EntryIs d none entry h = tt
  finish_increase-EntryIs d (some ps) entry h = h

  dispatch-EntryIs :
      (e : PositionManagerEvent)
      → Holds
          (EntryIs (entry_after event e trader symbol (find_at trader symbol db.positions)))
          (dispatch quotient event e db)
  unfolding handle_increase handle_decrease handle_liquidation handle_execute_order handle_adl
      handle_indices handle_tp_sl handle_max_leverage handle_market_pnl handle_pause
      refresh_market_aggregates
  dispatch-EntryIs (PositionManagerEvent.increase d) =
      finish_increase-EntryIs d (increased_positions event d db.positions) _
        (increased_positions-Becomes event trader symbol d db.positions)
  dispatch-EntryIs (PositionManagerEvent.decrease d) =
      decreased-Finds event trader symbol d d.is_full_close db.positions
  dispatch-EntryIs (PositionManagerEvent.liq d) =
      find_at-delete_at d.trader d.symbol trader symbol db.positions
  dispatch-EntryIs (PositionManagerEvent.exec_ord d) =
      find_at-delete_at d.trader d.symbol trader symbol db.positions
  dispatch-EntryIs (PositionManagerEvent.adl d) =
      find_at-delete_at d.trader d.symbol trader symbol db.positions
  dispatch-EntryIs (PositionManagerEvent.tp_sl d) =
      find_at-update_at d.trader d.symbol (with_orders event d) (keeps (λ p. refl) (λ p. refl))
        trader symbol db.positions
  dispatch-EntryIs (PositionManagerEvent.indices d) = refl
  dispatch-EntryIs (PositionManagerEvent.max_lev s n) = refl
  dispatch-EntryIs (PositionManagerEvent.mkt_pnl s n) = refl
  dispatch-EntryIs (PositionManagerEvent.pause is_paused caller) = refl
  dispatch-EntryIs PositionManagerEvent.other = refl

-- Unless its handler throws, an event changes the table of positions as a map from the trader and
-- the symbol: an increase opens or replaces the entry of its own key with the totals that it
-- carries, a full close, a liquidation, an executed order and a deleveraging remove it, a partial
-- decrease and new order levels change it if it is there, and every other entry stays as it was.
pub handle_position_manager_event-EntryIs :
    (quotient : ℤ → ℤ → ℤ) (event : ParsedEvent PositionManagerEvent) (trader symbol : String)
    (db : PositionDb)
    → Holds
        (EntryIs quotient event trader symbol db
          (entry_after event event.payload trader symbol (find_at trader symbol db.positions)))
        (handle_position_manager_event quotient event db)
unfolding handle_position_manager_event
handle_position_manager_event-EntryIs quotient event trader symbol db =
    dispatch-EntryIs quotient event trader symbol db event.payload
