-- ===== src/Indexer/Positions/Effects.antt =====
-- packages/indexer/src/handlers/position-manager.ts: what each event does to the table of positions
-- and to the markets' open interest.
use stellars_finance_contrac.Base.{
  ℕ, Bool, true, false, Option, none, some, List, ◌∷◌, if◌then◌else◌, ◌≡◌, refl, sym, ◌∙◌,
}
use stellars_finance_contrac.Base.Int.{ℤ}
use stellars_finance_contrac.Indexer.Event.{ParsedEvent}
use stellars_finance_contrac.Indexer.Positions.{
  IncreasePositionData, DecreasePositionData, SetTpSlData, PositionManagerEvent, Position, Market,
  Trade, PositionDb,
}
use stellars_finance_contrac.Indexer.Positions.Handlers.{
  refresh_market_aggregates, finish_increase, handle_increase, handle_decrease, handle_liquidation,
  handle_execute_order, handle_adl, handle_indices, handle_tp_sl, handle_max_leverage,
  handle_market_pnl, handle_pause, dispatch, handle_position_manager_event,
}
use stellars_finance_contrac.Indexer.Positions.Rows.{
  exists_at, update_at, delete_at, sum_where, open_interest, write_market, inserted_position,
  increased_position, decreased_position, updated_positions, increased_positions, with_trade,
}
use stellars_finance_contrac.Indexer.Positions.Aggregates.{
  IsAggregated, KeepsInterest, open_interest-update_at, open_interest-delete_at,
  open_interest-KeepsSize, write_market-IsAggregated, refresh-IsAggregated,
}
use Prim.Native.String.{String}
use text.Mathlib.Text.{◌==◌}

-- What a handler that throws leaves is not asked about.
abbrev pub Holds : {A : Type 0} → (A → Type 0) → Option A → Type 0
Holds P none = Unit
Holds P (some a) = P a

-- The two lists have the same sums for every symbol but one.
abbrev SameElsewhere : String → List Position → List Position → Type 0
SameElsewhere a before after =
    (side : Bool) (symbol : String)
    → (a == symbol) ≡ false
    → open_interest side symbol after ≡ open_interest side symbol before

updated_positions-SameElsewhere :
    (event : ParsedEvent PositionManagerEvent) (d : IncreasePositionData)
    (borrow funding : Option ℤ) (ps : List Position)
    → Holds (SameElsewhere d.symbol ps) (updated_positions event d borrow funding ps)
unfolding updated_positions
updated_positions-SameElsewhere event d none funding ps = tt
updated_positions-SameElsewhere event d (some borrow) none ps = tt
updated_positions-SameElsewhere event d (some borrow) (some funding) ps = λ side symbol e.
    open_interest-update_at d.trader d.symbol (increased_position event d borrow funding)
      (record { trader = λ p. refl; symbol = λ p. refl }) side symbol ps e

inserted-SameElsewhere :
    (event : ParsedEvent PositionManagerEvent) (d : IncreasePositionData) (ps : List Position)
    → SameElsewhere d.symbol ps (inserted_position event d ∷ ps)
unfolding open_interest sum_where
inserted-SameElsewhere event d ps side symbol e = rw e refl

pub Holds-if :
    {A : Type 0} (P : A → Type 0) (b : Bool) (x y : Option A)
    → (b ≡ true → Holds P x)
    → (b ≡ false → Holds P y)
    → Holds P (if b then x else y)
Holds-if P true x y f g = f refl
Holds-if P false x y f g = g refl

increased_positions-SameElsewhere :
    (event : ParsedEvent PositionManagerEvent) (d : IncreasePositionData) (ps : List Position)
    → Holds (SameElsewhere d.symbol ps) (increased_positions event d ps)
unfolding increased_positions
increased_positions-SameElsewhere event d ps =
    Holds-if (SameElsewhere d.symbol ps) (exists_at d.trader d.symbol ps) _ _
      (λ e. updated_positions-SameElsewhere event d d.entry_borrow_index d.entry_funding_index ps)
      (λ e. inserted-SameElsewhere event d ps)

-- Every market of the database is right.
abbrev pub AllAggregated : PositionDb → Type 0
AllAggregated db = (symbol : String) → IsAggregated db.positions db.markets symbol

module _ (quotient : ℤ → ℤ → ℤ) (event : ParsedEvent PositionManagerEvent) (db : PositionDb)
    (h : AllAggregated db) where
  refreshed-AllAggregated :
      (a : String) (ps : List Position) (trade : Trade)
      → SameElsewhere a db.positions ps
      → AllAggregated (refresh_market_aggregates quotient a event.ledger (with_trade db ps trade))
  unfolding refresh_market_aggregates
  refreshed-AllAggregated a ps trade same symbol =
      refresh-IsAggregated quotient a symbol event.ledger db ps trade (λ side. same side symbol)
        (h symbol)

  finish_increase-AllAggregated :
      (d : IncreasePositionData) (r : Option (List Position))
      → Holds (SameElsewhere d.symbol db.positions) r
      → Holds AllAggregated (finish_increase quotient event d db r)
  unfolding finish_increase
  finish_increase-AllAggregated d none same = tt
  finish_increase-AllAggregated d (some ps) same = refreshed-AllAggregated d.symbol ps _ same

  deleted :
      (trader symbol : String)
      → SameElsewhere symbol db.positions (delete_at trader symbol db.positions)
  deleted trader symbol side other e =
      open_interest-delete_at trader symbol side other db.positions e

  market-AllAggregated :
      (a : String) (ledger : ℕ) (f : Market → Market)
      → KeepsInterest f
      → AllAggregated (record db { markets = write_market a ledger f db.markets })
  market-AllAggregated a ledger f keeps symbol =
      write_market-IsAggregated a symbol ledger f keeps db.positions db.markets (h symbol)

  decreased :
      (d : DecreasePositionData) (b : Bool)
      → SameElsewhere d.symbol db.positions (
          if b
          then delete_at d.trader d.symbol db.positions
          else update_at d.trader d.symbol (decreased_position event d) db.positions)
  decreased d true side other e = deleted d.trader d.symbol side other e
  decreased d false side other e =
      open_interest-update_at d.trader d.symbol (decreased_position event d)
        (record { trader = λ p. refl; symbol = λ p. refl }) side other db.positions e

  tp_sl-AllAggregated : (d : SetTpSlData) → AllAggregated (handle_tp_sl event d db)
  unfolding handle_tp_sl
  tp_sl-AllAggregated d symbol =
      let same =
        open_interest-KeepsSize d.trader d.symbol _
          (record { symbol = λ p. refl; size = λ p. refl; is_long = λ p. refl }) in
      record {
        long = (h symbol).long ∙ sym (same true symbol db.positions);
        short = (h symbol).short ∙ sym (same false symbol db.positions);
      }

  dispatch-AllAggregated :
      (e : PositionManagerEvent) → Holds AllAggregated (dispatch quotient event e db)
  unfolding handle_increase handle_decrease handle_liquidation handle_execute_order handle_adl
      handle_indices handle_max_leverage handle_market_pnl handle_pause
  dispatch-AllAggregated (PositionManagerEvent.increase d) =
      finish_increase-AllAggregated d (increased_positions event d db.positions)
        (increased_positions-SameElsewhere event d db.positions)
  dispatch-AllAggregated (PositionManagerEvent.decrease d) =
      refreshed-AllAggregated d.symbol _ _ (decreased d d.is_full_close)
  dispatch-AllAggregated (PositionManagerEvent.liq d) =
      refreshed-AllAggregated d.symbol _ _ (deleted d.trader d.symbol)
  dispatch-AllAggregated (PositionManagerEvent.exec_ord d) =
      refreshed-AllAggregated d.symbol _ _ (deleted d.trader d.symbol)
  dispatch-AllAggregated (PositionManagerEvent.adl d) =
      refreshed-AllAggregated d.symbol _ _ (deleted d.trader d.symbol)
  dispatch-AllAggregated (PositionManagerEvent.indices d) =
      market-AllAggregated d.symbol event.ledger _ (record { long = λ m. refl; short = λ m. refl })
  dispatch-AllAggregated (PositionManagerEvent.tp_sl d) = tp_sl-AllAggregated d
  dispatch-AllAggregated (PositionManagerEvent.max_lev symbol n) =
      market-AllAggregated symbol event.ledger _ (record { long = λ m. refl; short = λ m. refl })
  dispatch-AllAggregated (PositionManagerEvent.mkt_pnl symbol n) =
      market-AllAggregated symbol event.ledger _ (record { long = λ m. refl; short = λ m. refl })
  dispatch-AllAggregated (PositionManagerEvent.pause is_paused caller) = h
  dispatch-AllAggregated PositionManagerEvent.other = h

-- Any event of the position manager keeps the open interest of every market, on both sides, equal
-- to the sum of the sizes of its positions in the table, unless its handler throws.
pub handle_position_manager_event-AllAggregated :
    (quotient : ℤ → ℤ → ℤ) (event : ParsedEvent PositionManagerEvent) (db : PositionDb)
    → AllAggregated db
    → Holds AllAggregated (handle_position_manager_event quotient event db)
unfolding handle_position_manager_event
handle_position_manager_event-AllAggregated quotient event db h =
    dispatch-AllAggregated quotient event db h event.payload
