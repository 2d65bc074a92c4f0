-- ===== src/Keeper/World.antt =====
-- packages/keeper/src/config.ts and the snapshot of packages/keeper/src/scanner.ts: the rows that an
-- iteration reads, and the ticks projected from them.
use stellars_finance_contrac.Base.{
  Bool, true, false, Option, none, some, List, [], ◌∷◌, if◌then◌else◌,
}
use stellars_finance_contrac.Base.Int.{ℤ, pos, ◌-ℤ◌, eqb_ℤ}
use stellars_finance_contrac.Base.Dict.{Dict, get, set}
use stellars_finance_contrac.ProtocolMath.Types.{VaultLiquidity, BorrowRateConfig}
use stellars_finance_contrac.ProtocolMath.Coerce.{
  Stringy, to_big_int, MarketRowShape, to_market_state, PositionRowShape, VaultRowShape,
  to_vault_liquidity, BorrowRateRowShape, to_borrow_rate_config, optional_chain,
}
use stellars_finance_contrac.ProtocolMath.Tick.{MarketTick, project}
use Prim.Native.String.{String}

-- The settings that the loops read.
pub record KeeperConfig : Type 0 where
  pub poll_interval_ms : ℤ
  pub liquidation_idle_ms : ℤ
  pub index_update_threshold_sec : ℤ
  pub liquidation_safety_margin_bps : ℤ
  pub stale_alert_sec : ℤ
  pub stale_hard_skip_sec : ℤ

-- `columns` are the columns that `toPositionState` reads.
pub record PositionRow : Type 0 where
  pub trader : String
  pub symbol : String
  pub columns : PositionRowShape
  pub take_profit : Stringy
  pub stop_loss : Stringy
  pub last_increased_time : Stringy

pub record MarketRow : Type 0 where
  pub symbol : String
  pub columns : MarketRowShape

pub record VaultStateRow : Type 0 where
  pub liquidity : VaultRowShape
  pub net_global_trader_pnl : Stringy
  pub is_paused : Bool

pub record ProtocolConfigRow : Type 0 where
  pub rates : BorrowRateRowShape
  pub min_position_lifetime : Stringy
  pub last_unpause_time : Stringy
  pub funding_cut_bps : ℤ
  pub adl_pnl_bps : ℤ
  pub adl_utilization_bps : ℤ
  pub liquidation_threshold_bps : ℤ

-- `last_ledger_close_time`, as `Number` reads it.
pub record IndexerCursorRow : Type 0 where
  pub last_ledger_close_time : ℤ

pub record PriceRow : Type 0 where
  pub symbol : String
  pub price : Stringy

-- What the six queries return. The tables of one row are read at `id = 1`.
pub record Tables : Type 0 where
  pub positions : List PositionRow
  pub markets : List MarketRow
  pub prices : List PriceRow
  pub vault : Option VaultStateRow
  pub protocol_config : Option ProtocolConfigRow
  pub cursor : Option IndexerCursorRow

-- `indexer_lag_sec` is `none` where the source has `Infinity`.
pub record KeeperWorld : Type 0 where
  pub now : ℤ
  pub positions : List PositionRow
  pub markets : List MarketRow
  pub ticks : Dict MarketTick
  pub vault : Option VaultStateRow
  pub protocol_config : Option ProtocolConfigRow
  pub cursor : Option IndexerCursorRow
  pub indexer_lag_sec : Option ℤ

unfoldable pub indexer_lag_sec : Option IndexerCursorRow → ℤ → Option ℤ
indexer_lag_sec none now = none
indexer_lag_sec (some cursor) now =
    if eqb_ℤ cursor.last_ledger_close_time (pos 0)
    then none
    else some (now -ℤ cursor.last_ledger_close_time)

-- The loop of `latestPriceMap`.
unfoldable pub latest_price_map : List PriceRow → Dict Stringy → Dict Stringy
latest_price_map [] map = map
latest_price_map (row ∷ rows) map = latest_price_map rows (set map row.symbol row.price)

-- `!priceStr`
unfoldable pub is_missing : Option Stringy → Bool
is_missing none = true
is_missing (some Stringy.null) = true
is_missing (some Stringy.undefined) = true
is_missing (some Stringy.empty) = true
is_missing (some (Stringy.numeral z)) = false

-- The tick of one market at its price.
unfoldable pub project_market :
    VaultLiquidity → BorrowRateConfig → ℤ → ℤ → MarketRow → ℤ → MarketTick
project_market vault rate_config now last_unpause_time m price = project (record {
  market = to_market_state m.columns;
  mark_price = price;
  vault = vault;
  rate_config = rate_config;
  now = now;
  last_unpause_time = last_unpause_time;
})

-- The loop over the markets that fills `ticks`.
unfoldable pub project_ticks :
    (MarketRow → ℤ → MarketTick) → Dict Stringy → List MarketRow → Dict MarketTick → Dict MarketTick
unfolding is_missing
project_ticks tick_of prices [] ticks = ticks
project_ticks tick_of prices (m ∷ ms) ticks =
    let price = get prices m.symbol in
    project_ticks tick_of prices ms (
      if is_missing price
      then ticks
      else set ticks m.symbol (tick_of m (to_big_int (optional_chain price (λ p. p)))))

unfoldable pub load_keeper_world : Tables → ℤ → KeeperWorld
load_keeper_world db now =
    let vault = to_vault_liquidity (elim db.vault [ none ↦ none | some v ↦ some v.liquidity ]) in
    let rates =
      to_borrow_rate_config (elim db.protocol_config [ none ↦ none | some c ↦ some c.rates ]) in
    let last_unpause_time =
      to_big_int (optional_chain db.protocol_config (λ c. c.last_unpause_time)) in
    record {
      now = now;
      positions = db.positions;
      markets = db.markets;
      ticks =
          project_ticks (project_market vault rates now last_unpause_time)
            (latest_price_map db.prices []) db.markets [];
      vault = db.vault;
      protocol_config = db.protocol_config;
      cursor = db.cursor;
      indexer_lag_sec = indexer_lag_sec db.cursor now;
    }
