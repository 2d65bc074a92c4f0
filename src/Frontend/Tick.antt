-- ===== src/Frontend/Tick.antt =====
-- packages/frontend/src/api/marketTick.ts, positionEvaluation.ts and quote.ts: the tick that the client
-- projects from its cached queries, and what it shows of a position and of an order. A query that is
-- not loaded is `none`.
pub mod Joins
pub mod Agrees
use stellars_finance_contrac.Base.{
  Bool, true, false, ◌||◌, Option, none, some, List, [], ◌∷◌, if◌then◌else◌,
}
use stellars_finance_contrac.Base.Int.{ℤ, pos, ◌*ℤ◌, ltb_ℤ}
use stellars_finance_contrac.Base.Quot.{◌/ℤ◌}
use stellars_finance_contrac.ProtocolMath.Types.{PositionEvaluation}
use stellars_finance_contrac.ProtocolMath.Coerce.{
  Stringy, to_big_int, MarketRowShape, to_market_state, PositionRowShape, to_position_state,
  VaultRowShape, to_vault_liquidity, BorrowRateRowShape, to_borrow_rate_config,
}
use stellars_finance_contrac.ProtocolMath.Pure.{calc_unrealized_pnl}
use stellars_finance_contrac.ProtocolMath.Tick.{MarketTick, project, evaluate}
use stellars_finance_contrac.ProtocolMath.Quote.{IncreaseIntent, IncreaseQuote, evaluate_increase}
use stellars_finance_contrac.ProtocolMath.Eval.{liquidation_price_for_position}
use Prim.Native.String.{String}
use text.Mathlib.Text.{◌==◌}

-- packages/frontend/src/api/types.ts: the columns that are read.
pub record VaultStateRow : Type 0 where
  pub liquidity : VaultRowShape
  pub unclaimed_fees : Stringy
  pub last_unpause_time : Stringy

pub record ProtocolConfigRow : Type 0 where
  pub rates : BorrowRateRowShape
  pub last_unpause_time : Stringy
  pub max_utilization_ratio : Stringy
  pub funding_cut_bps : ℤ
  pub liquidation_threshold_bps : ℤ
  pub open_fee_bps : ℤ

pub record PriceRow : Type 0 where
  pub symbol : String
  pub price : Stringy

pub record PositionRow : Type 0 where
  pub symbol : String
  pub columns : PositionRowShape
  pub take_profit : Stringy
  pub stop_loss : Stringy

-- `a ?? b`
unfoldable pub nullish : Stringy → Stringy → Stringy
nullish Stringy.null other = other
nullish Stringy.undefined other = other
nullish Stringy.empty other = Stringy.empty
nullish (Stringy.numeral z) other = Stringy.numeral z

unfoldable pub project_market_tick :
    MarketRowShape → VaultStateRow → ProtocolConfigRow → Stringy → ℤ → MarketTick
project_market_tick m v cfg price now = project (record {
  market = to_market_state m;
  mark_price = to_big_int price;
  vault = to_vault_liquidity (some v.liquidity);
  rate_config = to_borrow_rate_config (some cfg.rates);
  now = now;
  last_unpause_time = to_big_int (nullish v.last_unpause_time cfg.last_unpause_time);
})

-- `prices.find((p) => p.symbol === symbol)?.price`
unfoldable pub find_price : List PriceRow → String → Stringy
find_price [] symbol = Stringy.undefined
find_price (row ∷ rows) symbol = if row.symbol == symbol then row.price else find_price rows symbol

-- The cached queries; the market is that of the symbol.
pub record Queries : Type 0 where
  pub market : Option MarketRowShape
  pub vault : Option VaultStateRow
  pub config : Option ProtocolConfigRow
  pub prices : List PriceRow

abbrev pub tick_at :
    Option MarketRowShape
    → Option VaultStateRow
    → Option ProtocolConfigRow
    → Stringy
    → ℤ
    → Option MarketTick
tick_at none v cfg price now = none
tick_at (some m) none cfg price now = none
tick_at (some m) (some v) none price now = none
tick_at (some m) (some v) (some cfg) Stringy.null now = none
tick_at (some m) (some v) (some cfg) Stringy.undefined now = none
tick_at (some m) (some v) (some cfg) Stringy.empty now = none
tick_at (some m) (some v) (some cfg) (Stringy.numeral z) now =
    some (project_market_tick m v cfg (Stringy.numeral z) now)

unfoldable pub use_market_tick : String → Queries → ℤ → Option MarketTick
use_market_tick symbol q now =
    if symbol == ""
    then none
    else tick_at q.market q.vault q.config (find_price q.prices symbol) now

pub data Tone : Type 0 where
  bull bear flat : Tone

-- `leverage` is in tenths and `pnl_pct` in hundredths, before they become floating-point numbers.
pub record PositionView : Type 0 where
  pub leverage : ℤ
  pub evaluation : Option PositionEvaluation
  pub pnl : ℤ
  pub pnl_pct : ℤ
  pub pnl_class : Tone
  pub liq_price : Option ℤ

-- A column of the config, or 0 while it is not loaded.
abbrev pub config_bps : (ProtocolConfigRow → ℤ) → Option ProtocolConfigRow → ℤ
config_bps column none = pos 0
config_bps column (some cfg) = column cfg

abbrev pub evaluation_at : Option MarketTick → PositionRow → ℤ → Option PositionEvaluation
evaluation_at none p cut = none
evaluation_at (some tick) p cut = some (evaluate tick (to_position_state p.columns) none cut)

abbrev pub mark_pnl : PositionRow → Option ℤ → ℤ
mark_pnl p none = pos 0
mark_pnl p (some mark) =
    calc_unrealized_pnl (to_big_int p.columns.size) (to_big_int p.columns.entry_price) mark
      p.columns.is_long

abbrev pub shown_pnl : Option PositionEvaluation → PositionRow → Option ℤ → ℤ
shown_pnl none p mark = mark_pnl p mark
shown_pnl (some e) p mark = e.pnl

unfoldable pub tone : ℤ → Tone
tone pnl =
    if ltb_ℤ (pos 0) pnl then Tone.bull else if ltb_ℤ pnl (pos 0) then Tone.bear else Tone.flat

abbrev pub liq_price_at : Option MarketTick → PositionRow → ℤ → ℤ → Option ℤ
liq_price_at none p threshold cut = none
liq_price_at (some tick) p threshold cut =
    liquidation_price_for_position p.columns tick threshold cut

unfoldable pub position_view :
    PositionRow → Option ℤ → Option MarketTick → Option ProtocolConfigRow → PositionView
position_view p mark tick config =
    let collateral = to_big_int p.columns.collateral in
    let threshold = config_bps (λ c. c.liquidation_threshold_bps) config in
    let cut = config_bps (λ c. c.funding_cut_bps) config in
    let evaluation = evaluation_at tick p cut in
    let pnl = shown_pnl evaluation p mark in
    record {
      leverage =
          if ltb_ℤ (pos 0) collateral
          then to_big_int p.columns.size *ℤ pos 10 /ℤ collateral
          else pos 0;
      evaluation = evaluation;
      pnl = pnl;
      pnl_pct = if ltb_ℤ (pos 0) collateral then pnl *ℤ pos 10_000 /ℤ collateral else pos 0;
      pnl_class = tone pnl;
      liq_price = liq_price_at tick p threshold cut;
    }

unfoldable pub use_position_evaluation :
    Option PositionRow → Option ℤ → Queries → ℤ → Option PositionView
use_position_evaluation none mark q now = none
use_position_evaluation (some p) mark q now =
    some (position_view p mark (use_market_tick p.symbol q now) q.config)

-- The quote of an order, if everything is loaded.
abbrev pub quote_at :
    Option IncreaseIntent
    → Option MarketTick
    → Option VaultStateRow
    → Option ProtocolConfigRow
    → Option IncreaseQuote
quote_at none tick v cfg = none
quote_at (some intent) none v cfg = none
quote_at (some intent) (some tick) none cfg = none
quote_at (some intent) (some tick) (some v) none = none
quote_at (some intent) (some tick) (some v) (some cfg) = some (
    evaluate_increase (record {
      intent = intent;
      tick = tick;
      fee_config = record { open_fee_bps = cfg.open_fee_bps };
      vault = record {
        reserved_usdc = to_big_int v.liquidity.reserved_usdc;
        total_assets = to_big_int v.liquidity.total_assets;
        unclaimed_fees = to_big_int v.unclaimed_fees;
      };
      protocol_limits = record {
        max_utilization_ratio_bps = to_big_int cfg.max_utilization_ratio;
        liquidation_threshold_bps = cfg.liquidation_threshold_bps;
      };
      rate_config = to_borrow_rate_config (some cfg.rates);
    }))

unfoldable pub use_increase_quote :
    String → Option IncreaseIntent → Queries → ℤ → Option IncreaseQuote
use_increase_quote symbol intent q now =
    quote_at intent (use_market_tick symbol q now) q.vault q.config
