-- ===== src/Frontend/Tick/Agrees.antt =====
-- packages/frontend/src/api/marketTick.ts and packages/keeper/src/scanner.ts: the client's tick and
-- the keeper's.
use stellars_finance_contrac.Base.{
  ◌≡◌, ◌≢◌, refl, sym, ap, ◌∙◌, false, Option, none, some, List, [], IsUnique, arith,
}
use stellars_finance_contrac.Base.Int.{ℤ}
use stellars_finance_contrac.Base.Dict.{Dict, get}
use stellars_finance_contrac.ProtocolMath.Coerce.{
  Stringy, to_big_int, MarketRowShape, optional_chain, to_vault_liquidity, to_borrow_rate_config,
  to_market_state,
}
use stellars_finance_contrac.ProtocolMath.Tick.{MarketTick, project}
use stellars_finance_contrac.Keeper.World
use stellars_finance_contrac.Keeper.World.{
  MarketRow, Tables, latest_price_map, is_missing, project_market, project_ticks, load_keeper_world,
}
use stellars_finance_contrac.Frontend.Tick.{
  VaultStateRow, ProtocolConfigRow, nullish, project_market_tick, tick_at, use_market_tick,
}
use Prim.Native.String.{String}
use text.Mathlib.Text.{◌==◌}
use text.Mathlib.TextEquality.{eq_iff}
use stellars_finance_contrac.Frontend.Tick.Joins.{
  price_rows, price_symbols, market_symbols, price_at, market_at, or_else, get-latest_price_map,
  find_price-price_at, ticked, get-project_ticks,
}

named_symbol : (symbol : String) → symbol ≢ "" → (symbol == "") ≡ false
named_symbol symbol h = ground (arith, eq_iff symbol "")

priced :
    (rows : List World.PriceRow) (symbol : String)
    → IsUnique (price_symbols rows)
    → get (latest_price_map rows []) symbol ≡ price_at rows symbol
unfolding get
priced rows symbol u = get-latest_price_map rows [] symbol u ∙ or_none (price_at rows symbol)
  where
    or_none : (o : Option Stringy) → or_else o none ≡ o
    or_none none = refl
    or_none (some p) = refl

nullish_same : (s : Stringy) → to_big_int (nullish s s) ≡ to_big_int s
unfolding nullish
nullish_same Stringy.null = refl
nullish_same Stringy.undefined = refl
nullish_same Stringy.empty = refl
nullish_same (Stringy.numeral z) = refl

-- What the API gives the client of the rows: the config's time of the last unpause stands in both.
abbrev pub vault_row : World.VaultStateRow → World.ProtocolConfigRow → Stringy → VaultStateRow
vault_row v cfg unclaimed_fees = record {
  liquidity = v.liquidity;
  unclaimed_fees = unclaimed_fees;
  last_unpause_time = cfg.last_unpause_time;
}

abbrev pub config_row : World.ProtocolConfigRow → Stringy → ℤ → ProtocolConfigRow
config_row cfg max_utilization_ratio open_fee_bps = record {
  rates = cfg.rates;
  last_unpause_time = cfg.last_unpause_time;
  max_utilization_ratio = max_utilization_ratio;
  funding_cut_bps = cfg.funding_cut_bps;
  liquidation_threshold_bps = cfg.liquidation_threshold_bps;
  open_fee_bps = open_fee_bps;
}

abbrev pub columns_at : Option MarketRow → Option MarketRowShape
columns_at none = none
columns_at (some m) = some m.columns

module _ (v : World.VaultStateRow) (cfg : World.ProtocolConfigRow) (unclaimed_fees : Stringy)
    (max_utilization_ratio : Stringy) (open_fee_bps now : ℤ) where
  abbrev keeper_tick : MarketRow → ℤ → MarketTick
  keeper_tick =
      project_market (to_vault_liquidity (some v.liquidity))
        (to_borrow_rate_config (some cfg.rates)) now (to_big_int cfg.last_unpause_time)

  abbrev client_tick : Option MarketRow → Stringy → Option MarketTick
  client_tick m price =
      tick_at (columns_at m) (some (vault_row v cfg unclaimed_fees))
        (some (config_row cfg max_utilization_ratio open_fee_bps)) price now

  project_market_tick-keeper :
      (m : MarketRow) (z : ℤ)
      → project_market_tick m.columns
          (vault_row v cfg unclaimed_fees)
          (config_row cfg max_utilization_ratio open_fee_bps)
          (Stringy.numeral z)
          now
        ≡ keeper_tick m z
  unfolding project_market_tick project_market to_big_int
  project_market_tick-keeper m z =
      ap
        (λ t. project (record {
          market = to_market_state m.columns;
          mark_price = z;
          vault = to_vault_liquidity (some v.liquidity);
          rate_config = to_borrow_rate_config (some cfg.rates);
          now = now;
          last_unpause_time = t;
        }))
        (nullish_same cfg.last_unpause_time)

  client_tick-keeper :
      (m : Option MarketRow) (price : Option Stringy) (prices : Dict Stringy) (symbol : String)
      → get prices symbol ≡ price
      → client_tick m (optional_chain price (λ p. p)) ≡ ticked keeper_tick prices symbol m none
  unfolding optional_chain is_missing to_big_int
  client_tick-keeper none price prices symbol e = refl
  client_tick-keeper (some m) none prices symbol e = rw e refl
  client_tick-keeper (some m) (some Stringy.null) prices symbol e = rw e refl
  client_tick-keeper (some m) (some Stringy.undefined) prices symbol e = rw e refl
  client_tick-keeper (some m) (some Stringy.empty) prices symbol e = rw e refl
  client_tick-keeper (some m) (some (Stringy.numeral z)) prices symbol e =
      rw e (ap (λ t. some t) (project_market_tick-keeper m z))

  -- If the client's cached rows are those of the database, where each symbol has one row, and the
  -- rows of the vault and of the config are there, then for every named symbol the client projects
  -- the tick that the keeper has in its world of the same time, and none where the keeper has none.
  pub use_market_tick-ticks :
      (db : Tables) (symbol : String)
      → db.vault ≡ some v
      → db.protocol_config ≡ some cfg
      → IsUnique (market_symbols db.markets)
      → IsUnique (price_symbols db.prices)
      → symbol ≢ ""
      → use_market_tick symbol
          (record {
            market = columns_at (market_at db.markets symbol);
            vault = some (vault_row v cfg unclaimed_fees);
            config = some (config_row cfg max_utilization_ratio open_fee_bps);
            prices = price_rows db.prices;
          })
          now
        ≡ get (load_keeper_world db now).ticks symbol
  unfolding use_market_tick load_keeper_world optional_chain get
  use_market_tick-ticks db symbol has_vault has_config markets prices named =
      rw (named_symbol symbol named, has_vault, has_config)
        (ap (client_tick (market_at db.markets symbol)) (find_price-price_at db.prices symbol)
          ∙ client_tick-keeper (market_at db.markets symbol) (price_at db.prices symbol)
              (latest_price_map db.prices []) symbol (priced db.prices symbol prices)
          ∙ sym (
              get-project_ticks keeper_tick (latest_price_map db.prices []) db.markets [] symbol
                markets))
