-- ===== src/Frontend/Tick/Joins.antt =====
-- packages/frontend/src/api/marketTick.ts: the cached lists of markets and prices, looked up.
use stellars_finance_contrac.Base.{
  ◌≡◌, ◌≢◌, refl, subst, ◌∙◌, inl, inr, true, false, Bool-cases, Option, none, some, List, [], ◌∷◌,
  All, IsUnique, if◌then◌else◌, arith,
}
use stellars_finance_contrac.Base.Int.{ℤ}
use stellars_finance_contrac.Base.Dict.{Dict, get, set, get-set}
use stellars_finance_contrac.ProtocolMath.Coerce.{Stringy, to_big_int, optional_chain}
use stellars_finance_contrac.ProtocolMath.Tick.{MarketTick}
use stellars_finance_contrac.Keeper.World
use stellars_finance_contrac.Keeper.World.{
  MarketRow, Tables, latest_price_map, is_missing, project_market, project_ticks, load_keeper_world,
}
use stellars_finance_contrac.Frontend.Tick.{PriceRow, find_price}
use Prim.Native.String.{String}
use text.Mathlib.Text.{◌==◌}
use text.Mathlib.TextEquality.{eq_iff}

abbrev pub price_rows : List World.PriceRow → List PriceRow
price_rows [] = []
price_rows (row ∷ rows) = record { symbol = row.symbol; price = row.price } ∷ price_rows rows

abbrev pub price_symbols : List World.PriceRow → List String
price_symbols [] = []
price_symbols (row ∷ rows) = row.symbol ∷ price_symbols rows

abbrev pub market_symbols : List MarketRow → List String
market_symbols [] = []
market_symbols (m ∷ ms) = m.symbol ∷ market_symbols ms

-- The rows of a symbol.
unfoldable pub price_at : List World.PriceRow → String → Option Stringy
price_at [] symbol = none
price_at (row ∷ rows) symbol = if row.symbol == symbol then some row.price else price_at rows symbol

unfoldable pub market_at : List MarketRow → String → Option MarketRow
market_at [] symbol = none
market_at (m ∷ ms) symbol = if m.symbol == symbol then some m else market_at ms symbol

abbrev pub or_else : {A : Type 0} → Option A → Option A → Option A
or_else none other = other
or_else (some a) other = some a

no_price :
    (rows : List World.PriceRow) (symbol : String)
    → All (λ other. symbol ≢ other) (price_symbols rows)
    → price_at rows symbol ≡ none
unfolding price_at
no_price [] symbol h = refl
no_price (row ∷ rows) symbol h = ground (arith, eq_iff row.symbol symbol, no_price rows symbol h.1)

pub get-latest_price_map :
    (rows : List World.PriceRow) (prices : Dict Stringy) (symbol : String)
    → IsUnique (price_symbols rows)
    → get (latest_price_map rows prices) symbol ≡ or_else (price_at rows symbol) (get prices symbol)
unfolding latest_price_map price_at
get-latest_price_map [] prices symbol u = refl
get-latest_price_map (row ∷ rows) prices symbol u =
    get-latest_price_map rows (set prices row.symbol row.price) symbol u.1
    ∙ step (price_at rows symbol)
        (λ e. subst (λ k. price_at rows k ≡ none) e (no_price rows row.symbol u.0))
  where
    step :
        (later : Option Stringy)
        → (row.symbol ≡ symbol → later ≡ none)
        → or_else later (get (set prices row.symbol row.price) symbol)
          ≡ or_else (if row.symbol == symbol then some row.price else later) (get prices symbol)
    step none h =
        ground (arith, eq_iff row.symbol symbol, get-set prices row.symbol symbol row.price)
    step (some p) h = ground (arith, eq_iff row.symbol symbol, h)

pub find_price-price_at :
    (rows : List World.PriceRow) (symbol : String)
    → find_price (price_rows rows) symbol ≡ optional_chain (price_at rows symbol) (λ p. p)
unfolding find_price price_at optional_chain
find_price-price_at [] symbol = refl
find_price-price_at (row ∷ rows) symbol = ground (arith, find_price-price_at rows symbol)

module _ (tick_of : MarketRow → ℤ → MarketTick) (prices : Dict Stringy) where
  -- The tick of a market if it has a price, or else what was there before.
  abbrev market_tick : MarketRow → Option Stringy → Option MarketTick → Option MarketTick
  market_tick m price before =
      if is_missing price
      then before
      else some (tick_of m (to_big_int (optional_chain price (λ p. p))))

  abbrev pub ticked : String → Option MarketRow → Option MarketTick → Option MarketTick
  ticked symbol none before = before
  ticked symbol (some m) before = market_tick m (get prices symbol) before

  no_market :
      (ms : List MarketRow) (symbol : String)
      → All (λ other. symbol ≢ other) (market_symbols ms)
      → market_at ms symbol ≡ none
  unfolding market_at
  no_market [] symbol h = refl
  no_market (m ∷ ms) symbol h = ground (arith, eq_iff m.symbol symbol, no_market ms symbol h.1)

  -- The ticks after one market.
  abbrev ticks_after : MarketRow → Dict MarketTick → Dict MarketTick
  ticks_after m ticks =
      if is_missing (get prices m.symbol)
      then ticks
      else set ticks m.symbol
          (tick_of m (to_big_int (optional_chain (get prices m.symbol) (λ p. p))))

  own_tick :
      (m : MarketRow) (ticks : Dict MarketTick)
      → get (ticks_after m ticks) m.symbol
        ≡ market_tick m (get prices m.symbol) (get ticks m.symbol)
  own_tick m ticks = ground (
    arith,
    eq_iff m.symbol m.symbol,
    get-set ticks m.symbol m.symbol
        (tick_of m (to_big_int (optional_chain (get prices m.symbol) (λ p. p)))),
  )

  other_tick :
      (m : MarketRow) (ticks : Dict MarketTick) (symbol : String)
      → (m.symbol == symbol) ≡ false
      → get (ticks_after m ticks) symbol ≡ get ticks symbol
  other_tick m ticks symbol h = ground (
    arith,
    h,
    get-set ticks m.symbol symbol
        (tick_of m (to_big_int (optional_chain (get prices m.symbol) (λ p. p)))),
  )

  pub get-project_ticks :
      (ms : List MarketRow) (ticks : Dict MarketTick) (symbol : String)
      → IsUnique (market_symbols ms)
      → get (project_ticks tick_of prices ms ticks) symbol
        ≡ ticked symbol (market_at ms symbol) (get ticks symbol)
  unfolding project_ticks market_at
  get-project_ticks [] ticks symbol u = refl
  get-project_ticks (m ∷ ms) ticks symbol u =
      get-project_ticks ms (ticks_after m ticks) symbol u.1
      ∙ elim (Bool-cases (m.symbol == symbol)) [
        | inl e ↦
            rw (e, none_else symbol e)
              (subst (λ k. get (ticks_after m ticks) k ≡ market_tick m (get prices k) (get ticks k))
                ((eq_iff m.symbol symbol).0 e) (own_tick m ticks))
        | inr e ↦ rw (e, other_tick m ticks symbol e) refl
      ]
    where
      none_else : (k : String) → (m.symbol == k) ≡ true → market_at ms k ≡ none
      none_else k e =
          subst (λ j. market_at ms j ≡ none) ((eq_iff m.symbol k).0 e) (no_market ms m.symbol u.0)
