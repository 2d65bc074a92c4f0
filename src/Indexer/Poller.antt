-- ===== src/Indexer/Poller.antt =====
-- packages/indexer/src/oracle-poller.ts: the poller, which writes the prices that a simulated call of
-- the router returns. What the clock, the signals and the router answer is a list of turns.
pub mod Fresh
use stellars_finance_contrac.Base.{
  ℕ, ◌/◌, Bool, true, false, Option, none, some, List, [], ◌∷◌, if◌then◌else◌,
}
use stellars_finance_contrac.Base.Int.{ℤ, pos, eqb_ℤ}
use stellars_finance_contrac.Indexer.Router.{OraclePriceRow}
use Prim.Native.String.{String}
use text.Mathlib.Text.{◌==◌}

-- One ticker in a round: `isRunning()`, the router's result, which is `none` if the call throws or
-- returns no number, and `Date.now()` in milliseconds.
pub record Turn : Type 0 where
  pub symbol : String
  pub running : Bool
  pub result : Option ℤ
  pub now : ℕ

-- A round of the loop: the latest ledger, `none` if the node does not tell it.
pub record Round : Type 0 where
  pub latest_ledger : Option ℕ
  pub turns : List Turn

unfoldable pub safe_latest_ledger : Option ℕ → ℕ
safe_latest_ledger none = 0
safe_latest_ledger (some sequence) = sequence

-- packages/db/src/schema/oracle-prices.ts: the price in the view `latest_oracle_prices`.
unfoldable pub latest_price : List OraclePriceRow → String → Option ℤ
latest_price [] symbol = none
latest_price (row ∷ rows) symbol =
    if row.symbol == symbol then some row.price else latest_price rows symbol

-- `latest[0]?.price === priceStr`
unfoldable pub is_latest : Option ℤ → ℤ → Bool
is_latest none price = false
is_latest (some latest) price = eqb_ℤ latest price

abbrev pub price_row : ℕ → Turn → ℤ → OraclePriceRow
price_row ledger turn price = record {
  ledger = ledger;
  timestamp = pos (turn.now / 1_000);
  symbol = turn.symbol;
  price = price;
}

-- The `try` of a ticker's turn.
abbrev pub write_result : ℕ → Turn → Option ℤ → List OraclePriceRow → List OraclePriceRow
write_result ledger turn none rows = rows
write_result ledger turn (some price) rows =
    if is_latest (latest_price rows turn.symbol) price
    then rows
    else price_row ledger turn price ∷ rows

unfoldable pub poll_ticker : ℕ → Turn → List OraclePriceRow → List OraclePriceRow
poll_ticker ledger turn rows = write_result ledger turn turn.result rows

-- The loop over the tickers, with its `break`.
unfoldable pub poll_tickers : ℕ → List Turn → List OraclePriceRow → List OraclePriceRow
poll_tickers ledger [] rows = rows
poll_tickers ledger (turn ∷ turns) rows =
    let rest = poll_tickers ledger turns (poll_ticker ledger turn rows) in
    if turn.running then rest else rows

unfoldable pub run_oracle_poller : List Round → List OraclePriceRow → List OraclePriceRow
run_oracle_poller [] rows = rows
run_oracle_poller (round ∷ rounds) rows =
    run_oracle_poller rounds
      (poll_tickers (safe_latest_ledger round.latest_ledger) round.turns rows)
