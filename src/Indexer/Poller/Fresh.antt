-- ===== src/Indexer/Poller/Fresh.antt =====
-- packages/indexer/src/oracle-poller.ts: the table after a number of rounds.
use stellars_finance_contrac.Base.{
  ℕ, true, false, Option, none, some, List, [], ◌∷◌, ◌≡◌, ◌≢◌, refl, ap, subst, ◌∙◌, inl, inr,
  Bool-cases, if◌then◌else◌,
}
use stellars_finance_contrac.Base.Int.{ℤ, eq_of_parts}
use stellars_finance_contrac.Indexer.Router.{OraclePriceRow}
use stellars_finance_contrac.Indexer.Poller.{
  Turn, Round, safe_latest_ledger, latest_price, is_latest, write_result, poll_ticker, poll_tickers,
  run_oracle_poller,
}
use Prim.Native.String.{String}
use text.Mathlib.Text.{◌==◌}
use text.Mathlib.TextEquality.{eq_iff}
use native.Mathlib.Omega.{arith}

-- No row repeats the price of the row before it of the same symbol.
abbrev pub IsFresh : List OraclePriceRow → Type 0
IsFresh [] = Unit
IsFresh (row ∷ rows) = (latest_price rows row.symbol ≢ some row.price) × IsFresh rows

abbrev pub over : Option ℤ → Option ℤ → Option ℤ
over none before = before
over (some price) before = some price

-- The last result for the symbol, up to the turn at which the process is told to stop.
unfoldable pub last_result : List Turn → String → Option ℤ
last_result [] symbol = none
last_result (turn ∷ turns) symbol =
    let rest = last_result turns symbol in
    if turn.running then over rest (if turn.symbol == symbol then turn.result else none) else none

is_latest-eq : (latest : Option ℤ) (price : ℤ) → is_latest latest price ≡ true → latest ≡ some price
unfolding is_latest
is_latest-eq none price h = absurd (ground arith)
is_latest-eq (some latest) price h = ap (λ z. some z) (eq_of_parts latest price (ground arith))

is_latest-ne :
    (latest : Option ℤ) (price : ℤ) → is_latest latest price ≡ false → latest ≢ some price
unfolding is_latest
is_latest-ne latest price h e =
    let same = subst (λ o. is_latest o price ≡ false) e h in absurd (ground arith)

kept_latest :
    (rows : List OraclePriceRow) (asked symbol : String) (price : ℤ)
    → latest_price rows asked ≡ some price
    → latest_price rows symbol
      ≡ over (if asked == symbol then some price else none) (latest_price rows symbol)
kept_latest rows asked symbol price h = ground (arith, eq_iff asked symbol)

written_latest :
    (asked symbol : String) (price : ℤ) (before : Option ℤ)
    → (if asked == symbol then some price else before)
      ≡ over (if asked == symbol then some price else none) before
written_latest asked symbol price before = ground arith

nothing_over :
    (asked symbol : String) (before : Option ℤ)
    → before ≡ over (if asked == symbol then none else none) before
nothing_over asked symbol before = ground arith

write_result-latest :
    (ledger : ℕ) (turn : Turn) (result : Option ℤ) (rows : List OraclePriceRow) (symbol : String)
    → latest_price (write_result ledger turn result rows) symbol
      ≡ over (if turn.symbol == symbol then result else none) (latest_price rows symbol)
unfolding latest_price
write_result-latest ledger turn none rows symbol =
    nothing_over turn.symbol symbol (latest_price rows symbol)
write_result-latest ledger turn (some price) rows symbol =
    elim (Bool-cases (is_latest (latest_price rows turn.symbol) price)) [
      | inl e ↦ rw e (kept_latest rows turn.symbol symbol price (is_latest-eq _ price e))
      | inr e ↦ rw e (written_latest turn.symbol symbol price (latest_price rows symbol))
    ]

over_assoc : (a b c : Option ℤ) → over a (over b c) ≡ over (over a b) c
over_assoc none b c = refl
over_assoc (some a) b c = refl

-- After a round over the tickers, the latest price of each symbol is the last result that the router
-- gave for it before the process was told to stop, or the price from before if it gave none.
pub poll_tickers-latest :
    (ledger : ℕ) (turns : List Turn) (rows : List OraclePriceRow) (symbol : String)
    → latest_price (poll_tickers ledger turns rows) symbol
      ≡ over (last_result turns symbol) (latest_price rows symbol)
unfolding poll_tickers last_result poll_ticker
poll_tickers-latest ledger [] rows symbol = refl
poll_tickers-latest ledger (turn ∷ turns) rows symbol = elim (Bool-cases turn.running) [
  | inl e ↦ rw e (
      poll_tickers-latest ledger turns (poll_ticker ledger turn rows) symbol
      ∙ ap (over (last_result turns symbol))
          (write_result-latest ledger turn turn.result rows symbol)
      ∙ over_assoc (last_result turns symbol) (if turn.symbol == symbol then turn.result else none)
          (latest_price rows symbol))
  | inr e ↦ rw e refl
]

write_result-IsFresh :
    (ledger : ℕ) (turn : Turn) (result : Option ℤ) (rows : List OraclePriceRow)
    → IsFresh rows
    → IsFresh (write_result ledger turn result rows)
write_result-IsFresh ledger turn none rows h = h
write_result-IsFresh ledger turn (some price) rows h =
    elim (Bool-cases (is_latest (latest_price rows turn.symbol) price)) [
      | inl e ↦ rw e h
      | inr e ↦ rw e (is_latest-ne _ price e, h)
    ]

poll_tickers-IsFresh :
    (ledger : ℕ) (turns : List Turn) (rows : List OraclePriceRow)
    → IsFresh rows
    → IsFresh (poll_tickers ledger turns rows)
unfolding poll_tickers poll_ticker
poll_tickers-IsFresh ledger [] rows h = h
poll_tickers-IsFresh ledger (turn ∷ turns) rows h = elim (Bool-cases turn.running) [
  | inl e ↦ rw e (
      poll_tickers-IsFresh ledger turns (poll_ticker ledger turn rows)
        (write_result-IsFresh ledger turn turn.result rows h))
  | inr e ↦ rw e h
]

-- If no row of a table repeats the price of the row before it of the same symbol, then none does
-- after any number of the poller's rounds.
pub run_oracle_poller-IsFresh :
    (rounds : List Round) (rows : List OraclePriceRow)
    → IsFresh rows
    → IsFresh (run_oracle_poller rounds rows)
unfolding run_oracle_poller
run_oracle_poller-IsFresh [] rows h = h
run_oracle_poller-IsFresh (round ∷ rounds) rows h =
    run_oracle_poller-IsFresh rounds
      (poll_tickers (safe_latest_ledger round.latest_ledger) round.turns rows)
      (poll_tickers-IsFresh (safe_latest_ledger round.latest_ledger) round.turns rows h)
