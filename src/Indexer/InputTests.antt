-- ===== src/Indexer/InputTests.antt =====
-- The theorems on the indexer's inputs at concrete replies, events and prices.
use stellars_finance_contrac.Base.{
  ℕ, zero, suc, Bool, true, false, Option, none, some, List, [], ◌∷◌, map, ◌≡◌, refl, if◌then◌else◌,
  arith,
}
use stellars_finance_contrac.Base.Int.{pos}
use stellars_finance_contrac.Base.Dict.{Dict, get}
use stellars_finance_contrac.Indexer.Spec.{
  Shape, Sdk, EventFieldSpec, ContractSpecMaps, RawEvent, normalize, event_of, parse_event,
}
use stellars_finance_contrac.Indexer.Spec.Formats.{Reads}
use stellars_finance_contrac.Indexer.Spec.RoundTrip.{parse_event-Reads}
use stellars_finance_contrac.Indexer.Rpc.{
  Pattern, Reply, Outcome, Request, request_of, fetch_events,
}
use stellars_finance_contrac.Indexer.Rpc.Retry.{Ends, fetch_events-Ends}
use stellars_finance_contrac.Indexer.Poller.{
  Turn, Round, latest_price, poll_tickers, run_oracle_poller,
}
use stellars_finance_contrac.Indexer.Poller.Fresh.{
  IsFresh, over, last_result, poll_tickers-latest, run_oracle_poller-IsFresh,
}
use Prim.Native.String.{String}
use text.Mathlib.Text.{◌==◌}
use text.Mathlib.TextEquality.{eq_iff}

-- The node limits the rate of the first request and answers the second.
abbrev limited : Pattern → String → Bool
limited Pattern.too_many_requests message = message == "429"
limited Pattern.custom_rate_limit message = false
limited Pattern.server_error message = false
limited Pattern.connection_failure message = false

abbrev node : Request → ℕ → Reply ℕ
node request zero = Reply.failed "429"
node request (suc n) = Reply.answered 7

abbrev no_jitter : ℕ → ℕ
no_jitter n = 0

fetch_events-Ends_example :
    (o : Outcome ℕ) × (fetch_events limited no_jitter node 5 none ≡ some o)
    × Ends limited no_jitter node (request_of none 5) 0 o
fetch_events-Ends_example = fetch_events-Ends limited no_jitter node (λ k. omega arith) 5 none

-- A decoded value: a text, an address, or a pair of texts.
data Value : Type 0 where
  text_value address_value : String → Value
  pair_value : String → String → Value

abbrev decoded : String → Option Value
decoded b64 =
    if b64 == "AAAA"
    then some (text_value "deposit")
    else if b64 == "BBBB"
    then some (address_value "GA")
    else if b64 == "CCCC"
    then some (pair_value "100" "90")
    else none

abbrev shaped : Value → Shape Value
shaped (text_value s) = Shape.single
shaped (address_value s) = Shape.object []
shaped (pair_value a b) = Shape.array (text_value a ∷ text_value b ∷ [])

abbrev as_address : Value → Option Value
as_address (text_value s) = none
as_address (address_value s) = some (text_value s)
as_address (pair_value a b) = none

abbrev as_text : Value → Option String
as_text (text_value s) = some s
as_text (address_value s) = none
as_text (pair_value a b) = none

abbrev sdk : Sdk Value
sdk = record { decode = decoded; shape = shaped; address_string = as_address; as_string = as_text }

abbrev deposit : EventFieldSpec
deposit = record { topic_fields = "user" ∷ []; data_fields = "assets" ∷ "shares" ∷ [] }

abbrev specs : Dict EventFieldSpec
specs = ("deposit", deposit) ∷ []

abbrev maps : ContractSpecMaps
maps = ("CV", specs) ∷ []

abbrev raw : RawEvent
raw = record {
  contract_id = "CV";
  topic = "AAAA" ∷ "BBBB" ∷ [];
  value = "CCCC";
  ledger = 7;
  tx_hash = "ab";
  ledger_closed_at = 1_700_000_000_000;
}

parse_event-Reads_example :
    (fields : Dict Value) × (parse_event sdk raw maps
      ≡ some (some (event_of sdk raw (some "deposit") fields)))
    × Reads sdk fields
        ("user" ∷ "assets" ∷ "shares" ∷ [])
        (map (normalize sdk) (address_value "GA" ∷ text_value "100" ∷ text_value "90" ∷ []))
unfolding get normalize
parse_event-Reads_example =
    parse_event-Reads sdk raw maps "AAAA" ("BBBB" ∷ []) (text_value "deposit") "deposit" specs
      deposit (pair_value "100" "90") (address_value "GA" ∷ [])
      (text_value "100" ∷ text_value "90" ∷ []) refl refl refl refl refl (refl, tt) refl refl
      (refl, refl)
      (
        (
          λ e. ground (arith, eq_iff "user" "assets", e),
          (λ e. ground (arith, eq_iff "user" "shares", e), tt),
        ),
        ((λ e. ground (arith, eq_iff "assets" "shares", e), tt), (tt, tt)),
      )

-- The router gives a price for one ticker and none for the other.
abbrev turns : List Turn
turns =
    (record { symbol = "BTC"; running = true; result = some (pos 50); now = 1_700_000_000_000 })
    ∷ (record { symbol = "ETH"; running = true; result = none; now = 1_700_000_000_500 })
    ∷ []

poll_tickers-latest_example :
    latest_price (poll_tickers 7 turns []) "BTC"
    ≡ over (last_result turns "BTC") (latest_price [] "BTC")
poll_tickers-latest_example = poll_tickers-latest 7 turns [] "BTC"

abbrev round : Round
round = record { latest_ledger = some 7; turns = turns }

run_oracle_poller-IsFresh_example : IsFresh (run_oracle_poller (round ∷ round ∷ []) [])
run_oracle_poller-IsFresh_example = run_oracle_poller-IsFresh (round ∷ round ∷ []) [] tt
