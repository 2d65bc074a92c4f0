-- ===== src/Indexer/PageTests.antt =====
-- The page loop's theorems at a page of the vault's events.
use stellars_finance_contrac.Base.{
  ℕ, zero, suc, Option, none, some, List, [], ◌∷◌, ◌≡◌, ◌⊎◌, refl, arith,
}
use Prim.Native.String.{String}
use text.Mathlib.TextEquality.{eq_iff}
use stellars_finance_contrac.Indexer.Spec.{RawEvent}
use stellars_finance_contrac.Indexer.Pages.{Page, State, resume, poll}
use stellars_finance_contrac.Indexer.Pages.Atomic.{page_effect, applied, poll-applied}
use stellars_finance_contrac.Indexer.Pages.Restart.{
  Step, IsResumable, pages, run as run_steps, poll_all, run-poll_all,
}
use stellars_finance_contrac.Indexer.Routes.{ContractEvent, Tables, Addresses, build_routes}
use stellars_finance_contrac.Indexer.Routes.Vault.{vault_events, poll-Mirrors}
use stellars_finance_contrac.Base.Int.{pos, ◌+ℤ◌}
use stellars_finance_contrac.Indexer.Vault.{VaultEvent}
use stellars_finance_contrac.Indexer.Vault.Contract.{initial_books}
use stellars_finance_contrac.Indexer.Vault.Mirror.{Mirrors}
use stellars_finance_contrac.Indexer.Vault.Run.{parsed, empty_table-Mirrors}
use stellars_finance_contrac.Indexer.Tests.{
  empty_db, tx, after_reserve, after_fees, transactions, run, config_db, position_db, opened,
  truncated,
}

abbrev tables : Tables
tables = record {
  vault = empty_db;
  positions = position_db;
  config = config_db;
  oracle = record { oracle_prices = []; oracle_config_events = [] };
}

abbrev addresses : Addresses
addresses = record {
  vault = "CV";
  position_manager = "CP";
  config_manager = "CC";
  oracle_router = "";
}

-- A page's events in order, each with its place as its value; the third is not the vault's.
abbrev parsed_events : List ContractEvent
parsed_events =
    ContractEvent.of_vault (parsed tx (VaultEvent.lockup "GA" (pos 9)))
    ∷ ContractEvent.of_vault (parsed tx (VaultEvent.deposit "GA" (pos 100) (pos 100)))
    ∷ ContractEvent.of_position_manager opened
    ∷ ContractEvent.of_vault (parsed tx (VaultEvent.total (pos 0 +ℤ pos 100)))
    ∷ ContractEvent.of_vault (parsed tx (VaultEvent.reserve (pos 40) (pos 0 +ℤ pos 40)))
    ∷ ContractEvent.of_vault (parsed tx (VaultEvent.fees (pos 2) (pos 0 +ℤ pos 2)))
    ∷ ContractEvent.of_vault (parsed tx (VaultEvent.total (after_reserve.total_assets +ℤ pos 5)))
    ∷ []

abbrev nth : ℕ → List ContractEvent → Option ContractEvent
nth n [] = none
nth zero (e ∷ es) = some e
nth (suc n) (e ∷ es) = nth n es

abbrev parse : RawEvent → Option (Option ContractEvent)
parse raw = some (nth raw.ledger parsed_events)

abbrev raw_event : String → ℕ → RawEvent
raw_event contract_id place = record {
  contract_id = contract_id;
  topic = [];
  value = "";
  ledger = place;
  tx_hash = "ab";
  ledger_closed_at = 1_700_000_000_000;
}

abbrev page : Page
page = record {
  events =
      raw_event "CV" 0
      ∷ raw_event "CV" 1
      ∷ raw_event "CP" 2
      ∷ raw_event "CV" 3
      ∷ raw_event "CV" 4
      ∷ raw_event "CV" 5
      ∷ raw_event "CV" 6
      ∷ [];
  latest_ledger = 7;
  next_cursor = "7-1";
  now = 1_700_000_001_000;
}

abbrev started : State Tables
started = record {
  memory = record { cursor = none; start_ledger = 1 };
  db = record { tables = tables; indexer_cursor = none };
}

poll-Mirrors_example :
    (poll (build_routes truncated addresses) parse page started ≡ started)
    ⊎ Mirrors
        (poll (build_routes truncated addresses) parse page started).db.tables.vault.vault_state
        after_fees
unfolding vault_events
poll-Mirrors_example =
    poll-Mirrors truncated addresses parse (λ e. ground (arith, eq_iff "CV" "", e))
      (λ e. ground (arith, eq_iff "CV" "CC", e)) (λ e. ground (arith, eq_iff "CV" "", e))
      initial_books after_fees transactions page started run refl empty_table-Mirrors

poll-applied_example :
    poll (build_routes truncated addresses) parse page started
    ≡ applied
        (build_routes truncated addresses)
        parse
        page
        started
        (page_effect (build_routes truncated addresses) parse page.events tables)
poll-applied_example = poll-applied (build_routes truncated addresses) parse page started

abbrev history : List Step
history = Step.killed page ∷ Step.restarted ∷ Step.unanswered ∷ Step.answered page ∷ []

run-poll_all_example :
    (run_steps (build_routes truncated addresses) parse 1 history started
      ≡ poll_all (build_routes truncated addresses) parse (pages history) started)
    × IsResumable 1 (run_steps (build_routes truncated addresses) parse 1 history started)
unfolding resume
run-poll_all_example = run-poll_all (build_routes truncated addresses) parse 1 history started refl
