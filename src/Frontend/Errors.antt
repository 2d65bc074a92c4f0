-- ===== src/Frontend/Errors.antt =====
-- packages/frontend/src/lib/contract-errors.ts: the message for anything that is thrown. The engine of
-- the regular expressions, `Number` and the SDK's decoding of an event are parameters.
pub mod Lookup
pub mod Tables
pub mod Labels
use stellars_finance_contrac.Base.{ℕ, ◌==◌, Bool, Option, none, some, List, [], ◌∷◌, if◌then◌else◌}
use stellars_finance_contrac.Base.Dict.{Dict, get, set}
use stellars_finance_contrac.Frontend.Errors.Tables.{
  Variant, ErrorTable, position_manager_errors, vault_errors, oracle_router_errors,
  config_manager_errors, oracle_errors, tx_result_messages,
}
use Prim.Native.String.{String, ◌++◌}
use text.Mathlib.Text

-- `CONTRACTS`, with an empty text where no address is configured.
pub record Contracts : Type 0 where
  pub position_manager : String
  pub vault : String
  pub oracle_router : String
  pub config_manager : String
  pub oracle : String

abbrev pub add_table : String → ErrorTable → Dict ErrorTable → Dict ErrorTable
add_table address table tables = if Text.◌==◌ address "" then tables else set tables address table

unfoldable pub build_contract_map : Contracts → Dict ErrorTable
build_contract_map c = add_table c.oracle oracle_errors (
    add_table c.config_manager config_manager_errors (
      add_table c.oracle_router oracle_router_errors
        (add_table c.vault vault_errors (add_table c.position_manager position_manager_errors []))))

pub record ParsedContractError : Type 0 where
  pub message : String
  pub name : Option String
  pub contract : Option String
  pub code : ℕ

-- The three regular expressions.
pub data Pattern : Type 0 where
  contract_error contract_id tx_code : Pattern

-- `exec` gives the first group of the first match; `number` is `none` where `Number` is not finite.
pub record Runtime : Type 0 where
  pub exec : Pattern → String → Option String
  pub number : String → Option ℕ
  pub decimal : ℕ → String

-- What is thrown: nothing, a text, an error with the message of its details and its stack, or another
-- value with its JSON, which is `none` where `JSON.stringify` throws, and with its own text.
pub data Thrown : Type 0 where
  nothing : Thrown
  text_of : String → Thrown
  error_of : (details : Option String) → (message : String) → (stack : Option String) → Thrown
  value_of : (json : Option String) → (own : String) → Thrown

abbrev pub or_empty : Option String → String
or_empty none = ""
or_empty (some s) = s

unfoldable pub stringify_error : Thrown → String
stringify_error Thrown.nothing = ""
stringify_error (Thrown.text_of s) = s
stringify_error (Thrown.error_of (some details) message stack) = details
stringify_error (Thrown.error_of none message stack) = message ++ " " ++ or_empty stack
stringify_error (Thrown.value_of (some json) own) = json
stringify_error (Thrown.value_of none own) = own

-- `table?.by[code]`
unfoldable pub variant_at : List (ℕ × Variant) → ℕ → Option Variant
variant_at [] code = none
variant_at (entry ∷ entries) code =
    if entry.0 == code then some entry.1 else variant_at entries code

module _ (runtime : Runtime) (contracts : Contracts) where
  unfoldable pub ambiguous : ℕ → ParsedContractError
  ambiguous code = record {
    message = "Contract error #" ++ runtime.decimal code;
    name = none;
    contract = none;
    code = code;
  }

  abbrev pub labelled : ℕ → ErrorTable → Option Variant → ParsedContractError
  labelled code table none = ambiguous code
  labelled code table (some v) = record {
    message = v.message;
    name = some v.name;
    contract = some table.contract;
    code = code;
  }

  abbrev pub by_table : ℕ → Option ErrorTable → ParsedContractError
  by_table code none = ambiguous code
  by_table code (some table) = labelled code table (variant_at table.by code)

  -- The error of a code, and of the contract's id if there is one.
  unfoldable pub resolve : ℕ → Option String → ParsedContractError
  resolve code none = ambiguous code
  resolve code (some id) = by_table code (get (build_contract_map contracts) id)

  abbrev pub by_code : String → Option ℕ → Option ParsedContractError
  by_code s none = none
  by_code s (some code) = some (resolve code (runtime.exec Pattern.contract_id s))

  abbrev pub by_match : String → Option String → Option ParsedContractError
  by_match s none = none
  by_match s (some digits) = by_code s (runtime.number digits)

  unfoldable pub parse_contract_error : Thrown → Option ParsedContractError
  parse_contract_error input =
      let s = stringify_error input in
      if Text.◌==◌ s "" then none else by_match s (runtime.exec Pattern.contract_error s)

  unfoldable pub tx_result_code_to_message : Option String → Option String
  tx_result_code_to_message none = none
  tx_result_code_to_message (some code) =
      if Text.◌==◌ code "" then none else get tx_result_messages code

  -- What is left when no table knows the text.
  unfoldable pub raw_message : Thrown → String
  raw_message Thrown.nothing = "null"
  raw_message (Thrown.text_of s) = s
  raw_message (Thrown.error_of details message stack) = message
  raw_message (Thrown.value_of (some json) own) = json
  raw_message (Thrown.value_of none own) = "Something went wrong."

  abbrev pub friendly_or_raw : Thrown → Option String → String
  friendly_or_raw input (some friendly) = friendly
  friendly_or_raw input none = raw_message input

  abbrev pub message_or : Thrown → Option ParsedContractError → String
  message_or input (some parsed) = parsed.message
  message_or input none =
      friendly_or_raw input
        (tx_result_code_to_message (runtime.exec Pattern.tx_code (stringify_error input)))

  unfoldable pub to_error_message : Thrown → String
  to_error_message input = message_or input (parse_contract_error input)

  -- A diagnostic event as the SDK decodes it: the code of a contract's error, `none` for any other
  -- value or where the decoding throws, and the id of the contract, `none` if it cannot be read.
  abbrev pub from_event : Option ℕ → Option String → Option ParsedContractError
  from_event none id = none
  from_event (some code) id = some (resolve code id)

  unfoldable pub parse_diagnostic_event_for_error :
      Option ℕ × Option String → Option ParsedContractError
  parse_diagnostic_event_for_error event = from_event event.0 event.1

  unfoldable pub extract_contract_error :
      List (Option ℕ × Option String) → Option ParsedContractError
  extract_contract_error [] = none
  extract_contract_error (event ∷ events) = elim (parse_diagnostic_event_for_error event) [
    | some parsed ↦ some parsed
    | none ↦ extract_contract_error events
  ]
