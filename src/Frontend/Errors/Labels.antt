-- ===== src/Frontend/Errors/Labels.antt =====
-- packages/frontend/src/lib/contract-errors.ts: the table that an error's message comes from.
use stellars_finance_contrac.Base.{
  ℕ, ◌≡◌, ◌≢◌, refl, sym, ap, ◌∙◌, Bool, true, false, Option, none, some, if◌then◌else◌, arith,
}
use stellars_finance_contrac.Base.Dict.{get}
use stellars_finance_contrac.Frontend.Errors.Tables.{Variant, ErrorTable}
use stellars_finance_contrac.Frontend.Errors.{
  Contracts, build_contract_map, ParsedContractError, Pattern, Runtime, Thrown, stringify_error,
  variant_at, ambiguous, labelled, by_table, resolve, by_code, by_match, parse_contract_error,
  to_error_message,
}
use Prim.Native.String.{String}
use mathlib.Core.Option.{none-ne-some, some-injective}
use text.Mathlib.Text.{◌==◌}
use text.Mathlib.TextEquality.{eq_iff}
use stellars_finance_contrac.Frontend.Errors.Lookup.{
  Contract, table_of, address_of, IsOwn, build_contract_map-IsOwn, found, get-build_contract_map,
}

text_filled : (s : String) → s ≢ "" → (s == "") ≡ false
text_filled s h = ground (arith, eq_iff s "")

module _ (runtime : Runtime) (cs : Contracts) where
  -- An error text with a contract's address, which no other contract has, and with a code of that
  -- contract's own table gives the message of this code in this table.
  pub to_error_message-own :
      (c : Contract) (input : Thrown) (digits : String) (code : ℕ) (v : Variant)
      → address_of cs c ≢ ""
      → ((d : Contract) → address_of cs d ≡ address_of cs c → table_of d ≡ table_of c)
      → stringify_error input ≢ ""
      → runtime.exec Pattern.contract_error (stringify_error input) ≡ some digits
      → runtime.number digits ≡ some code
      → runtime.exec Pattern.contract_id (stringify_error input) ≡ some (address_of cs c)
      → variant_at (table_of c).by code ≡ some v
      → to_error_message runtime cs input ≡ v.message
  unfolding to_error_message parse_contract_error resolve
  to_error_message-own c input digits code v named alone filled matched counted located listed =
      rw
        (
          text_filled (stringify_error input) filled,
          matched,
          counted,
          located,
          get-build_contract_map cs c named alone,
          listed,
        )
        refl

  labelled-own :
      (code : ℕ) (id name : String) (table : ErrorTable) (v : Option Variant)
      → IsOwn cs id (some table)
      → (labelled runtime cs code table v).contract ≡ some name
      → (d : Contract) × (address_of cs d ≡ id) × ((table_of d).contract ≡ name)
  unfolding ambiguous
  labelled-own code id name table none own h = absurd (none-ne-some name h)
  labelled-own code id name table (some v) own h = (
    own.0,
    own.1,
    ap (λ (t : ErrorTable). t.contract) (sym own.2) ∙ some-injective table.contract name h,
  )

  by_table-own :
      (code : ℕ) (id name : String) (table : Option ErrorTable)
      → IsOwn cs id table
      → (by_table runtime cs code table).contract ≡ some name
      → (d : Contract) × (address_of cs d ≡ id) × ((table_of d).contract ≡ name)
  unfolding ambiguous
  by_table-own code id name none own h = absurd (none-ne-some name h)
  by_table-own code id name (some table) own h =
      labelled-own code id name table (variant_at table.by code) own h

  resolve-own :
      (code : ℕ) (name : String) (id : Option String)
      → (resolve runtime cs code id).contract ≡ some name
      → (d : Contract) × (id ≡ some (address_of cs d)) × ((table_of d).contract ≡ name)
  unfolding resolve ambiguous
  resolve-own code name none h = absurd (none-ne-some name h)
  resolve-own code name (some id) h =
      let own =
        by_table-own code id name (get (build_contract_map cs) id) (build_contract_map-IsOwn cs id)
          h in
      (own.0, ap (λ a. some a) (sym own.1), own.2)

  code_own :
      (s : String) (code : Option ℕ) (e : ParsedContractError) (name : String)
      → by_code runtime cs s code ≡ some e
      → e.contract ≡ some name
      → (d : Contract) × (runtime.exec Pattern.contract_id s ≡ some (address_of cs d))
        × ((table_of d).contract ≡ name)
  code_own s none e name h named = absurd (none-ne-some e h)
  code_own s (some code) e name h named =
      resolve-own code name (runtime.exec Pattern.contract_id s) (
        ap (λ (p : ParsedContractError). p.contract)
          (some-injective (resolve runtime cs code (runtime.exec Pattern.contract_id s)) e h)
        ∙ named)

  match_own :
      (s : String) (digits : Option String) (e : ParsedContractError) (name : String)
      → by_match runtime cs s digits ≡ some e
      → e.contract ≡ some name
      → (d : Contract) × (runtime.exec Pattern.contract_id s ≡ some (address_of cs d))
        × ((table_of d).contract ≡ name)
  match_own s none e name h named = absurd (none-ne-some e h)
  match_own s (some digits) e name h named = code_own s (runtime.number digits) e name h named

  guard_own :
      (s : String) (blank : Bool) (found : Option ParsedContractError) (e : ParsedContractError)
      → (if blank then none else found) ≡ some e
      → found ≡ some e
  guard_own s true found e h = absurd (none-ne-some e h)
  guard_own s false found e h = h

  -- The name of a contract is given only if the address of that contract stands in the error's text;
  -- a code without a known address is never ascribed to a contract.
  pub parse_contract_error-own :
      (input : Thrown) (e : ParsedContractError) (name : String)
      → parse_contract_error runtime cs input ≡ some e
      → e.contract ≡ some name
      → (d : Contract) × (runtime.exec Pattern.contract_id (stringify_error input)
          ≡ some (address_of cs d))
        × ((table_of d).contract ≡ name)
  unfolding parse_contract_error
  parse_contract_error-own input e name h named =
      let s = stringify_error input in
      match_own s (runtime.exec Pattern.contract_error s) e name
        (guard_own s (s == "") (by_match runtime cs s (runtime.exec Pattern.contract_error s)) e h)
        named
