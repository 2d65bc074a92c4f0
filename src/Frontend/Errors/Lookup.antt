-- ===== src/Frontend/Errors/Lookup.antt =====
-- packages/frontend/src/lib/contract-errors.ts: a contract's table, looked up by its address.
use stellars_finance_contrac.Base.{
  ◌≡◌, ◌≢◌, refl, ap, subst, ◌∙◌, not, ◌&&◌, inl, inr, Bool-cases, Option, none, some, List, [],
  ◌∷◌, In, if◌then◌else◌, arith,
}
use stellars_finance_contrac.Base.Dict.{Dict, get, get-set}
use stellars_finance_contrac.Frontend.Errors.Tables.{
  ErrorTable, position_manager_errors, vault_errors, oracle_router_errors, config_manager_errors,
  oracle_errors,
}
use stellars_finance_contrac.Frontend.Errors.{Contracts, add_table, build_contract_map}
use Prim.Native.String.{String}
use text.Mathlib.Text.{◌==◌}
use text.Mathlib.TextEquality.{eq_iff}

pub data Contract : Type 0 where
  position_manager vault oracle_router config_manager oracle : Contract

abbrev pub table_of : Contract → ErrorTable
table_of Contract.position_manager = position_manager_errors
table_of Contract.vault = vault_errors
table_of Contract.oracle_router = oracle_router_errors
table_of Contract.config_manager = config_manager_errors
table_of Contract.oracle = oracle_errors

abbrev pub address_of : Contracts → Contract → String
address_of cs Contract.position_manager = cs.position_manager
address_of cs Contract.vault = cs.vault
address_of cs Contract.oracle_router = cs.oracle_router
address_of cs Contract.config_manager = cs.config_manager
address_of cs Contract.oracle = cs.oracle

-- A table that is found under an address is that of a contract at the address.
abbrev pub IsOwn : Contracts → String → Option ErrorTable → Type 0
IsOwn cs id none = Unit
IsOwn cs id (some table) = (c : Contract) × (address_of cs c ≡ id) × (table ≡ table_of c)

get-add_table :
    (address : String) (table : ErrorTable) (tables : Dict ErrorTable) (id : String)
    → get (add_table address table tables) id
      ≡ (if not (address == "") && (address == id) then some table else get tables id)
get-add_table address table tables id =
    ground (arith, eq_iff address id, eq_iff address "", get-set tables address id table)

add_table-IsOwn :
    (cs : Contracts) (c : Contract) (tables : Dict ErrorTable) (id : String)
    → IsOwn cs id (get tables id)
    → IsOwn cs id (get (add_table (address_of cs c) (table_of c) tables) id)
add_table-IsOwn cs c tables id h =
    rw (get-add_table (address_of cs c) (table_of c) tables id)
      (elim (Bool-cases (not (address_of cs c == "") && (address_of cs c == id))) [
        | inl e ↦ rw e (c, ground (arith, eq_iff (address_of cs c) id, e), refl)
        | inr e ↦ rw e h
      ])

pub build_contract_map-IsOwn :
    (cs : Contracts) (id : String) → IsOwn cs id (get (build_contract_map cs) id)
unfolding build_contract_map get
build_contract_map-IsOwn cs id = add_table-IsOwn cs Contract.oracle _ id (
    add_table-IsOwn cs Contract.config_manager _ id (
      add_table-IsOwn cs Contract.oracle_router _ id (
        add_table-IsOwn cs Contract.vault _ id
          (add_table-IsOwn cs Contract.position_manager [] id tt))))

module _ (cs : Contracts) (c : Contract) (named : address_of cs c ≢ "") where
  added :
      (table : ErrorTable) (tables : Dict ErrorTable)
      → get (add_table (address_of cs c) table tables) (address_of cs c) ≢ none
  added table tables e = ground (
    arith,
    eq_iff (address_of cs c) "",
    eq_iff (address_of cs c) (address_of cs c),
    get-add_table (address_of cs c) table tables (address_of cs c),
  )

  kept :
      (address : String) (table : ErrorTable) (tables : Dict ErrorTable)
      → get tables (address_of cs c) ≢ none
      → get (add_table address table tables) (address_of cs c) ≢ none
  kept address table tables h e =
      ground (arith, get-add_table address table tables (address_of cs c))

-- The map is filled contract by contract, the last first.
abbrev tables_of : Contracts → List Contract → Dict ErrorTable
tables_of cs [] = []
tables_of cs (d ∷ ds) = add_table (address_of cs d) (table_of d) (tables_of cs ds)

abbrev order : List Contract
order =
    Contract.oracle ∷ Contract.config_manager ∷ Contract.oracle_router ∷ Contract.vault
    ∷ Contract.position_manager ∷ []

sorted_rows : (c : Contract) → In c order
sorted_rows Contract.oracle = inl refl
sorted_rows Contract.config_manager = inr (inl refl)
sorted_rows Contract.oracle_router = inr (inr (inl refl))
sorted_rows Contract.vault = inr (inr (inr (inl refl)))
sorted_rows Contract.position_manager = inr (inr (inr (inr (inl refl))))

lookup_first :
    (cs : Contracts) (c : Contract) (ds : List Contract)
    → address_of cs c ≢ ""
    → In c ds
    → get (tables_of cs ds) (address_of cs c) ≢ none
lookup_first cs c [] h i = absurd i
lookup_first cs c (d ∷ ds) h (inl e) =
    subst
      (λ b.
        get (add_table (address_of cs b) (table_of b) (tables_of cs ds)) (address_of cs c) ≢ none)
      e (added cs c h (table_of c) (tables_of cs ds))
lookup_first cs c (d ∷ ds) h (inr i) =
    kept cs c h (address_of cs d) (table_of d) (tables_of cs ds) (lookup_first cs c ds h i)

pub found :
    (cs : Contracts) (c : Contract)
    → address_of cs c ≢ ""
    → get (build_contract_map cs) (address_of cs c) ≢ none
unfolding build_contract_map
found cs c h = lookup_first cs c order h (sorted_rows c)

own_table :
    (cs : Contracts) (c : Contract) (o : Option ErrorTable)
    → ((d : Contract) → address_of cs d ≡ address_of cs c → table_of d ≡ table_of c)
    → o ≢ none
    → IsOwn cs (address_of cs c) o
    → o ≡ some (table_of c)
own_table cs c none alone present own = absurd (present refl)
own_table cs c (some table) alone present own = ap (λ t. some t) (own.2 ∙ alone own.0 own.1)

pub get-build_contract_map :
    (cs : Contracts) (c : Contract)
    → address_of cs c ≢ ""
    → ((d : Contract) → address_of cs d ≡ address_of cs c → table_of d ≡ table_of c)
    → get (build_contract_map cs) (address_of cs c) ≡ some (table_of c)
get-build_contract_map cs c named alone =
    own_table cs c _ alone (found cs c named) (build_contract_map-IsOwn cs (address_of cs c))
