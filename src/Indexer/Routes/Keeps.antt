-- ===== src/Indexer/Routes/Keeps.antt =====
-- packages/indexer/src/handlers/index.ts: which handlers write the vault's row, and at which address.
use stellars_finance_contrac.Base.{
  ◌&&◌, not, Option, none, some, [], ◌≡◌, ◌≢◌, refl, sym, subst, ◌∙◌, inl, inr, Bool-cases,
  if◌then◌else◌, arith,
}
use stellars_finance_contrac.Base.Int.{ℤ}
use stellars_finance_contrac.Base.Dict.{Dict, get, get-set}
use stellars_finance_contrac.Indexer.Vault.{VaultState}
use stellars_finance_contrac.Indexer.Pages.{HandlerEnd}
use stellars_finance_contrac.Indexer.Positions.{PositionDb}
use stellars_finance_contrac.Indexer.Routes.{
  ContractEvent, Tables, Addresses, Handler, write_positions, on_vault, on_positions, on_config,
  on_oracle, add_route, build_routes,
}
use Prim.Native.String.{String}
use text.Mathlib.Text.{◌==◌}
use text.Mathlib.TextEquality.{eq_iff}

-- The row after a handler, unless its statement fails.
abbrev pub EndsWith : Option VaultState → HandlerEnd Tables → Type 0
EndsWith row (HandlerEnd.returned t) = t.vault.vault_state ≡ row
EndsWith row (HandlerEnd.threw t) = t.vault.vault_state ≡ row
EndsWith row HandlerEnd.statement_failed = Unit

abbrev pub KeepsRow : Option Handler → Type 0
KeepsRow none = Unit
KeepsRow (some handler) =
    (e : ContractEvent) (t : Tables) → EndsWith t.vault.vault_state (handler e t)

write_positions-EndsWith :
    (t : Tables) (r : Option PositionDb) → EndsWith t.vault.vault_state (write_positions t r)
write_positions-EndsWith t none = refl
write_positions-EndsWith t (some db) = refl

on_positions-KeepsRow : (quotient : ℤ → ℤ → ℤ) → KeepsRow (some (on_positions quotient))
on_positions-KeepsRow quotient (ContractEvent.of_vault e) t = refl
on_positions-KeepsRow quotient (ContractEvent.of_position_manager e) t =
    write_positions-EndsWith t _
on_positions-KeepsRow quotient (ContractEvent.of_config_manager e) t = refl
on_positions-KeepsRow quotient (ContractEvent.of_oracle_router e) t = refl

on_config-KeepsRow : KeepsRow (some on_config)
on_config-KeepsRow (ContractEvent.of_vault e) t = refl
on_config-KeepsRow (ContractEvent.of_position_manager e) t = refl
on_config-KeepsRow (ContractEvent.of_config_manager e) t = refl
on_config-KeepsRow (ContractEvent.of_oracle_router e) t = refl

on_oracle-KeepsRow : KeepsRow (some on_oracle)
on_oracle-KeepsRow (ContractEvent.of_vault e) t = refl
on_oracle-KeepsRow (ContractEvent.of_position_manager e) t = refl
on_oracle-KeepsRow (ContractEvent.of_config_manager e) t = refl
on_oracle-KeepsRow (ContractEvent.of_oracle_router e) t = refl

get-add_route :
    (address : String) (handler : Handler) (routes : Dict Handler) (id : String)
    → get (add_route address handler routes) id
      ≡ (if not (address == "") && (address == id) then some handler else get routes id)
unfolding add_route
get-add_route address handler routes id =
    ground (arith, eq_iff address id, eq_iff address "", get-set routes address id handler)

add_route-KeepsRow :
    (address : String) (handler : Handler) (routes : Dict Handler) (id : String)
    → KeepsRow (some handler)
    → KeepsRow (get routes id)
    → KeepsRow (get (add_route address handler routes) id)
add_route-KeepsRow address handler routes id h rest =
    rw (get-add_route address handler routes id)
      (elim (Bool-cases (not (address == "") && (address == id))) [
        | inl e ↦ rw e h
        | inr e ↦ rw e rest
      ])

-- A route of another address is no route of this one.
skipped :
    (address : String) (handler : Handler) (routes : Dict Handler) (id : String)
    → address ≢ id
    → get (add_route address handler routes) id ≡ get routes id
skipped address handler routes id apart =
    ground (arith, eq_iff address id, get-add_route address handler routes id)

added :
    (address : String) (handler : Handler) (routes : Dict Handler)
    → address ≢ ""
    → get (add_route address handler routes) address ≡ some handler
added address handler routes named =
    ground (
      arith,
      eq_iff address address,
      eq_iff address "",
      get-add_route address handler routes address,
    )

-- The vault's address has the vault's handler, as the contracts' addresses differ.
pub get-build_routes-vault :
    (quotient : ℤ → ℤ → ℤ) (a : Addresses)
    → a.vault ≢ ""
    → a.vault ≢ a.config_manager
    → a.vault ≢ a.oracle_router
    → get (build_routes quotient a) a.vault ≡ some on_vault
unfolding build_routes
get-build_routes-vault quotient a named apart_config apart_oracle =
    skipped a.oracle_router on_oracle _ a.vault (λ e. apart_oracle (sym e))
    ∙ skipped a.config_manager on_config _ a.vault (λ e. apart_config (sym e))
    ∙ added a.vault on_vault _ named

-- No other address has a handler that writes the vault's row.
pub build_routes-KeepsRow :
    (quotient : ℤ → ℤ → ℤ) (a : Addresses) (id : String)
    → a.vault ≢ id
    → KeepsRow (get (build_routes quotient a) id)
unfolding build_routes get
build_routes-KeepsRow quotient a id apart =
    add_route-KeepsRow a.oracle_router on_oracle _ id on_oracle-KeepsRow (
      add_route-KeepsRow a.config_manager on_config _ id on_config-KeepsRow (
        subst KeepsRow (sym (skipped a.vault on_vault _ id apart)) (
          add_route-KeepsRow a.position_manager (on_positions quotient) [] id
            (on_positions-KeepsRow quotient) tt)))
