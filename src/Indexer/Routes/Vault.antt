-- ===== src/Indexer/Routes/Vault.antt =====
-- packages/indexer/src: the vault's row under pages in which events of all contracts interleave.
use stellars_finance_contrac.Base.{
  Bool, true, false, Option, none, some, List, [], ◌∷◌, ◌++◌, ◌≡◌, ◌≢◌, ◌⊎◌, refl, sym, ap, subst,
  ◌∙◌, inl, inr, Bool-cases, if◌then◌else◌, arith,
}
use stellars_finance_contrac.Base.Int.{ℤ}
use stellars_finance_contrac.Base.Dict.{Dict, get}
use stellars_finance_contrac.Indexer.Event.{ParsedEvent}
use stellars_finance_contrac.Indexer.Spec.{RawEvent}
use stellars_finance_contrac.Indexer.Vault.{VaultEvent, VaultState}
use stellars_finance_contrac.Indexer.Vault.Contract.{Books}
use stellars_finance_contrac.Indexer.Vault.Mirror.{Mirrors}
use stellars_finance_contrac.Indexer.Vault.Run.{Transaction, VaultRun, index_all-Mirrors}
use stellars_finance_contrac.Indexer.Pages.{HandlerEnd, State, Page, advances, poll}
use stellars_finance_contrac.Indexer.Pages.Atomic.{
  parsed_effect, routed_effect, end_effect, page_effect, applied, poll-applied,
}
use stellars_finance_contrac.Indexer.Routes.Row.{
  row_effects, handle_vault_event-row, row_effects-append, events_in, index_all-row,
}
use stellars_finance_contrac.Indexer.Routes.Keeps.{
  EndsWith, KeepsRow, get-build_routes-vault, build_routes-KeepsRow,
}
use stellars_finance_contrac.Indexer.Routes.{
  ContractEvent, Tables, Addresses, Handler, on_vault, build_routes,
}
use text.Mathlib.Text.{◌==◌}
use text.Mathlib.TextEquality.{eq_iff}

module _ (quotient : ℤ → ℤ → ℤ) (a : Addresses)
    (parse : RawEvent → Option (Option ContractEvent)) where
  abbrev vault_event : Option (Option ContractEvent) → List (ParsedEvent VaultEvent)
  vault_event none = []
  vault_event (some none) = []
  vault_event (some (some (ContractEvent.of_vault e))) = e ∷ []
  vault_event (some (some (ContractEvent.of_position_manager e))) = []
  vault_event (some (some (ContractEvent.of_config_manager e))) = []
  vault_event (some (some (ContractEvent.of_oracle_router e))) = []

  -- The events of a page that come from the vault's address.
  unfoldable pub vault_events : List RawEvent → List (ParsedEvent VaultEvent)
  vault_events [] = []
  vault_events (raw ∷ events) =
      (if a.vault == raw.contract_id then vault_event (parse raw) else []) ++ vault_events events

  abbrev RowIs : Option VaultState → Option Tables → Type 0
  RowIs row none = Unit
  RowIs row (some t) = t.vault.vault_state ≡ row

  abbrev routes : Dict Handler
  routes = build_routes quotient a

  end-RowIs :
      (row : Option VaultState) (e : HandlerEnd Tables)
      → EndsWith row e
      → RowIs row (end_effect routes parse e)
  end-RowIs row (HandlerEnd.returned t) h = h
  end-RowIs row (HandlerEnd.threw t) h = h
  end-RowIs row HandlerEnd.statement_failed h = tt

  other-RowIs :
      (handler : Option Handler) (raw : RawEvent) (t : Tables)
      → KeepsRow handler
      → RowIs t.vault.vault_state (routed_effect routes parse handler raw t)
  other-RowIs none raw t h = refl
  other-RowIs (some handler) raw t h = kept (parse raw)
    where
      kept :
          (parsed : Option (Option ContractEvent))
          → RowIs t.vault.vault_state (parsed_effect routes parse handler parsed t)
      kept none = tt
      kept (some none) = refl
      kept (some (some e)) = end-RowIs t.vault.vault_state (handler e t) (h e t)

  vault-RowIs :
      (parsed : Option (Option ContractEvent)) (t : Tables)
      → RowIs
          (row_effects (vault_event parsed) t.vault.vault_state)
          (parsed_effect routes parse on_vault parsed t)
  vault-RowIs none t = tt
  vault-RowIs (some none) t = refl
  vault-RowIs (some (some (ContractEvent.of_vault e))) t = handle_vault_event-row e t.vault
  vault-RowIs (some (some (ContractEvent.of_position_manager e))) t = refl
  vault-RowIs (some (some (ContractEvent.of_config_manager e))) t = refl
  vault-RowIs (some (some (ContractEvent.of_oracle_router e))) t = refl

  -- One event, by its address.
  routed-RowIs :
      (raw : RawEvent) (t : Tables) (handler : Option Handler) (mine : Bool)
      → (mine ≡ true → handler ≡ some on_vault)
      → (mine ≡ false → KeepsRow handler)
      → RowIs
          (row_effects (if mine then vault_event (parse raw) else []) t.vault.vault_state)
          (routed_effect routes parse handler raw t)
  routed-RowIs raw t handler true at_vault other = rw (at_vault refl) (vault-RowIs (parse raw) t)
  routed-RowIs raw t handler false at_vault other = other-RowIs handler raw t (other refl)

  -- The events after one whose effect is known.
  rest-RowIs :
      (first : List (ParsedEvent VaultEvent)) (events : List RawEvent) (row : Option VaultState)
      (after : Option Tables)
      → RowIs (row_effects first row) after
      → ((t : Tables)
          → RowIs
              (row_effects (vault_events events) t.vault.vault_state)
              (page_effect routes parse events t))
      → RowIs
          (row_effects (first ++ vault_events events) row)
          (elim after [ none ↦ none | some next ↦ page_effect routes parse events next ])
  rest-RowIs first events row none h later = tt
  rest-RowIs first events row (some next) h later =
      subst (λ r. RowIs r (page_effect routes parse events next))
        (ap (row_effects (vault_events events)) h
          ∙ sym (row_effects-append first (vault_events events) row))
        (later next)

  module _ (named : a.vault ≢ "") (apart_config : a.vault ≢ a.config_manager)
      (apart_oracle : a.vault ≢ a.oracle_router) where
    raw-RowIs :
        (raw : RawEvent) (t : Tables)
        → RowIs
            (row_effects
              (if a.vault == raw.contract_id then vault_event (parse raw) else [])
              t.vault.vault_state)
            (routed_effect routes parse (get routes raw.contract_id) raw t)
    raw-RowIs raw t =
        routed-RowIs raw t (get routes raw.contract_id) (a.vault == raw.contract_id)
          (λ e.
            subst (λ id. get routes id ≡ some on_vault) ((eq_iff a.vault raw.contract_id).0 e)
              (get-build_routes-vault quotient a named apart_config apart_oracle))
          (λ e.
            build_routes-KeepsRow quotient a raw.contract_id
              (λ same. ground (arith, eq_iff a.vault raw.contract_id, same, e)))

    page_effect-RowIs :
        (events : List RawEvent) (t : Tables)
        → RowIs
            (row_effects (vault_events events) t.vault.vault_state)
            (page_effect routes parse events t)
    unfolding page_effect vault_events
    page_effect-RowIs [] t = refl
    page_effect-RowIs (raw ∷ events) t =
        rest-RowIs (if a.vault == raw.contract_id then vault_event (parse raw) else []) events
          t.vault.vault_state (routed_effect routes parse (get routes raw.contract_id) raw t)
          (raw-RowIs raw t) (page_effect-RowIs events)

    applied-Mirrors :
        (b last : Books) (txs : List (Transaction × List VaultEvent)) (page : Page)
        (s : State Tables) (after : Option Tables)
        → VaultRun b txs last
        → RowIs (row_effects (events_in txs) s.db.tables.vault.vault_state) after
        → Mirrors s.db.tables.vault.vault_state b
        → (applied routes parse page s after ≡ s)
          ⊎ Mirrors (applied routes parse page s after).db.tables.vault.vault_state last
    applied-Mirrors b last txs page s none run h m = inl refl
    applied-Mirrors b last txs page s (some t) run h m =
        let row =
          subst (λ r. Mirrors r last) (index_all-row txs s.db.tables.vault ∙ sym h)
            (index_all-Mirrors b last txs s.db.tables.vault run m) in
        inr (elim (Bool-cases (advances page.next_cursor s.memory.cursor)) [
          | inl e ↦ rw e row
          | inr e ↦ rw e row
        ])

    -- A page holds, among the events of other contracts, those of a sequence of the vault's calls.
    -- If the row mirrors the vault's books before these calls, then a round with this page either
    -- changes nothing or leaves a row that mirrors the books after them, as the vault's address is
    -- not empty and differs from those of the config manager and the oracle router.
    pub poll-Mirrors :
        (b last : Books) (txs : List (Transaction × List VaultEvent)) (page : Page)
        (s : State Tables)
        → VaultRun b txs last
        → vault_events page.events ≡ events_in txs
        → Mirrors s.db.tables.vault.vault_state b
        → (poll routes parse page s ≡ s)
          ⊎ Mirrors (poll routes parse page s).db.tables.vault.vault_state last
    poll-Mirrors b last txs page s run e m =
        subst (λ t. (t ≡ s) ⊎ Mirrors t.db.tables.vault.vault_state last)
          (sym (poll-applied routes parse page s))
          (applied-Mirrors b last txs page s (page_effect routes parse page.events s.db.tables) run
            (subst
              (λ es.
                RowIs (row_effects es s.db.tables.vault.vault_state)
                  (page_effect routes parse page.events s.db.tables))
              e (page_effect-RowIs page.events s.db.tables))
            m)
