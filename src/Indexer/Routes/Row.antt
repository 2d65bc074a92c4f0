-- ===== src/Indexer/Routes/Row.antt =====
-- packages/indexer/src/handlers/vault.ts: what the vault's events make of its row, whatever the other
-- tables hold.
use stellars_finance_contrac.Base.{Option, List, [], ◌∷◌, ◌++◌, map, ◌≡◌, refl, ap, ◌∙◌}
use stellars_finance_contrac.Indexer.Event.{ParsedEvent}
use stellars_finance_contrac.Indexer.Vault.{VaultEvent, VaultState, VaultDb}
use stellars_finance_contrac.Indexer.Vault.Handlers.{
  handle_deposit, handle_withdraw, handle_transfer, handle_absorbed_collateral, handle_pay_profit,
  handle_total_assets_update, handle_reserve, handle_release, handle_accrue_fees, handle_claim_fees,
  handle_net_pnl, handle_claim_fees_to, handle_pause, handle_lockup, dispatch, handle_vault_event,
}
use stellars_finance_contrac.Indexer.Vault.Run.{Transaction, parsed, index_events, index_all}

abbrev blank : Option VaultState → VaultDb
blank row = record {
  vault_state = row;
  vault_events = [];
  fee_events = [];
  pay_profit_events = [];
  pause_events = [];
  lp_transfers = [];
  vault_lockups = [];
}

-- What an event makes of the row of `vault_state`.
abbrev pub row_effect : ParsedEvent VaultEvent → Option VaultState → Option VaultState
row_effect e row = (handle_vault_event e (blank row)).vault_state

abbrev pub row_effects : List (ParsedEvent VaultEvent) → Option VaultState → Option VaultState
row_effects [] row = row
row_effects (e ∷ es) row = row_effects es (row_effect e row)

dispatch-row :
    (event : ParsedEvent VaultEvent) (e : VaultEvent) (db : VaultDb)
    → (dispatch event e db).vault_state ≡ (dispatch event e (blank db.vault_state)).vault_state
unfolding handle_deposit handle_withdraw handle_transfer handle_absorbed_collateral
    handle_pay_profit handle_total_assets_update handle_reserve handle_release handle_accrue_fees
    handle_claim_fees handle_net_pnl handle_claim_fees_to handle_pause handle_lockup
dispatch-row event (VaultEvent.deposit user assets shares) db = refl
dispatch-row event (VaultEvent.withdraw user assets shares) db = refl
dispatch-row event (VaultEvent.transfer from to muxed amount) db = refl
dispatch-row event (VaultEvent.pay_profit trader amount n) db = refl
dispatch-row event (VaultEvent.absorbed trader amount n) db = refl
dispatch-row event (VaultEvent.total n) db = refl
dispatch-row event (VaultEvent.reserve amount n) db = refl
dispatch-row event (VaultEvent.release amount n) db = refl
dispatch-row event (VaultEvent.fees amount n) db = refl
dispatch-row event (VaultEvent.claim amount recipient) db = refl
dispatch-row event (VaultEvent.net_pnl pnl) db = refl
dispatch-row event (VaultEvent.claim_to amount n recipient) db = refl
dispatch-row event (VaultEvent.pause is_paused caller) db = refl
dispatch-row event (VaultEvent.lockup user at) db = refl
dispatch-row event VaultEvent.other db = refl

pub handle_vault_event-row :
    (e : ParsedEvent VaultEvent) (db : VaultDb)
    → (handle_vault_event e db).vault_state ≡ row_effect e db.vault_state
unfolding handle_vault_event
handle_vault_event-row e db = dispatch-row e e.payload db

-- The events of the transactions, in order.
abbrev pub events_in : List (Transaction × List VaultEvent) → List (ParsedEvent VaultEvent)
events_in [] = []
events_in (t ∷ ts) = map (parsed t.0) t.1 ++ events_in ts

index_events-row :
    (tx : Transaction) (es : List VaultEvent) (db : VaultDb) (rest : List (ParsedEvent VaultEvent))
    → row_effects rest (index_events tx es db).vault_state
      ≡ row_effects (map (parsed tx) es ++ rest) db.vault_state
index_events-row tx [] db rest = refl
index_events-row tx (e ∷ es) db rest =
    index_events-row tx es (handle_vault_event (parsed tx e) db) rest
    ∙ ap (row_effects (map (parsed tx) es ++ rest)) (handle_vault_event-row (parsed tx e) db)

pub index_all-row :
    (txs : List (Transaction × List VaultEvent)) (db : VaultDb)
    → (index_all txs db).vault_state ≡ row_effects (events_in txs) db.vault_state
unfolding index_all
index_all-row [] db = refl
index_all-row (t ∷ ts) db =
    index_all-row ts (index_events t.0 t.1 db) ∙ index_events-row t.0 t.1 db (events_in ts)

pub row_effects-append :
    (es fs : List (ParsedEvent VaultEvent)) (row : Option VaultState)
    → row_effects (es ++ fs) row ≡ row_effects fs (row_effects es row)
row_effects-append [] fs row = refl
row_effects-append (e ∷ es) fs row = row_effects-append es fs (row_effect e row)
