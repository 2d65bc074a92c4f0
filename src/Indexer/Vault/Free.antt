-- ===== src/Indexer/Vault/Free.antt =====
-- The stored free liquidity, whatever events arrive.
use stellars_finance_contrac.Base.{ℕ, Bool, Option, none, some, List, [], ◌∷◌, ◌≡◌, refl}
use stellars_finance_contrac.Base.Int.{◌-ℤ◌}
use stellars_finance_contrac.Indexer.Event.{ParsedEvent, upsert}
use stellars_finance_contrac.Indexer.Vault.{VaultEvent, VaultState, VaultDb, default_state}
use stellars_finance_contrac.Indexer.Vault.Handlers.{
  floor_zero, free_of, recompute_free_liquidity, handle_deposit, handle_withdraw, handle_transfer,
  handle_absorbed_collateral, handle_pay_profit, handle_total_assets_update, handle_reserve,
  handle_release, handle_accrue_fees, handle_claim_fees, handle_net_pnl, handle_claim_fees_to,
  handle_pause, handle_lockup, dispatch, handle_vault_event,
}

-- The row's free liquidity is what its other columns give.
abbrev pub IsFree : Option VaultState → Type 0
IsFree none = Unit
IsFree (some s) = s.free_liquidity ≡ free_of s

recompute-IsFree :
    (ledger : ℕ) (row : Option VaultState) → IsFree (recompute_free_liquidity ledger row)
unfolding recompute_free_liquidity
recompute-IsFree ledger none = tt
recompute-IsFree ledger (some s) = refl

pause-IsFree :
    (ledger : ℕ) (paused : Bool) (row : Option VaultState)
    → IsFree row
    → IsFree (
        upsert
          (record default_state { is_paused = paused; updated_at_ledger = ledger })
          (λ s. record s { is_paused = paused; updated_at_ledger = ledger })
          row)
unfolding floor_zero ◌-ℤ◌
pause-IsFree ledger paused none h = refl
pause-IsFree ledger paused (some s) h = h

dispatch-IsFree :
    (event : ParsedEvent VaultEvent) (e : VaultEvent) (db : VaultDb)
    → IsFree db.vault_state
    → IsFree (dispatch event e db).vault_state
unfolding handle_deposit handle_withdraw handle_transfer handle_absorbed_collateral
    handle_pay_profit handle_total_assets_update handle_reserve handle_release handle_accrue_fees
    handle_claim_fees handle_net_pnl handle_claim_fees_to handle_pause handle_lockup
dispatch-IsFree event (VaultEvent.deposit user assets shares) db h = recompute-IsFree event.ledger _
dispatch-IsFree event (VaultEvent.withdraw user assets shares) db h =
    recompute-IsFree event.ledger _
dispatch-IsFree event (VaultEvent.transfer from to muxed amount) db h = h
dispatch-IsFree event (VaultEvent.pay_profit trader amount n) db h = recompute-IsFree event.ledger _
dispatch-IsFree event (VaultEvent.absorbed trader amount n) db h = recompute-IsFree event.ledger _
dispatch-IsFree event (VaultEvent.total n) db h = recompute-IsFree event.ledger _
dispatch-IsFree event (VaultEvent.reserve amount n) db h = recompute-IsFree event.ledger _
dispatch-IsFree event (VaultEvent.release amount n) db h = recompute-IsFree event.ledger _
dispatch-IsFree event (VaultEvent.fees amount n) db h = recompute-IsFree event.ledger _
dispatch-IsFree event (VaultEvent.claim amount recipient) db h = recompute-IsFree event.ledger _
dispatch-IsFree event (VaultEvent.net_pnl pnl) db h = recompute-IsFree event.ledger _
dispatch-IsFree event (VaultEvent.claim_to amount n recipient) db h =
    recompute-IsFree event.ledger _
dispatch-IsFree event (VaultEvent.pause is_paused caller) db h =
    pause-IsFree event.ledger is_paused db.vault_state h
dispatch-IsFree event (VaultEvent.lockup user at) db h = h
dispatch-IsFree event VaultEvent.other db h = h

abbrev pub handle_all : List (ParsedEvent VaultEvent) → VaultDb → VaultDb
handle_all [] db = db
handle_all (e ∷ es) db = handle_all es (handle_vault_event e db)

-- After any sequence of vault events, in any order and with any repetitions, the stored free
-- liquidity is what the row's other columns give, if it was before.
pub handle_all-IsFree :
    (es : List (ParsedEvent VaultEvent)) (db : VaultDb)
    → IsFree db.vault_state
    → IsFree (handle_all es db).vault_state
unfolding handle_vault_event
handle_all-IsFree [] db h = h
handle_all-IsFree (e ∷ es) db h =
    handle_all-IsFree es (handle_vault_event e db) (dispatch-IsFree e e.payload db h)
