-- ===== src/Indexer/Vault/Replay.antt =====
-- A second delivery of an event: which handlers leave the row as the first did.
use stellars_finance_contrac.Base.{ℕ, Bool, Option, none, some, ◌≡◌, refl}
use stellars_finance_contrac.Base.Int.{ℤ}
use stellars_finance_contrac.Indexer.Event.{ParsedEvent, upsert}
use stellars_finance_contrac.Indexer.Vault.{VaultEvent, VaultState, VaultDb, default_state}
use stellars_finance_contrac.Indexer.Vault.Handlers.{
  write_column, update_column, recompute_free_liquidity, handle_transfer,
  handle_absorbed_collateral, handle_pay_profit, handle_total_assets_update, handle_reserve,
  handle_release, handle_accrue_fees, handle_net_pnl, handle_pause, handle_lockup,
  handle_vault_event, dispatch,
}

-- The event carries no change that a handler would add to what the row holds.
abbrev pub IsAbsolute : VaultEvent → Type 0
IsAbsolute (VaultEvent.deposit user assets shares) = ⊥
IsAbsolute (VaultEvent.withdraw user assets shares) = ⊥
IsAbsolute (VaultEvent.transfer from to muxed amount) = Unit
IsAbsolute (VaultEvent.pay_profit trader amount n) = Unit
IsAbsolute (VaultEvent.absorbed trader amount n) = Unit
IsAbsolute (VaultEvent.total n) = Unit
IsAbsolute (VaultEvent.reserve amount n) = Unit
IsAbsolute (VaultEvent.release amount n) = Unit
IsAbsolute (VaultEvent.fees amount n) = Unit
IsAbsolute (VaultEvent.claim amount recipient) = ⊥
IsAbsolute (VaultEvent.net_pnl pnl) = Unit
IsAbsolute (VaultEvent.claim_to amount n recipient) = ⊥
IsAbsolute (VaultEvent.pause is_paused caller) = Unit
IsAbsolute (VaultEvent.lockup user at) = Unit
IsAbsolute VaultEvent.other = Unit

total_twice :
    (ledger : ℕ) (n : ℤ) (row : Option VaultState)
    → let write = write_column ledger (λ s. record s { total_assets = n }) in
      write (write row) ≡ write row
unfolding recompute_free_liquidity
total_twice ledger n none = refl
total_twice ledger n (some s) = refl

total_update_twice :
    (ledger : ℕ) (n : ℤ) (row : Option VaultState)
    → let write = update_column ledger (λ s. record s { total_assets = n }) in
      write (write row) ≡ write row
unfolding recompute_free_liquidity
total_update_twice ledger n none = refl
total_update_twice ledger n (some s) = refl

reserved_twice :
    (ledger : ℕ) (n : ℤ) (row : Option VaultState)
    → let write = write_column ledger (λ s. record s { reserved_usdc = n }) in
      write (write row) ≡ write row
unfolding recompute_free_liquidity
reserved_twice ledger n none = refl
reserved_twice ledger n (some s) = refl

reserved_update_twice :
    (ledger : ℕ) (n : ℤ) (row : Option VaultState)
    → let write = update_column ledger (λ s. record s { reserved_usdc = n }) in
      write (write row) ≡ write row
unfolding recompute_free_liquidity
reserved_update_twice ledger n none = refl
reserved_update_twice ledger n (some s) = refl

fees_twice :
    (ledger : ℕ) (n : ℤ) (row : Option VaultState)
    → let write = write_column ledger (λ s. record s { unclaimed_fees = n }) in
      write (write row) ≡ write row
unfolding recompute_free_liquidity
fees_twice ledger n none = refl
fees_twice ledger n (some s) = refl

pnl_twice :
    (ledger : ℕ) (n : ℤ) (row : Option VaultState)
    → let write = write_column ledger (λ s. record s { net_global_trader_pnl = n }) in
      write (write row) ≡ write row
unfolding recompute_free_liquidity
pnl_twice ledger n none = refl
pnl_twice ledger n (some s) = refl

pause_twice :
    (ledger : ℕ) (paused : Bool) (row : Option VaultState)
    → let write =
        upsert
          (record default_state { is_paused = paused; updated_at_ledger = ledger })
          (λ s. record s { is_paused = paused; updated_at_ledger = ledger }) in
      write (write row) ≡ write row
pause_twice ledger paused none = refl
pause_twice ledger paused (some s) = refl

dispatch-replay :
    (event : ParsedEvent VaultEvent) (e : VaultEvent) (db : VaultDb)
    → IsAbsolute e
    → (dispatch event e (dispatch event e db)).vault_state ≡ (dispatch event e db).vault_state
unfolding handle_transfer handle_absorbed_collateral handle_pay_profit handle_total_assets_update
    handle_reserve handle_release handle_accrue_fees handle_net_pnl handle_pause handle_lockup
dispatch-replay event (VaultEvent.deposit user assets shares) db a = absurd a
dispatch-replay event (VaultEvent.withdraw user assets shares) db a = absurd a
dispatch-replay event (VaultEvent.transfer from to muxed amount) db a = refl
dispatch-replay event (VaultEvent.pay_profit trader amount n) db a =
    total_update_twice event.ledger n db.vault_state
dispatch-replay event (VaultEvent.absorbed trader amount n) db a =
    total_twice event.ledger n db.vault_state
dispatch-replay event (VaultEvent.total n) db a = total_twice event.ledger n db.vault_state
dispatch-replay event (VaultEvent.reserve amount n) db a =
    reserved_twice event.ledger n db.vault_state
dispatch-replay event (VaultEvent.release amount n) db a =
    reserved_update_twice event.ledger n db.vault_state
dispatch-replay event (VaultEvent.fees amount n) db a = fees_twice event.ledger n db.vault_state
dispatch-replay event (VaultEvent.claim amount recipient) db a = absurd a
dispatch-replay event (VaultEvent.net_pnl pnl) db a = pnl_twice event.ledger pnl db.vault_state
dispatch-replay event (VaultEvent.claim_to amount n recipient) db a = absurd a
dispatch-replay event (VaultEvent.pause is_paused caller) db a =
    pause_twice event.ledger is_paused db.vault_state
dispatch-replay event (VaultEvent.lockup user at) db a = refl
dispatch-replay event VaultEvent.other db a = refl

-- A second delivery of an event whose data is absolute leaves the row of `vault_state` as the first
-- delivery left it: of every event but a deposit, a withdrawal and the two claims of fees.
pub handle_vault_event-replay :
    (event : ParsedEvent VaultEvent) (db : VaultDb)
    → IsAbsolute event.payload
    → (handle_vault_event event (handle_vault_event event db)).vault_state
      ≡ (handle_vault_event event db).vault_state
unfolding handle_vault_event
handle_vault_event-replay event db a = dispatch-replay event event.payload db a
