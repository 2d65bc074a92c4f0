-- ===== src/Indexer/Vault/Events.antt =====
-- What each event does to a row that mirrors the vault.
use stellars_finance_contrac.Base.{Bool, Option, sym, ap, subst, ◌∙◌}
use stellars_finance_contrac.Base.Int.{ℤ, pos, ◌+ℤ◌, ◌-ℤ◌, ◌≤ℤ◌, ◌<ℤ◌, int_laws}
use stellars_finance_contrac.Indexer.Event.{ParsedEvent}
use stellars_finance_contrac.Indexer.Vault.{VaultEvent, default_state, VaultDb}
use stellars_finance_contrac.Indexer.Vault.Handlers.{
  handle_deposit, handle_withdraw, handle_transfer, handle_absorbed_collateral, handle_pay_profit,
  handle_total_assets_update, handle_reserve, handle_release, handle_accrue_fees, handle_claim_fees,
  handle_net_pnl, handle_claim_fees_to, handle_pause, handle_lockup,
}
use stellars_finance_contrac.Indexer.Vault.Contract.{Books, initial_books, free_liquidity}
use Prim.Native.String.{String}
use stellars_finance_contrac.Indexer.Vault.Mirror.{
  Mirrors, upsert-Mirrors, write_column-Mirrors, update_column-Mirrors, zero_add, zero_sub,
  pause_row, positive, none_free,
}

module _ (event : ParsedEvent VaultEvent) (db : VaultDb) (b : Books)
    (m : Mirrors db.vault_state b) where
  pub lockup-Mirrors :
      (user : String) (at : ℤ) → Mirrors (handle_lockup event user at db).vault_state b
  unfolding handle_lockup
  lockup-Mirrors user at = m

  pub transfer-Mirrors :
      (from to : String) (muxed : Option ℤ) (amount : ℤ)
      → Mirrors (handle_transfer event from to muxed amount db).vault_state b
  unfolding handle_transfer
  transfer-Mirrors from to muxed amount = m

  pub total-Mirrors :
      (n : ℤ)
      → Mirrors (handle_total_assets_update event n db).vault_state (record b { total_assets = n })
  unfolding handle_total_assets_update
  total-Mirrors n =
      write_column-Mirrors event.ledger (λ s. record s { total_assets = n }) db.vault_state b
        (record b { total_assets = n })
        (λ s t. ap {A = Books} (λ c. record c { total_assets = n }) t) m

  pub absorbed-Mirrors :
      (trader : String) (amount n : ℤ)
      → Mirrors
          (handle_absorbed_collateral event trader amount n db).vault_state
          (record b { total_assets = n })
  unfolding handle_absorbed_collateral
  absorbed-Mirrors trader amount n =
      write_column-Mirrors event.ledger (λ s. record s { total_assets = n }) db.vault_state b
        (record b { total_assets = n })
        (λ s t. ap {A = Books} (λ c. record c { total_assets = n }) t) m

  pub reserve-Mirrors :
      (n : ℤ) → Mirrors (handle_reserve event n db).vault_state (record b { reserved_usdc = n })
  unfolding handle_reserve
  reserve-Mirrors n =
      write_column-Mirrors event.ledger (λ s. record s { reserved_usdc = n }) db.vault_state b
        (record b { reserved_usdc = n })
        (λ s t. ap {A = Books} (λ c. record c { reserved_usdc = n }) t) m

  pub fees-Mirrors :
      (amount n : ℤ)
      → Mirrors (handle_accrue_fees event amount n db).vault_state (record b { unclaimed_fees = n })
  unfolding handle_accrue_fees
  fees-Mirrors amount n =
      write_column-Mirrors event.ledger (λ s. record s { unclaimed_fees = n }) db.vault_state b
        (record b { unclaimed_fees = n })
        (λ s t. ap {A = Books} (λ c. record c { unclaimed_fees = n }) t) m

  pub net_pnl-Mirrors :
      (n : ℤ)
      → Mirrors (handle_net_pnl event n db).vault_state (record b { net_global_trader_pnl = n })
  unfolding handle_net_pnl
  net_pnl-Mirrors n =
      write_column-Mirrors event.ledger (λ s. record s { net_global_trader_pnl = n }) db.vault_state
        b (record b { net_global_trader_pnl = n })
        (λ s t. ap {A = Books} (λ c. record c { net_global_trader_pnl = n }) t) m

  pub deposit-Mirrors :
      (user : String) (assets shares : ℤ)
      → Mirrors
          (handle_deposit event user assets shares db).vault_state
          (record b { total_shares = b.total_shares +ℤ shares })
  unfolding handle_deposit
  deposit-Mirrors user assets shares =
      upsert-Mirrors event.ledger
        (record default_state { total_shares = shares; updated_at_ledger = event.ledger })
        (λ s. record s {
          total_shares = s.total_shares +ℤ shares;
          updated_at_ledger = event.ledger;
        })
        db.vault_state b (record b { total_shares = b.total_shares +ℤ shares })
        (λ t.
          ap (λ z. record initial_books { total_shares = z }) (zero_add shares)
          ∙ ap {A = Books} (λ c. record c { total_shares = c.total_shares +ℤ shares }) t)
        (λ s t. ap {A = Books} (λ c. record c { total_shares = c.total_shares +ℤ shares }) t) m

  pub withdraw-Mirrors :
      (user : String) (assets shares : ℤ)
      → pos 0 ≤ℤ shares
      → shares ≤ℤ b.total_shares
      → Mirrors
          (handle_withdraw event user assets shares db).vault_state
          (record b { total_shares = b.total_shares -ℤ shares })
  unfolding handle_withdraw
  withdraw-Mirrors user assets shares lo hi =
      update_column-Mirrors event.ledger (λ s. record s { total_shares = s.total_shares -ℤ shares })
        db.vault_state b (record b { total_shares = b.total_shares -ℤ shares })
        (λ t.
          ap (λ z. record initial_books { total_shares = z })
            (zero_sub shares _ lo hi (ap (λ c. c.total_shares) t))
          ∙ ap {A = Books} (λ c. record c { total_shares = c.total_shares -ℤ shares }) t)
        (λ s t. ap {A = Books} (λ c. record c { total_shares = c.total_shares -ℤ shares }) t) m

  pub pay_profit-Mirrors :
      (trader : String) (amount n : ℤ)
      → pos 0 <ℤ amount
      → amount ≤ℤ free_liquidity b
      → Mirrors
          (handle_pay_profit event trader amount n db).vault_state
          (record b { total_assets = n })
  unfolding handle_pay_profit
  pay_profit-Mirrors trader amount n lo hi =
      update_column-Mirrors event.ledger (λ s. record s { total_assets = n }) db.vault_state b
        (record b { total_assets = n })
        (λ t. absurd (none_free amount (subst (λ c. amount ≤ℤ free_liquidity c) (sym t) hi) lo))
        (λ s t. ap {A = Books} (λ c. record c { total_assets = n }) t) m

  pub release-Mirrors :
      (amount n : ℤ)
      → pos 0 <ℤ amount
      → amount ≤ℤ b.reserved_usdc
      → Mirrors (handle_release event n db).vault_state (record b { reserved_usdc = n })
  unfolding handle_release
  release-Mirrors amount n lo hi =
      update_column-Mirrors event.ledger (λ s. record s { reserved_usdc = n }) db.vault_state b
        (record b { reserved_usdc = n })
        (λ t. absurd (positive amount _ lo hi (ap (λ c. c.reserved_usdc) t)))
        (λ s t. ap {A = Books} (λ c. record c { reserved_usdc = n }) t) m

  pub claim-Mirrors :
      (recipient : String) (amount : ℤ)
      → pos 0 <ℤ b.unclaimed_fees
      → Mirrors
          (handle_claim_fees event amount recipient db).vault_state
          (record b { total_assets = b.total_assets -ℤ amount; unclaimed_fees = pos 0 })
  unfolding handle_claim_fees
  claim-Mirrors recipient amount lo =
      update_column-Mirrors event.ledger
        (λ s. record s { unclaimed_fees = pos 0; total_assets = s.total_assets -ℤ amount })
        db.vault_state b
        (record b { total_assets = b.total_assets -ℤ amount; unclaimed_fees = pos 0 })
        (λ t.
          absurd (positive b.unclaimed_fees _ lo (omega int_laws) (ap (λ c. c.unclaimed_fees) t)))
        (λ s t.
          ap {A = Books}
            (λ c. record c { total_assets = c.total_assets -ℤ amount; unclaimed_fees = pos 0 }) t)
        m

  pub claim_to-Mirrors :
      (recipient : String) (amount n : ℤ)
      → pos 0 <ℤ amount
      → amount ≤ℤ b.unclaimed_fees
      → Mirrors
          (handle_claim_fees_to event amount n recipient db).vault_state
          (record b { total_assets = b.total_assets -ℤ amount; unclaimed_fees = n })
  unfolding handle_claim_fees_to
  claim_to-Mirrors recipient amount n lo hi =
      update_column-Mirrors event.ledger
        (λ s. record s { unclaimed_fees = n; total_assets = s.total_assets -ℤ amount })
        db.vault_state b (record b { total_assets = b.total_assets -ℤ amount; unclaimed_fees = n })
        (λ t. absurd (positive amount _ lo hi (ap (λ c. c.unclaimed_fees) t)))
        (λ s t.
          ap {A = Books}
            (λ c. record c { total_assets = c.total_assets -ℤ amount; unclaimed_fees = n }) t)
        m

  pub pause-Mirrors :
      (paused : Bool) (caller : String)
      → Mirrors (handle_pause event paused caller db).vault_state (record b { is_paused = paused })
  unfolding handle_pause
  pause-Mirrors paused caller = pause_row db.vault_state event.ledger paused b m
