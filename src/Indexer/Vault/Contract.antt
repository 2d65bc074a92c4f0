-- ===== src/Indexer/Vault/Contract.antt =====
-- What the indexer is to mirror: the books of contracts/vault, its calls, and the events that
-- contract.rs publishes in each.
use stellars_finance_contrac.Base.{Bool, false, Option, List, [], ◌∷◌}
use stellars_finance_contrac.Base.Int.{ℤ, pos, ◌+ℤ◌, ◌-ℤ◌, ◌≤ℤ◌, ◌<ℤ◌}
use stellars_finance_contrac.Indexer.Vault.{VaultEvent}
use stellars_finance_contrac.Indexer.Vault.Handlers.{floor_zero}
use Prim.Native.String.{String}

-- What the contract holds: the balance of its asset, the shares, and its instance storage.
pub record Books : Type 0 where
  pub total_assets : ℤ
  pub total_shares : ℤ
  pub reserved_usdc : ℤ
  pub unclaimed_fees : ℤ
  pub net_global_trader_pnl : ℤ
  pub is_paused : Bool

abbrev pub initial_books : Books
initial_books = record {
  total_assets = pos 0;
  total_shares = pos 0;
  reserved_usdc = pos 0;
  unclaimed_fees = pos 0;
  net_global_trader_pnl = pos 0;
  is_paused = false;
}

-- `free_liquidity` of contracts/vault/src/logic.rs.
abbrev pub free_liquidity : Books → ℤ
free_liquidity b =
    floor_zero
      (b.total_assets -ℤ b.reserved_usdc -ℤ b.unclaimed_fees -ℤ floor_zero b.net_global_trader_pnl)

-- A call that succeeds: the books before, the events in order, the books after. Of the contract's
-- guards it has those that the mirror relies on. `transferred` and `transferred_locked` stand for
-- `transfer` and `transfer_from`: the second passes the sender's running lockup on, where it ends
-- later than the recipient's. The events of `approve`, `propose_upgrade` and
-- `cancel_upgrade` are `other`; `silent` stands for a call without an event (`initialize`, `upgrade`,
-- `migrate`, `bump_vault_state` and the queries).
pub data VaultCall : Books → List VaultEvent → Books → Type 0 where
  deposited :
      (b : Books) (user : String) (assets shares expires_at : ℤ)
      → VaultCall b
          (VaultEvent.lockup user expires_at
            ∷ VaultEvent.deposit user assets shares
            ∷ VaultEvent.total (b.total_assets +ℤ assets)
            ∷ [])
          (record b {
            total_assets = b.total_assets +ℤ assets;
            total_shares = b.total_shares +ℤ shares;
          })
  withdrawn :
      (b : Books) (user : String) (assets shares : ℤ)
      → pos 0 ≤ℤ shares
      → shares ≤ℤ b.total_shares
      → VaultCall b
          (VaultEvent.withdraw user assets shares
            ∷ VaultEvent.total (b.total_assets -ℤ assets)
            ∷ [])
          (record b {
            total_assets = b.total_assets -ℤ assets;
            total_shares = b.total_shares -ℤ shares;
          })
  transferred :
      (b : Books) (from to : String) (muxed : Option ℤ) (amount : ℤ)
      → VaultCall b (VaultEvent.transfer from to muxed amount ∷ []) b
  transferred_locked :
      (b : Books) (from to : String) (muxed : Option ℤ) (amount expires_at : ℤ)
      → VaultCall b
          (VaultEvent.transfer from to muxed amount ∷ VaultEvent.lockup to expires_at ∷ [])
          b
  profit_paid :
      (b : Books) (trader : String) (amount : ℤ)
      → pos 0 <ℤ amount
      → amount ≤ℤ free_liquidity b
      → VaultCall b
          (VaultEvent.pay_profit trader amount (b.total_assets -ℤ amount) ∷ [])
          (record b { total_assets = b.total_assets -ℤ amount })
  collateral_absorbed :
      (b : Books) (trader : String) (amount : ℤ)
      → VaultCall b
          (VaultEvent.absorbed trader amount (b.total_assets +ℤ amount) ∷ [])
          (record b { total_assets = b.total_assets +ℤ amount })
  liquidity_reserved :
      (b : Books) (amount : ℤ)
      → VaultCall b
          (VaultEvent.reserve amount (b.reserved_usdc +ℤ amount) ∷ [])
          (record b { reserved_usdc = b.reserved_usdc +ℤ amount })
  liquidity_released :
      (b : Books) (amount : ℤ)
      → pos 0 <ℤ amount
      → amount ≤ℤ b.reserved_usdc
      → VaultCall b
          (VaultEvent.release amount (b.reserved_usdc -ℤ amount) ∷ [])
          (record b { reserved_usdc = b.reserved_usdc -ℤ amount })
  fees_accrued :
      (b : Books) (received amount : ℤ)
      → VaultCall b
          (VaultEvent.fees amount (b.unclaimed_fees +ℤ amount)
            ∷ VaultEvent.total (b.total_assets +ℤ received)
            ∷ [])
          (record b {
            total_assets = b.total_assets +ℤ received;
            unclaimed_fees = b.unclaimed_fees +ℤ amount;
          })
  fees_claimed :
      (b : Books) (recipient : String)
      → pos 0 <ℤ b.unclaimed_fees
      → VaultCall b
          (VaultEvent.claim b.unclaimed_fees recipient ∷ [])
          (record b { total_assets = b.total_assets -ℤ b.unclaimed_fees; unclaimed_fees = pos 0 })
  fees_claimed_to :
      (b : Books) (recipient : String) (amount : ℤ)
      → pos 0 <ℤ amount
      → amount ≤ℤ b.unclaimed_fees
      → VaultCall b
          (VaultEvent.claim_to amount (b.unclaimed_fees -ℤ amount) recipient ∷ [])
          (record b {
            total_assets = b.total_assets -ℤ amount;
            unclaimed_fees = b.unclaimed_fees -ℤ amount;
          })
  pnl_updated :
      (b : Books) (pnl : ℤ)
      → VaultCall b (VaultEvent.net_pnl pnl ∷ []) (record b { net_global_trader_pnl = pnl })
  pause_set :
      (b : Books) (paused : Bool) (caller : String)
      → VaultCall b (VaultEvent.pause paused caller ∷ []) (record b { is_paused = paused })
  approved upgrade_proposed upgrade_cancelled : (b : Books) → VaultCall b (VaultEvent.other ∷ []) b
  silent : (b : Books) → VaultCall b [] b
