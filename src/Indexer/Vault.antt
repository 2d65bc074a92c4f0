-- ===== src/Indexer/Vault.antt =====
-- packages/indexer/src/handlers/vault.ts: the vault's events, and the tables that
-- their handlers write.
pub mod Events
pub mod Handlers
pub mod Contract
pub mod Mirror
pub mod Run
pub mod Replay
pub mod Free
use stellars_finance_contrac.Base.{
  ℕ, Bool, true, false, Option, none, some, List, [], ◌∷◌, if◌then◌else◌,
}
use stellars_finance_contrac.Base.Int.{ℤ, pos, ◌+ℤ◌, ◌-ℤ◌, ltb_ℤ}
use stellars_finance_contrac.Base.Dict.{Dict, set}
use stellars_finance_contrac.Indexer.Event.{
  ParsedEvent, PauseEventRow, unix_seconds, update, upsert,
}
use Prim.Native.String.{String}

-- A topic with its data; `other` is any topic without a handler.
pub data VaultEvent : Type 0 where
  deposit withdraw : (user : String) → (assets : ℤ) → (shares : ℤ) → VaultEvent
  transfer : (from : String) → (to : String) → (to_muxed_id : Option ℤ) → (amount : ℤ) → VaultEvent
  pay_profit absorbed : (trader : String) → (amount : ℤ) → (new_total_assets : ℤ) → VaultEvent
  total : (new_total_assets : ℤ) → VaultEvent
  reserve release fees : (amount : ℤ) → (new_total : ℤ) → VaultEvent
  claim : (amount : ℤ) → (recipient : String) → VaultEvent
  net_pnl : (pnl : ℤ) → VaultEvent
  claim_to : (amount : ℤ) → (new_total : ℤ) → (recipient : String) → VaultEvent
  pause : (is_paused : Bool) → (caller : String) → VaultEvent
  lockup : (user : String) → (expires_at : ℤ) → VaultEvent
  other : VaultEvent

-- The row of `vault_state` with `id = 1`.
pub record VaultState : Type 0 where
  pub total_assets : ℤ
  pub total_shares : ℤ
  pub reserved_usdc : ℤ
  pub unclaimed_fees : ℤ
  pub net_global_trader_pnl : ℤ
  pub free_liquidity : ℤ
  pub is_paused : Bool
  pub updated_at_ledger : ℕ

-- What a row holds in the columns that an insert leaves out.
abbrev pub default_state : VaultState
default_state = record {
  total_assets = pos 0;
  total_shares = pos 0;
  reserved_usdc = pos 0;
  unclaimed_fees = pos 0;
  net_global_trader_pnl = pos 0;
  free_liquidity = pos 0;
  is_paused = false;
  updated_at_ledger = 0;
}

pub record VaultEventRow : Type 0 where
  pub tx_hash : String
  pub ledger : ℕ
  pub timestamp : ℕ
  pub event_type : String
  pub user : String
  pub assets : ℤ
  pub shares : ℤ

pub record FeeEventRow : Type 0 where
  pub tx_hash : String
  pub ledger : ℕ
  pub timestamp : ℕ
  pub event_type : String
  pub amount : ℤ
  pub recipient : Option String

pub record PayProfitRow : Type 0 where
  pub tx_hash : String
  pub ledger : ℕ
  pub timestamp : ℕ
  pub trader : String
  pub amount : ℤ

pub record LpTransferRow : Type 0 where
  pub tx_hash : String
  pub ledger : ℕ
  pub timestamp : ℕ
  pub from : String
  pub to : String
  pub to_muxed_id : Option ℤ
  pub amount : ℤ

-- The tables that the handlers write; `vault_lockups` by user, with the expiry and the ledger.
pub record VaultDb : Type 0 where
  pub vault_state : Option VaultState
  pub vault_events : List VaultEventRow
  pub fee_events : List FeeEventRow
  pub pay_profit_events : List PayProfitRow
  pub pause_events : List PauseEventRow
  pub lp_transfers : List LpTransferRow
  pub vault_lockups : Dict (ℤ × ℕ)
