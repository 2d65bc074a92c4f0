-- ===== src/Indexer/Vault/Handlers.antt =====
-- packages/indexer/src/handlers/vault.ts: the handlers.
use stellars_finance_contrac.Base.{ℕ, Bool, Option, none, some, List, ◌∷◌, if◌then◌else◌}
use stellars_finance_contrac.Base.Int.{ℤ, pos, ◌+ℤ◌, ◌-ℤ◌, ltb_ℤ}
use stellars_finance_contrac.Base.Dict.{set}
use stellars_finance_contrac.Indexer.Event.{ParsedEvent, unix_seconds, update, upsert}
use Prim.Native.String.{String}
use stellars_finance_contrac.Indexer.Vault.{
  VaultEvent, VaultState, default_state, VaultEventRow, FeeEventRow, VaultDb,
}

unfoldable pub floor_zero : ℤ → ℤ
floor_zero z = if ltb_ℤ (pos 0) z then z else pos 0

-- What `recomputeFreeLiquidity` writes to the row it reads.
abbrev pub free_of : VaultState → ℤ
free_of s =
    floor_zero
      (s.total_assets -ℤ s.reserved_usdc -ℤ s.unclaimed_fees -ℤ floor_zero s.net_global_trader_pnl)

abbrev pub with_free : ℕ → VaultState → VaultState
with_free ledger s = record s { free_liquidity = free_of s; updated_at_ledger = ledger }

unfoldable pub recompute_free_liquidity : ℕ → Option VaultState → Option VaultState
recompute_free_liquidity ledger row = update (with_free ledger) row

unfoldable pub add_vault_event :
    ParsedEvent VaultEvent → String → String → ℤ → ℤ → List VaultEventRow → List VaultEventRow
add_vault_event event event_type user assets shares rows =
    (record {
      tx_hash = event.tx_hash;
      ledger = event.ledger;
      timestamp = unix_seconds event.timestamp;
      event_type = event_type;
      user = user;
      assets = assets;
      shares = shares;
    })
    ∷ rows

unfoldable pub add_fee_event :
    ParsedEvent VaultEvent → String → ℤ → Option String → List FeeEventRow → List FeeEventRow
add_fee_event event event_type amount recipient rows =
    (record {
      tx_hash = event.tx_hash;
      ledger = event.ledger;
      timestamp = unix_seconds event.timestamp;
      event_type = event_type;
      amount = amount;
      recipient = recipient;
    })
    ∷ rows

-- An upsert of one column of the row, then the free liquidity.
abbrev pub write_column : ℕ → (VaultState → VaultState) → Option VaultState → Option VaultState
write_column ledger f row = recompute_free_liquidity ledger (
    upsert (f (record default_state { updated_at_ledger = ledger }))
      (λ s. f (record s { updated_at_ledger = ledger })) row)

-- The same for an update, which does nothing to a missing row.
abbrev pub update_column : ℕ → (VaultState → VaultState) → Option VaultState → Option VaultState
update_column ledger f row =
    recompute_free_liquidity ledger (update (λ s. f (record s { updated_at_ledger = ledger })) row)

unfoldable pub handle_deposit : ParsedEvent VaultEvent → String → ℤ → ℤ → VaultDb → VaultDb
handle_deposit event user assets shares db = record db {
  vault_events = add_vault_event event "deposit" user assets shares db.vault_events;
  vault_state = recompute_free_liquidity event.ledger (
      upsert (record default_state { total_shares = shares; updated_at_ledger = event.ledger })
        (λ s. record s {
          total_shares = s.total_shares +ℤ shares;
          updated_at_ledger = event.ledger;
        })
        db.vault_state);
}

unfoldable pub handle_withdraw : ParsedEvent VaultEvent → String → ℤ → ℤ → VaultDb → VaultDb
handle_withdraw event user assets shares db = record db {
  vault_events = add_vault_event event "withdraw" user assets shares db.vault_events;
  vault_state =
      update_column event.ledger (λ s. record s { total_shares = s.total_shares -ℤ shares })
        db.vault_state;
}

unfoldable pub handle_transfer :
    ParsedEvent VaultEvent → String → String → Option ℤ → ℤ → VaultDb → VaultDb
handle_transfer event from to to_muxed_id amount db = record db {
  lp_transfers =
      (record {
        tx_hash = event.tx_hash;
        ledger = event.ledger;
        timestamp = unix_seconds event.timestamp;
        from = from;
        to = to;
        to_muxed_id = to_muxed_id;
        amount = amount;
      })
      ∷ db.lp_transfers;
}

unfoldable pub handle_absorbed_collateral :
    ParsedEvent VaultEvent → String → ℤ → ℤ → VaultDb → VaultDb
handle_absorbed_collateral event trader amount new_total_assets db = record db {
  vault_events = add_vault_event event "absorbed" trader amount (pos 0) db.vault_events;
  vault_state =
      write_column event.ledger (λ s. record s { total_assets = new_total_assets }) db.vault_state;
}

unfoldable pub handle_pay_profit : ParsedEvent VaultEvent → String → ℤ → ℤ → VaultDb → VaultDb
handle_pay_profit event trader amount new_total_assets db = record db {
  pay_profit_events =
      (record {
        tx_hash = event.tx_hash;
        ledger = event.ledger;
        timestamp = unix_seconds event.timestamp;
        trader = trader;
        amount = amount;
      })
      ∷ db.pay_profit_events;
  vault_state =
      update_column event.ledger (λ s. record s { total_assets = new_total_assets }) db.vault_state;
}

unfoldable pub handle_total_assets_update : ParsedEvent VaultEvent → ℤ → VaultDb → VaultDb
handle_total_assets_update event new_total_assets db = record db {
  vault_state =
      write_column event.ledger (λ s. record s { total_assets = new_total_assets }) db.vault_state;
}

unfoldable pub handle_reserve : ParsedEvent VaultEvent → ℤ → VaultDb → VaultDb
handle_reserve event new_total db = record db {
  vault_state =
      write_column event.ledger (λ s. record s { reserved_usdc = new_total }) db.vault_state;
}

unfoldable pub handle_release : ParsedEvent VaultEvent → ℤ → VaultDb → VaultDb
handle_release event new_total db = record db {
  vault_state =
      update_column event.ledger (λ s. record s { reserved_usdc = new_total }) db.vault_state;
}

unfoldable pub handle_accrue_fees : ParsedEvent VaultEvent → ℤ → ℤ → VaultDb → VaultDb
handle_accrue_fees event amount new_total db = record db {
  vault_state =
      write_column event.ledger (λ s. record s { unclaimed_fees = new_total }) db.vault_state;
  fee_events = add_fee_event event "accrue" amount none db.fee_events;
}

unfoldable pub handle_claim_fees : ParsedEvent VaultEvent → ℤ → String → VaultDb → VaultDb
handle_claim_fees event amount recipient db = record db {
  vault_state =
      update_column event.ledger
        (λ s. record s { unclaimed_fees = pos 0; total_assets = s.total_assets -ℤ amount })
        db.vault_state;
  fee_events = add_fee_event event "claim" amount (some recipient) db.fee_events;
}

unfoldable pub handle_net_pnl : ParsedEvent VaultEvent → ℤ → VaultDb → VaultDb
handle_net_pnl event pnl db = record db {
  vault_state =
      write_column event.ledger (λ s. record s { net_global_trader_pnl = pnl }) db.vault_state;
}

unfoldable pub handle_claim_fees_to : ParsedEvent VaultEvent → ℤ → ℤ → String → VaultDb → VaultDb
handle_claim_fees_to event amount new_total recipient db = record db {
  vault_state =
      update_column event.ledger
        (λ s. record s { unclaimed_fees = new_total; total_assets = s.total_assets -ℤ amount })
        db.vault_state;
  fee_events = add_fee_event event "claim_to" amount (some recipient) db.fee_events;
}

-- The free liquidity is not computed again.
unfoldable pub handle_pause : ParsedEvent VaultEvent → Bool → String → VaultDb → VaultDb
handle_pause event is_paused caller db = record db {
  vault_state =
      upsert (record default_state { is_paused = is_paused; updated_at_ledger = event.ledger })
        (λ s. record s { is_paused = is_paused; updated_at_ledger = event.ledger }) db.vault_state;
  pause_events =
      (record {
        tx_hash = event.tx_hash;
        ledger = event.ledger;
        timestamp = unix_seconds event.timestamp;
        contract = "vault";
        is_paused = is_paused;
        caller = caller;
      })
      ∷ db.pause_events;
}

unfoldable pub handle_lockup : ParsedEvent VaultEvent → String → ℤ → VaultDb → VaultDb
handle_lockup event user expires_at db = record db {
  vault_lockups = set db.vault_lockups user (expires_at, event.ledger);
}

-- The switch on the topic.
abbrev pub dispatch : ParsedEvent VaultEvent → VaultEvent → VaultDb → VaultDb
dispatch event (VaultEvent.deposit user assets shares) = handle_deposit event user assets shares
dispatch event (VaultEvent.withdraw user assets shares) = handle_withdraw event user assets shares
dispatch event (VaultEvent.transfer from to muxed amount) =
    handle_transfer event from to muxed amount
dispatch event (VaultEvent.pay_profit trader amount n) = handle_pay_profit event trader amount n
dispatch event (VaultEvent.absorbed trader amount n) =
    handle_absorbed_collateral event trader amount n
dispatch event (VaultEvent.total n) = handle_total_assets_update event n
dispatch event (VaultEvent.reserve amount n) = handle_reserve event n
dispatch event (VaultEvent.release amount n) = handle_release event n
dispatch event (VaultEvent.fees amount n) = handle_accrue_fees event amount n
dispatch event (VaultEvent.claim amount recipient) = handle_claim_fees event amount recipient
dispatch event (VaultEvent.net_pnl pnl) = handle_net_pnl event pnl
dispatch event (VaultEvent.claim_to amount n recipient) =
    handle_claim_fees_to event amount n recipient
dispatch event (VaultEvent.pause is_paused caller) = handle_pause event is_paused caller
dispatch event (VaultEvent.lockup user expires_at) = handle_lockup event user expires_at
dispatch event VaultEvent.other = λ db. db

unfoldable pub handle_vault_event : ParsedEvent VaultEvent → VaultDb → VaultDb
handle_vault_event event db = dispatch event event.payload db
