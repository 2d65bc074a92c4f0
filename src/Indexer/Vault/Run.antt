-- ===== src/Indexer/Vault/Run.antt =====
-- Indexing the events of the vault's calls, transaction after transaction.
use stellars_finance_contrac.Base.{ℕ, none, List, [], ◌∷◌, refl}
use stellars_finance_contrac.Base.Int.{◌+ℤ◌, ◌-ℤ◌}
use stellars_finance_contrac.Indexer.Event.{ParsedEvent}
use stellars_finance_contrac.Indexer.Vault.{VaultEvent, VaultDb}
use stellars_finance_contrac.Indexer.Vault.Handlers.{floor_zero, handle_vault_event}
use stellars_finance_contrac.Indexer.Vault.Contract.{Books, initial_books, VaultCall}
use stellars_finance_contrac.Indexer.Vault.Mirror.{Mirrors}
use stellars_finance_contrac.Indexer.Vault.Events.{
  lockup-Mirrors, transfer-Mirrors, total-Mirrors, absorbed-Mirrors, reserve-Mirrors, fees-Mirrors,
  net_pnl-Mirrors, deposit-Mirrors, withdraw-Mirrors, pay_profit-Mirrors, release-Mirrors,
  claim-Mirrors, claim_to-Mirrors, pause-Mirrors,
}
use Prim.Native.String.{String}

-- What the events of one transaction have in common.
pub record Transaction : Type 0 where
  pub ledger : ℕ
  pub tx_hash : String
  pub timestamp : ℕ

abbrev pub parsed : Transaction → VaultEvent → ParsedEvent VaultEvent
parsed tx payload = record {
  payload = payload;
  ledger = tx.ledger;
  tx_hash = tx.tx_hash;
  timestamp = tx.timestamp;
}

abbrev pub index_events : Transaction → List VaultEvent → VaultDb → VaultDb
index_events tx [] db = db
index_events tx (e ∷ es) db = index_events tx es (handle_vault_event (parsed tx e) db)

unfoldable pub index_all : List (Transaction × List VaultEvent) → VaultDb → VaultDb
index_all [] db = db
index_all (t ∷ ts) db = index_all ts (index_events t.0 t.1 db)

-- A sequence of calls of the vault, and the transactions that they make.
pub data VaultRun : Books → List (Transaction × List VaultEvent) → Books → Type 0 where
  done : (b : Books) → VaultRun b [] b
  call :
      (b b' last : Books) (tx : Transaction) (es : List VaultEvent)
      (rest : List (Transaction × List VaultEvent))
      → VaultCall b es b'
      → VaultRun b' rest last
      → VaultRun b ((tx, es) ∷ rest) last

index_events-Mirrors :
    (tx : Transaction) (db : VaultDb) (b b' : Books) (es : List VaultEvent)
    → VaultCall b es b'
    → Mirrors db.vault_state b
    → Mirrors (index_events tx es db).vault_state b'
unfolding handle_vault_event
index_events-Mirrors tx db _ _ _ (VaultCall.deposited b user assets shares expires_at) m =
    let e = parsed tx in
    let locked = lockup-Mirrors (e (VaultEvent.lockup user expires_at)) db b m user expires_at in
    let bought =
      deposit-Mirrors (e (VaultEvent.deposit user assets shares)) _ b locked user assets shares in
    total-Mirrors (e (VaultEvent.total (b.total_assets +ℤ assets))) _ _ bought
      (b.total_assets +ℤ assets)
index_events-Mirrors tx db _ _ _ (VaultCall.withdrawn b user assets shares lo hi) m =
    let e = parsed tx in
    let burnt =
      withdraw-Mirrors (e (VaultEvent.withdraw user assets shares)) db b m user assets shares lo
        hi in
    total-Mirrors (e (VaultEvent.total (b.total_assets -ℤ assets))) _ _ burnt
      (b.total_assets -ℤ assets)
index_events-Mirrors tx db _ _ _ (VaultCall.transferred b from to muxed amount) m =
    transfer-Mirrors _ db b m from to muxed amount
index_events-Mirrors tx db _ _ _ (VaultCall.transferred_locked b from to muxed amount expires_at)
      m =
    let e = parsed tx in
    let moved =
      transfer-Mirrors (e (VaultEvent.transfer from to muxed amount)) db b m from to muxed amount in
    lockup-Mirrors (e (VaultEvent.lockup to expires_at)) _ b moved to expires_at
index_events-Mirrors tx db _ _ _ (VaultCall.profit_paid b trader amount lo hi) m =
    pay_profit-Mirrors _ db b m trader amount _ lo hi
index_events-Mirrors tx db _ _ _ (VaultCall.collateral_absorbed b trader amount) m =
    absorbed-Mirrors _ db b m trader amount _
index_events-Mirrors tx db _ _ _ (VaultCall.liquidity_reserved b amount) m =
    reserve-Mirrors _ db b m _
index_events-Mirrors tx db _ _ _ (VaultCall.liquidity_released b amount lo hi) m =
    release-Mirrors _ db b m amount _ lo hi
index_events-Mirrors tx db _ _ _ (VaultCall.fees_accrued b received amount) m =
    let accrued =
      fees-Mirrors (parsed tx (VaultEvent.fees amount (b.unclaimed_fees +ℤ amount))) db b m amount
        _ in
    total-Mirrors _ _ _ accrued (b.total_assets +ℤ received)
index_events-Mirrors tx db _ _ _ (VaultCall.fees_claimed b recipient lo) m =
    claim-Mirrors _ db b m recipient _ lo
index_events-Mirrors tx db _ _ _ (VaultCall.fees_claimed_to b recipient amount lo hi) m =
    claim_to-Mirrors _ db b m recipient amount _ lo hi
index_events-Mirrors tx db _ _ _ (VaultCall.pnl_updated b pnl) m = net_pnl-Mirrors _ db b m pnl
index_events-Mirrors tx db _ _ _ (VaultCall.pause_set b paused caller) m =
    pause-Mirrors _ db b m paused caller
index_events-Mirrors tx db _ _ _ (VaultCall.approved b) m = m
index_events-Mirrors tx db _ _ _ (VaultCall.upgrade_proposed b) m = m
index_events-Mirrors tx db _ _ _ (VaultCall.upgrade_cancelled b) m = m
index_events-Mirrors tx db _ _ _ (VaultCall.silent b) m = m

-- Indexing the transactions of any sequence of the vault's calls keeps the row's copies of the
-- vault's books, and its free liquidity, equal to the vault's own, if they were before.
pub index_all-Mirrors :
    (b last : Books) (txs : List (Transaction × List VaultEvent)) (db : VaultDb)
    → VaultRun b txs last
    → Mirrors db.vault_state b
    → Mirrors (index_all txs db).vault_state last
unfolding index_all
index_all-Mirrors b last _ db (VaultRun.done _) m = m
index_all-Mirrors b last _ db (VaultRun.call _ b' _ tx es rest c run) m =
    index_all-Mirrors b' last rest (index_events tx es db) run
      (index_events-Mirrors tx db b b' es c m)

-- An empty table mirrors a new vault.
pub empty_table-Mirrors : Mirrors none initial_books
unfolding floor_zero ◌-ℤ◌
empty_table-Mirrors = record { tracks = refl; free = refl }
