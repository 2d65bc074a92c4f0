-- ===== src/Indexer/Tests.antt =====
-- The indexer's theorems at concrete events.
use stellars_finance_contrac.Base.{true, none, some, List, [], ◌∷◌, ◌≡◌, refl}
use stellars_finance_contrac.Base.Int.{ℤ, pos, ◌+ℤ◌}
use stellars_finance_contrac.Base.Quot.{◌/ℤ◌}
use stellars_finance_contrac.Base.Dict.{get}
use stellars_finance_contrac.Indexer.Event.{ParsedEvent}
use stellars_finance_contrac.Indexer.Vault.{VaultEvent, VaultDb}
use stellars_finance_contrac.Indexer.Vault.Contract.{Books, initial_books, VaultCall}
use stellars_finance_contrac.Indexer.Vault.Mirror.{Mirrors}
use stellars_finance_contrac.Indexer.Vault.Run.{
  Transaction, parsed, VaultRun, index_all, index_all-Mirrors, empty_table-Mirrors,
}
use stellars_finance_contrac.Indexer.Vault.Free.{IsFree, handle_all, handle_all-IsFree}
use stellars_finance_contrac.Indexer.Config.{ConfigManagerEvent, ConfigDb}
use stellars_finance_contrac.Indexer.Config.Settings.{
  Column, Limit, stored_at, handle_all as handle_all_config,
}
use stellars_finance_contrac.Indexer.Config.Columns.{handle_all-latest_at}
use stellars_finance_contrac.Indexer.Config.Settings.{handle_all as handle_all_config}
use stellars_finance_contrac.Indexer.Positions.{
  IncreasePositionData, PositionManagerEvent, PositionDb,
}
use stellars_finance_contrac.Indexer.Positions.Handlers.{handle_position_manager_event}
use stellars_finance_contrac.Indexer.Positions.Rows.{open_interest, sum_where}
use stellars_finance_contrac.Indexer.Positions.Table.{find_at}
use stellars_finance_contrac.Indexer.Positions.Effects.{
  Holds, AllAggregated, handle_position_manager_event-AllAggregated,
}
use stellars_finance_contrac.Indexer.Positions.Lookup.{
  EntryIs, handle_position_manager_event-EntryIs,
}
use stellars_finance_contrac.Indexer.Positions.Entry.{entry_after}

abbrev pub empty_db : VaultDb
empty_db = record {
  vault_state = none;
  vault_events = [];
  fee_events = [];
  pay_profit_events = [];
  pause_events = [];
  lp_transfers = [];
  vault_lockups = [];
}

abbrev pub tx : Transaction
tx = record { ledger = 7; tx_hash = "ab"; timestamp = 1_700_000_000_000 }

-- A deposit of 100, 40 reserved, and fees of 5 that come in, of which 2 are for claiming.
abbrev after_deposit : Books
after_deposit = record initial_books {
  total_assets = pos 0 +ℤ pos 100;
  total_shares = pos 0 +ℤ pos 100;
}

abbrev pub after_reserve : Books
after_reserve = record after_deposit { reserved_usdc = pos 0 +ℤ pos 40 }

abbrev pub after_fees : Books
after_fees = record after_reserve {
  total_assets = after_reserve.total_assets +ℤ pos 5;
  unclaimed_fees = pos 0 +ℤ pos 2;
}

abbrev pub transactions : List (Transaction × List VaultEvent)
transactions =
    (
      tx,
      VaultEvent.lockup "GA" (pos 9)
          ∷ VaultEvent.deposit "GA" (pos 100) (pos 100)
          ∷ VaultEvent.total (pos 0 +ℤ pos 100)
          ∷ [],
    )
    ∷ (tx, VaultEvent.reserve (pos 40) (pos 0 +ℤ pos 40) ∷ [])
    ∷ (
      tx,
      VaultEvent.fees (pos 2) (pos 0 +ℤ pos 2)
          ∷ VaultEvent.total (after_reserve.total_assets +ℤ pos 5)
          ∷ [],
    )
    ∷ []

pub run : VaultRun initial_books transactions after_fees
run =
    VaultRun.call initial_books after_deposit after_fees tx _ _
      (VaultCall.deposited initial_books "GA" (pos 100) (pos 100) (pos 9))
      (VaultRun.call after_deposit after_reserve after_fees tx _ _
        (VaultCall.liquidity_reserved after_deposit (pos 40))
        (VaultRun.call after_reserve after_fees after_fees tx _ _
          (VaultCall.fees_accrued after_reserve (pos 5) (pos 2)) (VaultRun.done after_fees)))

index_all-Mirrors_example : Mirrors (index_all transactions empty_db).vault_state after_fees
index_all-Mirrors_example =
    index_all-Mirrors initial_books after_fees transactions empty_db run empty_table-Mirrors

handle_all-IsFree_example :
    IsFree
      (handle_all
        (parsed tx (VaultEvent.total (pos 100)) ∷ parsed tx (VaultEvent.pause true "GA") ∷ [])
        empty_db).vault_state
handle_all-IsFree_example =
    handle_all-IsFree
      (parsed tx (VaultEvent.total (pos 100)) ∷ parsed tx (VaultEvent.pause true "GA") ∷ [])
      empty_db tt

abbrev config_event : ConfigManagerEvent → ParsedEvent ConfigManagerEvent
config_event payload = record {
  payload = payload;
  ledger = 7;
  tx_hash = "ab";
  timestamp = 1_700_000_000_000;
}

abbrev limits_of : ℤ → ConfigManagerEvent
limits_of funding_cut = ConfigManagerEvent.limits (record {
  min_collateral = pos 100;
  cooldown_duration = pos 60;
  min_position_lifetime = pos 30;
  max_utilization_ratio = pos 8_000;
  funding_cut_bps = funding_cut;
  adl_pnl_bps = pos 4_500;
  adl_utilization_bps = pos 9_000;
  liquidation_threshold_bps = pos 500;
})

abbrev config_events : List (ParsedEvent ConfigManagerEvent)
config_events =
    config_event (limits_of (pos 900))
    ∷ config_event (limits_of (pos 1_000))
    ∷ config_event (ConfigManagerEvent.upgtl (pos 86_400))
    ∷ []

abbrev pub config_db : ConfigDb
config_db = record { protocol_config = none; role_events = [] }

handle_all-latest_at_example :
    stored_at
      (Column.limit Limit.funding_cut_bps)
      (handle_all_config config_events config_db).protocol_config
    ≡ pos 1_000
handle_all-latest_at_example =
    handle_all-latest_at (Column.limit Limit.funding_cut_bps) config_events config_db

abbrev pub position_db : PositionDb
position_db = record {
  positions = [];
  markets = [];
  trades = [];
  pause_events = [];
  protocol_config = none;
}

-- A long of 1000 on a collateral of 100, opened at 50.
abbrev opening : IncreasePositionData
opening = record {
  trader = "GA";
  symbol = "BTC";
  size_delta = pos 1_000;
  collateral = pos 100;
  entry_price = pos 50;
  is_long = true;
  tp = pos 0;
  sl = pos 0;
  new_total_size = pos 1_000;
  new_total_collateral = pos 100;
  entry_borrow_index = some (pos 1);
  entry_funding_index = none;
  last_increased_time = none;
}

abbrev pub opened : ParsedEvent PositionManagerEvent
opened = record {
  payload = PositionManagerEvent.increase opening;
  ledger = 7;
  tx_hash = "ab";
  timestamp = 1_700_000_000_000;
}

abbrev pub truncated : ℤ → ℤ → ℤ
truncated a b = a /ℤ b

handle_position_manager_event-AllAggregated_example :
    Holds AllAggregated (handle_position_manager_event truncated opened position_db)
unfolding open_interest sum_where get
handle_position_manager_event-AllAggregated_example =
    handle_position_manager_event-AllAggregated truncated opened position_db
      (λ symbol. record { long = refl; short = refl })

handle_position_manager_event-EntryIs_example :
    Holds
      (EntryIs truncated opened "GA" "BTC" position_db (
        entry_after opened
          (PositionManagerEvent.increase opening)
          "GA"
          "BTC"
          (find_at "GA" "BTC" [])))
      (handle_position_manager_event truncated opened position_db)
handle_position_manager_event-EntryIs_example =
    handle_position_manager_event-EntryIs truncated opened "GA" "BTC" position_db
