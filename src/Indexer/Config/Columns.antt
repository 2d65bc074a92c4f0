-- ===== src/Indexer/Config/Columns.antt =====
-- packages/indexer/src/handlers/config-manager.ts: the columns of `protocol_config`, one by one.
use stellars_finance_contrac.Base.{Option, none, some, List, [], ◌∷◌, ◌≡◌, refl, ap, ◌∙◌}
use stellars_finance_contrac.Indexer.Event.{ParsedEvent}
use stellars_finance_contrac.Indexer.Config.{
  ConfigManagerEvent, ProtocolConfig, FeeSplitsUpdateData, FeeConfigUpdateData, LimitsUpdateData,
  BorrowRateUpdateData, ConfigDb,
}
use stellars_finance_contrac.Indexer.Config.Handlers.{
  dispatch, handle_fee_splits, handle_fee_config, handle_limits, handle_borrow_rates, handle_role,
  handle_config_manager_event,
}
use stellars_finance_contrac.Indexer.Config.Settings.{
  Column, stored_at, value_in, or_kept, latest_at, handle_all,
}

module _ (event : ParsedEvent ConfigManagerEvent) where
  handle_fee_splits-stored :
      (d : FeeSplitsUpdateData) (x : Column) (db : ConfigDb)
      → stored_at x (handle_fee_splits event.ledger d db).protocol_config
        ≡ or_kept (value_in x (ConfigManagerEvent.feecfg d)) (stored_at x db.protocol_config)
  unfolding handle_fee_splits
  handle_fee_splits-stored d x db = row x db.protocol_config
    where
      row :
          (y : Column) (c : Option ProtocolConfig)
          → stored_at y
              (handle_fee_splits event.ledger d (record db { protocol_config = c })).protocol_config
            ≡ or_kept (value_in y (ConfigManagerEvent.feecfg d)) (stored_at y c)
      row (Column.split y) none = refl
      row (Column.split y) (some c) = refl
      row (Column.fee y) none = refl
      row (Column.fee y) (some c) = refl
      row (Column.limit y) none = refl
      row (Column.limit y) (some c) = refl
      row (Column.rate y) none = refl
      row (Column.rate y) (some c) = refl

  handle_fee_config-stored :
      (d : FeeConfigUpdateData) (x : Column) (db : ConfigDb)
      → stored_at x (handle_fee_config event.ledger d db).protocol_config
        ≡ or_kept (value_in x (ConfigManagerEvent.feecnf d)) (stored_at x db.protocol_config)
  unfolding handle_fee_config
  handle_fee_config-stored d x db = row x db.protocol_config
    where
      row :
          (y : Column) (c : Option ProtocolConfig)
          → stored_at y
              (handle_fee_config event.ledger d (record db { protocol_config = c })).protocol_config
            ≡ or_kept (value_in y (ConfigManagerEvent.feecnf d)) (stored_at y c)
      row (Column.split y) none = refl
      row (Column.split y) (some c) = refl
      row (Column.fee y) none = refl
      row (Column.fee y) (some c) = refl
      row (Column.limit y) none = refl
      row (Column.limit y) (some c) = refl
      row (Column.rate y) none = refl
      row (Column.rate y) (some c) = refl

  handle_limits-stored :
      (d : LimitsUpdateData) (x : Column) (db : ConfigDb)
      → stored_at x (handle_limits event.ledger d db).protocol_config
        ≡ or_kept (value_in x (ConfigManagerEvent.limits d)) (stored_at x db.protocol_config)
  unfolding handle_limits
  handle_limits-stored d x db = row x db.protocol_config
    where
      row :
          (y : Column) (c : Option ProtocolConfig)
          → stored_at y
              (handle_limits event.ledger d (record db { protocol_config = c })).protocol_config
            ≡ or_kept (value_in y (ConfigManagerEvent.limits d)) (stored_at y c)
      row (Column.split y) none = refl
      row (Column.split y) (some c) = refl
      row (Column.fee y) none = refl
      row (Column.fee y) (some c) = refl
      row (Column.limit y) none = refl
      row (Column.limit y) (some c) = refl
      row (Column.rate y) none = refl
      row (Column.rate y) (some c) = refl

  handle_borrow_rates-stored :
      (d : BorrowRateUpdateData) (x : Column) (db : ConfigDb)
      → stored_at x (handle_borrow_rates event.ledger d db).protocol_config
        ≡ or_kept (value_in x (ConfigManagerEvent.rates d)) (stored_at x db.protocol_config)
  unfolding handle_borrow_rates
  handle_borrow_rates-stored d x db = row x db.protocol_config
    where
      row :
          (y : Column) (c : Option ProtocolConfig)
          → stored_at y
              (handle_borrow_rates event.ledger d
                (record db { protocol_config = c })).protocol_config
            ≡ or_kept (value_in y (ConfigManagerEvent.rates d)) (stored_at y c)
      row (Column.split y) none = refl
      row (Column.split y) (some c) = refl
      row (Column.fee y) none = refl
      row (Column.fee y) (some c) = refl
      row (Column.limit y) none = refl
      row (Column.limit y) (some c) = refl
      row (Column.rate y) none = refl
      row (Column.rate y) (some c) = refl

  dispatch-stored :
      (x : Column) (e : ConfigManagerEvent) (db : ConfigDb)
      → stored_at x (dispatch event e db).protocol_config
        ≡ or_kept (value_in x e) (stored_at x db.protocol_config)
  unfolding handle_role
  dispatch-stored x (ConfigManagerEvent.feecfg d) db = handle_fee_splits-stored d x db
  dispatch-stored x (ConfigManagerEvent.feecnf d) db = handle_fee_config-stored d x db
  dispatch-stored x (ConfigManagerEvent.limits d) db = handle_limits-stored d x db
  dispatch-stored x (ConfigManagerEvent.rates d) db = handle_borrow_rates-stored d x db
  dispatch-stored x (ConfigManagerEvent.role d) db =
      ap (λ v. or_kept v (stored_at x db.protocol_config)) (no_role x)
    where
      no_role : (y : Column) → none ≡ value_in y (ConfigManagerEvent.role d)
      no_role (Column.split y) = refl
      no_role (Column.fee y) = refl
      no_role (Column.limit y) = refl
      no_role (Column.rate y) = refl
  dispatch-stored x (ConfigManagerEvent.upgtl t) db =
      ap (λ v. or_kept v (stored_at x db.protocol_config)) (no_timelock x)
    where
      no_timelock : (y : Column) → none ≡ value_in y (ConfigManagerEvent.upgtl t)
      no_timelock (Column.split y) = refl
      no_timelock (Column.fee y) = refl
      no_timelock (Column.limit y) = refl
      no_timelock (Column.rate y) = refl
  dispatch-stored x ConfigManagerEvent.other db =
      ap (λ v. or_kept v (stored_at x db.protocol_config)) (nothing x)
    where
      nothing : (y : Column) → none ≡ value_in y ConfigManagerEvent.other
      nothing (Column.split y) = refl
      nothing (Column.fee y) = refl
      nothing (Column.limit y) = refl
      nothing (Column.rate y) = refl

-- After any sequence of the config manager's events every column that only they write, one by one,
-- holds the value that the last event with the column has for it, and where there was none what it
-- held before; a missing row stands for the defaults.
pub handle_all-latest_at :
    (x : Column) (es : List (ParsedEvent ConfigManagerEvent)) (db : ConfigDb)
    → stored_at x (handle_all es db).protocol_config
      ≡ latest_at x es (stored_at x db.protocol_config)
unfolding handle_config_manager_event
handle_all-latest_at x [] db = refl
handle_all-latest_at x (e ∷ es) db =
    handle_all-latest_at x es (handle_config_manager_event e db)
    ∙ ap (latest_at x es) (dispatch-stored e x e.payload db)
