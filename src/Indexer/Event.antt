-- ===== src/Indexer/Event.antt =====
-- packages/indexer/src/spec-parser.ts and convert.ts: a parsed event, and the writes that handlers
-- make. `numeric` columns hold integers; the times that the database sets itself are left out.
use stellars_finance_contrac.Base.{ℕ, ◌/◌, Bool, Option, none, some}
use Prim.Native.String.{String}

-- `timestamp` is `Date.parse` of the event's time, in milliseconds; `payload` is the topic with the
-- data that its handler casts to.
pub record ParsedEvent (D : Type 0) : Type 0 where
  pub payload : D
  pub ledger : ℕ
  pub tx_hash : String
  pub timestamp : ℕ

unfoldable pub unix_seconds : ℕ → ℕ
unix_seconds ms = ms / 1_000

-- `update(table).set(..).where(..)` of a table's one row, if it is there.
abbrev pub update : {R : Type 0} → (R → R) → Option R → Option R
update f none = none
update f (some row) = some (f row)

-- `insert(table).values(inserted).onConflictDoUpdate(..)` of a table's one row.
abbrev pub upsert : {R : Type 0} → R → (R → R) → Option R → Option R
upsert inserted f none = some inserted
upsert inserted f (some row) = some (f row)

-- A row of `pause_events`, which two handlers write.
pub record PauseEventRow : Type 0 where
  pub tx_hash : String
  pub ledger : ℕ
  pub timestamp : ℕ
  pub contract : String
  pub is_paused : Bool
  pub caller : String
