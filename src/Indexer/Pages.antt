-- ===== src/Indexer/Pages.antt =====
-- packages/indexer/src/index.ts: the event loop, one page of events in one transaction, and what a
-- restart reads back. The tables, the routes and the parser are parameters. Of a transaction of
-- Postgres the model takes that after a failed statement every further one fails, and that a COMMIT
-- then rolls back without an error.
pub mod Atomic
pub mod Restart
use stellars_finance_contrac.Base.{
  ℕ, ◌/◌, Bool, true, false, ◌&&◌, not, Option, none, some, List, [], ◌∷◌, if◌then◌else◌, min, ltb,
}
use stellars_finance_contrac.Base.Dict.{Dict, get}
use stellars_finance_contrac.Indexer.Spec.{RawEvent}
use Prim.Native.String.{String}
use text.Mathlib.Text.{◌==◌}

-- How a handler ends: it returns, it throws after some writes, or one of its statements fails.
pub data HandlerEnd (D : Type 0) : Type 0 where
  returned threw : (tables : D) → HandlerEnd D
  statement_failed : HandlerEnd D

-- An open transaction: the tables as it sees them, or aborted by a failed statement.
pub data Tx (D : Type 0) : Type 0 where
  live : (tables : D) → Tx D
  aborted : Tx D

-- The row of `indexer_cursor` with `id = 1`.
pub record CursorRow : Type 0 where
  pub last_ledger : ℕ
  pub last_cursor : String
  pub last_ledger_close_time : ℕ

pub record Db (D : Type 0) : Type 0 where
  pub tables : D
  pub indexer_cursor : Option CursorRow

-- The variables `cursor` and `startLedger`.
pub record Memory : Type 0 where
  pub cursor : Option String
  pub start_ledger : ℕ

pub record State (D : Type 0) : Type 0 where
  pub memory : Memory
  pub db : Db D

-- A page, with `Date.now()` while it is handled; times are in milliseconds.
pub record Page : Type 0 where
  pub events : List RawEvent
  pub latest_ledger : ℕ
  pub next_cursor : String
  pub now : ℕ

-- `Math.min(..)` of the start ledgers above 0, or 0 if there is none.
unfoldable pub initial_start_ledger : List ℕ → ℕ
initial_start_ledger [] = 0
initial_start_ledger (l ∷ ls) =
    let rest = initial_start_ledger ls in
    if ltb 0 l then (if ltb 0 rest then min l rest else l) else rest

-- What the process starts with: the cursor's row if it has a cursor.
unfoldable pub resume : ℕ → Option CursorRow → Memory
resume start none = record { cursor = none; start_ledger = start }
resume start (some row) =
    if row.last_cursor == ""
    then record { cursor = none; start_ledger = start }
    else record { cursor = some row.last_cursor; start_ledger = row.last_ledger }

-- `nextCursor && nextCursor !== cursor`
unfoldable pub advances : String → Option String → Bool
advances next_cursor none = not (next_cursor == "")
advances next_cursor (some cursor) = not (next_cursor == "") && not (next_cursor == cursor)

-- The close time of the page's last event, or now, in seconds.
unfoldable pub close_time : List RawEvent → ℕ → ℕ
close_time [] now = now / 1_000
close_time (event ∷ []) now = event.ledger_closed_at / 1_000
close_time (event ∷ second ∷ events) now = close_time (second ∷ events) now

abbrev pub cursor_row : Page → CursorRow
cursor_row page = record {
  last_ledger = page.latest_ledger;
  last_cursor = page.next_cursor;
  last_ledger_close_time = close_time page.events page.now;
}

module _ {D E : Type 0} (routes : Dict (E → D → HandlerEnd D))
    (parse : RawEvent → Option (Option E)) where
  -- The `try` around a handler's call.
  abbrev pub after_handler : HandlerEnd D → Tx D
  after_handler (HandlerEnd.returned tables) = Tx.live tables
  after_handler (HandlerEnd.threw tables) = Tx.live tables
  after_handler HandlerEnd.statement_failed = Tx.aborted

  unfoldable pub run_handler : (E → D → HandlerEnd D) → E → Tx D → Tx D
  run_handler handler event (Tx.live tables) = after_handler (handler event tables)
  run_handler handler event Tx.aborted = Tx.aborted

  -- A raw event's turn; `none` is a throw of the parser, which nothing catches inside the loop.
  abbrev pub handle_parsed : (E → D → HandlerEnd D) → Option (Option E) → Tx D → Option (Tx D)
  handle_parsed handler none tx = none
  handle_parsed handler (some none) tx = some tx
  handle_parsed handler (some (some event)) tx = some (run_handler handler event tx)

  abbrev pub handle_routed : Option (E → D → HandlerEnd D) → RawEvent → Tx D → Option (Tx D)
  handle_routed none raw tx = some tx
  handle_routed (some handler) raw tx = handle_parsed handler (parse raw) tx

  unfoldable pub handle_raw : RawEvent → Tx D → Option (Tx D)
  handle_raw raw tx = handle_routed (get routes raw.contract_id) raw tx

  unfoldable pub handle_events : List RawEvent → Option (Tx D) → Option (Tx D)
  handle_events events none = none
  handle_events [] (some tx) = some tx
  handle_events (raw ∷ events) (some tx) = handle_events events (handle_raw raw tx)

  -- The cursor's statement and the COMMIT. `none` is a throw, after which the database is rolled
  -- back; the database of an aborted transaction is also as it was.
  unfoldable pub finish_transaction : Page → Bool → Db D → Option (Tx D) → Option (Db D)
  finish_transaction page advancing db none = none
  finish_transaction page advancing db (some Tx.aborted) = if advancing then none else some db
  finish_transaction page advancing db (some (Tx.live tables)) = some (record {
    tables = tables;
    indexer_cursor = if advancing then some (cursor_row page) else db.indexer_cursor;
  })

  unfoldable pub transaction : Page → Memory → Db D → Option (Db D)
  transaction page memory db =
      finish_transaction page (advances page.next_cursor memory.cursor) db
        (handle_events page.events (some (Tx.live db.tables)))

  unfoldable pub advance : Page → Memory → Memory
  advance page memory =
      if advances page.next_cursor memory.cursor
      then record { cursor = some page.next_cursor; start_ledger = page.latest_ledger }
      else memory

  -- A round of the loop that got a page.
  abbrev pub after_transaction : Page → State D → Option (Db D) → State D
  after_transaction page s none = s
  after_transaction page s (some db) = record { memory = advance page s.memory; db = db }

  unfoldable pub poll : Page → State D → State D
  poll page s = after_transaction page s (transaction page s.memory s.db)
