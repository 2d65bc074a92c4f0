-- ===== src/Indexer/Pages/Atomic.antt =====
-- packages/indexer/src/index.ts: one page in one transaction.
use stellars_finance_contrac.Base.{
  false, Option, none, some, List, [], ◌∷◌, ◌≡◌, refl, sym, ap, ◌∙◌, inl, inr, Bool-cases,
  if◌then◌else◌,
}
use stellars_finance_contrac.Base.Dict.{Dict, get}
use mathlib.Core.Option.{none-ne-some}
use stellars_finance_contrac.Indexer.Spec.{RawEvent}
use stellars_finance_contrac.Indexer.Pages.{
  HandlerEnd, Tx, Memory, State, Page, advances, cursor_row, run_handler, after_handler,
  handle_parsed, handle_routed, handle_raw, handle_events, finish_transaction, transaction, advance,
  after_transaction, poll,
}

module _ {D E : Type 0} (routes : Dict (E → D → HandlerEnd D))
    (parse : RawEvent → Option (Option E)) where
  -- What an event does to the tables; `none` if it breaks its page.
  abbrev pub end_effect : HandlerEnd D → Option D
  end_effect (HandlerEnd.returned tables) = some tables
  end_effect (HandlerEnd.threw tables) = some tables
  end_effect HandlerEnd.statement_failed = none

  abbrev pub parsed_effect : (E → D → HandlerEnd D) → Option (Option E) → D → Option D
  parsed_effect handler none tables = none
  parsed_effect handler (some none) tables = some tables
  parsed_effect handler (some (some event)) tables = end_effect (handler event tables)

  abbrev pub routed_effect : Option (E → D → HandlerEnd D) → RawEvent → D → Option D
  routed_effect none raw tables = some tables
  routed_effect (some handler) raw tables = parsed_effect handler (parse raw) tables

  unfoldable pub page_effect : List RawEvent → D → Option D
  page_effect [] tables = some tables
  page_effect (raw ∷ events) tables = elim (routed_effect (get routes raw.contract_id) raw tables) [
    | none ↦ none
    | some after ↦ page_effect events after
  ]

  -- The state after a page with this effect.
  abbrev pub applied : Page → State D → Option D → State D
  applied page s none = s
  applied page s (some tables) =
      if advances page.next_cursor s.memory.cursor
      then record {
        memory = record { cursor = some page.next_cursor; start_ledger = page.latest_ledger };
        db = record { tables = tables; indexer_cursor = some (cursor_row page) };
      }
      else record s { db = record s.db { tables = tables } }

  -- A transaction that no longer sees the tables shows as `none`.
  abbrev seen : Option (Tx D) → Option D
  seen none = none
  seen (some (Tx.live tables)) = some tables
  seen (some Tx.aborted) = none

  seen-handle_parsed :
      (handler : E → D → HandlerEnd D) (parsed : Option (Option E))
      → seen (handle_parsed routes parse handler parsed Tx.aborted) ≡ none
  unfolding run_handler
  seen-handle_parsed handler none = refl
  seen-handle_parsed handler (some none) = refl
  seen-handle_parsed handler (some (some event)) = refl

  seen-handle_routed :
      (handler : Option (E → D → HandlerEnd D)) (raw : RawEvent)
      → seen (handle_routed routes parse handler raw Tx.aborted) ≡ none
  seen-handle_routed none raw = refl
  seen-handle_routed (some handler) raw = seen-handle_parsed handler (parse raw)

  -- A transaction that is aborted stays so.
  seen-handle_events :
      (events : List RawEvent) (tx : Option (Tx D))
      → seen tx ≡ none
      → seen (handle_events routes parse events tx) ≡ none
  unfolding handle_events handle_raw
  seen-handle_events [] none h = refl
  seen-handle_events (raw ∷ events) none h = refl
  seen-handle_events [] (some tx) h = h
  seen-handle_events (raw ∷ events) (some Tx.aborted) h =
      seen-handle_events events (handle_raw routes parse raw Tx.aborted)
        (seen-handle_routed (get routes raw.contract_id) raw)
  seen-handle_events (raw ∷ events) (some (Tx.live tables)) h = absurd (none-ne-some tables (sym h))

  end_effect-seen : (e : HandlerEnd D) → seen (some (after_handler routes parse e)) ≡ end_effect e
  end_effect-seen (HandlerEnd.returned tables) = refl
  end_effect-seen (HandlerEnd.threw tables) = refl
  end_effect-seen HandlerEnd.statement_failed = refl

  parsed_effect-seen :
      (handler : E → D → HandlerEnd D) (parsed : Option (Option E)) (tables : D)
      → seen (handle_parsed routes parse handler parsed (Tx.live tables))
        ≡ parsed_effect handler parsed tables
  unfolding run_handler
  parsed_effect-seen handler none tables = refl
  parsed_effect-seen handler (some none) tables = refl
  parsed_effect-seen handler (some (some event)) tables = end_effect-seen (handler event tables)

  routed_effect-seen :
      (handler : Option (E → D → HandlerEnd D)) (raw : RawEvent) (tables : D)
      → seen (handle_routed routes parse handler raw (Tx.live tables))
        ≡ routed_effect handler raw tables
  routed_effect-seen none raw tables = refl
  routed_effect-seen (some handler) raw tables = parsed_effect-seen handler (parse raw) tables

  abbrev then_effect : List RawEvent → Option D → Option D
  then_effect events after = elim after [ none ↦ none | some tables ↦ page_effect events tables ]

  rest-seen :
      (events : List RawEvent) (tx : Option (Tx D))
      → ((tables : D)
          → seen (handle_events routes parse events (some (Tx.live tables)))
            ≡ page_effect events tables)
      → seen (handle_events routes parse events tx) ≡ then_effect events (seen tx)
  rest-seen events none h = seen-handle_events events none refl
  rest-seen events (some Tx.aborted) h = seen-handle_events events (some Tx.aborted) refl
  rest-seen events (some (Tx.live tables)) h = h tables

  page_effect-seen :
      (events : List RawEvent) (tables : D)
      → seen (handle_events routes parse events (some (Tx.live tables))) ≡ page_effect events tables
  unfolding handle_events handle_raw page_effect
  page_effect-seen [] tables = refl
  page_effect-seen (raw ∷ events) tables =
      rest-seen events (handle_raw routes parse raw (Tx.live tables)) (page_effect-seen events)
      ∙ ap (then_effect events) (routed_effect-seen (get routes raw.contract_id) raw tables)

  advance_stays :
      (page : Page) (memory : Memory)
      → advances page.next_cursor memory.cursor ≡ false
      → advance routes parse page memory ≡ memory
  unfolding advance
  advance_stays page memory e = rw e refl

  finish-applied :
      (page : Page) (s : State D) (tx : Option (Tx D))
      → after_transaction routes parse page s
          (finish_transaction routes parse page (advances page.next_cursor s.memory.cursor) s.db tx)
        ≡ applied page s (seen tx)
  unfolding finish_transaction advance
  finish-applied page s none = refl
  finish-applied page s (some Tx.aborted) =
      elim (Bool-cases (advances page.next_cursor s.memory.cursor)) [
        | inl e ↦ rw e refl
        | inr e ↦ rw e (
            ap {A = Memory} (λ m. record { memory = m; db = s.db }) (advance_stays page s.memory e))
      ]
  finish-applied page s (some (Tx.live tables)) =
      elim (Bool-cases (advances page.next_cursor s.memory.cursor)) [
        | inl e ↦ rw e refl
        | inr e ↦ rw e refl
      ]

  -- A round that got a page gives the tables the effect of all its events in their order and, if the
  -- page has a new cursor, moves the cursor's row and the loop's variables past it; if one event
  -- breaks the page, by a statement that fails or a parser that throws, the round changes nothing.
  pub poll-applied :
      (page : Page) (s : State D)
      → poll routes parse page s ≡ applied page s (page_effect page.events s.db.tables)
  unfolding poll transaction
  poll-applied page s =
      finish-applied page s (handle_events routes parse page.events (some (Tx.live s.db.tables)))
      ∙ ap (applied page s) (page_effect-seen page.events s.db.tables)
