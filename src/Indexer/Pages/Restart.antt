-- ===== src/Indexer/Pages/Restart.antt =====
-- packages/indexer/src/index.ts: the loop with failed requests, restarts, and a process that is
-- killed after it commits a page.
use stellars_finance_contrac.Base.{
  ℕ, true, false, Option, none, some, List, [], ◌∷◌, ◌≡◌, refl, sym, ap, subst, ◌∙◌, inl, inr,
  Bool-cases,
}
use stellars_finance_contrac.Base.Dict.{Dict}
use stellars_finance_contrac.Indexer.Spec.{RawEvent}
use stellars_finance_contrac.Indexer.Pages.{
  HandlerEnd, Db, Memory, State, Page, resume, advances, cursor_row, transaction, poll,
  after_transaction,
}
use stellars_finance_contrac.Indexer.Pages.Atomic.{page_effect, applied, poll-applied}
use Prim.Native.String.{String}
use text.Mathlib.Text.{◌==◌}
use native.Mathlib.Omega.{arith}

-- What can happen to the process: a round with a page, a round whose request fails, a restart, or a
-- kill between the end of a page's transaction and the loop's variables, with the restart.
pub data Step : Type 0 where
  answered killed : Page → Step
  unanswered restarted : Step

-- The loop's variables are what a restart would read.
abbrev pub IsResumable : {D : Type 0} → ℕ → State D → Type 0
IsResumable start s = s.memory ≡ resume start s.db.indexer_cursor

abbrev restart : {D : Type 0} → ℕ → State D → State D
restart start s = record s { memory = resume start s.db.indexer_cursor }

-- The pages whose transactions were run.
unfoldable pub pages : List Step → List Page
pages [] = []
pages (Step.answered page ∷ steps) = page ∷ pages steps
pages (Step.killed page ∷ steps) = page ∷ pages steps
pages (Step.unanswered ∷ steps) = pages steps
pages (Step.restarted ∷ steps) = pages steps

advances-ne_empty :
    (next_cursor : String) (cursor : Option String)
    → advances next_cursor cursor ≡ true
    → (next_cursor == "") ≡ false
unfolding advances
advances-ne_empty next_cursor none h = ground arith
advances-ne_empty next_cursor (some cursor) h = ground arith

resume-cursor_row :
    (start : ℕ) (page : Page) (cursor : Option String)
    → advances page.next_cursor cursor ≡ true
    → resume start (some (cursor_row page))
      ≡ record { cursor = some page.next_cursor; start_ledger = page.latest_ledger }
unfolding resume
resume-cursor_row start page cursor h = rw (advances-ne_empty page.next_cursor cursor h) refl

module _ {D E : Type 0} (routes : Dict (E → D → HandlerEnd D))
    (parse : RawEvent → Option (Option E)) where
  -- The database of a page's transaction that has ended.
  abbrev committed : Db D → Option (Db D) → Db D
  committed db none = db
  committed db (some after) = after

  unfoldable pub step : ℕ → Step → State D → State D
  step start (Step.answered page) s = poll routes parse page s
  step start (Step.killed page) s =
      restart start (record s { db = committed s.db (transaction routes parse page s.memory s.db) })
  step start Step.unanswered s = s
  step start Step.restarted s = restart start s

  unfoldable pub run : ℕ → List Step → State D → State D
  run start [] s = s
  run start (event ∷ events) s = run start events (step start event s)

  unfoldable pub poll_all : List Page → State D → State D
  poll_all [] s = s
  poll_all (page ∷ rest) s = poll_all rest (poll routes parse page s)

  restart-IsResumable : (start : ℕ) (s : State D) → IsResumable start s → restart start s ≡ s
  restart-IsResumable start s h = ap {A = Memory} (λ m. record { memory = m; db = s.db }) (sym h)

  applied-IsResumable :
      (start : ℕ) (page : Page) (s : State D) (effect : Option D)
      → IsResumable start s
      → IsResumable start (applied routes parse page s effect)
  applied-IsResumable start page s none h = h
  applied-IsResumable start page s (some tables) h =
      elim (Bool-cases (advances page.next_cursor s.memory.cursor)) [
        | inl e ↦ rw e (sym (resume-cursor_row start page s.memory.cursor e))
        | inr e ↦ rw e h
      ]

  poll-IsResumable :
      (start : ℕ) (page : Page) (s : State D)
      → IsResumable start s
      → IsResumable start (poll routes parse page s)
  poll-IsResumable start page s h =
      subst (IsResumable start) (sym (poll-applied routes parse page s))
        (applied-IsResumable start page s (page_effect routes parse page.events s.db.tables) h)

  -- The transaction's database is the one that the round leaves.
  committed-poll :
      (page : Page) (s : State D) (after : Option (Db D))
      → committed s.db after ≡ (after_transaction routes parse page s after).db
  committed-poll page s none = refl
  committed-poll page s (some after) = refl

  killed-poll :
      (start : ℕ) (page : Page) (s : State D)
      → IsResumable start s
      → step start (Step.killed page) s ≡ poll routes parse page s
  unfolding step poll
  killed-poll start page s h =
      ap {A = Db D} (λ db. record { memory = resume start db.indexer_cursor; db = db })
        (committed-poll page s (transaction routes parse page s.memory s.db))
      ∙ restart-IsResumable start (poll routes parse page s) (poll-IsResumable start page s h)

  -- From a state whose loop variables are what a restart would read, any sequence of rounds, failed
  -- requests, restarts and kills between a commit and the variables ends in the state of its pages
  -- polled in order, each once, without a crash, and there the variables are again what a restart
  -- would read.
  pub run-poll_all :
      (start : ℕ) (steps : List Step) (s : State D)
      → IsResumable start s
      → (run start steps s ≡ poll_all (pages steps) s) × IsResumable start (run start steps s)
  unfolding run poll_all pages step
  run-poll_all start [] s h = (refl, h)
  run-poll_all start (Step.answered page ∷ steps) s h =
      run-poll_all start steps (poll routes parse page s) (poll-IsResumable start page s h)
  run-poll_all start (Step.killed page ∷ steps) s h =
      subst
        (λ t.
          (run start steps t ≡ poll_all (pages steps) (poll routes parse page s))
          × IsResumable start (run start steps t))
        (sym (killed-poll start page s h))
        (run-poll_all start steps (poll routes parse page s) (poll-IsResumable start page s h))
  run-poll_all start (Step.unanswered ∷ steps) s h = run-poll_all start steps s h
  run-poll_all start (Step.restarted ∷ steps) s h =
      subst
        (λ t.
          (run start steps t ≡ poll_all (pages steps) s) × IsResumable start (run start steps t))
        (sym (restart-IsResumable start s h)) (run-poll_all start steps s h)
