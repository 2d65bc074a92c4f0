-- ===== src/Keeper/Loop/Slots.antt =====
-- packages/keeper/src/loop.ts: what an attempt does to the slots, and the loops under a held slot.
use stellars_finance_contrac.Base.{
  ℕ, ◌+◌, ◌<◌, Bool, true, false, Option, none, some, List, [], ◌∷◌, if◌then◌else◌, ◌≡◌, refl, sym,
  subst, ◌∙◌, arith, Bool-cases, inl, inr, ◌⊎◌,
}
use stellars_finance_contrac.Base.Dict.{get, set, get-set, get-delete}
use stellars_finance_contrac.Keeper.Dedup.{claim, release}
use stellars_finance_contrac.Keeper.Dedup.Exclusion.{
  Call, perform, HeldUntil, perform-HeldUntil, claim-held,
}
use stellars_finance_contrac.Keeper.World.{KeeperConfig, PositionRow, MarketRow, KeeperWorld}
use stellars_finance_contrac.Keeper.Scanner.{
  LiquidationCandidate, scan_liquidation_candidates, find_adl_target,
}
use stellars_finance_contrac.Keeper.Loop.{
  SubmitOutcome, Action, Reply, Submission, LoopState, attempt, not_submitted, unexpected,
  liquidate_all, run_hot_tick, update_stale_indices, execute_due_orders, check_adl, deleverage,
  run_cold_tick, check_staleness, is_paused, is_index_stale, is_order_due, is_adl_due,
}
use Prim.Native.String.{String}
use text.Mathlib.Text.{◌==◌}
use text.Mathlib.TextEquality.{eq_iff}

-- The submissions of the log that were made under the key.
unfoldable pub submissions_of : String → List Submission → List Submission
submissions_of key [] = []
submissions_of key (x ∷ xs) =
    if x.key == key then x ∷ submissions_of key xs else submissions_of key xs

-- An attempt that finds its slot free is logged once; its slot is then held for the whole time, or
-- free if the outcome releases it. One that finds the slot taken changes nothing but the turn.
pub attempt_slot :
    (releases : SubmitOutcome → Bool) (key : String) (ttl_ms : ℕ) (action : Action) (reply : Reply)
    (s : LoopState)
    → let s' = attempt releases key ttl_ms action reply s in
      (((claim s.dedup key ttl_ms reply.claim_at).0 ≡ false)
        × (s'.dedup ≡ s.dedup)
        × (s'.log ≡ s.log))
      ⊎ (((claim s.dedup key ttl_ms reply.claim_at).0 ≡ true)
          × (s'.log ≡ (record { key = key; action = action; outcome = reply.outcome }) ∷ s.log)
          × (get s'.dedup.entries key
              ≡ (if releases reply.outcome then none else some (reply.claim_at + ttl_ms))))
unfolding attempt claim release
attempt_slot releases key ttl_ms action reply s = ground (
  arith,
  eq_iff key key,
  get-set s.dedup.entries key key (reply.claim_at + ttl_ms),
  get-delete (set s.dedup.entries key (reply.claim_at + ttl_ms)) key key,
)

-- From the first state to the second the slot stayed held, and nothing was submitted under its key.
pub record Quiet (key : String) (limit : ℕ) (s s' : LoopState) : Type 0 where
  pub held : HeldUntil key limit s'.dedup
  pub unsubmitted : submissions_of key s'.log ≡ submissions_of key s.log

module _ (key : String) (limit : ℕ) where
  Quiet-refl : (s : LoopState) → HeldUntil key limit s.dedup → Quiet key limit s s
  Quiet-refl s h = record { held = h; unsubmitted = refl }

  Quiet-trans :
      (s t u : LoopState) → Quiet key limit s t → Quiet key limit t u → Quiet key limit s u
  Quiet-trans s t u q r = record { held = r.held; unsubmitted = r.unsubmitted ∙ q.unsubmitted }

  Quiet-if :
      (b : Bool) (s x y : LoopState)
      → Quiet key limit s x
      → Quiet key limit s y
      → Quiet key limit s (if b then x else y)
  Quiet-if true s x y p q = p
  Quiet-if false s x y p q = q

  attempt_other :
      (releases : SubmitOutcome → Bool) (other : String) (ttl_ms : ℕ) (action : Action)
      (reply : Reply) (s : LoopState)
      → (other == key) ≡ false
      → HeldUntil key limit s.dedup
      → reply.claim_at < limit
      → Quiet key limit s (attempt releases other ttl_ms action reply s)
  unfolding attempt submissions_of perform
  attempt_other releases other ttl_ms action reply s e h lt =
      let claimed =
        perform-HeldUntil key limit (Call.claim_call other ttl_ms reply.claim_at) s.dedup lt h in
      let released =
        perform-HeldUntil key limit (Call.release_call other)
          (claim s.dedup other ttl_ms reply.claim_at).1 e claimed in
      elim (Bool-cases (claim s.dedup other ttl_ms reply.claim_at).0) [
        | inl mine ↦ rw mine (elim (Bool-cases (releases reply.outcome)) [
          | inl freed ↦ rw freed (record { held = released; unsubmitted = rw e })
          | inr kept ↦ rw kept (record { held = claimed; unsubmitted = rw e })
        ])
        | inr taken ↦ rw taken (record { held = claimed; unsubmitted = refl })
      ]

  attempt-Quiet :
      (releases : SubmitOutcome → Bool) (other : String) (ttl_ms : ℕ) (action : Action)
      (reply : Reply) (s : LoopState)
      → HeldUntil key limit s.dedup
      → reply.claim_at < limit
      → Quiet key limit s (attempt releases other ttl_ms action reply s)
  unfolding attempt
  attempt-Quiet releases other ttl_ms action reply s h lt = elim (Bool-cases (other == key)) [
    | inl e ↦
        let held = subst (λ k. HeldUntil k limit s.dedup) (sym ((eq_iff other key).0 e)) h in
        rw (claim-held s.dedup other limit ttl_ms reply.claim_at held lt)
          (record { held = h; unsubmitted = refl })
    | inr e ↦ attempt_other releases other ttl_ms action reply s e h lt
  ]

  -- Every claim is made before the slot is free again.
  module _ (env : ℕ → Reply) (early : (n : ℕ) → (env n).claim_at < limit) where
    try-Quiet :
        (releases : SubmitOutcome → Bool) (other : String) (ttl_ms : ℕ) (action : Action)
        (s : LoopState)
        → HeldUntil key limit s.dedup
        → Quiet key limit s (attempt releases other ttl_ms action (env s.turn) s)
    try-Quiet releases other ttl_ms action s h =
        attempt-Quiet releases other ttl_ms action (env s.turn) s h (early s.turn)

    liquidate_all-Quiet :
        (cs : List LiquidationCandidate) (s : LoopState)
        → HeldUntil key limit s.dedup
        → Quiet key limit s (liquidate_all env cs s)
    unfolding liquidate_all
    liquidate_all-Quiet [] s h = Quiet-refl s h
    liquidate_all-Quiet (c ∷ cs) s h =
        let first = try-Quiet not_submitted _ _ _ s h in
        Quiet-if (env s.turn).running s _ _
          (Quiet-trans s _ _ first (liquidate_all-Quiet cs _ first.held)) (Quiet-refl s h)

    update_stale_indices-Quiet :
        (world : KeeperWorld) (config : KeeperConfig) (ms : List MarketRow) (s : LoopState)
        → HeldUntil key limit s.dedup
        → Quiet key limit s (update_stale_indices env world config ms s)
    unfolding update_stale_indices
    update_stale_indices-Quiet world config [] s h = Quiet-refl s h
    update_stale_indices-Quiet world config (m ∷ ms) s h =
        let first =
          Quiet-if (is_index_stale world config m) s _ _ (try-Quiet unexpected _ _ _ s h)
            (Quiet-refl s h) in
        Quiet-if (is_paused world.vault) s _ _ (Quiet-refl s h)
          (Quiet-trans s _ _ first (update_stale_indices-Quiet world config ms _ first.held))

    execute_due_orders-Quiet :
        (world : KeeperWorld) (ps : List PositionRow) (s : LoopState)
        → HeldUntil key limit s.dedup
        → Quiet key limit s (execute_due_orders env world ps s)
    unfolding execute_due_orders
    execute_due_orders-Quiet world [] s h = Quiet-refl s h
    execute_due_orders-Quiet world (p ∷ ps) s h =
        let first =
          Quiet-if (is_order_due world p (get world.ticks p.symbol)) s _ _
            (try-Quiet not_submitted _ _ _ s h) (Quiet-refl s h) in
        Quiet-trans s _ _ first (execute_due_orders-Quiet world ps _ first.held)

    deleverage-Quiet :
        (target : Option PositionRow) (s : LoopState)
        → HeldUntil key limit s.dedup
        → Quiet key limit s (deleverage env target s)
    deleverage-Quiet none s h = Quiet-refl s h
    deleverage-Quiet (some p) s h = try-Quiet not_submitted _ _ _ s h

    check_adl-Quiet :
        (world : KeeperWorld) (s : LoopState)
        → HeldUntil key limit s.dedup
        → Quiet key limit s (check_adl env world s)
    unfolding check_adl
    check_adl-Quiet world s h =
        Quiet-if (is_adl_due world.vault world.protocol_config) s _ _
          (deleverage-Quiet (find_adl_target world) s h) (Quiet-refl s h)

    -- While a slot is held, an iteration of the hot loop submits nothing under its key and leaves it
    -- held, whatever the database, the signals and the chain answer, if every claim of the iteration
    -- comes before the slot is free again.
    pub run_hot_tick-Quiet :
        (world : Option KeeperWorld) (config : KeeperConfig) (s : LoopState)
        → HeldUntil key limit s.dedup
        → Quiet key limit s (run_hot_tick env world config s)
    unfolding run_hot_tick
    run_hot_tick-Quiet none config s h = Quiet-refl s h
    run_hot_tick-Quiet (some world) config s h =
        Quiet-if (check_staleness world config) s _ _ (Quiet-refl s h)
          (liquidate_all-Quiet (scan_liquidation_candidates world config) s h)

    -- While a slot is held, an iteration of the cold loop submits nothing under its key in any of
    -- its three steps and leaves it held, if every claim of the iteration comes before the slot is
    -- free again.
    pub run_cold_tick-Quiet :
        (world : Option KeeperWorld) (config : KeeperConfig) (s : LoopState)
        → HeldUntil key limit s.dedup
        → Quiet key limit s (run_cold_tick env world config s)
    unfolding run_cold_tick
    run_cold_tick-Quiet none config s h = Quiet-refl s h
    run_cold_tick-Quiet (some world) config s h =
        let indices = update_stale_indices-Quiet world config world.markets s h in
        let orders = execute_due_orders-Quiet world world.positions _ indices.held in
        let adl = check_adl-Quiet world _ orders.held in
        Quiet-if (check_staleness world config) s _ _ (Quiet-refl s h)
          (Quiet-trans s _ _ indices (Quiet-trans _ _ _ orders adl))
