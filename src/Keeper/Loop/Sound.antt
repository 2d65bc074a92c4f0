-- ===== src/Keeper/Loop/Sound.antt =====
-- packages/keeper/src/loop.ts: what the loops submit, and the snapshot that they decide on.
use stellars_finance_contrac.Base.{
  ℕ, Bool, true, false, Option, none, some, List, [], ◌∷◌, if◌then◌else◌, ◌≡◌, refl, inl, inr, In,
  Bool-cases, Option-cases,
}
use stellars_finance_contrac.Base.Int.{ℤ, ◌<ℤ◌, ltb_ℤ-true}
use stellars_finance_contrac.Base.Dict.{get}
use stellars_finance_contrac.Keeper.Dedup.{claim}
use stellars_finance_contrac.Keeper.World.{KeeperConfig, PositionRow, MarketRow, KeeperWorld}
use stellars_finance_contrac.Keeper.Scanner.{find_adl_target}
use stellars_finance_contrac.Keeper.Scanner.Adl.{IsTarget, find_adl_target-IsTarget}
use stellars_finance_contrac.Keeper.Loop.{
  SubmitOutcome, Action, Reply, LoopState, attempt, not_submitted, unexpected, run_hot_tick,
  update_stale_indices, execute_due_orders, check_adl, deleverage, run_cold_tick, check_staleness,
  is_paused, is_index_stale, is_order_due, is_adl_due,
}
use Prim.Native.String.{String}
use stellars_finance_contrac.Keeper.Loop.Warrant.{
  NeedsAdl, Warranted, is_index_stale-NeedsIndices, is_order_due-NeedsOrder, is_adl_due-NeedsAdl,
  AllWarranted,
}

module _ (env : ℕ → Reply) (world : KeeperWorld) (config : KeeperConfig) where
  branch-AllWarranted :
      (b : Bool) (x y : LoopState)
      → (b ≡ true → AllWarranted world config x.log)
      → (b ≡ false → AllWarranted world config y.log)
      → AllWarranted world config (if b then x else y).log
  branch-AllWarranted true x y p q = p refl
  branch-AllWarranted false x y p q = q refl

  attempt-AllWarranted :
      (releases : SubmitOutcome → Bool) (key : String) (ttl_ms : ℕ) (action : Action)
      (reply : Reply) (s : LoopState)
      → Warranted world config action
      → AllWarranted world config s.log
      → AllWarranted world config (attempt releases key ttl_ms action reply s).log
  unfolding attempt
  attempt-AllWarranted releases key ttl_ms action reply s w h =
      elim (Bool-cases (claim s.dedup key ttl_ms reply.claim_at).0) [
        | inl mine ↦ rw mine (w, h)
        | inr taken ↦ rw taken h
      ]

  update_stale_indices-AllWarranted :
      (ms : List MarketRow) (s : LoopState)
      → ((m : MarketRow) → In m ms → In m world.markets)
      → AllWarranted world config s.log
      → AllWarranted world config (update_stale_indices env world config ms s).log
  unfolding update_stale_indices
  update_stale_indices-AllWarranted [] s sub h = h
  update_stale_indices-AllWarranted (m ∷ ms) s sub h =
      branch-AllWarranted (is_paused world.vault) _ _ (λ paused. h)
        (λ live.
          update_stale_indices-AllWarranted ms _ (λ x i. sub x (inr i))
            (branch-AllWarranted (is_index_stale world config m) _ _
              (λ stale.
                attempt-AllWarranted unexpected _ _ _ (env s.turn) s
                  (
                    live,
                    m,
                    refl,
                    sub m (inl refl),
                    is_index_stale-NeedsIndices world config m stale,
                  )
                  h)
              (λ fresh. h)))

  execute_due_orders-AllWarranted :
      (ps : List PositionRow) (s : LoopState)
      → ((p : PositionRow) → In p ps → In p world.positions)
      → AllWarranted world config s.log
      → AllWarranted world config (execute_due_orders env world ps s).log
  unfolding execute_due_orders
  execute_due_orders-AllWarranted [] s sub h = h
  execute_due_orders-AllWarranted (p ∷ ps) s sub h =
      execute_due_orders-AllWarranted ps _ (λ x i. sub x (inr i))
        (branch-AllWarranted (is_order_due world p (get world.ticks p.symbol)) _ _
          (λ due.
            attempt-AllWarranted not_submitted _ _ _ (env s.turn) s
              (p, refl, refl, sub p (inl refl), is_order_due-NeedsOrder world p _ due) h)
          (λ idle. h))

  deleverage-AllWarranted :
      (target : Option PositionRow) (s : LoopState)
      → IsTarget world.ticks world.positions target
      → NeedsAdl world.vault world.protocol_config
      → AllWarranted world config s.log
      → AllWarranted world config (deleverage env target s).log
  deleverage-AllWarranted none s best needs h = h
  deleverage-AllWarranted (some p) s best needs h =
      attempt-AllWarranted not_submitted _ _ _ (env s.turn) s (p, refl, refl, needs, best) h

  check_adl-AllWarranted :
      (s : LoopState)
      → AllWarranted world config s.log
      → AllWarranted world config (check_adl env world s).log
  unfolding check_adl
  check_adl-AllWarranted s h =
      branch-AllWarranted (is_adl_due world.vault world.protocol_config) _ _
        (λ due.
          deleverage-AllWarranted (find_adl_target world) s (find_adl_target-IsTarget world)
            (is_adl_due-NeedsAdl world.vault world.protocol_config due) h)
        (λ idle. h)

  -- What the cold loop submits in an iteration is warranted by the snapshot: indices of a market of
  -- it that has open interest and is out of date, while the vault is not paused; an order of a
  -- position of it that is old enough and triggered at its tick; the deleveraging of a position with
  -- the highest score while the vault is past a limit. If that held of the log before, it does
  -- after.
  pub run_cold_tick-AllWarranted :
      (s : LoopState)
      → AllWarranted world config s.log
      → AllWarranted world config (run_cold_tick env (some world) config s).log
  unfolding run_cold_tick
  run_cold_tick-AllWarranted s h =
      branch-AllWarranted (check_staleness world config) _ _ (λ stale. h)
        (λ live. check_adl-AllWarranted _ (
          execute_due_orders-AllWarranted world.positions _ (λ p i. i)
            (update_stale_indices-AllWarranted world.markets s (λ m i. i) h)))

-- While the indexer lags by more than the limit, or has recorded nothing, neither loop changes
-- anything.
pub stale_world_skipped :
    (env : ℕ → Reply) (world : KeeperWorld) (config : KeeperConfig) (s : LoopState)
    → ((lag : ℤ) → world.indexer_lag_sec ≡ some lag → config.stale_hard_skip_sec <ℤ lag)
    → (run_hot_tick env (some world) config s ≡ s) × (run_cold_tick env (some world) config s ≡ s)
unfolding run_hot_tick run_cold_tick check_staleness
stale_world_skipped env world config s h = elim (Option-cases world.indexer_lag_sec) [
  | inl e ↦ rw e (refl, refl)
  | inr (lag, e) ↦ rw (e, ltb_ℤ-true config.stale_hard_skip_sec lag (h lag e)) (refl, refl)
]
