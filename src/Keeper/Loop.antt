-- ===== src/Keeper/Loop.antt =====
-- packages/keeper/src/loop.ts: the hot loop, which liquidates, and the cold loop, which updates
-- indices, executes orders and deleverages. What the clock, the signals and the chain answer is a
-- stream of replies, one for each round of a loop.
pub mod Warrant
pub mod Slots
pub mod Sound
use stellars_finance_contrac.Base.{
  ℕ, suc, Bool, true, false, not, ◌&&◌, ◌||◌, Option, none, some, List, [], ◌∷◌, if◌then◌else◌,
}
use stellars_finance_contrac.Base.Int.{ℤ, pos, ◌+ℤ◌, ◌-ℤ◌, ◌*ℤ◌, ltb_ℤ, leb_ℤ, eqb_ℤ}
use stellars_finance_contrac.Base.Quot.{◌/ℤ◌}
use stellars_finance_contrac.Base.Dict.{Dict, get}
use stellars_finance_contrac.ProtocolMath.Constants.{bps}
use stellars_finance_contrac.ProtocolMath.Coerce.{to_big_int, optional_chain}
use stellars_finance_contrac.ProtocolMath.Tick.{MarketTick, is_tp_triggered, is_sl_triggered}
use stellars_finance_contrac.Keeper.Dedup.{TtlDedup, claim, release}
use stellars_finance_contrac.Keeper.World.{
  KeeperConfig, PositionRow, MarketRow, VaultStateRow, ProtocolConfigRow, KeeperWorld,
}
use stellars_finance_contrac.Keeper.Scanner.{
  LiquidationCandidate, scan_liquidation_candidates, find_adl_target,
}
use Prim.Native.String.{String, ◌++◌}

-- packages/keeper/src/executor.ts: how an attempt ended.
pub data SubmitOutcome : Type 0 where
  submitted : SubmitOutcome
  rejected : (expected : Bool) → (reason : String) → SubmitOutcome

-- A call of the executor.
pub data Action : Type 0 where
  update_indices : String → Action
  liquidate_position execute_order deleverage_position : String → String → Action

-- In one round: `isRunning()`, `Date.now()` in the claim, and the outcome of the submission.
pub record Reply : Type 0 where
  pub running : Bool
  pub claim_at : ℕ
  pub outcome : SubmitOutcome

pub record Submission : Type 0 where
  pub key : String
  pub action : Action
  pub outcome : SubmitOutcome

-- `log` lists the submissions, the latest first; `turn` counts the replies that were read.
pub record LoopState : Type 0 where
  pub dedup : TtlDedup
  pub log : List Submission
  pub turn : ℕ

abbrev pub liquidation_dedup_ttl_ms : ℕ
liquidation_dedup_ttl_ms = 60_000

abbrev pub index_update_dedup_ttl_ms : ℕ
index_update_dedup_ttl_ms = 5_000

unfoldable pub pos_key : String → String → String
pos_key trader symbol = trader ++ ":" ++ symbol

unfoldable pub indices_key : String → String
indices_key symbol = "indices:" ++ symbol

-- `outcome.kind !== "submitted"`
unfoldable pub not_submitted : SubmitOutcome → Bool
not_submitted submitted = false
not_submitted (rejected expected reason) = true

-- `outcome.kind === "rejected" && !outcome.expected`
unfoldable pub unexpected : SubmitOutcome → Bool
unexpected submitted = false
unexpected (rejected expected reason) = not expected

-- Claim the key, submit, and release the key after an outcome that calls for it.
unfoldable pub attempt :
    (SubmitOutcome → Bool) → String → ℕ → Action → Reply → LoopState → LoopState
attempt releases key ttl_ms action reply s =
    let (mine, claimed) = claim s.dedup key ttl_ms reply.claim_at in
    if mine
    then record {
      dedup = if releases reply.outcome then release claimed key else claimed;
      log = (record { key = key; action = action; outcome = reply.outcome }) ∷ s.log;
      turn = suc s.turn;
    }
    else record s { dedup = claimed; turn = suc s.turn }

-- `lagSec > staleHardSkipSec`, where no lag is infinite.
unfoldable pub check_staleness : KeeperWorld → KeeperConfig → Bool
check_staleness world config = elim world.indexer_lag_sec [
  | none ↦ true
  | some lag ↦ ltb_ℤ config.stale_hard_skip_sec lag
]

unfoldable pub liquidate_all : (ℕ → Reply) → List LiquidationCandidate → LoopState → LoopState
liquidate_all env [] s = s
liquidate_all env (c ∷ cs) s =
    let key = pos_key c.position.trader c.position.symbol in
    let next =
      attempt not_submitted key liquidation_dedup_ttl_ms
        (liquidate_position c.position.trader c.position.symbol) (env s.turn) s in
    if (env s.turn).running then liquidate_all env cs next else s

-- One iteration of `runHotLoop`; a failed load is caught and leaves everything as it was.
unfoldable pub run_hot_tick :
    (ℕ → Reply) → Option KeeperWorld → KeeperConfig → LoopState → LoopState
run_hot_tick env none config s = s
run_hot_tick env (some world) config s =
    if check_staleness world config
    then s
    else liquidate_all env (scan_liquidation_candidates world config) s

abbrev pub is_paused : Option VaultStateRow → Bool
is_paused none = false
is_paused (some vault) = vault.is_paused

-- The market has open interest, and its indices are older than the threshold.
unfoldable pub is_index_stale : KeeperWorld → KeeperConfig → MarketRow → Bool
is_index_stale world config m =
    let total_oi =
      to_big_int m.columns.long_open_interest +ℤ to_big_int m.columns.short_open_interest in
    let elapsed = world.now -ℤ to_big_int m.columns.last_index_update in
    not (eqb_ℤ total_oi (pos 0)) && ltb_ℤ config.index_update_threshold_sec elapsed

unfoldable pub update_stale_indices :
    (ℕ → Reply) → KeeperWorld → KeeperConfig → List MarketRow → LoopState → LoopState
update_stale_indices env world config [] s = s
update_stale_indices env world config (m ∷ ms) s =
    if is_paused world.vault
    then s
    else update_stale_indices env world config ms (
        if is_index_stale world config m
        then attempt unexpected (indices_key m.symbol) index_update_dedup_ttl_ms
            (update_indices m.symbol) (env s.turn) s
        else s)

-- The position has an order, is old enough, and its order is triggered at the tick of its market.
unfoldable pub is_order_due : KeeperWorld → PositionRow → Option MarketTick → Bool
is_order_due world p none = false
is_order_due world p (some tick) =
    let tp = to_big_int p.take_profit in
    let sl = to_big_int p.stop_loss in
    let age = world.now -ℤ to_big_int p.last_increased_time in
    let min_lifetime =
      to_big_int (optional_chain world.protocol_config (λ c. c.min_position_lifetime)) in
    not (eqb_ℤ tp (pos 0) && eqb_ℤ sl (pos 0))
    && not (ltb_ℤ age min_lifetime)
    && (is_tp_triggered tick tp p.columns.is_long || is_sl_triggered tick sl p.columns.is_long)

unfoldable pub execute_due_orders :
    (ℕ → Reply) → KeeperWorld → List PositionRow → LoopState → LoopState
execute_due_orders env world [] s = s
execute_due_orders env world (p ∷ ps) s = execute_due_orders env world ps (
    if is_order_due world p (get world.ticks p.symbol)
    then attempt not_submitted (pos_key p.trader p.symbol) liquidation_dedup_ttl_ms
        (execute_order p.trader p.symbol) (env s.turn) s
    else s)

-- The vault's profit or its reserve is past the share of its assets that calls for deleveraging.
unfoldable pub is_adl_due : Option VaultStateRow → Option ProtocolConfigRow → Bool
is_adl_due none config = false
is_adl_due (some vault) none = false
is_adl_due (some vault) (some config) =
    let total_assets = to_big_int vault.liquidity.total_assets in
    let net_pnl = to_big_int vault.net_global_trader_pnl in
    let reserved = to_big_int vault.liquidity.reserved_usdc in
    let pnl_trigger =
      ltb_ℤ (pos 0) net_pnl && ltb_ℤ config.adl_pnl_bps (net_pnl *ℤ bps /ℤ total_assets) in
    let util_trigger = ltb_ℤ config.adl_utilization_bps (reserved *ℤ bps /ℤ total_assets) in
    ltb_ℤ (pos 0) total_assets && (pnl_trigger || util_trigger)

abbrev pub deleverage : (ℕ → Reply) → Option PositionRow → LoopState → LoopState
deleverage env none s = s
deleverage env (some p) s =
    attempt not_submitted (pos_key p.trader p.symbol) liquidation_dedup_ttl_ms
      (deleverage_position p.trader p.symbol) (env s.turn) s

unfoldable pub check_adl : (ℕ → Reply) → KeeperWorld → LoopState → LoopState
check_adl env world s =
    if is_adl_due world.vault world.protocol_config
    then deleverage env (find_adl_target world) s
    else s

unfoldable pub run_cold_tick :
    (ℕ → Reply) → Option KeeperWorld → KeeperConfig → LoopState → LoopState
run_cold_tick env none config s = s
run_cold_tick env (some world) config s =
    if check_staleness world config
    then s
    else check_adl env world (
        execute_due_orders env world world.positions
          (update_stale_indices env world config world.markets s))
