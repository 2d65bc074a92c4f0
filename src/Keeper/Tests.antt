-- ===== src/Keeper/Tests.antt =====
-- The keeper's theorems at a small snapshot of the database that meets their hypotheses.
use stellars_finance_contrac.Base.{
  ℕ, true, false, none, some, List, [], ◌∷◌, ◌≡◌, refl, ◌↔◌, In, arith,
}
use stellars_finance_contrac.Base.Int.{pos}
use stellars_finance_contrac.Base.Dict.{get}
use stellars_finance_contrac.ProtocolMath.Coerce.{Stringy}
use stellars_finance_contrac.Keeper.Dedup.{TtlDedup, claim}
use stellars_finance_contrac.Keeper.Dedup.Exclusion.{Call, perform_all, claim_excludes}
use stellars_finance_contrac.Keeper.World.{
  KeeperConfig, PositionRow, KeeperWorld, Tables, load_keeper_world,
}
use stellars_finance_contrac.Keeper.Scanner.{
  LiquidationCandidate, threshold_bps, funding_cut_bps, scan_liquidation_candidates,
  find_adl_target,
}
use stellars_finance_contrac.Keeper.Scanner.Liquidations.{IsUnder, scan_iff}
use stellars_finance_contrac.Keeper.Scanner.Adl.{IsTarget, find_adl_target-IsTarget}
use stellars_finance_contrac.Keeper.Loop.{
  SubmitOutcome, Action, Reply, LoopState, run_cold_tick, run_hot_tick,
}
use stellars_finance_contrac.Keeper.Loop.Slots.{Quiet, run_cold_tick-Quiet, run_hot_tick-Quiet}
use stellars_finance_contrac.Keeper.Loop.Sound.{run_cold_tick-AllWarranted}
use stellars_finance_contrac.Keeper.Loop.Warrant.{AllWarranted}
use stellars_finance_contrac.Keeper.Executor.{OpType, new_window, start_of_day_utc}
use stellars_finance_contrac.Keeper.Executor.Submission.{
  Executor, Attempt, Build, Send, RawFee, CreatedAt, Conversion, perform,
}
use stellars_finance_contrac.Keeper.Executor.Spending.{
  Charge, Tallied, record_all, counted_all, record_all-Tallied,
}
use stellars_finance_contrac.Keeper.Executor.Submit.{Accounted, perform-Accounted}

abbrev empty_dedup : TtlDedup
empty_dedup = record { entries = [] }

claim_excludes_example :
    let d' =
      perform_all
        (Call.has_call "a:BTC" 120
          ∷ Call.claim_call "b:BTC" 60_000 130
          ∷ Call.release_call "b:BTC"
          ∷ [])
        (claim empty_dedup "a:BTC" 60_000 100).1 in
    claim d' "a:BTC" 60_000 5_000 ≡ (false, d')
unfolding claim get
claim_excludes_example =
    claim_excludes empty_dedup "a:BTC" 60_000 100
      (Call.has_call "a:BTC" 120
        ∷ Call.claim_call "b:BTC" 60_000 130
        ∷ Call.release_call "b:BTC"
        ∷ [])
      60_000 5_000 refl (omega arith, (omega arith, (refl, tt))) (omega arith)

abbrev config : KeeperConfig
config = record {
  poll_interval_ms = pos 5_000;
  liquidation_idle_ms = pos 500;
  index_update_threshold_sec = pos 600;
  liquidation_safety_margin_bps = pos 500;
  stale_alert_sec = pos 60;
  stale_hard_skip_sec = pos 300;
}

-- A long of 1000 on a collateral of 10, opened at a price of 100.
abbrev long_position : PositionRow
long_position = record {
  trader = "GA";
  symbol = "BTC";
  columns = record {
    size = Stringy.numeral (pos 1_000_0000000);
    collateral = Stringy.numeral (pos 10_0000000);
    entry_price = Stringy.numeral (pos 100_0000000);
    entry_borrow_index = Stringy.numeral (pos 0);
    entry_funding_index = Stringy.numeral (pos 0);
    is_long = true;
  };
  take_profit = Stringy.numeral (pos 0);
  stop_loss = Stringy.numeral (pos 99_0000000);
  last_increased_time = Stringy.numeral (pos 1_000);
}

-- A short in profit, to deleverage.
abbrev short_position : PositionRow
short_position = record long_position {
  trader = "GB";
  columns = record long_position.columns { is_long = false };
  stop_loss = Stringy.numeral (pos 0);
}

abbrev tables : Tables
tables = record {
  positions = long_position ∷ short_position ∷ [];
  markets =
      (record {
        symbol = "BTC";
        columns = record {
          acc_borrow_index = Stringy.numeral (pos 0);
          acc_funding_index = Stringy.numeral (pos 0);
          last_index_update = Stringy.numeral (pos 1_000);
          long_open_interest = Stringy.numeral (pos 1_000_0000000);
          short_open_interest = Stringy.numeral (pos 1_000_0000000);
        };
      })
      ∷ [];
  prices = (record { symbol = "BTC"; price = Stringy.numeral (pos 99_0000000) }) ∷ [];
  vault = some (record {
    liquidity = record {
      reserved_usdc = Stringy.numeral (pos 9_000_0000000);
      total_assets = Stringy.numeral (pos 10_000_0000000);
    };
    net_global_trader_pnl = Stringy.numeral (pos 0);
    is_paused = false;
  });
  protocol_config = some (record {
    rates = record {
      base_borrow_rate_bps = Stringy.numeral (pos 0);
      slope1_bps = Stringy.numeral (pos 0);
      slope2_bps = Stringy.numeral (pos 0);
      optimal_utilization_bps = Stringy.numeral (pos 8_000);
      base_funding_rate_bps = Stringy.numeral (pos 0);
    };
    min_position_lifetime = Stringy.numeral (pos 60);
    last_unpause_time = Stringy.numeral (pos 0);
    funding_cut_bps = pos 0;
    adl_pnl_bps = pos 5_000;
    adl_utilization_bps = pos 8_500;
    liquidation_threshold_bps = pos 500;
  });
  cursor = some (record { last_ledger_close_time = pos 1_990 });
}

abbrev world : KeeperWorld
world = load_keeper_world tables (pos 2_000)

-- At 99 the long has lost all of its collateral.
abbrev sunk : LiquidationCandidate
sunk = record { position = long_position; health = pos 0 }

scan_iff_example : In sunk (scan_liquidation_candidates world config) ↔ (
    In sunk.position world.positions
    × IsUnder
        (get world.ticks sunk.position.symbol)
        (threshold_bps world.protocol_config config)
        (funding_cut_bps world.protocol_config)
        sunk)
scan_iff_example = scan_iff world config sunk

find_adl_target-IsTarget_example : IsTarget world.ticks world.positions (find_adl_target world)
find_adl_target-IsTarget_example = find_adl_target-IsTarget world

-- Every claim is made at 100, and every submission goes through.
abbrev env : ℕ → Reply
env n = record { running = true; claim_at = 100; outcome = SubmitOutcome.submitted }

abbrev idle : LoopState
idle = record { dedup = empty_dedup; log = []; turn = 0 }

abbrev busy : LoopState
busy = record { dedup = record { entries = ("GA:BTC", 60_000) ∷ [] }; log = []; turn = 0 }

run_cold_tick-Quiet_example :
    Quiet "GA:BTC" 60_000 busy (run_cold_tick env (some world) config busy)
unfolding get
run_cold_tick-Quiet_example =
    run_cold_tick-Quiet "GA:BTC" 60_000 env (λ n. omega arith) (some world) config busy
      (omega arith)

run_cold_tick-AllWarranted_example :
    AllWarranted world config (run_cold_tick env (some world) config idle).log
run_cold_tick-AllWarranted_example = run_cold_tick-AllWarranted env world config idle tt

run_hot_tick-Quiet_example : Quiet "GA:BTC" 60_000 busy (run_hot_tick env (some world) config busy)
unfolding get
run_hot_tick-Quiet_example =
    run_hot_tick-Quiet "GA:BTC" 60_000 env (λ n. omega arith) (some world) config busy (omega arith)

abbrev executor : Executor
executor = record { costs = new_window 0; keeper_fees = [] }

-- A submission that settles for 100 stroops.
abbrev settling : Attempt
settling = record {
  build = Build.built;
  send = Send.sent (record {
    response_hash = some "ab";
    send_hash = none;
    ledger = some 7;
    created_at = CreatedAt.missing;
    fee_charged = RawFee.convertible (Conversion.gives (pos 100));
  });
  now = 5_000;
  inserts = true;
}

perform-Accounted_example :
    Accounted
      ("NotLiquidatable" ∷ [])
      (Action.liquidate_position "GA" "BTC")
      settling
      executor
      (perform ("NotLiquidatable" ∷ []) (Action.liquidate_position "GA" "BTC") settling executor)
perform-Accounted_example =
    perform-Accounted ("NotLiquidatable" ∷ []) (Action.liquidate_position "GA" "BTC") settling
      executor

-- Two fees, the second of which passes the daily budget.
abbrev charges : List Charge
charges =
    (record { op = OpType.update_indices; fee = pos 400; now = 5_000 })
    ∷ (record { op = OpType.execute_order; fee = pos 10_000_000_000; now = 6_000 })
    ∷ []

record_all-Tallied_example :
    Tallied (new_window 0) (counted_all charges) (record_all charges (new_window 0))
unfolding start_of_day_utc
record_all-Tallied_example = record_all-Tallied charges (new_window 0) (refl, (refl, tt))
