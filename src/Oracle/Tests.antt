-- ===== src/Oracle/Tests.antt =====
-- The publisher's theorems at a price that doubled.
use stellars_finance_contrac.Base.{true, some, List, [], ◌∷◌, refl, arith}
use stellars_finance_contrac.Base.Int.{ℤ, pos, ◌*ℤ◌, ◌-ℤ◌}
use stellars_finance_contrac.Base.Quot.{◌/ℤ◌}
use stellars_finance_contrac.Base.Dict.{get}
use stellars_finance_contrac.Oracle.Loop.{
  PushPolicy, Reply, Publisher, abs_delta_bps, tick_once, run_ticks,
}
use stellars_finance_contrac.Oracle.Loop.Outliers.{Stuck, outliers-Stuck}
use stellars_finance_contrac.Oracle.Loop.Guards.{Ticked, tick_once-Ticked}
use Prim.Native.String.{String}

abbrev policy : PushPolicy
policy = record {
  push_on_delta_bps = pos 5;
  push_on_stale_sec = pos 5;
  max_delta_bps_per_tick = pos 1_000;
  min_interval_between_pushes_ms = pos 1_000;
}

abbrev publisher : Publisher
publisher = record {
  last_push = ("BTCUSD", record { scaled_price = pos 100; at = pos 0 }) ∷ [];
  submissions = [];
}

abbrev doubled : ℤ → Reply
doubled now = record {
  scaled = some (pos 200);
  interval_clock = now;
  age_clock = now;
  pushed_clock = now;
  submits = true;
}

abbrev ticks : List (String × Reply)
ticks = ("BTCUSD", doubled (pos 10_000)) ∷ ("BTCUSD", doubled (pos 20_000)) ∷ []

outliers-Stuck_example : Stuck "BTCUSD" publisher (run_ticks policy ticks publisher)
unfolding get abs_delta_bps ◌/ℤ◌ ◌*ℤ◌ ◌-ℤ◌
outliers-Stuck_example =
    outliers-Stuck policy "BTCUSD" (record { scaled_price = pos 100; at = pos 0 }) ticks publisher
      refl (λ e. omega arith, (λ e. omega arith, tt))

tick_once-Ticked_example :
    Ticked policy "ETHUSD"
      (doubled (pos 5))
      publisher
      (tick_once policy "ETHUSD" (doubled (pos 5)) publisher)
tick_once-Ticked_example = tick_once-Ticked policy "ETHUSD" (doubled (pos 5)) publisher
