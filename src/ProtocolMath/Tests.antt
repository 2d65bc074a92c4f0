-- ===== src/ProtocolMath/Tests.antt =====
-- Runs of the arithmetic on concrete inputs, and the theorems at inputs that meet their hypotheses.
use stellars_finance_contrac.Base.{true, false, ◌↔◌, ◌≡◌, refl, some, none, arith, ◌<◌, ◌*◌, ◌+◌, ℕ}
use stellars_finance_contrac.Base.Int.{ℤ, pos, negsuc, neg, ◌+ℤ◌, ◌-ℤ◌, ◌*ℤ◌, ◌≤ℤ◌, ◌<ℤ◌}
use stellars_finance_contrac.Base.Quot.{◌/ℤ◌, magnitude}
use stellars_finance_contrac.ProtocolMath.Types.{
  MarketState, PositionState, BorrowRateConfig, ProjectInput,
}
use stellars_finance_contrac.ProtocolMath.Coerce.{Stringy, PositionRowShape, to_big_int}
use stellars_finance_contrac.ProtocolMath.Pure.{calc_funding_fee}
use stellars_finance_contrac.ProtocolMath.Tick.{
  MarketTick, sliced_size, payer_oi, project, evaluate,
}
use stellars_finance_contrac.ProtocolMath.Tick.Projection.{
  project_split, project_grows, resume, straight,
}
use stellars_finance_contrac.ProtocolMath.Tick.Funding.{evaluate_receiver}
use stellars_finance_contrac.ProtocolMath.Quote.{
  IncreaseQuoteInput, evaluate_increase, liquidation_price_at_open,
}
use stellars_finance_contrac.ProtocolMath.Quote.Liquidation.{
  gate, health_at_open, liquidation_price_at_open_accurate,
}
use stellars_finance_contrac.ProtocolMath.Quote.Liquidity.{reserve_cap, exceeds_liquidity_iff}
use stellars_finance_contrac.ProtocolMath.Eval.{
  evaluate_position_row, liquidation_price_for_position,
}
use stellars_finance_contrac.ProtocolMath.Eval.Row.{
  at_mark, position_gate, liquidation_price_accurate,
}

abbrev market : MarketState
market = record {
  acc_borrow_index = pos 0;
  acc_funding_index = pos 0;
  last_index_update = pos 1_000;
  long_open_interest = pos 300_000_000;
  short_open_interest = pos 100_000_000;
}

abbrev rates : BorrowRateConfig
rates = record {
  base_borrow_rate_bps = pos 100;
  slope1_bps = pos 400;
  slope2_bps = pos 6_000;
  optimal_utilization_bps = pos 8_000;
  base_funding_rate_bps = pos 500;
}

abbrev input : ProjectInput
input = record {
  market = market;
  mark_price = pos 1_000_000_000;
  vault = record { reserved_usdc = pos 900; total_assets = pos 1_000 };
  rate_config = rates;
  now = pos 4_600;
  last_unpause_time = pos 2_000;
}

project_split_example :
    let once = (project (straight input (pos 9_000))).market in
    let twice = (project (resume input (pos 9_000))).market in
    (twice.acc_borrow_index ≤ℤ once.acc_borrow_index +ℤ pos 1)
    × (once.acc_borrow_index ≤ℤ twice.acc_borrow_index +ℤ pos 1)
    × (twice.acc_funding_index ≤ℤ once.acc_funding_index +ℤ pos 1)
    × (once.acc_funding_index ≤ℤ twice.acc_funding_index +ℤ pos 1)
project_split_example = project_split input (pos 9_000) (omega arith) (omega arith) (omega arith)

project_grows_example : pos 0 ≤ℤ (project input).market.acc_borrow_index
project_grows_example =
    project_grows input
      (record {
        base = omega arith;
        slope1 = omega arith;
        slope2 = omega arith;
        optimal = omega arith;
      })
      (omega arith)

abbrev tick : MarketTick
tick = record {
  market = record market {
    acc_borrow_index = pos 2_000_000_000_000;
    acc_funding_index = pos 1_000_000_000_000;
  };
  mark_price = pos 1_100_000_000;
}

-- A long, which pays, and a short, which receives.
abbrev long_position : PositionState
long_position = record {
  is_long = true;
  size = pos 50_000_000;
  collateral = pos 10_000_000;
  entry_price = pos 1_000_000_000;
  entry_borrow_index = pos 0;
  entry_funding_index = pos 0;
}

abbrev short_position : PositionState
short_position = record long_position { is_long = false }

long_pays : (evaluate tick long_position none (pos 1_000)).funding_fee ≡ negsuc 499_999
unfolding evaluate sliced_size calc_funding_fee ◌*ℤ◌ ◌/ℤ◌ ◌-ℤ◌ neg
long_pays = refl

short_receives : (evaluate tick short_position none (pos 1_000)).funding_fee ≡ pos 500_000
unfolding evaluate sliced_size calc_funding_fee ◌*ℤ◌ ◌/ℤ◌ ◌-ℤ◌
short_receives = refl

evaluate_receiver_example :
    let e = evaluate tick short_position none (pos 1_000) in
    (pos 0 ≤ℤ e.effective_funding)
    × (pos 0 ≤ℤ e.funding_protocol_cut)
    × (e.effective_funding +ℤ e.funding_protocol_cut ≤ℤ e.funding_fee)
unfolding payer_oi
evaluate_receiver_example =
    evaluate_receiver tick short_position none (pos 1_000) (omega arith) (omega arith) (omega arith)
      (rw short_receives (omega arith))

liquidation_price_at_open_accurate_example :
    (price : ℤ) × (liquidation_price_at_open (pos 1_000) (pos 100) (pos 700) true (pos 200)
      ≡ some price)
    × (slack : ℕ) × (health_at_open (pos 1_000) (pos 100) (pos 700) true price
        ≡ gate (pos 100) (pos 200) +ℤ pos slack)
    × (magnitude (pos 1_000) * slack < 2 * magnitude (pos 1_000) + magnitude (pos 700))
liquidation_price_at_open_accurate_example =
    liquidation_price_at_open_accurate (pos 1_000) (pos 100) (pos 700) true (pos 200) (omega arith)
      (omega arith) (omega arith) (omega arith) (omega arith)

abbrev quote_input : IncreaseQuoteInput
quote_input = record {
  intent = record {
    collateral = pos 100;
    size = pos 700;
    is_long = true;
    slippage_bps = some (pos 50);
  };
  tick = tick;
  fee_config = record { open_fee_bps = pos 10 };
  vault = record { reserved_usdc = pos 500; total_assets = pos 1_500; unclaimed_fees = pos 100 };
  protocol_limits = record {
    max_utilization_ratio_bps = pos 8_000;
    liquidation_threshold_bps = pos 200;
  };
  rate_config = rates;
}

exceeds_liquidity_iff_example :
    ((evaluate_increase quote_input).exceeds_liquidity ≡ true)
    ↔ ((pos 0 <ℤ pos 700) × (reserve_cap quote_input <ℤ pos 500 +ℤ pos 700))
exceeds_liquidity_iff_example = exceeds_liquidity_iff quote_input

abbrev row : PositionRowShape
row = record {
  is_long = true;
  size = Stringy.numeral (pos 50_000_000);
  collateral = Stringy.numeral (pos 10_000_000);
  entry_price = Stringy.numeral (pos 1_000_000_000);
  entry_borrow_index = Stringy.null;
  entry_funding_index = Stringy.empty;
}

liquidation_price_accurate_example :
    (price : ℤ) × (liquidation_price_for_position row tick (pos 200) (pos 1_000) ≡ some price)
    × (let e = evaluate_position_row row (at_mark tick price) (pos 1_000) in
        magnitude (to_big_int row.entry_price)
          * magnitude (e.effective_health -ℤ position_gate row (pos 200))
        < magnitude (to_big_int row.entry_price) + magnitude (to_big_int row.size))
unfolding to_big_int
liquidation_price_accurate_example =
    liquidation_price_accurate row tick (pos 200) (pos 1_000) (omega arith) (omega arith)
      (omega arith)
