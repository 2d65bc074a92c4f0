-- ===== src/ProtocolMath/Eval/Row.antt =====
-- `evaluatePositionRow`, `evaluatePositionMarkOnly` and `liquidationPriceForPosition` against one
-- another.
use stellars_finance_contrac.Base.{
  Bool, false, if◌then◌else◌, some, ◌≡◌, refl, arith, zero, suc, ◌+◌, ◌*◌, ◌<◌,
}
use stellars_finance_contrac.Base.Int.{ℤ, pos, negsuc, ◌+ℤ◌, ◌-ℤ◌, ◌*ℤ◌, ◌<ℤ◌, int_laws, eqb_ℤ}
use stellars_finance_contrac.Base.Quot.{◌/ℤ◌, magnitude}
use stellars_finance_contrac.ProtocolMath.Constants.{bps}
use stellars_finance_contrac.ProtocolMath.Coerce.{PositionRowShape, to_big_int, to_position_state}
use stellars_finance_contrac.ProtocolMath.Pure.{calc_unrealized_pnl, calc_health}
use stellars_finance_contrac.ProtocolMath.Tick.{
  MarketTick, evaluate, sliced_size, sliced_collateral,
}
use stellars_finance_contrac.ProtocolMath.Eval.{
  PositionMarkInput, evaluate_position_row, evaluate_position_mark_only,
  liquidation_price_for_position,
}
use stellars_finance_contrac.ProtocolMath.Quote.RoundTrip.{
  offset, result_at, calc_unrealized_pnl-offset, round_trip_error,
}
use native.Mathlib.Nat.{add-zero}

-- The columns that the mark-only evaluation reads.
abbrev pub mark_input : PositionRowShape → PositionMarkInput
mark_input row = record { is_long = row.is_long; size = row.size; entry_price = row.entry_price }

-- Mark-only evaluation gives the profit of the full evaluation, whatever the indices, the open
-- interests and the cut.
pub mark_only_agrees :
    (row : PositionRowShape) (tick : MarketTick) (cut : ℤ)
    → evaluate_position_mark_only (mark_input row) tick.mark_price
      ≡ (evaluate_position_row row tick cut).pnl
unfolding evaluate_position_mark_only evaluate_position_row evaluate to_position_state sliced_size
mark_only_agrees row tick cut = refl

-- A position at the price where its result should be what brings its health to the gate.
health_at_gate :
    (size entry c borrow funding g : ℤ) (is_long : Bool)
    → pos 0 <ℤ size
    → pos 0 <ℤ entry
    → let a = offset entry size (g -ℤ c +ℤ borrow -ℤ funding) in
      let price = if is_long then entry +ℤ a else entry -ℤ a in
      let health = calc_health c (calc_unrealized_pnl size entry price is_long) borrow funding in
      magnitude entry * magnitude (health -ℤ g) < magnitude entry + magnitude size
unfolding calc_health
health_at_gate (pos (suc s)) (pos (suc e)) c borrow funding g is_long hs he =
    let p = g -ℤ c +ℤ borrow -ℤ funding in
    let q = result_at (pos (suc e)) (pos (suc s)) (offset (pos (suc e)) (pos (suc s)) p) in
    let gap : c +ℤ q -ℤ borrow +ℤ funding -ℤ g ≡ q -ℤ p = omega int_laws in
    rw (calc_unrealized_pnl-offset, gap, add-zero, add-zero) (round_trip_error p s e)
health_at_gate (pos zero) entry c borrow funding g is_long hs he = absurd (omega arith)
health_at_gate (negsuc s) entry c borrow funding g is_long hs he = absurd (omega arith)
health_at_gate (pos (suc s)) (pos zero) c borrow funding g is_long hs he = absurd (omega arith)
health_at_gate (pos (suc s)) (negsuc e) c borrow funding g is_long hs he = absurd (omega arith)

not_zero : (z : ℤ) → pos 0 <ℤ z → eqb_ℤ z (pos 0) ≡ false
not_zero z h = ground arith

-- The same market at another mark.
abbrev pub at_mark : MarketTick → ℤ → MarketTick
at_mark tick price = record tick { mark_price = price }

-- The gate of the position.
abbrev pub position_gate : PositionRowShape → ℤ → ℤ
position_gate row threshold_bps = to_big_int row.collateral *ℤ threshold_bps /ℤ bps

-- A position of positive size, entry price and collateral has a liquidation price, and a tick of
-- the same market at that mark evaluates the position to an effective health that misses the gate
-- by less than `1 + size / entry`.
pub liquidation_price_accurate :
    (row : PositionRowShape) (tick : MarketTick) (threshold_bps cut : ℤ)
    → pos 0 <ℤ to_big_int row.size
    → pos 0 <ℤ to_big_int row.entry_price
    → pos 0 <ℤ to_big_int row.collateral
    → (price : ℤ) × (liquidation_price_for_position row tick threshold_bps cut ≡ some price)
      × (let e = evaluate_position_row row (at_mark tick price) cut in
          magnitude (to_big_int row.entry_price)
            * magnitude (e.effective_health -ℤ position_gate row threshold_bps)
          < magnitude (to_big_int row.entry_price) + magnitude (to_big_int row.size))
unfolding liquidation_price_for_position evaluate_position_row evaluate to_position_state
    sliced_size sliced_collateral
liquidation_price_accurate row tick th cut hs he hc = (
  _,
  rw (not_zero _ hs, not_zero _ hc, not_zero _ he),
  health_at_gate (to_big_int row.size) (to_big_int row.entry_price) (to_big_int row.collateral) _ _
      _ row.is_long hs he,
)
