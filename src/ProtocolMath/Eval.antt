-- ===== src/ProtocolMath/Eval.antt =====
-- packages/protocol-math/src/eval.ts: the evaluation of position rows, and the liquidation price of
-- an open position.
pub mod Row
use stellars_finance_contrac.Base.{Bool, Option, none, some, ◌||◌, if◌then◌else◌}
use stellars_finance_contrac.Base.Int.{ℤ, pos, ◌+ℤ◌, ◌-ℤ◌, ◌*ℤ◌, eqb_ℤ}
use stellars_finance_contrac.Base.Quot.{◌/ℤ◌}
use stellars_finance_contrac.ProtocolMath.Constants.{bps}
use stellars_finance_contrac.ProtocolMath.Types.{PositionEvaluation}
use stellars_finance_contrac.ProtocolMath.Coerce.{
  Stringy, to_big_int, PositionRowShape, to_position_state,
}
use stellars_finance_contrac.ProtocolMath.Pure.{calc_unrealized_pnl}
use stellars_finance_contrac.ProtocolMath.Tick.{MarketTick, evaluate}

unfoldable pub evaluate_position_row : PositionRowShape → MarketTick → ℤ → PositionEvaluation
evaluate_position_row row tick funding_cut_bps =
    evaluate tick (to_position_state row) none funding_cut_bps

pub record PositionMarkInput : Type 0 where
  pub is_long : Bool
  pub size : Stringy
  pub entry_price : Stringy

-- The `pnl` of the result object, its only field.
unfoldable pub evaluate_position_mark_only : PositionMarkInput → ℤ → ℤ
evaluate_position_mark_only row mark_price =
    calc_unrealized_pnl (to_big_int row.size) (to_big_int row.entry_price) mark_price row.is_long

unfoldable pub liquidation_price_for_position : PositionRowShape → MarketTick → ℤ → ℤ → Option ℤ
liquidation_price_for_position row tick liquidation_threshold_bps funding_cut_bps =
    let state = to_position_state row in
    let evald = evaluate tick state none funding_cut_bps in
    let threshold_value = state.collateral *ℤ liquidation_threshold_bps /ℤ bps in
    let pnl_at_liq =
      threshold_value -ℤ state.collateral +ℤ evald.borrow_fee -ℤ evald.effective_funding in
    let adjustment = state.entry_price *ℤ pnl_at_liq /ℤ state.size in
    if eqb_ℤ state.size (pos 0) || eqb_ℤ state.collateral (pos 0) || eqb_ℤ state.entry_price (pos 0)
    then none
    else some
        (if state.is_long then state.entry_price +ℤ adjustment else state.entry_price -ℤ adjustment)
