-- ===== src/Keeper/Executor.antt =====
-- packages/keeper/src/executor.ts: the tracker of what submissions cost.
pub mod Submission
pub mod Spending
pub mod Submit
use stellars_finance_contrac.Base.{
  ℕ, ◌/◌, ◌*◌, Bool, true, false, not, ◌&&◌, ◌||◌, Option, none, some, List, [], ◌∷◌, if◌then◌else◌,
  ◌==◌,
}
use stellars_finance_contrac.Base.Int.{ℤ, pos, ◌+ℤ◌, ltb_ℤ, leb_ℤ}
use stellars_finance_contrac.Keeper.Loop.{SubmitOutcome, Action}
use Prim.Native.String.{String}
use text.Mathlib.Text.{find?}
use text.Mathlib.Text.{◌==◌ as str_eq}

pub data OpType : Type 0 where
  update_indices liquidate_position execute_order deleverage_position : OpType

-- `Record<OpType, bigint>`
pub record ByOp : Type 0 where
  pub update_indices : ℤ
  pub liquidate_position : ℤ
  pub execute_order : ℤ
  pub deleverage_position : ℤ

abbrev pub empty_by_op : ByOp
empty_by_op = record {
  update_indices = pos 0;
  liquidate_position = pos 0;
  execute_order = pos 0;
  deleverage_position = pos 0;
}

unfoldable pub add_to : OpType → ℤ → ByOp → ByOp
add_to OpType.update_indices fee b = record b { update_indices = b.update_indices +ℤ fee }
add_to OpType.liquidate_position fee b = record b {
  liquidate_position = b.liquidate_position +ℤ fee;
}
add_to OpType.execute_order fee b = record b { execute_order = b.execute_order +ℤ fee }
add_to OpType.deleverage_position fee b = record b {
  deleverage_position = b.deleverage_position +ℤ fee;
}

-- The variables of the cost tracker. `window_start` is in milliseconds.
pub record Costs : Type 0 where
  pub total_spent_stroops : ℤ
  pub by_op_spent_stroops : ByOp
  pub window_start : ℕ
  pub cap_crossed_this_window : Bool

abbrev pub daily_fee_budget_stroops : ℤ
daily_fee_budget_stroops = pos 10_000_000_000

unfoldable pub start_of_day_utc : ℕ → ℕ
start_of_day_utc ms = ms / 86_400_000 * 86_400_000

abbrev pub new_window : ℕ → Costs
new_window today = record {
  total_spent_stroops = pos 0;
  by_op_spent_stroops = empty_by_op;
  window_start = today;
  cap_crossed_this_window = false;
}

unfoldable pub rollover_if_new_day : ℕ → Costs → Costs
rollover_if_new_day now c =
    let today = start_of_day_utc now in if today == c.window_start then c else new_window today

-- The second part says whether the budget warning is printed.
unfoldable pub add_spend : OpType → ℤ → Costs → Costs × Bool
unfolding add_to
add_spend op fee c =
    let total = c.total_spent_stroops +ℤ fee in
    let warns = ltb_ℤ daily_fee_budget_stroops total && not c.cap_crossed_this_window in
    (
      record c {
        total_spent_stroops = total;
        by_op_spent_stroops = add_to op fee c.by_op_spent_stroops;
        cap_crossed_this_window = c.cap_crossed_this_window || warns;
      },
      warns,
    )

unfoldable pub record_spend : OpType → ℤ → ℕ → Costs → Costs × Bool
unfolding rollover_if_new_day add_spend
record_spend op fee now c =
    if leb_ℤ fee (pos 0) then (c, false) else add_spend op fee (rollover_if_new_day now c)
