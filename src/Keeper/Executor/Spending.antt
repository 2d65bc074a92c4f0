-- ===== src/Keeper/Executor/Spending.antt =====
-- packages/keeper/src/executor.ts: the cost tracker, its operations and its warning.
use stellars_finance_contrac.Base.{
  ℕ, suc, subst, sym, ap, ◌∙◌, ◌==◌, ◌||◌, ◌&&◌, not, ◌+◌, ◌≤◌, Bool, true, false, List, [], ◌∷◌,
  if◌then◌else◌, ◌≡◌, refl, arith, All,
}
use stellars_finance_contrac.Base.Int.{ℤ, pos, ◌+ℤ◌, ltb_ℤ, leb_ℤ, int_laws, +ℤ_assoc}
use stellars_finance_contrac.Keeper.Executor.{
  OpType, ByOp, new_window, add_to, Costs, daily_fee_budget_stroops, start_of_day_utc,
  rollover_if_new_day, add_spend, record_spend,
}

abbrev pub sum_by_op : ByOp → ℤ
sum_by_op b = b.update_indices +ℤ b.liquidate_position +ℤ b.execute_order +ℤ b.deleverage_position

-- The tracker's total is the sum of what it holds for each operation.
abbrev pub IsBalanced : Costs → Type 0
IsBalanced c = c.total_spent_stroops ≡ sum_by_op c.by_op_spent_stroops

sum_by_op-add_to :
    (op : OpType) (fee : ℤ) (b : ByOp) → sum_by_op (add_to op fee b) ≡ sum_by_op b +ℤ fee
unfolding add_to
sum_by_op-add_to OpType.update_indices fee b = omega int_laws
sum_by_op-add_to OpType.liquidate_position fee b = omega int_laws
sum_by_op-add_to OpType.execute_order fee b = omega int_laws
sum_by_op-add_to OpType.deleverage_position fee b = omega int_laws

IsBalanced-if :
    (b : Bool) (c d : Costs) → IsBalanced c → IsBalanced d → IsBalanced (if b then c else d)
IsBalanced-if true c d hc hd = hc
IsBalanced-if false c d hc hd = hd

pub rollover-IsBalanced :
    (now : ℕ) (c : Costs) → IsBalanced c → IsBalanced (rollover_if_new_day now c)
unfolding rollover_if_new_day
rollover-IsBalanced now c h =
    IsBalanced-if (start_of_day_utc now == c.window_start) c (new_window (start_of_day_utc now)) h
      (omega int_laws)

add_spend-IsBalanced :
    (op : OpType) (fee : ℤ) (c : Costs) → IsBalanced c → IsBalanced (add_spend op fee c).0
unfolding add_spend
add_spend-IsBalanced op fee c h =
    ap (λ t. t +ℤ fee) h ∙ sym (sum_by_op-add_to op fee c.by_op_spent_stroops)

IsBalanced-branch :
    (b : Bool) (c d : Costs × Bool)
    → IsBalanced c.0
    → IsBalanced d.0
    → IsBalanced (if b then c else d).0
IsBalanced-branch true c d hc hd = hc
IsBalanced-branch false c d hc hd = hd

-- Recording a fee keeps the total equal to the sum over the four operations.
pub record_spend-IsBalanced :
    (op : OpType) (fee : ℤ) (now : ℕ) (c : Costs)
    → IsBalanced c
    → IsBalanced (record_spend op fee now c).0
unfolding record_spend
record_spend-IsBalanced op fee now c h =
    IsBalanced-branch (leb_ℤ fee (pos 0)) (c, false) _ h
      (add_spend-IsBalanced op fee (rollover_if_new_day now c) (rollover-IsBalanced now c h))

-- A fee that the chain charged.
pub record Charge : Type 0 where
  pub op : OpType
  pub fee : ℤ
  pub now : ℕ

-- The tracker after the charges, and how many warnings they printed.
unfoldable pub record_all : List Charge → Costs → Costs × ℕ
record_all [] c = (c, 0)
record_all (x ∷ xs) c =
    let (c', warns) = record_spend x.op x.fee x.now c in
    let (last, more) = record_all xs c' in (last, if warns then suc more else more)

abbrev pub one_if : Bool → ℕ
one_if true = 1
one_if false = 0

-- The fee, where it is positive.
abbrev pub counted : ℤ → ℤ
counted fee = if leb_ℤ fee (pos 0) then pos 0 else fee

abbrev pub counted_all : List Charge → ℤ
counted_all [] = pos 0
counted_all (x ∷ xs) = counted x.fee +ℤ counted_all xs

-- What a charge of an amount does to the tracker within its day.
record Charged (c : Costs) (amount : ℤ) (result : Costs × Bool) : Type 0 where
  window : result.0.window_start ≡ c.window_start
  total : result.0.total_spent_stroops ≡ c.total_spent_stroops +ℤ amount
  warned :
      one_if result.1 + one_if c.cap_crossed_this_window ≡ one_if result.0.cap_crossed_this_window

rollover-same :
    (now : ℕ) (c : Costs) → start_of_day_utc now ≡ c.window_start → rollover_if_new_day now c ≡ c
unfolding rollover_if_new_day
rollover-same now c h = ground (arith, h)

flags : (w cap : Bool) → one_if (w && not cap) + one_if cap ≡ one_if (cap || (w && not cap))
flags true true = refl
flags true false = refl
flags false true = refl
flags false false = refl

add_spend-Charged : (op : OpType) (fee : ℤ) (c : Costs) → Charged c fee (add_spend op fee c)
unfolding add_spend
add_spend-Charged op fee c = record {
  window = refl;
  total = refl;
  warned =
      flags (ltb_ℤ daily_fee_budget_stroops (c.total_spent_stroops +ℤ fee))
        c.cap_crossed_this_window;
}

Charged-if :
    (b : Bool) (c : Costs) (fee : ℤ) (result : Costs × Bool)
    → Charged c fee result
    → Charged c (if b then pos 0 else fee) (if b then (c, false) else result)
Charged-if true c fee result h = record {
  window = refl;
  total = omega int_laws;
  warned = omega arith;
}
Charged-if false c fee result h = h

record_spend-Charged :
    (op : OpType) (fee : ℤ) (now : ℕ) (c : Costs)
    → start_of_day_utc now ≡ c.window_start
    → Charged c (counted fee) (record_spend op fee now c)
unfolding record_spend
record_spend-Charged op fee now c h =
    subst
      (λ d. Charged c (counted fee) (if leb_ℤ fee (pos 0) then (c, false) else add_spend op fee d))
      (sym (rollover-same now c h))
      (Charged-if (leb_ℤ fee (pos 0)) c fee (add_spend op fee c) (add_spend-Charged op fee c))

pub record Tallied (c : Costs) (amount : ℤ) (result : Costs × ℕ) : Type 0 where
  pub total : result.0.total_spent_stroops ≡ c.total_spent_stroops +ℤ amount
  pub warned : result.1 + one_if c.cap_crossed_this_window ≤ 1

one_if-le : (b : Bool) → one_if b ≤ 1
one_if-le true = omega arith
one_if-le false = omega arith

count-if : (b : Bool) (n : ℕ) → (if b then suc n else n) ≡ one_if b + n
count-if true n = omega arith
count-if false n = omega arith

add_up :
    (before a middle b after : ℤ)
    → middle ≡ before +ℤ a
    → after ≡ middle +ℤ b
    → after ≡ before +ℤ (a +ℤ b)
add_up before a middle b after h k = k ∙ ap (λ t. t +ℤ b) h ∙ +ℤ_assoc before a b

-- The fees charged within the tracker's day add up in the total, each that is positive, and they
-- print the budget warning once at most, and never if it had been printed before.
pub record_all-Tallied :
    (xs : List Charge) (c : Costs)
    → All (λ x. start_of_day_utc x.now ≡ c.window_start) xs
    → Tallied c (counted_all xs) (record_all xs c)
unfolding record_all
record_all-Tallied [] c h = record {
  total = omega int_laws;
  warned = omega (arith, one_if-le c.cap_crossed_this_window);
}
record_all-Tallied (x ∷ xs) c h =
    let step = record_spend-Charged x.op x.fee x.now c h.0 in
    let c' = (record_spend x.op x.fee x.now c).0 in
    let rest =
      record_all-Tallied xs c'
        (subst (λ t. All (λ y. start_of_day_utc y.now ≡ t) xs) (sym step.window) h.1) in
    record {
      total = add_up _ (counted x.fee) _ (counted_all xs) _ step.total rest.total;
      warned = omega (
        arith,
        count-if (record_spend x.op x.fee x.now c).1 (record_all xs c').1,
        step.warned,
        rest.warned,
      );
    }
