-- ===== src/ProtocolMath/Pure/Rates.antt =====
-- `calcBorrowRate` and `calcFundingRate` of packages/protocol-math/src/pure.ts.
use stellars_finance_contrac.Base.{Bool-cases, inl, inr, ◌≡◌, arith, ℕ, ◌≤◌, ◌*◌, ◌+◌}
use stellars_finance_contrac.Base.Int.{
  ℤ, pos, negsuc, ◌+ℤ◌, ◌-ℤ◌, ◌*ℤ◌, neg, ◌≤ℤ◌, eqb_ℤ, int_laws, neg-sub_swap, *ℤ-neg, pos-+ℤ-pos,
  *ℤ_comm, +ℤ_comm,
}
use stellars_finance_contrac.Base.Quot.{
  ◌/ℤ◌, neg-/ℤ, /ℤ_mono, *ℤ_mono_right, quot_laws, magnitude, magnitude-*ℤ, magnitude-/ℤ,
}
use stellars_finance_contrac.ProtocolMath.Constants.{bps}
use stellars_finance_contrac.ProtocolMath.Pure.{
  calc_borrow_rate, calc_funding_rate, calc_utilization_bps,
}
use native.Mathlib.Nat.{div-le_of_le-mul, mul-le-mul_right}

-- One arm of the kink: a slope over a utilization.
abbrev slope_term : ℤ → ℤ → ℤ
slope_term u slope = u *ℤ slope /ℤ bps

slope_term_mono :
    (u v slope : ℤ) → pos 0 ≤ℤ slope → u ≤ℤ v → slope_term u slope ≤ℤ slope_term v slope
slope_term_mono u v (pos k) hs h = /ℤ_mono _ _ 10_000 (*ℤ_mono_right _ _ k h)
slope_term_mono u v (negsuc k) hs h = absurd (omega arith)

slope_term_nonneg : (u slope : ℤ) → pos 0 ≤ℤ slope → pos 0 ≤ℤ u → pos 0 ≤ℤ slope_term u slope
slope_term_nonneg (pos u) (pos k) hs h = omega quot_laws
slope_term_nonneg (negsuc u) slope hs h = absurd (omega arith)
slope_term_nonneg (pos u) (negsuc k) hs h = absurd (omega arith)

-- With slopes that are not negative the borrow rate never falls as utilization rises, across the
-- kink too.
pub calc_borrow_rate_mono :
    (u v base slope1 slope2 optimal : ℤ)
    → pos 0 ≤ℤ slope1
    → pos 0 ≤ℤ slope2
    → u ≤ℤ v
    → calc_borrow_rate u base slope1 slope2 optimal ≤ℤ calc_borrow_rate v base slope1 slope2 optimal
unfolding calc_borrow_rate
calc_borrow_rate_mono u v base slope1 slope2 optimal h1 h2 h = grind (
  int_laws,
  slope_term_mono u v slope1 h1 h,
  slope_term_mono u optimal slope1 h1,
  slope_term_mono (u -ℤ optimal) (v -ℤ optimal) slope2 h2,
  slope_term_nonneg (v -ℤ optimal) slope2 h2,
)

-- A rate is never below its base, for utilization and an optimum that are not negative.
pub base-le-calc_borrow_rate :
    (u base slope1 slope2 optimal : ℤ)
    → pos 0 ≤ℤ slope1
    → pos 0 ≤ℤ slope2
    → pos 0 ≤ℤ u
    → pos 0 ≤ℤ optimal
    → base ≤ℤ calc_borrow_rate u base slope1 slope2 optimal
unfolding calc_borrow_rate
base-le-calc_borrow_rate u base slope1 slope2 optimal h1 h2 hu ho = grind (
  int_laws,
  slope_term_nonneg u slope1 h1 hu,
  slope_term_nonneg optimal slope1 h1 ho,
  slope_term_nonneg (u -ℤ optimal) slope2 h2,
)

pub calc_utilization_bps-nonneg :
    (reserved total : ℤ) → pos 0 ≤ℤ reserved → pos 0 ≤ℤ calc_utilization_bps reserved total
unfolding calc_utilization_bps
calc_utilization_bps-nonneg (pos r) (pos t) h = grind quot_laws
calc_utilization_bps-nonneg (negsuc r) (pos t) h = absurd (omega arith)
calc_utilization_bps-nonneg reserved (negsuc t) h = ground arith

magnitude-sub-le : (l s : ℕ) → magnitude (pos l -ℤ pos s) ≤ l + s
unfolding ◌-ℤ◌
magnitude-sub-le l s = ground arith

weighted_diff-le :
    (l s : ℕ) (base : ℤ) → magnitude ((pos l -ℤ pos s) *ℤ base) ≤ (l + s) * magnitude base
weighted_diff-le l s base =
    rw magnitude-*ℤ (mul-le-mul_right (magnitude base) (magnitude-sub-le l s))

-- The funding rate is never larger than the base rate, in either direction.
pub magnitude-calc_funding_rate :
    (long_oi short_oi base : ℤ)
    → pos 0 ≤ℤ long_oi
    → pos 0 ≤ℤ short_oi
    → magnitude (calc_funding_rate long_oi short_oi base) ≤ magnitude base
unfolding calc_funding_rate
magnitude-calc_funding_rate (pos l) (pos s) base hl hs =
    rw pos-+ℤ-pos (elim (Bool-cases (eqb_ℤ (pos (l + s)) (pos 0))) [
      | inl e ↦ rw e (omega arith)
      | inr e ↦ rw (e, magnitude-/ℤ) (div-le_of_le-mul (l + s) (weighted_diff-le l s base))
    ])
magnitude-calc_funding_rate (negsuc l) short_oi base hl hs = absurd (omega arith)
magnitude-calc_funding_rate (pos l) (negsuc s) base hl hs = absurd (omega arith)

-- Exchanging the two open interests reverses the funding rate.
pub calc_funding_rate-swap :
    (long_oi short_oi base : ℤ)
    → calc_funding_rate short_oi long_oi base ≡ neg (calc_funding_rate long_oi short_oi base)
unfolding calc_funding_rate
calc_funding_rate-swap l s base = rw (+ℤ_comm s l) (elim (Bool-cases (eqb_ℤ (l +ℤ s) (pos 0))) [
  | inl e ↦ rw e (omega int_laws)
  | inr e ↦ rw e (rw (*ℤ_comm (s -ℤ l), ← neg-sub_swap l s, *ℤ-neg, neg-/ℤ, *ℤ_comm base))
])
