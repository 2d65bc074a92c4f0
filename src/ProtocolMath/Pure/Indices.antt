-- ===== src/ProtocolMath/Pure/Indices.antt =====
-- `accumulateBorrowIndex` and `accumulateFundingIndex` of packages/protocol-math/src/pure.ts, which
-- have one formula.
use stellars_finance_contrac.Base.{◌≡◌, refl, arith, ℕ, ◌+◌, ◌*◌, ◌/◌}
use stellars_finance_contrac.Base.Int.{
  ℤ, pos, negsuc, pos_part, neg_part, ◌+ℤ◌, ◌*ℤ◌, ◌≤ℤ◌, int_laws, pos-+ℤ-pos,
}
use stellars_finance_contrac.Base.Quot.{◌/ℤ◌, pos_part-/ℤ, neg_part-/ℤ, pos_part-*ℤ, neg_part-*ℤ}
use stellars_finance_contrac.ProtocolMath.Constants.{bps, index_precision, seconds_per_year}
use stellars_finance_contrac.ProtocolMath.Pure.{accumulate_borrow_index, accumulate_funding_index}

-- What one step adds.
abbrev pub growth : ℤ → ℤ → ℤ
growth rate t = rate *ℤ index_precision *ℤ t /ℤ (bps *ℤ seconds_per_year)

divisor : bps *ℤ seconds_per_year ≡ pos 315_360_000_000
unfolding ◌*ℤ◌
divisor = refl

pos_part-growth :
    (rate : ℤ) (t : ℕ)
    → pos_part (growth rate (pos t)) ≡ pos_part rate * 100_000_000_000_000 * t / 315_360_000_000
pos_part-growth rate t = rw (divisor, pos_part-/ℤ, pos_part-*ℤ, pos_part-*ℤ)

neg_part-growth :
    (rate : ℤ) (t : ℕ)
    → neg_part (growth rate (pos t)) ≡ neg_part rate * 100_000_000_000_000 * t / 315_360_000_000
neg_part-growth rate t = rw (divisor, neg_part-/ℤ, neg_part-*ℤ, neg_part-*ℤ)

ruleset growth_laws = (int_laws, pos_part-growth, neg_part-growth)

-- Two steps of `t` and `u` seconds differ from one step of `t + u` by at most one unit.
pub growth_split :
    (rate : ℤ) (t u : ℕ)
    → (growth rate (pos t) +ℤ growth rate (pos u) ≤ℤ growth rate (pos (t + u)) +ℤ pos 1)
      × (growth rate (pos (t + u)) ≤ℤ growth rate (pos t) +ℤ growth rate (pos u) +ℤ pos 1)
growth_split (pos r) t u = omega growth_laws
growth_split (negsuc r) t u = omega growth_laws

pub growth-nonneg : (rate : ℤ) (t : ℕ) → pos 0 ≤ℤ rate → pos 0 ≤ℤ growth rate (pos t)
growth-nonneg (pos r) t h = omega growth_laws
growth-nonneg (negsuc r) t h = absurd (omega arith)

-- Accruing over two adjacent periods and accruing once over both give indices that differ by at
-- most one unit, for both indices, whatever the sign of the rate.
pub accumulate_split :
    (index rate t u : ℤ)
    → pos 0 ≤ℤ t
    → pos 0 ≤ℤ u
    → let once = accumulate_borrow_index index rate (t +ℤ u) in
      let twice = accumulate_borrow_index (accumulate_borrow_index index rate t) rate u in
      (twice ≤ℤ once +ℤ pos 1) × (once ≤ℤ twice +ℤ pos 1)
unfolding accumulate_borrow_index
accumulate_split index rate (pos t) (pos u) ht hu =
    rw pos-+ℤ-pos (omega (int_laws, growth_split rate t u))
accumulate_split index rate (negsuc t) u ht hu = absurd (omega arith)
accumulate_split index rate (pos t) (negsuc u) ht hu = absurd (omega arith)

-- No time adds nothing.
pub growth-zero : (rate : ℤ) → growth rate (pos 0) ≡ pos 0
growth-zero rate = omega growth_laws

pub accumulate-zero : (index rate : ℤ) → accumulate_borrow_index index rate (pos 0) ≡ index
unfolding accumulate_borrow_index
accumulate-zero index rate = rw (growth-zero rate) (omega int_laws)

-- The two indices accrue by the same formula.
pub accumulate_same :
    (index rate t : ℤ)
    → accumulate_funding_index index rate t ≡ accumulate_borrow_index index rate t
unfolding accumulate_borrow_index accumulate_funding_index
accumulate_same index rate t = refl

-- At a rate that is not negative an index never falls.
pub accumulate_grows :
    (index rate t : ℤ) → pos 0 ≤ℤ rate → pos 0 ≤ℤ t → index ≤ℤ accumulate_borrow_index index rate t
unfolding accumulate_borrow_index
accumulate_grows index rate (pos t) hr ht = omega (int_laws, growth-nonneg rate t hr)
accumulate_grows index rate (negsuc t) hr ht = absurd (omega arith)
