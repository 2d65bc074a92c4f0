-- ===== src/ProtocolMath/Quote/Liquidity.antt =====
-- The liquidity check and the slippage cap of `evaluateIncrease`.
use stellars_finance_contrac.Base.{
  true, false, if◌then◌else◌, ◌&&◌, Bool-cases, inl, inr, refl, ◌≡◌, arith, ◌↔◌, ℕ, ◌*◌, ◌≤◌, ◌/◌,
}
use stellars_finance_contrac.Base.Int.{
  ℤ, pos, negsuc, ◌+ℤ◌, ◌-ℤ◌, ◌*ℤ◌, ◌≤ℤ◌, ◌<ℤ◌, int_laws, ltb_ℤ,
}
use stellars_finance_contrac.Base.Quot.{◌/ℤ◌}
use stellars_finance_contrac.ProtocolMath.Constants.{bps}
use stellars_finance_contrac.ProtocolMath.Quote.{
  IncreaseQuoteInput, safe_basis, liquidity_headroom, acceptable_price, evaluate_increase,
}
use native.Mathlib.Nat.{mul-le-mul_left}

-- The reserve that the utilization cap allows.
abbrev pub reserve_cap : IncreaseQuoteInput → ℤ
reserve_cap i = safe_basis i.vault *ℤ i.protocol_limits.max_utilization_ratio_bps /ℤ bps

over_headroom :
    (size cap reserved : ℤ)
    → ((ltb_ℤ (pos 0) size && ltb_ℤ (if ltb_ℤ reserved cap then cap -ℤ reserved else pos 0) size)
        ≡ true)
      ↔ ((pos 0 <ℤ size) × (cap <ℤ reserved +ℤ size))
over_headroom size cap reserved = elim (Bool-cases (ltb_ℤ reserved cap)) [
  | inl e ↦ rw e (grind int_laws)
  | inr e ↦ rw e (grind int_laws)
]

-- The quote warns of a lack of liquidity exactly when the size is positive and the reserve with it
-- added would pass the cap that the utilization limit sets on the safe basis.
pub exceeds_liquidity_iff :
    (i : IncreaseQuoteInput)
    → ((evaluate_increase i).exceeds_liquidity ≡ true)
      ↔ ((pos 0 <ℤ i.intent.size) × (reserve_cap i <ℤ i.vault.reserved_usdc +ℤ i.intent.size))
unfolding evaluate_increase liquidity_headroom
exceeds_liquidity_iff i = over_headroom i.intent.size (reserve_cap i) i.vault.reserved_usdc

filled :
    (cap reserved : ℤ)
    → let headroom = if ltb_ℤ reserved cap then cap -ℤ reserved else pos 0 in
      pos 0 <ℤ headroom → reserved +ℤ headroom ≡ cap
filled cap reserved h = elim (Bool-cases (ltb_ℤ reserved cap)) [
  | inl e ↦ rw e (omega int_laws)
  | inr e ↦ absurd (omega (arith, rw e at h))
]

-- An increase by exactly the quoted headroom, where that is not zero, uses up the cap.
pub headroom_fills_cap :
    (i : IncreaseQuoteInput)
    → pos 0 <ℤ (evaluate_increase i).liquidity_headroom
    → i.vault.reserved_usdc +ℤ (evaluate_increase i).liquidity_headroom ≡ reserve_cap i
unfolding evaluate_increase liquidity_headroom
headroom_fills_cap i h = filled (reserve_cap i) i.vault.reserved_usdc h

-- What a slippage of at most 10000 bps moves the price by.
slip_term : (m k : ℕ) → k ≤ 10_000 → m * k / 10_000 ≤ m
slip_term m k h = let whole : m * k ≤ m * 10_000 = mul-le-mul_left m h in omega arith

-- For a mark that is not negative and a slippage of at most 10000 bps, the acceptable price of a
-- long is zero or at least the mark and at most twice the mark, and that of a short lies between
-- zero and the mark.
pub acceptable_price_bounds :
    (mark slip : ℤ)
    → pos 0 ≤ℤ mark
    → slip ≤ℤ bps
    → (acceptable_price mark slip true ≤ℤ mark +ℤ mark)
      × (pos 0 ≤ℤ acceptable_price mark slip false)
      × (acceptable_price mark slip false ≤ℤ mark)
unfolding acceptable_price ◌*ℤ◌ ◌/ℤ◌ ◌+ℤ◌ ◌-ℤ◌
acceptable_price_bounds (pos m) (pos k) hm hs =
    let small = slip_term m k (omega arith) in
    let term : pos m *ℤ pos k /ℤ bps ≡ pos (m * k / 10_000) = refl in ground (arith, small)
acceptable_price_bounds (pos m) (negsuc k) hm hs = ground arith
acceptable_price_bounds (negsuc m) slip hm hs = absurd (omega arith)
