-- ===== src/ProtocolMath/Tick/Funding.antt =====
-- Funding in `MarketTick.evaluate` of packages/protocol-math/src/tick.ts: payers, receivers and the
-- protocol's cut.
use stellars_finance_contrac.Base.{◌≡◌, arith, ℕ, ◌*◌, ◌/◌, ◌≤◌, ◌<◌, Option}
use stellars_finance_contrac.Base.Int.{ℤ, pos, negsuc, ◌+ℤ◌, ◌-ℤ◌, ◌*ℤ◌, ◌≤ℤ◌, int_laws}
use stellars_finance_contrac.Base.Quot.{◌/ℤ◌}
use stellars_finance_contrac.ProtocolMath.Constants.{bps}
use stellars_finance_contrac.ProtocolMath.Types.{PositionState, Slice}
use stellars_finance_contrac.ProtocolMath.Pure.{calc_health}
use stellars_finance_contrac.ProtocolMath.Tick.{
  MarketTick, zero_sum_funding, funding_protocol_cut, evaluate, payer_oi, receiver_oi,
}
use native.Mathlib.Nat.{mul-le-mul_left, div-le_of_le-mul}

scaled-le : (f p r : ℕ) → p < r → f * p / r ≤ f
scaled-le f p r h = div-le_of_le-mul r (grind arith)

-- A receiver's funding is scaled down at most, and never below zero.
pub zero_sum_funding-receiver :
    (fee payer receiver : ℤ)
    → pos 0 ≤ℤ fee
    → pos 0 ≤ℤ payer
    → (pos 0 ≤ℤ zero_sum_funding fee payer receiver) × (zero_sum_funding fee payer receiver ≤ℤ fee)
unfolding zero_sum_funding ◌*ℤ◌ ◌/ℤ◌
zero_sum_funding-receiver (pos f) (pos p) (pos r) hf hp = ground (arith, scaled-le f p r)
zero_sum_funding-receiver (pos f) (pos p) (negsuc r) hf hp = ground arith
zero_sum_funding-receiver (negsuc f) payer receiver hf hp = absurd (omega arith)
zero_sum_funding-receiver (pos f) (negsuc p) receiver hf hp = absurd (omega arith)

-- The cut takes a part of what is received, for a rate of at most 10000 bps.
pub funding_protocol_cut_bounds :
    (z cut : ℤ)
    → pos 0 ≤ℤ z
    → pos 0 ≤ℤ cut
    → cut ≤ℤ bps
    → (pos 0 ≤ℤ funding_protocol_cut z cut) × (funding_protocol_cut z cut ≤ℤ z)
unfolding funding_protocol_cut ◌*ℤ◌ ◌/ℤ◌
funding_protocol_cut_bounds (pos z) (pos c) hz hc h =
    let whole : z * c ≤ z * 10_000 = mul-le-mul_left z (omega arith) in ground arith
funding_protocol_cut_bounds (negsuc z) cut hz hc h = absurd (omega arith)
funding_protocol_cut_bounds (pos z) (negsuc c) hz hc h = absurd (omega arith)

receiver_funding :
    (fee payer receiver cut : ℤ)
    → pos 0 ≤ℤ fee
    → pos 0 ≤ℤ payer
    → pos 0 ≤ℤ cut
    → cut ≤ℤ bps
    → let z = zero_sum_funding fee payer receiver in
      let c = funding_protocol_cut z cut in
      (pos 0 ≤ℤ z -ℤ c) × (pos 0 ≤ℤ c) × ((z -ℤ c) +ℤ c ≤ℤ fee)
receiver_funding fee payer receiver cut hf hp hc h =
    let z = zero_sum_funding-receiver fee payer receiver hf hp in
    let c = funding_protocol_cut_bounds (zero_sum_funding fee payer receiver) cut z.0 hc h in
    omega (int_laws, z, c)

-- A position that is owed funding gets something between nothing and the raw fee, the cut is not
-- negative, and the two together are no more than the fee: where the paying side's open interest
-- is not negative and the cut is at most 10000 bps.
pub evaluate_receiver :
    (t : MarketTick) (p : PositionState) (slice : Option Slice) (cut : ℤ)
    → pos 0 ≤ℤ payer_oi t.market p.is_long
    → pos 0 ≤ℤ cut
    → cut ≤ℤ bps
    → pos 0 ≤ℤ (evaluate t p slice cut).funding_fee
    → let e = evaluate t p slice cut in
      (pos 0 ≤ℤ e.effective_funding)
      × (pos 0 ≤ℤ e.funding_protocol_cut)
      × (e.effective_funding +ℤ e.funding_protocol_cut ≤ℤ e.funding_fee)
unfolding evaluate
evaluate_receiver t p slice cut hp hc h hf =
    receiver_funding _ (payer_oi t.market p.is_long) (receiver_oi t.market p.is_long) cut hf hp hc h

health_gap : (c u b f g : ℤ) → calc_health c u b f -ℤ calc_health c u b g ≡ f -ℤ g
unfolding calc_health
health_gap c u b f g = omega int_laws

-- The raw and the effective health differ exactly as the raw and the effective funding do.
pub evaluate_health_gap :
    (t : MarketTick) (p : PositionState) (slice : Option Slice) (cut : ℤ)
    → let e = evaluate t p slice cut in
      e.health -ℤ e.effective_health ≡ e.funding_fee -ℤ e.effective_funding
unfolding evaluate
evaluate_health_gap t p slice cut = health_gap _ _ _ _ _
