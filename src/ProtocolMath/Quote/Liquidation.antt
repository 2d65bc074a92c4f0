-- ===== src/ProtocolMath/Quote/Liquidation.antt =====
-- `liquidationPriceAtOpen` of packages/protocol-math/src/quote.ts against the contract's gate.
use stellars_finance_contrac.Base.{
  Bool, true, false, if◌then◌else◌, some, ◌≡◌, ◌∙◌, ap, sym, refl, arith, ℕ, zero, suc, ◌+◌, ◌*◌,
  ◌/◌, ◌-◌, ◌<◌, ◌≤◌,
}
use stellars_finance_contrac.Base.Int.{
  ℤ, pos, negsuc, ◌+ℤ◌, ◌-ℤ◌, ◌*ℤ◌, neg, ◌≤ℤ◌, ◌<ℤ◌, int_laws, *ℤ-neg,
}
use stellars_finance_contrac.Base.Quot.{◌/ℤ◌, neg-/ℤ, magnitude}
use stellars_finance_contrac.ProtocolMath.Constants.{bps}
use stellars_finance_contrac.ProtocolMath.Pure.{calc_unrealized_pnl, calc_health}
use stellars_finance_contrac.ProtocolMath.Quote.{liquidation_price_at_open}
use stellars_finance_contrac.ProtocolMath.Quote.RoundTrip.{
  offset, result_at, calc_unrealized_pnl-offset, round_trip_gain, IsCloseBelow,
}
use native.Mathlib.Nat.{mul-add, mul-le-mul_left}

-- What the trader may lose, and what has to remain.
abbrev loss_buffer : ℤ → ℤ → ℤ
loss_buffer collateral threshold_bps = collateral *ℤ (bps -ℤ threshold_bps) /ℤ bps

abbrev pub gate : ℤ → ℤ → ℤ
gate collateral threshold_bps = collateral *ℤ threshold_bps /ℤ bps

parts_of_collateral :
    (c t : ℕ)
    → t ≤ 10_000
    → let l = c * (10_000 - t) / 10_000 in
      let g = c * t / 10_000 in
      (loss_buffer (pos c) (pos t) ≡ pos l)
      × (gate (pos c) (pos t) ≡ pos g)
      × (l + g ≤ c)
      × (c ≤ l + g + 1)
unfolding ◌*ℤ◌ ◌/ℤ◌
parts_of_collateral c t h =
    let kept : bps -ℤ pos t ≡ pos (10_000 - t) = omega int_laws in
    let split : c * (10_000 - t) + c * t ≡ c * 10_000 =
      sym (mul-add c (10_000 - t) t) ∙ ap (λ (k : ℕ). c * k) (omega arith) in
    (rw kept, refl, omega arith, omega arith)

-- The health of the position at a price.
abbrev pub health_at_open : ℤ → ℤ → ℤ → Bool → ℤ → ℤ
health_at_open mark collateral size is_long price =
    calc_health collateral (calc_unrealized_pnl size mark price is_long) (pos 0) (pos 0)

quoted :
    (m c s t : ℕ) (is_long : Bool)
    → let a = offset (pos (suc m)) (pos (suc s)) (loss_buffer (pos (suc c)) (pos t)) in
      liquidation_price_at_open (pos (suc m)) (pos (suc c)) (pos (suc s)) is_long (pos t)
      ≡ some (if is_long then pos (suc m) +ℤ neg a else pos (suc m) -ℤ neg a)
unfolding liquidation_price_at_open
quoted m c s t true =
    let a = offset (pos (suc m)) (pos (suc s)) (loss_buffer (pos (suc c)) (pos t)) in
    let below : pos (suc m) -ℤ a ≡ pos (suc m) +ℤ neg a = omega int_laws in ground (arith, below)
quoted m c s t false =
    let a = offset (pos (suc m)) (pos (suc s)) (loss_buffer (pos (suc c)) (pos t)) in
    let above : pos (suc m) +ℤ a ≡ pos (suc m) -ℤ neg a = omega int_laws in ground (arith, above)

-- The result at the quoted price gives up the buffer, or a little less.
result_at_quote :
    (m l s : ℕ)
    → (k : ℕ) × (result_at
          (pos (suc m))
          (pos (suc s))
          (neg (offset (pos (suc m)) (pos (suc s)) (pos l)))
        ≡ neg (pos k))
      × IsCloseBelow (suc m) (suc s) l k
result_at_quote m l s =
    let (k, eq, h) = round_trip_gain l s m in (k, rw (*ℤ-neg, neg-/ℤ) (ap neg eq), h)

health_left :
    (c l g k : ℕ)
    → l + g ≤ c
    → c ≤ l + g + 1
    → k ≤ l
    → (r : ℕ) × (calc_health (pos c) (neg (pos k)) (pos 0) (pos 0) ≡ pos (g + r)) × (r + k ≤ l + 1)
unfolding calc_health
health_left c l g k h1 h2 h3 = (c - k - g, omega int_laws, omega arith)

slack_bound : (m s l k r : ℕ) → r + k ≤ l + 1 → m * l < m * k + m + s → m * r < 2 * m + s
slack_bound m s l k r h lt =
    let scaled : m * (r + k) ≤ m * (l + 1) = mul-le-mul_left m h in omega arith

-- The loss at the quoted price, and what that leaves.
at_quote :
    (m c s t : ℕ) (is_long : Bool)
    → t ≤ 10_000
    → let a = neg (offset (pos (suc m)) (pos (suc s)) (loss_buffer (pos (suc c)) (pos t))) in
      let price = if is_long then pos (suc m) +ℤ a else pos (suc m) -ℤ a in
      (slack : ℕ) × (health_at_open (pos (suc m)) (pos (suc c)) (pos (suc s)) is_long price
        ≡ gate (pos (suc c)) (pos t) +ℤ pos slack)
      × (suc m * slack < 2 * suc m + suc s)
at_quote m c s t is_long h =
    let (buffer, remains, fits, tight) = parts_of_collateral (suc c) t h in
    let (k, eq, close) = result_at_quote m (suc c * (10_000 - t) / 10_000) s in
    let (r, left, small) = health_left (suc c) _ _ k fits tight close.0 in
    (
      r,
      rw (buffer, remains, calc_unrealized_pnl-offset, eq, left) (omega int_laws),
      slack_bound (suc m) (suc s) _ k r small close.1,
    )

-- For a position with a positive mark, collateral and size, and a threshold of at most 10000 bps,
-- there is a quoted price; at that price the position with no fees accrued is not below the gate
-- `collateral * threshold / BPS`, and exceeds it by less than `2 + size / mark`.
pub liquidation_price_at_open_accurate :
    (mark collateral size : ℤ) (is_long : Bool) (threshold_bps : ℤ)
    → pos 0 <ℤ mark
    → pos 0 <ℤ collateral
    → pos 0 <ℤ size
    → pos 0 ≤ℤ threshold_bps
    → threshold_bps ≤ℤ bps
    → (price : ℤ) × (liquidation_price_at_open mark collateral size is_long threshold_bps
        ≡ some price)
      × (slack : ℕ) × (health_at_open mark collateral size is_long price
          ≡ gate collateral threshold_bps +ℤ pos slack)
      × (magnitude mark * slack < 2 * magnitude mark + magnitude size)
liquidation_price_at_open_accurate (pos (suc m)) (pos (suc c)) (pos (suc s)) is_long (pos t) hm hc
      hs ht h =
    let (slack, health, small) = at_quote m c s t is_long (omega arith) in
    (_, quoted m c s t is_long, slack, health, omega (arith, small))
liquidation_price_at_open_accurate (pos zero) collateral size is_long t hm hc hs ht h =
    absurd (omega arith)
liquidation_price_at_open_accurate (negsuc m) collateral size is_long t hm hc hs ht h =
    absurd (omega arith)
liquidation_price_at_open_accurate (pos (suc m)) (pos zero) size is_long t hm hc hs ht h =
    absurd (omega arith)
liquidation_price_at_open_accurate (pos (suc m)) (negsuc c) size is_long t hm hc hs ht h =
    absurd (omega arith)
liquidation_price_at_open_accurate (pos (suc m)) (pos (suc c)) (pos zero) is_long t hm hc hs ht h =
    absurd (omega arith)
liquidation_price_at_open_accurate (pos (suc m)) (pos (suc c)) (negsuc s) is_long t hm hc hs ht h =
    absurd (omega arith)
liquidation_price_at_open_accurate (pos (suc m)) (pos (suc c)) (pos (suc s)) is_long (negsuc t) hm
      hc hs ht h =
    absurd (omega arith)
