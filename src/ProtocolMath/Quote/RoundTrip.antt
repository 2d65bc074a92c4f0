-- ===== src/ProtocolMath/Quote/RoundTrip.antt =====
-- Turning a result into a price offset and back, as both liquidation prices do.
use stellars_finance_contrac.Base.{
  Bool, true, false, if◌then◌else◌, ◌≡◌, ◌∙◌, ap, refl, arith, ℕ, suc, ◌+◌, ◌*◌, ◌/◌, ◌%◌, ◌<◌, ◌≤◌,
  ◌-◌,
}
use stellars_finance_contrac.Base.Int.{
  ℤ, pos, negsuc, ◌+ℤ◌, ◌-ℤ◌, ◌*ℤ◌, neg, int_laws, *ℤ-neg, pos_part-neg, neg_part-neg,
}
use stellars_finance_contrac.Base.Quot.{◌/ℤ◌, neg-/ℤ, magnitude}
use stellars_finance_contrac.ProtocolMath.Pure.{calc_unrealized_pnl}
use native.Mathlib.Nat.{div-add-mod, mod-lt, div-le_of_le-mul}

-- The offset from the entry price at which the result is `p`, and the result at that offset.
abbrev pub offset : ℤ → ℤ → ℤ → ℤ
offset entry size p = entry *ℤ p /ℤ size

abbrev pub result_at : ℤ → ℤ → ℤ → ℤ
result_at entry size a = size *ℤ a /ℤ entry

pub calc_unrealized_pnl-offset :
    (s e : ℕ) (a : ℤ) (is_long : Bool)
    → calc_unrealized_pnl
        (pos (suc s))
        (pos (suc e))
        (if is_long then pos (suc e) +ℤ a else pos (suc e) -ℤ a)
        is_long
      ≡ result_at (pos (suc e)) (pos (suc s)) a
unfolding calc_unrealized_pnl
calc_unrealized_pnl-offset s e a true =
    let moved : (pos (suc e) +ℤ a) -ℤ pos (suc e) ≡ a = omega int_laws in ground (arith, moved)
calc_unrealized_pnl-offset s e a false =
    let moved : pos (suc e) -ℤ (pos (suc e) -ℤ a) ≡ a = omega int_laws in ground (arith, moved)

div_bounds : (n d : ℕ) → (suc d * (n / suc d) ≤ n) × (n < suc d * (n / suc d) + suc d)
div_bounds n d =
    let parts = div-add-mod n (suc d) in
    let rest : n % suc d < suc d = mod-lt n (omega arith) in (omega arith, omega arith)

-- From an amount to the offset and back, for amounts that are not negative.
round_trip_ℕ :
    (p s e : ℕ)
    → let q = suc s * (suc e * p / suc s) / suc e in
      (q ≤ p) × (suc e * p < suc e * q + suc e + suc s)
round_trip_ℕ p s e =
    let out = div_bounds (suc e * p) s in
    let back = div_bounds (suc s * (suc e * p / suc s)) e in
    (div-le_of_le-mul (suc e) out.0, omega (arith, out.1, back.1))

-- The round trip of a loss is the mirror image of that of a gain.
pub round_trip-neg :
    (p entry size : ℤ)
    → result_at entry size (offset entry size (neg p))
      ≡ neg (result_at entry size (offset entry size p))
round_trip-neg p entry size = rw (*ℤ-neg, neg-/ℤ, *ℤ-neg, neg-/ℤ)

-- The round trip never adds to an amount, and loses less than `1 + size / entry` of it.
abbrev pub IsCloseBelow : ℕ → ℕ → ℕ → ℕ → Type 0
IsCloseBelow entry size p q = (q ≤ p) × (entry * p < entry * q + entry + size)

pub round_trip_gain :
    (p s e : ℕ)
    → (q : ℕ) × (result_at (pos (suc e)) (pos (suc s)) (offset (pos (suc e)) (pos (suc s)) (pos p))
        ≡ pos q)
      × IsCloseBelow (suc e) (suc s) p q
unfolding ◌*ℤ◌ ◌/ℤ◌
round_trip_gain p s e = let h = round_trip_ℕ p s e in (suc s * (suc e * p / suc s) / suc e, refl, h)

distance_gain : (k n : ℕ) → k ≤ n → magnitude (pos k -ℤ pos n) ≡ n - k
unfolding ◌-ℤ◌
distance_gain k n h = ground arith

distance_loss : (k n : ℕ) → k ≤ n → magnitude (neg (pos k) -ℤ neg (pos n)) ≡ n - k
unfolding ◌-ℤ◌
distance_loss k n h = simp (pos_part-neg, neg_part-neg) (ground arith)

gap_bound : (n k e s : ℕ) → IsCloseBelow e s n k → e * (n - k) < e + s
gap_bound n k e s h =
    let whole : n ≡ k + (n - k) = omega (arith, h.0) in
    omega (arith, h.1, ap (λ (t : ℕ). e * t) whole)

-- Whatever the sign of the result, the round trip is off by less than `1 + size / entry`.
pub round_trip_error :
    (p : ℤ) (s e : ℕ)
    → suc e
        * magnitude
            (result_at (pos (suc e)) (pos (suc s)) (offset (pos (suc e)) (pos (suc s)) p) -ℤ p)
      < suc e + suc s
unfolding neg
round_trip_error (pos n) s e =
    let (k, eq, h) = round_trip_gain n s e in
    rw (eq, distance_gain k n h.0) (gap_bound n k (suc e) (suc s) h)
round_trip_error (negsuc n) s e =
    let (k, eq, h) = round_trip_gain (suc n) s e in
    let mirrored : result_at (pos (suc e)) (pos (suc s))
          (offset (pos (suc e)) (pos (suc s)) (negsuc n))
        ≡ neg (pos k) =
      round_trip-neg (pos (suc n)) (pos (suc e)) (pos (suc s)) ∙ ap neg eq in
    let gap : magnitude (neg (pos k) -ℤ negsuc n) ≡ suc n - k = distance_loss k (suc n) h.0 in
    rw (mirrored, gap) (gap_bound (suc n) k (suc e) (suc s) h)
