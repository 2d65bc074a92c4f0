-- ===== src/Base/Quot.antt =====
-- `bigint` division, which rounds towards zero. The source divides by constants and by values that
-- it has tested not to be zero, so what stands for a division by zero is never reached.
use stellars_finance_contrac.Base.Int.{
  ℤ, pos, negsuc, pos_part, neg_part, neg_ℕ, neg, neg-neg_ℕ, ◌≤ℤ◌, ◌*ℤ◌, pos_part-neg, neg_part-neg,
  pos_part-neg_ℕ, neg_part-neg_ℕ, eq_of_parts, int_laws,
}
use Prim.Native.Nat.{ℕ, suc, ◌+◌, ◌*◌, ◌/◌, ◌≤◌}
use Prim.Native.Nat.add
use native.Mathlib.Nat.{add-zero, mul-le-mul_right}
use mathlib.Core.Path.{◌≡◌, refl}
use native.Mathlib.Omega.{arith}

infixl 70 ◌/ℤ◌
unfoldable pub ◌/ℤ◌ : ℤ → ℤ → ℤ
pos a /ℤ pos b = pos (a / b)
pos a /ℤ negsuc b = neg_ℕ (a / suc b)
negsuc a /ℤ pos b = neg_ℕ (suc a / b)
negsuc a /ℤ negsuc b = pos (suc a / suc b)

-- Both parts of a quotient by a number: the laws by which `omega` reads it.
pub pos_part-/ℤ : (a : ℤ) (d : ℕ) → pos_part (a /ℤ pos d) ≡ pos_part a / d
unfolding ◌/ℤ◌
pos_part-/ℤ (pos a) d = refl
pos_part-/ℤ (negsuc a) d = rw pos_part-neg_ℕ (omega arith)

pub neg_part-/ℤ : (a : ℤ) (d : ℕ) → neg_part (a /ℤ pos d) ≡ neg_part a / d
unfolding ◌/ℤ◌
neg_part-/ℤ (pos a) d = omega arith
neg_part-/ℤ (negsuc a) d = neg_part-neg_ℕ (suc a / d)

-- Both parts of a product with a number.
pub pos_part-*ℤ : (a : ℤ) (k : ℕ) → pos_part (a *ℤ pos k) ≡ pos_part a * k
unfolding ◌*ℤ◌
pos_part-*ℤ (pos a) k = refl
pos_part-*ℤ (negsuc a) k = rw pos_part-neg_ℕ (omega arith)

pub neg_part-*ℤ : (a : ℤ) (k : ℕ) → neg_part (a *ℤ pos k) ≡ neg_part a * k
unfolding ◌*ℤ◌
neg_part-*ℤ (pos a) k = omega arith
neg_part-*ℤ (negsuc a) k = neg_part-neg_ℕ (suc a * k)

pub /ℤ-negsuc : (a : ℤ) (d : ℕ) → a /ℤ negsuc d ≡ neg (a /ℤ pos (suc d))
unfolding ◌/ℤ◌ neg
/ℤ-negsuc (pos a) d = ground arith
/ℤ-negsuc (negsuc a) d = ground (arith, neg-neg_ℕ (suc a / suc d))

pub ruleset quot_laws = (int_laws, pos_part-/ℤ, neg_part-/ℤ, pos_part-*ℤ, neg_part-*ℤ)

neg-/ℤ-pos : (a : ℤ) (d : ℕ) → neg a /ℤ pos d ≡ neg (a /ℤ pos d)
neg-/ℤ-pos a d =
    eq_of_parts _ _
      (simp (pos_part-/ℤ, neg_part-/ℤ, pos_part-neg, neg_part-neg, pos_part-/ℤ, neg_part-/ℤ))

-- The quotient of a negative is the negated quotient: rounding is symmetric.
pub neg-/ℤ : (a b : ℤ) → neg a /ℤ b ≡ neg (a /ℤ b)
neg-/ℤ a (pos d) = neg-/ℤ-pos a d
neg-/ℤ a (negsuc d) = simp (/ℤ-negsuc, neg-/ℤ-pos)

pub div_mono : (d : ℕ) {m n : ℕ} → m ≤ n → m / d ≤ n / d
div_mono d h = grind arith

-- Division by a number keeps the order.
pub /ℤ_mono : (a b : ℤ) (d : ℕ) → a ≤ℤ b → a /ℤ pos d ≤ℤ b /ℤ pos d
/ℤ_mono (pos a) (pos b) d h = grind (quot_laws, div_mono)
/ℤ_mono (pos a) (negsuc b) d h = absurd (omega arith)
/ℤ_mono (negsuc a) (pos b) d h = omega quot_laws
/ℤ_mono (negsuc a) (negsuc b) d h = grind (quot_laws, div_mono)

-- Multiplication by a number keeps the order.
pub *ℤ_mono_right : (a b : ℤ) (k : ℕ) → a ≤ℤ b → a *ℤ pos k ≤ℤ b *ℤ pos k
*ℤ_mono_right a b k h = omega (quot_laws, mul-le-mul_right k h)

-- The distance from zero.
abbrev pub magnitude : ℤ → ℕ
magnitude a = pos_part a + neg_part a

pub magnitude-*ℤ : (a b : ℤ) → magnitude (a *ℤ b) ≡ magnitude a * magnitude b
unfolding ◌*ℤ◌
magnitude-*ℤ (pos a) (pos b) = omega arith
magnitude-*ℤ (pos a) (negsuc b) = omega (arith, pos_part-neg_ℕ, neg_part-neg_ℕ)
magnitude-*ℤ (negsuc a) (pos b) = omega (arith, pos_part-neg_ℕ, neg_part-neg_ℕ)
magnitude-*ℤ (negsuc a) (negsuc b) = omega arith

pub magnitude-/ℤ : (a : ℤ) (d : ℕ) → magnitude (a /ℤ pos d) ≡ magnitude a / d
unfolding ◌/ℤ◌
magnitude-/ℤ (pos a) d = simp add-zero
magnitude-/ℤ (negsuc a) d = simp (pos_part-neg_ℕ, neg_part-neg_ℕ, add.zero)
