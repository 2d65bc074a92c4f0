-- ===== src/ProtocolMath/Pure/Pnl.antt =====
-- `calcUnrealizedPnl`: the two sides of a trade, the loss bound, and how the result follows the mark.
use stellars_finance_contrac.Base.{true, false, ◌||◌, Bool-cases, inl, inr, ◌≡◌, arith}
use stellars_finance_contrac.Base.Int.{
  ℤ, pos, negsuc, ◌-ℤ◌, ◌*ℤ◌, neg, ◌≤ℤ◌, ◌<ℤ◌, eqb_ℤ, int_laws, neg-sub_swap, *ℤ-neg, *ℤ_comm,
}
use stellars_finance_contrac.Base.Quot.{◌/ℤ◌, neg-/ℤ, /ℤ_mono, *ℤ_mono_right}
use stellars_finance_contrac.ProtocolMath.Pure.{calc_unrealized_pnl}
use Prim.Native.Nat.{ℕ, zero, suc}

-- What a long makes, the short of the same size, entry and mark loses, to the unit: rounding towards
-- zero treats the two sides alike.
pub calc_unrealized_pnl-opposite :
    (size entry mark : ℤ)
    → calc_unrealized_pnl size entry mark true ≡ neg (calc_unrealized_pnl size entry mark false)
unfolding calc_unrealized_pnl
calc_unrealized_pnl-opposite size entry mark =
    elim (Bool-cases (eqb_ℤ entry (pos 0) || eqb_ℤ size (pos 0))) [
      | inl e ↦ rw e (omega int_laws)
      | inr e ↦ rw e (rw (← neg-sub_swap entry mark, *ℤ-neg, neg-/ℤ))
    ]

-- The result where size and entry are positive numbers.
pub calc_unrealized_pnl-pos :
    (s e : ℕ) (mark : ℤ)
    → calc_unrealized_pnl (pos (suc s)) (pos (suc e)) mark true
      ≡ (mark -ℤ pos (suc e)) *ℤ pos (suc s) /ℤ pos (suc e)
unfolding calc_unrealized_pnl
calc_unrealized_pnl-pos s e mark = ground (arith, *ℤ_comm (pos (suc s)) (mark -ℤ pos (suc e)))

-- The profit of a long never falls as the mark rises.
pub calc_unrealized_pnl_mono :
    (size entry mark mark' : ℤ)
    → pos 0 <ℤ size
    → pos 0 <ℤ entry
    → mark ≤ℤ mark'
    → calc_unrealized_pnl size entry mark true ≤ℤ calc_unrealized_pnl size entry mark' true
calc_unrealized_pnl_mono (pos (suc s)) (pos (suc e)) mark mark' hs he h =
    rw (calc_unrealized_pnl-pos, calc_unrealized_pnl-pos s e mark')
      (/ℤ_mono _ _ (suc e) (*ℤ_mono_right _ _ (suc s) (omega int_laws)))
calc_unrealized_pnl_mono (pos zero) entry mark mark' hs he h = absurd (omega arith)
calc_unrealized_pnl_mono (negsuc s) entry mark mark' hs he h = absurd (omega arith)
calc_unrealized_pnl_mono (pos (suc s)) (pos zero) mark mark' hs he h = absurd (omega arith)
calc_unrealized_pnl_mono (pos (suc s)) (negsuc e) mark mark' hs he h = absurd (omega arith)
