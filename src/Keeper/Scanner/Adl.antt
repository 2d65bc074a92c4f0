-- ===== src/Keeper/Scanner/Adl.antt =====
-- `findAdlTarget` of packages/keeper/src/scanner.ts.
use stellars_finance_contrac.Base.{
  Option, none, some, List, [], ◌∷◌, ◌≡◌, refl, subst, arith, inl, inr, All, In, Bool-cases,
}
use stellars_finance_contrac.Base.Int.{ℤ, pos, ltb_ℤ, ◌≤ℤ◌, ◌<ℤ◌}
use stellars_finance_contrac.Base.Dict.{Dict, get}
use stellars_finance_contrac.ProtocolMath.Tick.{MarketTick}
use stellars_finance_contrac.Keeper.World.{PositionRow, KeeperWorld}
use stellars_finance_contrac.Keeper.Scanner.{score_at, Best, improve, best_of, find_adl_target}

-- A score is at most `bound`, if there is one.
abbrev pub AtMost : ℤ → Option ℤ → Type 0
AtMost bound none = Unit
AtMost bound (some score) = score ≤ℤ bound

-- What is known of the best so far, among the positions seen.
abbrev IsBestOf : Dict MarketTick → List PositionRow → Best → Type 0
IsBestOf ticks seen (none, bound) = bound ≡ pos 0
IsBestOf ticks seen (some p, bound) =
    In p seen × (score_at (get ticks p.symbol) p ≡ some bound) × (pos 0 <ℤ bound)

AtMost-trans : (a b : ℤ) (s : Option ℤ) → a ≤ℤ b → AtMost a s → AtMost b s
AtMost-trans a b none h l = tt
AtMost-trans a b (some s) h l = omega arith

improve_grows :
    (s : Option ℤ) (p : PositionRow) (best : Best)
    → (best.1 ≤ℤ (improve s p best).1) × AtMost (improve s p best).1 s
improve_grows none p best = ground arith
improve_grows (some score) p best = ground arith

bound_grows :
    (ticks : Dict MarketTick) (ps : List PositionRow) (best : Best)
    → best.1 ≤ℤ (best_of ticks ps best).1
unfolding best_of
bound_grows ticks [] best = omega arith
bound_grows ticks (p ∷ ps) best =
    let score = score_at (get ticks p.symbol) p in
    omega (arith, (improve_grows score p best).0, bound_grows ticks ps (improve score p best))

-- Every score of the list is at most the final bound.
best_of-AtMost :
    (ticks : Dict MarketTick) (ps : List PositionRow) (best : Best)
    → All (λ p. AtMost (best_of ticks ps best).1 (score_at (get ticks p.symbol) p)) ps
unfolding best_of
best_of-AtMost ticks [] best = tt
best_of-AtMost ticks (p ∷ ps) best =
    let score = score_at (get ticks p.symbol) p in
    let better = improve score p best in
    (
      AtMost-trans better.1 _ score (bound_grows ticks ps better) (improve_grows score p best).1,
      best_of-AtMost ticks ps better,
    )

improve-IsBestOf :
    (ticks : Dict MarketTick) (all : List PositionRow) (s : Option ℤ) (p : PositionRow)
    (best : Best)
    → In p all
    → score_at (get ticks p.symbol) p ≡ s
    → IsBestOf ticks all best
    → IsBestOf ticks all (improve s p best)
improve-IsBestOf ticks all none p best i e h = h
improve-IsBestOf ticks all (some score) p (none, bound) i e h =
    elim (Bool-cases (ltb_ℤ bound score)) [
      | inl more ↦ rw more (i, e, ground arith)
      | inr less ↦ rw less h
    ]
improve-IsBestOf ticks all (some score) p (some q, bound) i e h =
    elim (Bool-cases (ltb_ℤ bound score)) [
      | inl more ↦ let positive = h.2 in rw more (i, e, ground arith)
      | inr less ↦ rw less h
    ]

-- The result is a position of the list, at its score, or nothing was better than the start.
best_of-IsBestOf :
    (ticks : Dict MarketTick) (all ps : List PositionRow) (best : Best)
    → ((p : PositionRow) → In p ps → In p all)
    → IsBestOf ticks all best
    → IsBestOf ticks all (best_of ticks ps best)
unfolding best_of
best_of-IsBestOf ticks all [] best sub h = h
best_of-IsBestOf ticks all (p ∷ ps) best sub h =
    best_of-IsBestOf ticks all ps (improve (score_at (get ticks p.symbol) p) p best)
      (λ q i. sub q (inr i)) (improve-IsBestOf ticks all _ p best (sub p (inl refl)) refl h)

-- A target has a positive score that no position's score exceeds; with no target no score is
-- positive.
abbrev pub IsTarget : Dict MarketTick → List PositionRow → Option PositionRow → Type 0
IsTarget ticks ps none = All (λ q. AtMost (pos 0) (score_at (get ticks q.symbol) q)) ps
IsTarget ticks ps (some p) =
    (score : ℤ) × In p ps
    × (score_at (get ticks p.symbol) p ≡ some score)
    × (pos 0 <ℤ score)
    × All (λ q. AtMost score (score_at (get ticks q.symbol) q)) ps

best-IsTarget :
    (ticks : Dict MarketTick) (ps : List PositionRow) (best : Best)
    → IsBestOf ticks ps best
    → All (λ q. AtMost best.1 (score_at (get ticks q.symbol) q)) ps
    → IsTarget ticks ps best.0
best-IsTarget ticks ps (none, bound) zero_bound all =
    subst (λ b. All (λ q. AtMost b (score_at (get ticks q.symbol) q)) ps) zero_bound all
best-IsTarget ticks ps (some p, bound) h all = (bound, h.0, h.1, h.2, all)

-- The chosen position is one of the world's, its score is positive, and no position has a higher
-- one. Nothing is chosen only if no position has a positive score.
pub find_adl_target-IsTarget :
    (world : KeeperWorld) → IsTarget world.ticks world.positions (find_adl_target world)
unfolding find_adl_target
find_adl_target-IsTarget world =
    best-IsTarget world.ticks world.positions _
      (best_of-IsBestOf world.ticks world.positions world.positions (none, pos 0) (λ p i. i) refl)
      (best_of-AtMost world.ticks world.positions (none, pos 0))
