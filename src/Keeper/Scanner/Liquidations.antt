-- ===== src/Keeper/Scanner/Liquidations.antt =====
-- `scanLiquidationCandidates` of packages/keeper/src/scanner.ts.
use stellars_finance_contrac.Base.{
  Option, none, some, List, [], ◌∷◌, if◌then◌else◌, ◌≡◌, sym, subst, ◌↔◌, arith, Bool-cases, inl,
  inr, All, In, ◌⊎◌,
}
use stellars_finance_contrac.Base.Int.{ℤ, ◌*ℤ◌, ltb_ℤ, leb_ℤ, ◌≤ℤ◌, ◌<ℤ◌}
use stellars_finance_contrac.Base.Quot.{◌/ℤ◌}
use stellars_finance_contrac.Base.Dict.{Dict, get}
use stellars_finance_contrac.ProtocolMath.Constants.{bps}
use stellars_finance_contrac.ProtocolMath.Coerce.{to_big_int}
use stellars_finance_contrac.ProtocolMath.Tick.{MarketTick}
use stellars_finance_contrac.ProtocolMath.Eval.{evaluate_position_row}
use stellars_finance_contrac.Keeper.World.{KeeperConfig, PositionRow, KeeperWorld}
use stellars_finance_contrac.Keeper.Scanner.{
  LiquidationCandidate, threshold_bps, funding_cut_bps, candidate_at, push, collect,
  insert_by_health, sort_by_health, scan_liquidation_candidates,
}

-- Nobody is worse off than those before.
abbrev pub IsRanked : List LiquidationCandidate → Type 0
IsRanked [] = Unit
IsRanked (c ∷ cs) = All (λ x. c.health ≤ℤ x.health) cs × IsRanked cs

All-weaken :
    (a b : ℤ) (cs : List LiquidationCandidate)
    → a ≤ℤ b
    → All (λ x. b ≤ℤ x.health) cs
    → All (λ x. a ≤ℤ x.health) cs
All-weaken a b [] h all = tt
All-weaken a b (c ∷ cs) h all = (omega (arith, all.0), All-weaken a b cs h all.1)

All-insert :
    (a : ℤ) (c : LiquidationCandidate) (cs : List LiquidationCandidate)
    → a ≤ℤ c.health
    → All (λ x. a ≤ℤ x.health) cs
    → All (λ x. a ≤ℤ x.health) (insert_by_health c cs)
unfolding insert_by_health
All-insert a c [] h all = (h, tt)
All-insert a c (x ∷ xs) h all = ground (arith, All-insert a c xs h all.1)

insert_by_health-IsRanked :
    (c : LiquidationCandidate) (cs : List LiquidationCandidate)
    → IsRanked cs
    → IsRanked (insert_by_health c cs)
unfolding insert_by_health
insert_by_health-IsRanked c [] r = (tt, tt)
insert_by_health-IsRanked c (x ∷ xs) r = elim (Bool-cases (ltb_ℤ x.health c.health)) [
  | inl e ↦ rw e (All-insert x.health c xs (ground arith) r.0, insert_by_health-IsRanked c xs r.1)
  | inr e ↦ rw e ((ground arith, All-weaken c.health x.health xs (ground arith) r.0), r)
]

sort_by_health-IsRanked : (cs : List LiquidationCandidate) → IsRanked (sort_by_health cs)
unfolding sort_by_health
sort_by_health-IsRanked [] = tt
sort_by_health-IsRanked (c ∷ cs) =
    insert_by_health-IsRanked c (sort_by_health cs) (sort_by_health-IsRanked cs)

-- The candidates come in order of health, the worst first.
pub scan-IsRanked :
    (world : KeeperWorld) (config : KeeperConfig)
    → IsRanked (scan_liquidation_candidates world config)
unfolding scan_liquidation_candidates
scan-IsRanked world config = sort_by_health-IsRanked _

-- Sorting neither adds nor loses a candidate.
insert_by_health-In :
    (y c : LiquidationCandidate) (cs : List LiquidationCandidate)
    → In y (insert_by_health c cs) ↔ ((y ≡ c) ⊎ In y cs)
unfolding insert_by_health
insert_by_health-In y c [] = (λ h. h, λ h. h)
insert_by_health-In y c (x ∷ xs) = elim (Bool-cases (ltb_ℤ x.health c.health)) [
  | inl e ↦ rw e (
      let ih = insert_by_health-In y c xs in
      (
        elim [
          | inl p ↦ inr (inl p)
          | inr h ↦ elim (ih.0 h) [ inl p ↦ inl p | inr q ↦ inr (inr q) ]
        ],
        elim [
          | inl p ↦ inr (ih.1 (inl p))
          | inr (inl p) ↦ inl p
          | inr (inr q) ↦ inr (ih.1 (inr q))
        ],
      ))
  | inr e ↦ rw e (λ h. h, λ h. h)
]

sort_by_health-In :
    (y : LiquidationCandidate) (cs : List LiquidationCandidate) → In y (sort_by_health cs) ↔ In y cs
unfolding sort_by_health
sort_by_health-In y [] = (λ h. h, λ h. h)
sort_by_health-In y (c ∷ cs) =
    let step = insert_by_health-In y c (sort_by_health cs) in
    let ih = sort_by_health-In y cs in
    (
      λ h. elim (step.0 h) [ inl p ↦ inl p | inr q ↦ inr (ih.0 q) ],
      elim [ inl p ↦ step.1 (inl p) | inr q ↦ step.1 (inr (ih.1 q)) ],
    )

-- The candidate's health is the position's effective health at the tick of its market, and lies
-- under `collateral * threshold / BPS`.
abbrev pub IsUnder : Option MarketTick → ℤ → ℤ → LiquidationCandidate → Type 0
IsUnder none threshold cut c = ⊥
IsUnder (some tick) threshold cut c =
    (c.health ≡ (evaluate_position_row c.position.columns tick cut).effective_health)
    × (c.health <ℤ to_big_int c.position.columns.collateral *ℤ threshold /ℤ bps)

under_test :
    (gate health : ℤ) (p : PositionRow) (c : LiquidationCandidate)
    → ((if leb_ℤ gate health
          then none
          else some (let x : LiquidationCandidate = record { position = p; health = health } in x))
        ≡ some c)
      ↔ ((c.position ≡ p) × (c.health ≡ health) × (c.health <ℤ gate))
under_test gate health p c = ground arith

candidate_at-IsUnder :
    (tick : Option MarketTick) (threshold cut : ℤ) (p : PositionRow) (c : LiquidationCandidate)
    → (candidate_at tick threshold cut p ≡ some c)
      ↔ ((c.position ≡ p) × IsUnder tick threshold cut (record { position = p; health = c.health }))
unfolding candidate_at evaluate_position_row
candidate_at-IsUnder none threshold cut p c = ground arith
candidate_at-IsUnder (some tick) threshold cut p c =
    let test = under_test (to_big_int p.columns.collateral *ℤ threshold /ℤ bps) _ p c in
    (λ e. let (same, fell, low) = test.0 e in (same, (fell, low)), λ h. test.1 (h.0, h.1.0, h.1.1))

-- A candidate that the world warrants: `p` of the world's positions, under its threshold.
abbrev pub UnderAt : Dict MarketTick → ℤ → ℤ → ℤ → PositionRow → Type 0
UnderAt ticks threshold cut health p =
    IsUnder (get ticks p.symbol) threshold cut (record { position = p; health = health })

push-In :
    (c : LiquidationCandidate) (x : Option LiquidationCandidate) (xs : List LiquidationCandidate)
    → In c (push x xs) ↔ ((x ≡ some c) ⊎ In c xs)
push-In c none xs = (inr, elim [ inl e ↦ cc | inr h ↦ h ])
push-In c (some x) xs =
    (elim [ inl e ↦ inl (cc) | inr h ↦ inr h ], elim [ inl e ↦ inl (cc) | inr h ↦ inr h ])

collect-In :
    (ticks : Dict MarketTick) (threshold cut : ℤ) (c : LiquidationCandidate) (ps : List PositionRow)
    → In c (collect ticks threshold cut ps)
      ↔ (In c.position ps × UnderAt ticks threshold cut c.health c.position)
unfolding collect
collect-In ticks threshold cut c [] = (λ h. absurd h, λ h. h.0)
collect-In ticks threshold cut c (p ∷ ps) =
    let pushed =
      push-In c (candidate_at (get ticks p.symbol) threshold cut p)
        (collect ticks threshold cut ps) in
    let here = candidate_at-IsUnder (get ticks p.symbol) threshold cut p c in
    let ih = collect-In ticks threshold cut c ps in
    (
      λ h. elim (pushed.0 h) [
        | inl e ↦ (
          inl (here.0 e).0,
          subst (UnderAt ticks threshold cut c.health) (sym (here.0 e).0) (here.0 e).1,
        )
        | inr q ↦ (inr (ih.0 q).0, (ih.0 q).1)
      ],
      λ h. elim h.0 [
        | inl e ↦ pushed.1 (inl (here.1 (e, subst (UnderAt ticks threshold cut c.health) e h.1)))
        | inr q ↦ pushed.1 (inr (ih.1 (q, h.1)))
      ],
    )

-- A candidate is found exactly when it is a position of the world whose market has a tick, with its
-- effective health at that tick, and that health is under the threshold of its collateral.
pub scan_iff :
    (world : KeeperWorld) (config : KeeperConfig) (c : LiquidationCandidate)
    → In c (scan_liquidation_candidates world config) ↔ (
        In c.position world.positions
        × IsUnder
            (get world.ticks c.position.symbol)
            (threshold_bps world.protocol_config config)
            (funding_cut_bps world.protocol_config)
            c)
unfolding scan_liquidation_candidates
scan_iff world config c =
    let found =
      collect-In world.ticks (threshold_bps world.protocol_config config)
        (funding_cut_bps world.protocol_config) c world.positions in
    let sorted = sort_by_health-In c _ in (λ h. found.0 (sorted.0 h), λ h. sorted.1 (found.1 h))
