-- ===== src/ProtocolMath/Tick/Projection.antt =====
-- `MarketTick.project` of packages/protocol-math/src/tick.ts, over pauses and over several steps.
use stellars_finance_contrac.Base.{◌≡◌, refl, arith, inl, inr, Bool-cases}
use stellars_finance_contrac.Base.Int.{ℤ, pos, ◌+ℤ◌, ◌≤ℤ◌, ltb_ℤ, int_laws}
use stellars_finance_contrac.ProtocolMath.Types.{ProjectInput, BorrowRateConfig}
use stellars_finance_contrac.ProtocolMath.Pure.{accumulate_borrow_index}
use stellars_finance_contrac.ProtocolMath.Pure.Rates.{
  base-le-calc_borrow_rate, calc_utilization_bps-nonneg,
}
use stellars_finance_contrac.ProtocolMath.Pure.Indices.{
  accumulate-zero, accumulate_same, accumulate_split, accumulate_grows,
}
use stellars_finance_contrac.ProtocolMath.Tick.{
  project, time_delta, effective_start, projected_borrow_rate, projected_funding_rate,
}

pub time_delta-nonneg : (i : ProjectInput) → pos 0 ≤ℤ time_delta i
unfolding time_delta
time_delta-nonneg i = grind int_laws

time_delta-late :
    (i : ProjectInput) → effective_start i ≤ℤ i.now → effective_start i +ℤ time_delta i ≡ i.now
unfolding time_delta
time_delta-late i h = grind int_laws

time_delta-early : (i : ProjectInput) → i.now ≤ℤ effective_start i → time_delta i ≡ pos 0
unfolding time_delta
time_delta-early i h = grind int_laws

-- The guard on the elapsed time only skips a step that would add nothing.
project-borrow :
    (i : ProjectInput)
    → (project i).market.acc_borrow_index
      ≡ accumulate_borrow_index i.market.acc_borrow_index (projected_borrow_rate i) (time_delta i)
unfolding project
project-borrow i = elim (Bool-cases (ltb_ℤ (pos 0) (time_delta i))) [
  | inl e ↦ rw e
  | inr e ↦
      let still : time_delta i ≡ pos 0 = grind (int_laws, time_delta-nonneg i) in
      rw (e, still, accumulate-zero)
]

project-funding :
    (i : ProjectInput)
    → (project i).market.acc_funding_index
      ≡ accumulate_borrow_index i.market.acc_funding_index (projected_funding_rate i) (time_delta i)
unfolding project
project-funding i = elim (Bool-cases (ltb_ℤ (pos 0) (time_delta i))) [
  | inl e ↦ rw (e, accumulate_same)
  | inr e ↦
      let still : time_delta i ≡ pos 0 = grind (int_laws, time_delta-nonneg i) in
      rw (e, still, accumulate-zero)
]

-- Neither index moves while `now` has not passed the later of the last update and the last unpause.
pub project_frozen :
    (i : ProjectInput)
    → i.now ≤ℤ effective_start i
    → ((project i).market.acc_borrow_index ≡ i.market.acc_borrow_index)
      × ((project i).market.acc_funding_index ≡ i.market.acc_funding_index)
project_frozen i h = (
  rw (project-borrow, time_delta-early i h, accumulate-zero),
  rw (project-funding, time_delta-early i h, accumulate-zero),
)

-- Rates that a configuration may hold: none is negative.
pub record RatesNonneg (c : BorrowRateConfig) : Type 0 where
  pub base : pos 0 ≤ℤ c.base_borrow_rate_bps
  pub slope1 : pos 0 ≤ℤ c.slope1_bps
  pub slope2 : pos 0 ≤ℤ c.slope2_bps
  pub optimal : pos 0 ≤ℤ c.optimal_utilization_bps

projected_borrow_rate-nonneg :
    (i : ProjectInput)
    → RatesNonneg i.rate_config
    → pos 0 ≤ℤ i.vault.reserved_usdc
    → pos 0 ≤ℤ projected_borrow_rate i
unfolding projected_borrow_rate
projected_borrow_rate-nonneg i r h =
    let used = calc_utilization_bps-nonneg i.vault.reserved_usdc i.vault.total_assets h in
    omega (arith, r.base, base-le-calc_borrow_rate _ _ _ _ _ r.slope1 r.slope2 used r.optimal)

-- The borrow index never falls, where no rate and no reserve is negative.
pub project_grows :
    (i : ProjectInput)
    → RatesNonneg i.rate_config
    → pos 0 ≤ℤ i.vault.reserved_usdc
    → i.market.acc_borrow_index ≤ℤ (project i).market.acc_borrow_index
project_grows i r h =
    rw project-borrow
      (accumulate_grows _ _ _ (projected_borrow_rate-nonneg i r h) (time_delta-nonneg i))

-- The input of a second projection, at a later time, from the result of a first.
abbrev pub resume : ProjectInput → ℤ → ProjectInput
resume i later = record i { market = (project i).market; now = later }

-- The input of one projection to that later time.
abbrev pub straight : ProjectInput → ℤ → ProjectInput
straight i later = record i { now = later }

elapsed_adds :
    (i : ProjectInput) (later : ℤ)
    → i.now ≤ℤ later
    → i.last_unpause_time ≤ℤ i.now
    → i.market.last_index_update ≤ℤ i.now
    → time_delta (straight i later) ≡ time_delta i +ℤ time_delta (resume i later)
unfolding time_delta effective_start project
elapsed_adds i later h hu hl = grind int_laws

same_funding_rate :
    (i : ProjectInput) (later : ℤ)
    → projected_funding_rate (straight i later) ≡ projected_funding_rate i
unfolding projected_funding_rate
same_funding_rate i later = refl

same_funding_rate_resumed :
    (i : ProjectInput) (later : ℤ)
    → projected_funding_rate (resume i later) ≡ projected_funding_rate i
unfolding projected_funding_rate project
same_funding_rate_resumed i later = refl

project_split_borrow :
    (i : ProjectInput) (later : ℤ)
    → i.now ≤ℤ later
    → i.last_unpause_time ≤ℤ i.now
    → i.market.last_index_update ≤ℤ i.now
    → ((project (straight i later)).market.acc_borrow_index
        ≡ accumulate_borrow_index i.market.acc_borrow_index
            (projected_borrow_rate i)
            (time_delta i +ℤ time_delta (resume i later)))
      × ((project (resume i later)).market.acc_borrow_index
          ≡ accumulate_borrow_index
              (accumulate_borrow_index i.market.acc_borrow_index
                (projected_borrow_rate i)
                (time_delta i))
              (projected_borrow_rate i)
              (time_delta (resume i later)))
unfolding projected_borrow_rate
project_split_borrow i later h hu hl = (
  rw (project-borrow (straight i later), elapsed_adds i later h hu hl),
  rw (project-borrow (resume i later), project-borrow i),
)

project_split_funding :
    (i : ProjectInput) (later : ℤ)
    → i.now ≤ℤ later
    → i.last_unpause_time ≤ℤ i.now
    → i.market.last_index_update ≤ℤ i.now
    → ((project (straight i later)).market.acc_funding_index
        ≡ accumulate_borrow_index i.market.acc_funding_index
            (projected_funding_rate i)
            (time_delta i +ℤ time_delta (resume i later)))
      × ((project (resume i later)).market.acc_funding_index
          ≡ accumulate_borrow_index
              (accumulate_borrow_index i.market.acc_funding_index
                (projected_funding_rate i)
                (time_delta i))
              (projected_funding_rate i)
              (time_delta (resume i later)))
project_split_funding i later h hu hl = (
  rw (project-funding (straight i later), elapsed_adds i later h hu hl, same_funding_rate i later),
  rw (project-funding (resume i later), project-funding i, same_funding_rate_resumed i later),
)

-- Projecting to `now` and from there to a later time, and projecting to that time at once, give
-- indices that differ by at most one unit, if neither the last update nor the last unpause lies
-- after `now`.
pub project_split :
    (i : ProjectInput) (later : ℤ)
    → i.now ≤ℤ later
    → i.last_unpause_time ≤ℤ i.now
    → i.market.last_index_update ≤ℤ i.now
    → let once = (project (straight i later)).market in
      let twice = (project (resume i later)).market in
      (twice.acc_borrow_index ≤ℤ once.acc_borrow_index +ℤ pos 1)
      × (once.acc_borrow_index ≤ℤ twice.acc_borrow_index +ℤ pos 1)
      × (twice.acc_funding_index ≤ℤ once.acc_funding_index +ℤ pos 1)
      × (once.acc_funding_index ≤ℤ twice.acc_funding_index +ℤ pos 1)
project_split i later h hu hl =
    let (b1, b2) = project_split_borrow i later h hu hl in
    let (f1, f2) = project_split_funding i later h hu hl in
    let t = time_delta-nonneg i in
    let u = time_delta-nonneg (resume i later) in
    let b = accumulate_split i.market.acc_borrow_index (projected_borrow_rate i) _ _ t u in
    let f = accumulate_split i.market.acc_funding_index (projected_funding_rate i) _ _ t u in
    rw (b1, b2, f1, f2) (b.0, b.1, f.0, f.1)
