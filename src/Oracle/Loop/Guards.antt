-- ===== src/Oracle/Loop/Guards.antt =====
-- What a tick may do, and when.
use stellars_finance_contrac.Base.{
  Bool, true, false, Option, none, some, ◌∷◌, if◌then◌else◌, ◌≡◌, ◌⊎◌, refl, arith,
}
use stellars_finance_contrac.Base.Int.{ℤ, pos, ◌-ℤ◌, ◌*ℤ◌, ◌≤ℤ◌}
use stellars_finance_contrac.Base.Dict.{get, set}
use stellars_finance_contrac.Oracle.Loop.{
  LastPush, PushPolicy, Reply, Publisher, abs_delta_bps, should_push, is_held_back, push, tick_at,
  tick_once,
}
use Prim.Native.String.{String}

-- A price is due: it is the first, or it is no outlier, it does not come too soon, and it moved
-- enough or the last push is old.
abbrev pub IsDue : PushPolicy → Option LastPush → ℤ → Reply → Type 0
IsDue policy none scaled reply = Unit
IsDue policy (some prev) scaled reply =
    (abs_delta_bps scaled prev.scaled_price ≤ℤ policy.max_delta_bps_per_tick)
    × (policy.min_interval_between_pushes_ms ≤ℤ reply.interval_clock -ℤ prev.at)
    × ((policy.push_on_stale_sec *ℤ pos 1_000 ≤ℤ reply.age_clock -ℤ prev.at)
        ⊎ (policy.push_on_delta_bps ≤ℤ abs_delta_bps scaled prev.scaled_price))

-- What a tick comes to: no price, one that is not due, and one that is.
pub data Ticked (policy : PushPolicy) (ticker : String) (reply : Reply) (s : Publisher)
    : Publisher → Type 0 where
  failed : reply.scaled ≡ none → Ticked policy ticker reply s s
  held :
      (scaled : ℤ)
      → reply.scaled ≡ some scaled
      → (IsDue policy (get s.last_push ticker) scaled reply → ⊥)
      → Ticked policy ticker reply s s
  pushed :
      (scaled : ℤ)
      → reply.scaled ≡ some scaled
      → IsDue policy (get s.last_push ticker) scaled reply
      → Ticked policy ticker reply s (record {
        last_push =
            if reply.submits
            then set s.last_push ticker (record { scaled_price = scaled; at = reply.pushed_clock })
            else s.last_push;
        submissions = (ticker, scaled) ∷ s.submissions;
      })

-- The two tests of a tick, as one.
abbrev Verdict : PushPolicy → Option LastPush → ℤ → Reply → Bool → Bool → Type 0
Verdict policy prev scaled reply blocked due =
    (blocked ≡ true → IsDue policy prev scaled reply → ⊥)
    × (blocked ≡ false → due ≡ false → IsDue policy prev scaled reply → ⊥)
    × (blocked ≡ false → due ≡ true → IsDue policy prev scaled reply)

tests :
    (policy : PushPolicy) (prev : Option LastPush) (scaled : ℤ) (reply : Reply)
    → Verdict policy prev scaled reply
        (is_held_back prev scaled policy reply.interval_clock)
        (should_push prev scaled policy reply.age_clock)
unfolding is_held_back should_push
tests policy none scaled reply = (λ h d. cc, λ h p d. cc, λ h p. tt)
tests policy (some prev) scaled reply =
    (λ h d. ground arith, λ h p d. ground arith, λ h p. ground arith)

module _ (policy : PushPolicy) (ticker : String) (reply : Reply) (s : Publisher) where
  branch-Ticked :
      (scaled : ℤ) (blocked due : Bool)
      → reply.scaled ≡ some scaled
      → Verdict policy (get s.last_push ticker) scaled reply blocked due
      → Ticked policy ticker reply s
          (if blocked then s else (if due then push ticker scaled reply s else s))
  unfolding push
  branch-Ticked scaled true due e v = held scaled e (v.0 refl)
  branch-Ticked scaled false true e v = pushed scaled e (v.2 refl refl)
  branch-Ticked scaled false false e v = held scaled e (v.1 refl refl)

  tick_at-Ticked :
      (price : Option ℤ)
      → reply.scaled ≡ price
      → Ticked policy ticker reply s (tick_at policy ticker price reply s)
  unfolding tick_at
  tick_at-Ticked none e = failed e
  tick_at-Ticked (some scaled) e =
      branch-Ticked scaled _ _ e (tests policy (get s.last_push ticker) scaled reply)

-- A tick submits a price exactly when one was fetched and it is due: the first of its ticker, or no
-- outlier, not too soon after the last push, and either a move of at least the threshold or an age of
-- at least the limit. It submits it once, and takes it for the last push just if the submission goes
-- through; else nothing changes.
pub tick_once-Ticked :
    (policy : PushPolicy) (ticker : String) (reply : Reply) (s : Publisher)
    → Ticked policy ticker reply s (tick_once policy ticker reply s)
unfolding tick_once
tick_once-Ticked policy ticker reply s = tick_at-Ticked policy ticker reply s reply.scaled refl
