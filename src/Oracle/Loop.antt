-- ===== src/Oracle/Loop.antt =====
-- packages/oracle-base/src/loop.ts: when a fetched price is published. Fetching, scaling and
-- submitting are replies from outside, as are the readings of the clock, in milliseconds.
pub mod Guards
pub mod Outliers
use stellars_finance_contrac.Base.{
  Bool, true, false, Option, none, some, List, [], ◌∷◌, if◌then◌else◌,
}
use stellars_finance_contrac.Base.Int.{ℤ, pos, ◌-ℤ◌, ◌*ℤ◌, ltb_ℤ, leb_ℤ}
use stellars_finance_contrac.Base.Quot.{◌/ℤ◌}
use stellars_finance_contrac.Base.Dict.{Dict, get, set}
use Prim.Native.String.{String}

pub record LastPush : Type 0 where
  pub scaled_price : ℤ
  pub at : ℤ

-- The thresholds that a tick reads.
pub record PushPolicy : Type 0 where
  pub push_on_delta_bps : ℤ
  pub push_on_stale_sec : ℤ
  pub max_delta_bps_per_tick : ℤ
  pub min_interval_between_pushes_ms : ℤ

-- What a tick meets: the scaled price, or `none` where fetching or scaling throws; the clock in the
-- two tests and after the submission; whether the submission goes through.
pub record Reply : Type 0 where
  pub scaled : Option ℤ
  pub interval_clock : ℤ
  pub age_clock : ℤ
  pub pushed_clock : ℤ
  pub submits : Bool

-- `submissions` lists the calls of `setPrice`, the latest first.
pub record Publisher : Type 0 where
  pub last_push : Dict LastPush
  pub submissions : List (String × ℤ)

unfoldable pub abs_delta_bps : ℤ → ℤ → ℤ
abs_delta_bps a b =
    let diff = if ltb_ℤ b a then a -ℤ b else b -ℤ a in
    if leb_ℤ b (pos 0) then pos 0 else diff *ℤ pos 10_000 /ℤ b

unfoldable pub should_push : Option LastPush → ℤ → PushPolicy → ℤ → Bool
should_push none next policy now = true
should_push (some prev) next policy now =
    if leb_ℤ (policy.push_on_stale_sec *ℤ pos 1_000) (now -ℤ prev.at)
    then true
    else leb_ℤ policy.push_on_delta_bps (abs_delta_bps next prev.scaled_price)

-- The tests that end a tick early: an outlier, or a push that comes too soon.
unfoldable pub is_held_back : Option LastPush → ℤ → PushPolicy → ℤ → Bool
is_held_back none scaled policy now = false
is_held_back (some prev) scaled policy now =
    if ltb_ℤ policy.max_delta_bps_per_tick (abs_delta_bps scaled prev.scaled_price)
    then true
    else ltb_ℤ (now -ℤ prev.at) policy.min_interval_between_pushes_ms

unfoldable pub push : String → ℤ → Reply → Publisher → Publisher
push ticker scaled reply s = record {
  last_push =
      if reply.submits
      then set s.last_push ticker (record { scaled_price = scaled; at = reply.pushed_clock })
      else s.last_push;
  submissions = (ticker, scaled) ∷ s.submissions;
}

unfoldable pub tick_at : PushPolicy → String → Option ℤ → Reply → Publisher → Publisher
tick_at policy ticker none reply s = s
tick_at policy ticker (some scaled) reply s =
    let prev = get s.last_push ticker in
    if is_held_back prev scaled policy reply.interval_clock
    then s
    else (if should_push prev scaled policy reply.age_clock then push ticker scaled reply s else s)

unfoldable pub tick_once : PushPolicy → String → Reply → Publisher → Publisher
tick_once policy ticker reply s = tick_at policy ticker reply.scaled reply s

-- The rounds of the loop over the tickers, one after the other.
unfoldable pub run_ticks : PushPolicy → List (String × Reply) → Publisher → Publisher
run_ticks policy [] s = s
run_ticks policy (t ∷ ts) s = run_ticks policy ts (tick_once policy t.0 t.1 s)
