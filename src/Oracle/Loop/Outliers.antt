-- ===== src/Oracle/Loop/Outliers.antt =====
-- packages/oracle-base/src/loop.ts: a price that has moved past the limit.
use stellars_finance_contrac.Base.{
  Bool, true, false, Option, none, some, List, [], ◌∷◌, if◌then◌else◌, ◌≡◌, refl, sym, ap, subst,
  ◌∙◌, arith, All, Bool-cases, inl, inr,
}
use stellars_finance_contrac.Base.Int.{ℤ, ◌<ℤ◌, ltb_ℤ-true}
use stellars_finance_contrac.Base.Dict.{get, get-set}
use stellars_finance_contrac.Oracle.Loop.{
  LastPush, PushPolicy, Reply, Publisher, abs_delta_bps, should_push, is_held_back, push, tick_at,
  tick_once, run_ticks,
}
use Prim.Native.String.{String}
use text.Mathlib.Text.{◌==◌}
use text.Mathlib.TextEquality.{eq_iff}

-- The price, if there is one, lies further from the pushed one than a tick may move.
abbrev pub IsOutlier : PushPolicy → ℤ → Option ℤ → Type 0
IsOutlier policy pushed none = Unit
IsOutlier policy pushed (some scaled) = policy.max_delta_bps_per_tick <ℤ abs_delta_bps scaled pushed

-- Whenever the tick is one of the ticker, its price is an outlier.
abbrev pub Misses : PushPolicy → String → ℤ → String × Reply → Type 0
Misses policy ticker pushed t = t.0 == ticker ≡ true → IsOutlier policy pushed t.1.scaled

abbrev pub prices_of : String → List (String × ℤ) → List ℤ
prices_of ticker [] = []
prices_of ticker (p ∷ ps) = if p.0 == ticker then p.1 ∷ prices_of ticker ps else prices_of ticker ps

-- The ticker's last push, and the prices submitted for it, are as they were.
pub record Stuck (ticker : String) (s s' : Publisher) : Type 0 where
  pub last : get s'.last_push ticker ≡ get s.last_push ticker
  pub submitted : prices_of ticker s'.submissions ≡ prices_of ticker s.submissions

push_other :
    (ticker other : String) (scaled : ℤ) (reply : Reply) (s : Publisher)
    → (other == ticker) ≡ false
    → Stuck ticker s (push other scaled reply s)
unfolding push
push_other ticker other scaled reply s e = record {
  last = ground (
    arith,
    get-set s.last_push other ticker (record { scaled_price = scaled; at = reply.pushed_clock }),
  );
  submitted = rw e refl;
}

Stuck-if :
    (b : Bool) (ticker : String) (s x y : Publisher)
    → (b ≡ true → Stuck ticker s x)
    → (b ≡ false → Stuck ticker s y)
    → Stuck ticker s (if b then x else y)
Stuck-if true ticker s x y f g = f refl
Stuck-if false ticker s x y f g = g refl

stay : (ticker : String) (s : Publisher) → Stuck ticker s s
stay ticker s = record { last = refl; submitted = refl }

tick_other :
    (policy : PushPolicy) (ticker other : String) (scaled : Option ℤ) (reply : Reply)
    (s : Publisher)
    → (other == ticker) ≡ false
    → Stuck ticker s (tick_at policy other scaled reply s)
unfolding tick_at
tick_other policy ticker other none reply s e = stay ticker s
tick_other policy ticker other (some scaled) reply s e =
    Stuck-if (is_held_back (get s.last_push other) scaled policy reply.interval_clock) ticker s _ _
      (λ h. stay ticker s)
      (λ h.
        Stuck-if (should_push (get s.last_push other) scaled policy reply.age_clock) ticker s _ _
          (λ p. push_other ticker other scaled reply s e) (λ p. stay ticker s))

outlier_held_back :
    (policy : PushPolicy) (prev : LastPush) (scaled now : ℤ)
    → policy.max_delta_bps_per_tick <ℤ abs_delta_bps scaled prev.scaled_price
    → is_held_back (some prev) scaled policy now ≡ true
unfolding is_held_back
outlier_held_back policy prev scaled now h =
    rw (ltb_ℤ-true policy.max_delta_bps_per_tick (abs_delta_bps scaled prev.scaled_price) h) refl

tick_outlier :
    (policy : PushPolicy) (ticker : String) (prev : LastPush) (scaled : Option ℤ) (reply : Reply)
    (s : Publisher)
    → get s.last_push ticker ≡ some prev
    → IsOutlier policy prev.scaled_price scaled
    → tick_at policy ticker scaled reply s ≡ s
unfolding tick_at
tick_outlier policy ticker prev none reply s known h = refl
tick_outlier policy ticker prev (some scaled) reply s known h =
    rw (known, outlier_held_back policy prev scaled reply.interval_clock h) refl

tick_once-Stuck :
    (policy : PushPolicy) (ticker : String) (prev : LastPush) (t : String × Reply) (s : Publisher)
    → get s.last_push ticker ≡ some prev
    → Misses policy ticker prev.scaled_price t
    → Stuck ticker s (tick_once policy t.0 t.1 s)
unfolding tick_once
tick_once-Stuck policy ticker prev t s known miss = elim (Bool-cases (t.0 == ticker)) [
  | inl e ↦
      let same = (eq_iff t.0 ticker).0 e in
      let known' = ap (get s.last_push) same ∙ known in
      subst (Stuck ticker s) (sym (tick_outlier policy t.0 prev t.1.scaled t.1 s known' (miss e)))
        (stay ticker s)
  | inr e ↦ tick_other policy ticker t.0 t.1.scaled t.1 s e
]

-- Once a ticker was pushed, and as long as every price that is fetched for it lies further from
-- that push than a tick may move, no price is submitted for it and its last push stays what it
-- was: over any number of rounds, at any times, and whatever happens to the other tickers.
pub outliers-Stuck :
    (policy : PushPolicy) (ticker : String) (prev : LastPush) (ts : List (String × Reply))
    (s : Publisher)
    → get s.last_push ticker ≡ some prev
    → All (Misses policy ticker prev.scaled_price) ts
    → Stuck ticker s (run_ticks policy ts s)
unfolding run_ticks
outliers-Stuck policy ticker prev [] s known miss = stay ticker s
outliers-Stuck policy ticker prev (t ∷ ts) s known miss =
    let first = tick_once-Stuck policy ticker prev t s known miss.0 in
    let rest =
      outliers-Stuck policy ticker prev ts (tick_once policy t.0 t.1 s) (first.last ∙ known)
        miss.1 in
    record { last = rest.last ∙ first.last; submitted = rest.submitted ∙ first.submitted }
