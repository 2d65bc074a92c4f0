-- ===== src/Frontend/Sender/Waiting.antt =====
-- packages/frontend/src/contracts/sender.ts: the wait for a transaction.
use stellars_finance_contrac.Base.{
  ℕ, zero, suc, ◌+◌, ◌-◌, ◌*◌, ◌≤◌, ◌<◌, ◌≡◌, refl, sym, subst, ◌⊎◌, inl, inr, if_intro, Option,
  some, ltb, ltb→lt, arith,
}
use stellars_finance_contrac.Frontend.Errors.{Contracts, Runtime}
use stellars_finance_contrac.Frontend.Sender.{
  Ending, Lookup, timed_out, parse_get_error, after_lookup, wait_loop, rounds,
}
use native.Mathlib.Nat.{eq-or-lt_of_le}
use Prim.Native.String.{String}

module _ (runtime : Runtime) (contracts : Contracts) (first_240 : String → String) (now : ℕ → ℕ)
    (get_transaction : ℕ → Lookup) where
  -- What a final answer makes of the wait.
  abbrev pub Answers : String → Lookup → Ending → Type 0
  Answers hash Lookup.pending e = ⊥
  Answers hash Lookup.success e = e ≡ Ending.succeeded hash
  Answers hash (Lookup.failed events op_code) e =
      e ≡ Ending.rejected (parse_get_error runtime contracts first_240 hash events op_code)
  Answers hash (Lookup.unanswered message) e = e ≡ Ending.threw message

  -- The wait from round `k` on ends in round `last`, all answers before it being not final: with the
  -- answer of that round, in time, or with a timeout, after it.
  pub record Ends (hash : String) (start k : ℕ) (e : Ending) : Type 0 where
    pub last : ℕ
    pub after_k : k ≤ last
    pub waited : (j : ℕ) → k ≤ j → j < last → get_transaction j ≡ Lookup.pending
    pub settled :
        ((now last - start < 30_000) × Answers hash (get_transaction last) e)
        ⊎ ((30_000 ≤ now last - start) × (e ≡ timed_out runtime contracts first_240 hash))

  abbrev Ended : String → ℕ → ℕ → Option Ending → Type 0
  Ended hash start k r = (e : Ending) × (r ≡ some e) × Ends hash start k e

  at_once :
      (hash : String) (start k : ℕ) (e : Ending)
      → ((now k - start < 30_000) × Answers hash (get_transaction k) e)
        ⊎ ((30_000 ≤ now k - start) × (e ≡ timed_out runtime contracts first_240 hash))
      → Ended hash start k (some e)
  at_once hash start k e h = (
    e,
    refl,
    record {
      last = k;
      after_k = omega arith;
      waited = λ j a b. absurd (omega (arith, a, b));
      settled = h;
    },
  )

  later :
      (hash : String) (start k : ℕ) (r : Option Ending)
      → get_transaction k ≡ Lookup.pending
      → Ended hash start (suc k) r
      → Ended hash start k r
  later hash start k r p (e, found, ends) = (
    e,
    found,
    record {
      last = ends.last;
      after_k = omega (arith, ends.after_k);
      waited = λ j a b. elim (eq-or-lt_of_le a) [
        | inl same ↦ subst (λ i. get_transaction i ≡ Lookup.pending) same p
        | inr l ↦ ends.waited j l b
      ];
      settled = ends.settled;
    },
  )

  after_lookup-Ended :
      (hash : String) (start k : ℕ) (answer : Lookup) (rest : Option Ending)
      → get_transaction k ≡ answer
      → now k - start < 30_000
      → (get_transaction k ≡ Lookup.pending → Ended hash start (suc k) rest)
      → Ended hash start k (after_lookup runtime contracts first_240 hash answer rest)
  after_lookup-Ended hash start k Lookup.pending rest e t go = later hash start k rest e (go e)
  after_lookup-Ended hash start k Lookup.success rest e t go =
      at_once hash start k _
        (inl (t, subst (λ a. Answers hash a (Ending.succeeded hash)) (sym e) refl))
  after_lookup-Ended hash start k (Lookup.failed events op_code) rest e t go =
      at_once hash start k _ (
        inl (
          t,
          subst
              (λ a.
                Answers hash a (
                  Ending.rejected
                    (parse_get_error runtime contracts first_240 hash events op_code)))
              (sym e) refl,
        ))
  after_lookup-Ended hash start k (Lookup.unanswered message) rest e t go =
      at_once hash start k _
        (inl (t, subst (λ a. Answers hash a (Ending.threw message)) (sym e) refl))

  module _ (start : ℕ) (begins : start ≤ now 0)
      (sleeps : (k : ℕ) → now k + 1_500 ≤ now (suc k)) where
    elapsed : (k : ℕ) → start + 1_500 * k ≤ now k
    elapsed zero = omega (arith, begins)
    elapsed (suc k) = omega (arith, elapsed k, sleeps k)

    wait_loop-Ended :
        (fuel : ℕ) (hash : String) (k : ℕ)
        → fuel + k ≡ 21
        → 0 < fuel
        → Ended hash start k
            (wait_loop runtime contracts first_240 now get_transaction fuel hash start k)
    unfolding wait_loop
    wait_loop-Ended zero hash k e positive = absurd (omega (arith, positive))
    wait_loop-Ended (suc fuel) hash k e positive =
        if_intro (Ended hash start k) (ltb (now k - start) 30_000)
          (λ t. after_lookup-Ended hash start k (get_transaction k) _ refl (ltb→lt _ _ t) λ p.
            wait_loop-Ended fuel hash (suc k) (omega (arith, e))
              (omega (arith, e, elapsed k, ltb→lt _ _ t)))
          λ t. at_once hash start k _ (inr (ground (arith, t), refl))

    -- As every round sleeps for 1.5 seconds, the wait ends, in its first 21 rounds: with the hash if
    -- and when the node reports success, with the reason if it reports a failure, with the error of a
    -- call that throws, and with a timeout if 30 seconds pass without a final answer.
    pub wait_loop-Ends :
        (hash : String)
        → (e : Ending) × (wait_loop runtime contracts first_240 now get_transaction rounds hash
              start 0
            ≡ some e)
          × Ends hash start 0 e
    wait_loop-Ends hash = wait_loop-Ended 21 hash 0 (omega arith) (omega arith)
