-- ===== src/Indexer/Rpc/Retry.antt =====
-- packages/indexer/src/rpc.ts: how the retries end.
use stellars_finance_contrac.Base.{
  ℕ, zero, suc, ◌+◌, ◌-◌, ◌*◌, ◌/◌, ◌^◌, ◌≤◌, ◌<◌, min, ◌≡◌, refl, ap, subst, Bool, true, false,
  ◌||◌, not, inl, inr, Bool-cases, Option, some, leb, arith,
}
use native.Mathlib.Nat.{mul-le-mul, div-le_of_le-mul, min-le_right, eq-or-lt_of_le}
use stellars_finance_contrac.Indexer.Rpc.{
  max_attempts, backoff_ms, Pattern, Reply, Outcome, Request, request_of, is_retryable, on_reply,
  wait, fetch_loop, fetch_events,
}
use Prim.Native.String.{String}

triple-le : (capped : ℕ) → capped ≤ 30_000 → capped * 3 ≤ 90_000
triple-le capped h = omega (arith, h)

scaled-le :
    (capped random : ℕ) → capped ≤ 30_000 → random ≤ 2 ^ 53 → capped * 3 * random ≤ 90_000 * 2 ^ 53
scaled-le capped random h r = mul-le-mul (triple-le capped h) r

jitter-le :
    (capped random : ℕ)
    → capped ≤ 30_000
    → random ≤ 2 ^ 53
    → capped * 3 * random / (10 * 2 ^ 53) ≤ 9_000
jitter-le capped random h r =
    div-le_of_le-mul (10 * 2 ^ 53) (omega (arith, scaled-le capped random h r))

backoff_ms-le : (random attempt : ℕ) → random < 2 ^ 53 → backoff_ms random attempt ≤ 39_000
unfolding backoff_ms
backoff_ms-le random attempt h =
    let capped = min (1_000 * 2 ^ attempt) 30_000 in
    let bound = min-le_right (1_000 * 2 ^ attempt) 30_000 in
    omega (arith, jitter-le capped random bound (omega (arith, h)), bound)

module _ {R : Type 0} (test : Pattern → String → Bool) (random : ℕ → ℕ)
    (get_events : Request → ℕ → Reply R) where
  -- A failure that the loop may ask again after.
  abbrev pub IsRetryable : Reply R → Type 0
  IsRetryable (Reply.answered page) = ⊥
  IsRetryable (Reply.failed message) = is_retryable test message ≡ true

  -- The end of a loop that began with `attempt` failures behind it.
  pub record Ends (request : Request) (attempt : ℕ) (o : Outcome R) : Type 0 where
    pub after_start : attempt ≤ o.last
    pub within : o.last < max_attempts
    pub replied : o.result ≡ get_events request o.last
    pub asked_again : (k : ℕ) → attempt ≤ k → k < o.last → IsRetryable (get_events request k)
    pub settled : IsRetryable o.result → suc o.last ≡ max_attempts
    pub waited_le : o.waited ≤ 39_000 * (o.last - attempt)

  -- The loop from its next round on.
  abbrev Continues : Request → ℕ → Option (Outcome R) → Type 0
  Continues request attempt rest = (o : Outcome R) × (rest ≡ some o) × Ends request attempt o

  answered-Ends :
      (request : Request) (attempt : ℕ) (reply : Reply R)
      → attempt < max_attempts
      → reply ≡ get_events request attempt
      → (IsRetryable reply → suc attempt ≡ max_attempts)
      → Ends request attempt (record { result = reply; last = attempt; waited = 0 })
  answered-Ends request attempt reply h e last = record {
    after_start = omega arith;
    within = h;
    replied = e;
    asked_again = λ k a b. absurd (omega (arith, a, b));
    settled = last;
    waited_le = omega arith;
  }

  wait-Ends :
      (request : Request) (attempt delay : ℕ) (o : Outcome R)
      → delay ≤ 39_000
      → IsRetryable (get_events request attempt)
      → Ends request (suc attempt) o
      → Ends request attempt (record o { waited = delay + o.waited })
  wait-Ends request attempt delay o h retryable ends = record {
    after_start = omega (arith, ends.after_start);
    within = ends.within;
    replied = ends.replied;
    asked_again = λ k a b. elim (eq-or-lt_of_le a) [
      | inl e ↦ subst (λ j. IsRetryable (get_events request j)) e retryable
      | inr l ↦ ends.asked_again k l b
    ];
    settled = ends.settled;
    waited_le = omega (arith, ends.waited_le, ends.after_start, h);
  }

  may_retry :
      (attempt : ℕ) (message : String)
      → (leb max_attempts (suc attempt) || not (is_retryable test message)) ≡ false
      → (suc attempt < max_attempts) × (is_retryable test message ≡ true)
  may_retry attempt message h = (ground arith, ground arith)

  retry-Continues :
      (request : Request) (attempt : ℕ) (message : String) (rest : Option (Outcome R))
      → random attempt < 2 ^ 53
      → Reply.failed message ≡ get_events request attempt
      → is_retryable test message ≡ true
      → Continues request (suc attempt) rest
      → Continues request attempt
          (wait test random get_events (backoff_ms (random attempt) (suc attempt)) rest)
  retry-Continues request attempt message rest fraction e retryable (o, found, ends) = (
    _,
    ap (λ r. wait test random get_events (backoff_ms (random attempt) (suc attempt)) r) found,
    wait-Ends request attempt (backoff_ms (random attempt) (suc attempt)) o
        (backoff_ms-le (random attempt) (suc attempt) fraction) (subst IsRetryable e retryable)
        ends,
  )

  on_reply-Continues :
      (request : Request) (attempt : ℕ) (reply : Reply R) (rest : Option (Outcome R))
      → ((k : ℕ) → random k < 2 ^ 53)
      → attempt < max_attempts
      → reply ≡ get_events request attempt
      → (suc attempt < max_attempts → Continues request (suc attempt) rest)
      → Continues request attempt (on_reply test random get_events reply attempt rest)
  on_reply-Continues request attempt (Reply.answered page) rest fraction h e later =
      (_, refl, answered-Ends request attempt (Reply.answered page) h e (λ r. absurd r))
  on_reply-Continues request attempt (Reply.failed message) rest fraction h e later =
      elim (Bool-cases (leb max_attempts (suc attempt) || not (is_retryable test message))) [
        | inl stop ↦ rw stop (
          _,
          refl,
          answered-Ends request attempt (Reply.failed message) h e (λ r. ground (arith, stop, r)),
        )
        | inr go ↦ rw go (
            retry-Continues request attempt message rest (fraction attempt) e
              (may_retry attempt message go).1 (later (may_retry attempt message go).0))
      ]

  fetch_loop-Continues :
      ((k : ℕ) → random k < 2 ^ 53)
      → (fuel : ℕ) (request : Request) (attempt : ℕ) → 0 < fuel
      → attempt + fuel ≡ max_attempts
      → Continues request attempt (fetch_loop test random get_events fuel request attempt)
  unfolding fetch_loop
  fetch_loop-Continues fraction zero request attempt positive e = absurd (omega (arith, positive))
  fetch_loop-Continues fraction (suc fuel) request attempt positive e =
      on_reply-Continues request attempt (get_events request attempt) _ fraction (omega (arith, e))
        refl
        (λ h.
          fetch_loop-Continues fraction fuel request (suc attempt) (omega (arith, e, h))
            (omega (arith, e)))

  -- Whatever the node replies, the function ends after at most five requests, all the same, with the
  -- reply to the last one: each earlier reply was a retryable failure, the last is one only if it is
  -- the fifth, and the waits sum up to at most 39 seconds for each repeated request. The random
  -- numbers are below one.
  pub fetch_events-Ends :
      ((k : ℕ) → random k < 2 ^ 53)
      → (start_ledger : ℕ) (cursor : Option String)
      → (o : Outcome R) × (fetch_events test random get_events start_ledger cursor ≡ some o)
        × Ends (request_of cursor start_ledger) 0 o
  unfolding fetch_events
  fetch_events-Ends fraction start_ledger cursor =
      fetch_loop-Continues fraction max_attempts (request_of cursor start_ledger) 0 (omega arith)
        refl
