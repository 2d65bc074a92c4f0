-- ===== src/Indexer/Rpc.antt =====
-- packages/indexer/src/rpc.ts: the request for a page of events, with its bounded retry. The node's
-- replies, the engine of the regular expressions and the random numbers are parameters. A random
-- number is a numerator over `2 ^ 53`, and the delay is computed without rounding.
pub mod Retry
use stellars_finance_contrac.Base.{
  ℕ, zero, suc, ◌+◌, ◌*◌, ◌/◌, ◌^◌, min, Bool, ◌||◌, not, Option, none, some, if◌then◌else◌, leb,
}
use Prim.Native.String.{String}

-- packages/config/constants.ts
abbrev pub indexer_rpc_retry_base_ms : ℕ
indexer_rpc_retry_base_ms = 1_000

abbrev pub indexer_rpc_retry_max_ms : ℕ
indexer_rpc_retry_max_ms = 30_000

abbrev pub max_attempts : ℕ
max_attempts = 5

unfoldable pub backoff_ms : ℕ → ℕ → ℕ
backoff_ms random attempt =
    let capped = min (indexer_rpc_retry_base_ms * 2 ^ attempt) indexer_rpc_retry_max_ms in
    capped + capped * 3 * random / (10 * 2 ^ 53)

-- The four regular expressions of `isRetryable`.
pub data Pattern : Type 0 where
  too_many_requests custom_rate_limit server_error connection_failure : Pattern

-- `page` stands for the events with the next cursor; a failure carries its message.
pub data Reply (R : Type 0) : Type 0 where
  answered : (page : R) → Reply R
  failed : (message : String) → Reply R

-- How the function ended: the last reply, the number of requests before it, the time waited.
pub record Outcome (R : Type 0) : Type 0 where
  pub result : Reply R
  pub last : ℕ
  pub waited : ℕ

-- `request.cursor` if there is a cursor, else `request.startLedger`.
pub data Request : Type 0 where
  after_cursor : String → Request
  from_ledger : ℕ → Request

unfoldable pub request_of : Option String → ℕ → Request
request_of none start_ledger = Request.from_ledger start_ledger
request_of (some cursor) start_ledger = Request.after_cursor cursor

unfoldable pub is_retryable : (Pattern → String → Bool) → String → Bool
is_retryable test message =
    test Pattern.too_many_requests message
    || test Pattern.custom_rate_limit message
    || test Pattern.server_error message
    || test Pattern.connection_failure message

module _ {R : Type 0} (test : Pattern → String → Bool) (random : ℕ → ℕ)
    (get_events : Request → ℕ → Reply R) where
  abbrev pub wait : ℕ → Option (Outcome R) → Option (Outcome R)
  wait delay none = none
  wait delay (some o) = some (record o { waited = delay + o.waited })

  -- The `try` and the `catch` of one round; `attempt` counts the failures before it.
  abbrev pub on_reply : Reply R → ℕ → Option (Outcome R) → Option (Outcome R)
  on_reply (Reply.answered page) attempt rest =
      some (record { result = Reply.answered page; last = attempt; waited = 0 })
  on_reply (Reply.failed message) attempt rest =
      if leb max_attempts (suc attempt) || not (is_retryable test message)
      then some (record { result = Reply.failed message; last = attempt; waited = 0 })
      else wait (backoff_ms (random attempt) (suc attempt)) rest

  -- The `while (true)` loop on fuel.
  unfoldable pub fetch_loop : ℕ → Request → ℕ → Option (Outcome R)
  fetch_loop zero request attempt = none
  fetch_loop (suc fuel) request attempt =
      let rest = fetch_loop fuel request (suc attempt) in
      on_reply (get_events request attempt) attempt rest

  unfoldable pub fetch_events : ℕ → Option String → Option (Outcome R)
  fetch_events start_ledger cursor = fetch_loop max_attempts (request_of cursor start_ledger) 0
