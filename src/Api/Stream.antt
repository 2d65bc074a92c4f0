-- ===== src/Api/Stream.antt =====
-- packages/api/src/sse-stream.ts and sse.ts: the queue of a stream, and which notifications of the
-- broadcaster enter it. A consumer that waits is a number; what it is given, `none` for the end, is
-- listed in order.
pub mod Backlog
use stellars_finance_contrac.Base.{
  ℕ, suc, Bool, true, false, not, ◌&&◌, Option, none, some, List, [], ◌∷◌, ◌++◌, if◌then◌else◌, leb,
  length,
}
use stellars_finance_contrac.Base.Int.{ℤ}
use Prim.Native.String.{String}
use text.Mathlib.Text.{◌==◌}

-- `makeQueue`: the variables of the closure.
pub record Queue (A : Type 0) : Type 0 where
  pub buf : List A
  pub waiters : List ℕ
  pub closed : Bool
  pub dropped : ℕ

abbrev pub empty_queue : {A : Type 0} → Queue A
empty_queue = record { buf = []; waiters = []; closed = false; dropped = 0 }

-- What consumers are given, with the queue after it.
abbrev pub Step : Type 0 → Type 0
Step A = List (ℕ × Option A) × Queue A

module _ {A : Type 0} where
  abbrev pub shift : List A → List A
  shift [] = []
  shift (x ∷ xs) = xs

  unfoldable pub enqueue : ℕ → A → Queue A → Queue A
  enqueue max_len v q =
      if leb max_len (length q.buf)
      then record q { buf = shift q.buf ++ (v ∷ []); dropped = suc q.dropped }
      else record q { buf = q.buf ++ (v ∷ []) }

  abbrev pub push_to : ℕ → A → List ℕ → Queue A → Step A
  push_to max_len v [] q = ([], enqueue max_len v q)
  push_to max_len v (w ∷ ws) q = ((w, some v) ∷ [], record q { waiters = ws })

  unfoldable pub push : ℕ → A → Queue A → Step A
  push max_len v q = if q.closed then ([], q) else push_to max_len v q.waiters q

  abbrev pub finish : List ℕ → List (ℕ × Option A)
  finish [] = []
  finish (w ∷ ws) = (w, none) ∷ finish ws

  unfoldable pub close : Queue A → Step A
  close q =
      if q.closed then ([], q) else (finish q.waiters, record q { waiters = []; closed = true })

  abbrev pub next_of : ℕ → List A → Queue A → Step A
  next_of w (x ∷ xs) q = ((w, some x) ∷ [], record q { buf = xs })
  next_of w [] q =
      if q.closed then ((w, none) ∷ [], q) else ([], record q { waiters = q.waiters ++ (w ∷ []) })

  unfoldable pub next : ℕ → Queue A → Step A
  next w q = next_of w q.buf q

-- The payload of a notification: null, the broadcaster's mark of a reconnection, or a row's id and
-- symbol where the channel has them.
pub data Payload : Type 0 where
  null resync : Payload
  row : (id : Option ℤ) → (symbol : Option String) → Payload

-- `payload?.symbol`
abbrev pub symbol_of : Payload → Option String
symbol_of Payload.null = none
symbol_of Payload.resync = none
symbol_of (Payload.row id symbol) = symbol

abbrev pub equals : Option String → String → Bool
equals none symbol = false
equals (some s) symbol = s == symbol

-- The filter of the streams of one symbol's market and trades; the other routes have none.
unfoldable pub accepts : Option String → Payload → Bool
accepts none payload = true
accepts (some symbol) payload = equals (symbol_of payload) symbol

-- The callback of the subscription.
unfoldable pub on_notification : ℕ → Option String → Payload → Queue Payload → Step Payload
on_notification max_len filter payload q =
    if accepts filter payload then push max_len payload q else ([], q)
