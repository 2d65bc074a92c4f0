-- ===== src/Keeper/Dedup/Exclusion.antt =====
-- packages/keeper/src/dedup.ts: a claimed slot until it expires.
use stellars_finance_contrac.Base.{
  ℕ, ◌+◌, ◌≤◌, ◌<◌, true, false, not, Option, none, some, ◌≡◌, List, [], ◌∷◌, arith, All,
}
use stellars_finance_contrac.Base.Dict.{get, get-set, get-delete}
use stellars_finance_contrac.Keeper.Dedup.{TtlDedup, claim, release, has}
use Prim.Native.String.{String}
use text.Mathlib.Text.{◌==◌}
use text.Mathlib.TextEquality.{eq_iff}

-- A call on the table, with the time of the call.
pub data Call : Type 0 where
  claim_call : String → ℕ → ℕ → Call
  release_call : String → Call
  has_call : String → ℕ → Call

unfoldable pub perform : Call → TtlDedup → TtlDedup
perform (Call.claim_call key ttl_ms now) d = (claim d key ttl_ms now).1
perform (Call.release_call key) d = release d key
perform (Call.has_call key now) d = (has d key now).1

unfoldable pub perform_all : List Call → TtlDedup → TtlDedup
perform_all [] d = d
perform_all (c ∷ cs) d = perform_all cs (perform c d)

-- The call neither releases the key nor comes at `limit` or later.
abbrev pub Leaves : String → ℕ → Call → Type 0
Leaves key limit (Call.claim_call other ttl_ms now) = now < limit
Leaves key limit (Call.release_call other) = (other == key) ≡ false
Leaves key limit (Call.has_call other now) = now < limit

-- The entry, if there is one, lasts until `limit` at least.
abbrev Lasts : Option ℕ → ℕ → Type 0
Lasts none limit = ⊥
Lasts (some expires_at) limit = limit ≤ expires_at

-- The slot of the key is taken until `limit` at least.
abbrev pub HeldUntil : String → ℕ → TtlDedup → Type 0
HeldUntil key limit d = Lasts (get d.entries key) limit

pub claim-HeldUntil :
    (d : TtlDedup) (key : String) (ttl_ms now : ℕ)
    → (claim d key ttl_ms now).0 ≡ true
    → HeldUntil key (now + ttl_ms) (claim d key ttl_ms now).1
unfolding claim
claim-HeldUntil d key ttl_ms now h =
    ground (arith, get-set d.entries key key (now + ttl_ms), eq_iff key key)

-- A slot that is held cannot be claimed.
pub claim-held :
    (d : TtlDedup) (key : String) (limit ttl_ms now : ℕ)
    → HeldUntil key limit d
    → now < limit
    → claim d key ttl_ms now ≡ (false, d)
unfolding claim
claim-held d key limit ttl_ms now h lt = ground arith

pub perform-HeldUntil :
    (key : String) (limit : ℕ) (c : Call) (d : TtlDedup)
    → Leaves key limit c
    → HeldUntil key limit d
    → HeldUntil key limit (perform c d)
unfolding perform claim release has
perform-HeldUntil key limit (Call.claim_call other ttl_ms now) d l h =
    ground (arith, eq_iff other key, get-set d.entries other key (now + ttl_ms))
perform-HeldUntil key limit (Call.release_call other) d l h =
    ground (arith, get-delete d.entries other key)
perform-HeldUntil key limit (Call.has_call other now) d l h =
    ground (arith, eq_iff other key, get-delete d.entries other key)

perform_all-HeldUntil :
    (key : String) (limit : ℕ) (cs : List Call) (d : TtlDedup)
    → All (Leaves key limit) cs
    → HeldUntil key limit d
    → HeldUntil key limit (perform_all cs d)
unfolding perform_all
perform_all-HeldUntil key limit [] d l h = h
perform_all-HeldUntil key limit (c ∷ cs) d l h =
    perform_all-HeldUntil key limit cs (perform c d) l.1 (perform-HeldUntil key limit c d l.0 h)

-- After a successful claim, and any calls before its time is up that do not release the key, another
-- claim of the key before its time is up fails and changes nothing.
pub claim_excludes :
    (d : TtlDedup) (key : String) (ttl_ms now : ℕ) (cs : List Call) (ttl_ms' later : ℕ)
    → (claim d key ttl_ms now).0 ≡ true
    → All (Leaves key (now + ttl_ms)) cs
    → later < now + ttl_ms
    → let d' = perform_all cs (claim d key ttl_ms now).1 in claim d' key ttl_ms' later ≡ (false, d')
claim_excludes d key ttl_ms now cs ttl_ms' later h l lt =
    claim-held _ key (now + ttl_ms) ttl_ms' later
      (perform_all-HeldUntil key (now + ttl_ms) cs _ l (claim-HeldUntil d key ttl_ms now h)) lt

-- `has` says that a key is taken exactly when a claim of it at that time would fail, and leaves the
-- outcome of every claim at that time as it was.
pub has-claim :
    (d : TtlDedup) (key other : String) (ttl_ms now : ℕ)
    → ((has d key now).0 ≡ not (claim d key ttl_ms now).0)
      × ((claim (has d key now).1 other ttl_ms now).0 ≡ (claim d other ttl_ms now).0)
unfolding has claim
has-claim d key other ttl_ms now =
    (ground arith, ground (arith, eq_iff key other, get-delete d.entries key other))
