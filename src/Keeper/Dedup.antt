-- ===== src/Keeper/Dedup.antt =====
-- packages/keeper/src/dedup.ts: slots that are claimed for a time. `Date.now()` is an argument, in
-- milliseconds.
pub mod Exclusion
use stellars_finance_contrac.Base.{
  ℕ, ◌+◌, Bool, true, false, Option, none, some, ltb, leb, if◌then◌else◌,
}
use stellars_finance_contrac.Base.Dict.{Dict, get, set, delete}
use Prim.Native.String.{String}
use mathlib.Core.List.{List}

pub record TtlDedup : Type 0 where
  pub entries : Dict ℕ

abbrev pub is_taken : Option ℕ → ℕ → Bool
is_taken none now = false
is_taken (some expires_at) now = ltb now expires_at

unfoldable pub claim : TtlDedup → String → ℕ → ℕ → Bool × TtlDedup
claim d key ttl_ms now =
    if is_taken (get d.entries key) now
    then (false, d)
    else (true, record d { entries = set d.entries key (now + ttl_ms) })

unfoldable pub release : TtlDedup → String → TtlDedup
release d key = record d { entries = delete d.entries key }

-- An entry that has expired is removed on the way.
abbrev pub has_entry : TtlDedup → String → Option ℕ → ℕ → Bool × TtlDedup
has_entry d key none now = (false, d)
has_entry d key (some expires_at) now =
    if leb expires_at now then (false, record d { entries = delete d.entries key }) else (true, d)

unfoldable pub has : TtlDedup → String → ℕ → Bool × TtlDedup
has d key now = has_entry d key (get d.entries key) now
