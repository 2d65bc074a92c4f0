-- ===== src/Frontend/Windows/Ids.antt =====
-- packages/frontend/src/desktop/wm.tsx: window ids, and the list of them in the URL.
use Prim.Native.Char.{Char, code}
use Prim.Native.String.{String, [], ◌∷◌}
use stellars_finance_contrac.Base.{
  ◌≡◌, ◌≢◌, refl, sym, ap, true, false, inl, inr, Bool-cases, Option, none, some, List, All,
}
use stellars_finance_contrac.Frontend.Split.{
  split, join, cut, Lacks, cut-append, cut_whole, split-join, split-Lacks,
}
use stellars_finance_contrac.Frontend.Windows.{
  AppKind, kind_text, colon, comma, window_id, kind_of, lacks_symbol, parse_window_id, is_known,
  keep_known, ids_of, ids, search_of,
}
use mathlib.Core.List.{[], ◌∷◌}
use text.Mathlib.Text.{◌==◌}
use text.Mathlib.TextEquality.{eq_iff}
use text.Mathlib.TextLemmas.{cons-ne-nil}
use native.Mathlib.Omega.{arith}

kind_of-kind_text : (kind : AppKind) → kind_of (kind_text kind) ≡ some kind
unfolding kind_of kind_text
kind_of-kind_text AppKind.trade = refl
kind_of-kind_text AppKind.vault = refl
kind_of-kind_text AppKind.faucet = refl
kind_of-kind_text AppKind.profile = refl
kind_of-kind_text AppKind.leaderboard = refl

kind_text-Lacks : (kind : AppKind) → Lacks (code colon) (kind_text kind)
unfolding kind_text
kind_text-Lacks AppKind.trade = ground arith
kind_text-Lacks AppKind.vault = ground arith
kind_text-Lacks AppKind.faucet = ground arith
kind_text-Lacks AppKind.profile = ground arith
kind_text-Lacks AppKind.leaderboard = ground arith

nonempty : (param : String) → some param ≢ some "" → (param == "") ≡ false
nonempty param h = elim (Bool-cases (param == "")) [
  | inl e ↦ absurd (h (ap (λ p. some p) ((eq_iff param "").0 e)))
  | inr e ↦ e
]

-- A window's id is parsed to its kind and parameter, if the parameter is not the empty text and
-- a trade window has one.
pub parse_window_id-window_id :
    (kind : AppKind) (param : Option String)
    → lacks_symbol kind param ≡ false
    → param ≢ some ""
    → parse_window_id (window_id kind param) ≡ some (record { kind = kind; param = param })
unfolding parse_window_id window_id
parse_window_id-window_id kind none has named =
    rw (cut_whole (code colon) (kind_text kind) (kind_text-Lacks kind), kind_of-kind_text kind, has)
      refl
parse_window_id-window_id kind (some param) has named =
    rw
      (
        nonempty param named,
        cut-append colon (kind_text kind) param (kind_text-Lacks kind),
        kind_of-kind_text kind,
        has,
      )
      refl

-- An id that the URL can hold.
abbrev pub IsId : String → Type 0
IsId id = (is_known id ≡ true) × Lacks (code comma) id

keep_known-IsId : (ids : List String) → All (Lacks (code comma)) ids → All IsId (keep_known ids)
unfolding keep_known
keep_known-IsId [] h = tt
keep_known-IsId (id ∷ rest) h = elim (Bool-cases (is_known id)) [
  | inl e ↦ rw e ((e, h.0), keep_known-IsId rest h.1)
  | inr e ↦ rw e (keep_known-IsId rest h.1)
]

-- The ids that are read from the URL are such.
pub ids_of-IsId : (w : Option String) → All IsId (ids_of w)
unfolding ids_of
ids_of-IsId none = tt
ids_of-IsId (some w) = elim (Bool-cases (w == "")) [
  | inl e ↦ rw e tt
  | inr e ↦ rw e (keep_known-IsId (split (code comma) w) (split-Lacks (code comma) w))
]

pub keep_known-All : (ids : List String) → All IsId ids → keep_known ids ≡ ids
unfolding keep_known
keep_known-All [] h = refl
keep_known-All (id ∷ rest) h = rw h.0.0 (ap (λ xs. id ∷ xs) (keep_known-All rest h.1))

pub All-Lacks : (ids : List String) → All IsId ids → All (Lacks (code comma)) ids
All-Lacks [] h = tt
All-Lacks (id ∷ rest) h = (h.0.1, All-Lacks rest h.1)

cons_nonempty : (c : Char) (s : String) → ((c ∷ s) == "") ≡ false
cons_nonempty c s = ground (arith, eq_iff (c ∷ s) "", cons-ne-nil c s)

none_known : ids_of none ≡ keep_known []
unfolding ids_of keep_known
none_known = refl

empty_or_not :
    (s : String) (ids : List String)
    → ids ≡ keep_known (split (code comma) s)
    → ids_of (some s) ≡ ids
unfolding ids_of keep_known split parse_window_id cut kind_of
empty_or_not [] ids h = sym h
empty_or_not (c ∷ s) ids h = rw (cons_nonempty c s) (sym h)

-- A list of texts without a comma is read back from the URL that it is written to, less the texts
-- that are no ids.
pub ids_of-search_of :
    (ids : List String) → All (Lacks (code comma)) ids → ids_of (search_of ids) ≡ keep_known ids
unfolding search_of
ids_of-search_of [] h = none_known
ids_of-search_of (id ∷ rest) h =
    empty_or_not (join comma (id ∷ rest)) (keep_known (id ∷ rest))
      (ap keep_known (sym (split-join comma id rest h)))
