-- ===== src/Frontend/Windows/Order.antt =====
-- packages/frontend/src/desktop/wm.tsx: lists of ids, and what filters and additions keep of them.
use Prim.Native.String.{String, [], ◌∷◌}
use stellars_finance_contrac.Base.{
  ◌≡◌, ◌≢◌, subst, true, false, inl, inr, Bool-cases, List, All, IsUnique,
}
use stellars_finance_contrac.Frontend.Windows.{is_known, keep_known, includes, without}
use mathlib.Core.List.{[], ◌∷◌, ◌++◌}
use text.Mathlib.Text.{◌==◌}
use text.Mathlib.TextEquality.{eq_iff}
use native.Mathlib.Omega.{arith}

module _ {κ} (P : String → Type κ) where
  pub All-without : (xs : List String) (id : String) → All P xs → All P (without xs id)
  unfolding without
  All-without [] id h = tt
  All-without (x ∷ xs) id h = elim (Bool-cases (x == id)) [
    | inl e ↦ rw e (All-without xs id h.1)
    | inr e ↦ rw e (h.0, All-without xs id h.1)
  ]

  pub All-snoc : (xs : List String) (id : String) → All P xs → P id → All P (xs ++ id ∷ [])
  All-snoc [] id h p = (p, tt)
  All-snoc (x ∷ xs) id h p = (h.0, All-snoc xs id h.1 p)

  All-keep_known : (xs : List String) → All P xs → All P (keep_known xs)
  unfolding keep_known
  All-keep_known [] h = tt
  All-keep_known (x ∷ xs) h = elim (Bool-cases (is_known x)) [
    | inl e ↦ rw e (h.0, All-keep_known xs h.1)
    | inr e ↦ rw e (All-keep_known xs h.1)
  ]

pub without_gone : (xs : List String) (id : String) → All (λ x. x ≢ id) (without xs id)
unfolding without
without_gone [] id = tt
without_gone (x ∷ xs) id = elim (Bool-cases (x == id)) [
  | inl e ↦ rw e (without_gone xs id)
  | inr e ↦ rw e (ground (arith, eq_iff x id, e), without_gone xs id)
]

pub excluded : (xs : List String) (id : String) → includes xs id ≡ false → All (λ x. x ≢ id) xs
unfolding includes
excluded [] id h = tt
excluded (x ∷ xs) id h = ground (arith, eq_iff x id, excluded xs id)

pub keep_known-IsUnique : (xs : List String) → IsUnique xs → IsUnique (keep_known xs)
unfolding keep_known
keep_known-IsUnique [] h = tt
keep_known-IsUnique (x ∷ xs) h = elim (Bool-cases (is_known x)) [
  | inl e ↦ rw e (All-keep_known (λ y. x ≢ y) xs h.0, keep_known-IsUnique xs h.1)
  | inr e ↦ rw e (keep_known-IsUnique xs h.1)
]

pub without-IsUnique : (xs : List String) (id : String) → IsUnique xs → IsUnique (without xs id)
unfolding without
without-IsUnique [] id h = tt
without-IsUnique (x ∷ xs) id h = elim (Bool-cases (x == id)) [
  | inl e ↦ rw e (without-IsUnique xs id h.1)
  | inr e ↦ rw e (All-without (λ y. x ≢ y) xs id h.0, without-IsUnique xs id h.1)
]

pub snoc-IsUnique :
    (xs : List String) (id : String) → IsUnique xs → All (λ x. x ≢ id) xs → IsUnique (xs ++ id ∷ [])
snoc-IsUnique [] id h apart = (tt, tt)
snoc-IsUnique (x ∷ xs) id h apart =
    (All-snoc (λ y. x ≢ y) xs id h.0 apart.0, snoc-IsUnique xs id h.1 apart.1)

pub included :
    (P : String → Type 0) (xs : List String) (id : String) → includes xs id ≡ true → All P xs → P id
unfolding includes
included P [] id h all = absurd (ground arith)
included P (x ∷ xs) id h all = elim (Bool-cases (x == id)) [
  | inl e ↦ subst P ((eq_iff x id).0 e) all.0
  | inr e ↦ included P xs id (ground (arith, h, e)) all.1
]
