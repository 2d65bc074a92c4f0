-- ===== src/Frontend/Split.antt =====
-- `String.prototype.split` and `Array.prototype.join` with a separator of one character, and the cut
-- at the first such character.
use Prim.Native.Char.{Char, code}
use Prim.Native.String.{String, [], ◌∷◌, ◌++◌}
use stellars_finance_contrac.Base.{
  ℕ, ◌≡◌, ◌≢◌, refl, ap, ◌∙◌, Option, none, some, List, ◌==◌, if◌then◌else◌, All,
}
use mathlib.Core.List.{[], ◌∷◌}
use text.Mathlib.TextLemmas.{nil-append, cons-append}
use native.Mathlib.Omega.{arith}

abbrev pub to_first : Char → List String → List String
to_first c [] = (c ∷ []) ∷ []
to_first c (part ∷ parts) = (c ∷ part) ∷ parts

unfoldable pub split : ℕ → String → List String
split sep [] = "" ∷ []
split sep (c ∷ s) = let rest = split sep s in if code c == sep then "" ∷ rest else to_first c rest

-- The separator as a text, and its code.
unfoldable pub join : Char → List String → String
join sep [] = ""
join sep (part ∷ []) = part
join sep (part ∷ (second ∷ parts)) = part ++ (sep ∷ join sep (second ∷ parts))

-- What stands before the first separator, and after it if there is one.
unfoldable pub cut : ℕ → String → String × Option String
cut sep [] = ("", none)
cut sep (c ∷ s) =
    let rest = cut sep s in if code c == sep then ("", some s) else (c ∷ rest.0, rest.1)

-- The text has no separator.
abbrev pub Lacks : ℕ → String → Type 0
Lacks sep [] = Unit
Lacks sep (c ∷ s) = (code c ≢ sep) × Lacks sep s

pub cut-append :
    (sep : Char) (s t : String) → Lacks (code sep) s → cut (code sep) (s ++ (sep ∷ t)) ≡ (s, some t)
unfolding cut
cut-append sep [] t h = rw nil-append (ground arith)
cut-append sep (c ∷ s) t h = rw cons-append (ground (arith, cut-append sep s t h.1))

pub cut_whole : (sep : ℕ) (s : String) → Lacks sep s → cut sep s ≡ (s, none)
unfolding cut
cut_whole sep [] h = refl
cut_whole sep (c ∷ s) h = ground (arith, cut_whole sep s h.1)

to_first-Lacks :
    (sep : ℕ) (c : Char) (parts : List String)
    → code c ≢ sep
    → All (Lacks sep) parts
    → All (Lacks sep) (to_first c parts)
to_first-Lacks sep c [] h all = ((h, tt), tt)
to_first-Lacks sep c (part ∷ parts) h all = ((h, all.0), all.1)

-- No part of a split text has a separator.
pub split-Lacks : (sep : ℕ) (s : String) → All (Lacks sep) (split sep s)
unfolding split
split-Lacks sep [] = (tt, tt)
split-Lacks sep (c ∷ s) = ground (arith, split-Lacks sep s, to_first-Lacks sep c (split sep s))

split_whole : (sep : ℕ) (s : String) → Lacks sep s → split sep s ≡ s ∷ []
unfolding split
split_whole sep [] h = refl
split_whole sep (c ∷ s) h = ground (arith, split_whole sep s h.1)

split-append :
    (sep : Char) (s t : String)
    → Lacks (code sep) s
    → split (code sep) (s ++ (sep ∷ t)) ≡ s ∷ split (code sep) t
unfolding split
split-append sep [] t h = rw nil-append (ground arith)
split-append sep (c ∷ s) t h = rw cons-append (ground (arith, split-append sep s t h.1))

-- Parts without a separator are split as they were joined.
pub split-join :
    (sep : Char) (part : String) (parts : List String)
    → All (Lacks (code sep)) (part ∷ parts)
    → split (code sep) (join sep (part ∷ parts)) ≡ part ∷ parts
unfolding join
split-join sep part [] h = split_whole (code sep) part h.0
split-join sep part (second ∷ parts) h =
    split-append sep part (join sep (second ∷ parts)) h.0
    ∙ ap (λ ps. part ∷ ps) (split-join sep second parts h.1)
