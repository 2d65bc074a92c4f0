-- ===== src/Indexer/Spec/Formats.antt =====
-- packages/indexer/src/spec-parser.ts: the three formats of an event's data.
use stellars_finance_contrac.Base.{suc, some, List, [], ◌∷◌, ◌++◌, ◌≡◌, refl, sym, ap, ◌∙◌, length}
use stellars_finance_contrac.Base.Dict.{Dict, get, set}
use stellars_finance_contrac.Indexer.Spec.{
  Shape, Sdk, normalize, decode_sc_val, decode_topics, fill_array, fill_object, fill_single, fill,
}
use Prim.Native.String.{String}
use native.Mathlib.Omega.{arith}

module _ {V : Type 0} (sdk : Sdk V) where
  -- The topics decode to the values, one by one.
  abbrev pub Decodes : List String → List V → Type 0
  Decodes [] [] = Unit
  Decodes [] (value ∷ values) = ⊥
  Decodes (topic ∷ topics) [] = ⊥
  Decodes (topic ∷ topics) (value ∷ values) =
      (sdk.decode topic ≡ some value) × Decodes topics values

  -- Each name has its value in the dictionary.
  abbrev pub Reads : Dict V → List String → List V → Type 0
  Reads fields [] [] = Unit
  Reads fields [] (value ∷ values) = ⊥
  Reads fields (name ∷ names) [] = ⊥
  Reads fields (name ∷ names) (value ∷ values) =
      (get fields name ≡ some value) × Reads fields names values

  -- A value of this shape carries the data in one of the three formats.
  abbrev pub Carries : Shape V → V → List String → List V → Type 0
  Carries (Shape.array items) whole names values = (items ≡ values) × (length values ≡ length names)
  Carries (Shape.object obj) whole names values = Reads obj names values
  Carries Shape.single whole names values = (values ≡ whole ∷ []) × (length names ≡ 1)

  pub decode_topics-fill_array :
      (names topics : List String) (values : List V) (fields : Dict V)
      → Decodes topics values
      → length values ≡ length names
      → decode_topics sdk names topics fields ≡ some (fill_array sdk names values fields)
  unfolding decode_topics fill_array decode_sc_val
  decode_topics-fill_array [] [] [] fields h e = refl
  decode_topics-fill_array (name ∷ names) (topic ∷ topics) (value ∷ values) fields h e =
      rw (decode_topics, decode_sc_val, h.0)
        (decode_topics-fill_array names topics values (set fields name (normalize sdk value)) h.1
          (omega (arith, e)))
  decode_topics-fill_array [] topics (value ∷ values) fields h e = absurd (omega (arith, e))
  decode_topics-fill_array (name ∷ names) topics [] fields h e = absurd (omega (arith, e))
  decode_topics-fill_array [] (topic ∷ topics) [] fields h e = absurd h
  decode_topics-fill_array (name ∷ names) [] (value ∷ values) fields h e = absurd h

  fill_object-fill_array :
      (names : List String) (obj : Dict V) (values : List V) (fields : Dict V)
      → Reads obj names values
      → fill_object sdk names obj fields ≡ fill_array sdk names values fields
  unfolding fill_object fill_array
  fill_object-fill_array [] obj [] fields h = refl
  fill_object-fill_array [] obj (value ∷ values) fields h = absurd h
  fill_object-fill_array (name ∷ names) obj [] fields h = absurd h
  fill_object-fill_array (name ∷ names) obj (value ∷ values) fields h =
      rw h.0 (fill_object-fill_array names obj values (set fields name (normalize sdk value)) h.1)

  fill_single-fill_array :
      (names : List String) (whole : V) (fields : Dict V)
      → length names ≡ 1
      → fill_single sdk names whole fields ≡ fill_array sdk names (whole ∷ []) fields
  unfolding fill_single fill_array
  fill_single-fill_array [] whole fields e = absurd (omega (arith, e))
  fill_single-fill_array (name ∷ []) whole fields e = refl
  fill_single-fill_array (name ∷ second ∷ names) whole fields e = absurd (omega (arith, e))

  pub Reads-length :
      (obj : Dict V) (names : List String) (values : List V)
      → Reads obj names values
      → length values ≡ length names
  Reads-length obj [] [] h = refl
  Reads-length obj [] (value ∷ values) h = absurd h
  Reads-length obj (name ∷ names) [] h = absurd h
  Reads-length obj (name ∷ names) (value ∷ values) h = ap suc (Reads-length obj names values h.1)

  -- All three formats fill the fields alike.
  pub fill-fill_array :
      (shape : Shape V) (whole : V) (names : List String) (values : List V) (fields : Dict V)
      → Carries shape whole names values
      → fill sdk shape whole names fields ≡ fill_array sdk names values fields
  fill-fill_array (Shape.array items) whole names values fields h =
      ap (λ vs. fill_array sdk names vs fields) h.0
  fill-fill_array (Shape.object obj) whole names values fields h =
      fill_object-fill_array names obj values fields h
  fill-fill_array Shape.single whole names values fields h =
      fill_single-fill_array names whole fields h.1
      ∙ ap (λ vs. fill_array sdk names vs fields) (sym h.0)

  pub fill_array-append :
      (names more : List String) (values rest : List V) (fields : Dict V)
      → length values ≡ length names
      → fill_array sdk more rest (fill_array sdk names values fields)
        ≡ fill_array sdk (names ++ more) (values ++ rest) fields
  unfolding fill_array
  fill_array-append [] more [] rest fields e = refl
  fill_array-append (name ∷ names) more (value ∷ values) rest fields e =
      fill_array-append names more values rest (set fields name (normalize sdk value))
        (omega (arith, e))
  fill_array-append [] more (value ∷ values) rest fields e = absurd (omega (arith, e))
  fill_array-append (name ∷ names) more [] rest fields e = absurd (omega (arith, e))
