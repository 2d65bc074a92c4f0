-- ===== src/Indexer/Spec/RoundTrip.antt =====
-- packages/indexer/src/spec-parser.ts: reading an event that is written by its schema.
use stellars_finance_contrac.Base.{
  ◌+◌, Option, none, some, List, [], ◌∷◌, ◌++◌, ◌≡◌, ◌≢◌, refl, sym, ap, ap₂, ◌∙◌, length,
  length-append, map, All, IsUnique,
}
use stellars_finance_contrac.Base.Dict.{Dict, get, set, get-set}
use stellars_finance_contrac.Indexer.Spec.{
  Shape, Sdk, EventFieldSpec, ContractSpecMaps, RawEvent, normalize, decode_sc_val, fill_array,
  fill, decode_value, decode_fields, event_of, parse_known, parse_event,
}
use Prim.Native.String.{String}
use text.Mathlib.TextEquality.{eq_iff}
use native.Mathlib.Omega.{arith}
use stellars_finance_contrac.Indexer.Spec.Formats.{
  Decodes, Reads, Carries, decode_topics-fill_array, Reads-length, fill-fill_array,
  fill_array-append,
}

module _ {V : Type 0} (sdk : Sdk V) where
  get-fill_array_other :
      (names : List String) (values : List V) (fields : Dict V) (name : String)
      → All (λ other. name ≢ other) names
      → get (fill_array sdk names values fields) name ≡ get fields name
  unfolding fill_array
  get-fill_array_other [] values fields name h = refl
  get-fill_array_other (first ∷ names) [] fields name h = refl
  get-fill_array_other (first ∷ names) (value ∷ values) fields name h = ground (
    arith,
    eq_iff first name,
    get-set fields first name (normalize sdk value),
    get-fill_array_other names values (set fields first (normalize sdk value)) name h.1,
    h.0,
  )

  Reads-fill_array :
      (names : List String) (values : List V) (fields : Dict V)
      → IsUnique names
      → length values ≡ length names
      → Reads sdk (fill_array sdk names values fields) names (map (normalize sdk) values)
  unfolding fill_array
  Reads-fill_array [] [] fields h e = tt
  Reads-fill_array (name ∷ names) (value ∷ values) fields h e = (
    ground (
      arith,
      eq_iff name name,
      get-set fields name name (normalize sdk value),
      get-fill_array_other names values (set fields name (normalize sdk value)) name h.0,
    ),
    Reads-fill_array names values (set fields name (normalize sdk value)) h.1 (omega (arith, e)),
  )
  Reads-fill_array [] (value ∷ values) fields h e = absurd (omega (arith, e))
  Reads-fill_array (name ∷ names) [] fields h e = absurd (omega (arith, e))

  decode_fields-fill_array :
      (raw : RawEvent) (topics : List String) (spec : EventFieldSpec) (whole : V)
      (topic_values data_values : List V)
      → Decodes sdk topics topic_values
      → length topic_values ≡ length spec.topic_fields
      → sdk.decode raw.value ≡ some whole
      → Carries sdk (sdk.shape whole) whole spec.data_fields data_values
      → decode_fields sdk raw topics spec
        ≡ some (
            fill_array sdk (spec.topic_fields ++ spec.data_fields) (topic_values ++ data_values) [])
  unfolding decode_fields
  decode_fields-fill_array raw topics spec whole topic_values data_values h e decoded carried =
      ap (λ f. decode_value sdk raw spec f)
        (decode_topics-fill_array sdk spec.topic_fields topics topic_values [] h e)
      ∙ ap
          (λ (o : Option V). elim o [
            | none ↦ none
            | some value ↦ some (
                fill sdk (sdk.shape value) value spec.data_fields
                  (fill_array sdk spec.topic_fields topic_values []))
          ])
          decoded
      ∙ ap (λ f. some f)
          (fill-fill_array sdk (sdk.shape whole) whole spec.data_fields data_values _ carried)
      ∙ ap (λ f. some f)
          (fill_array-append sdk spec.topic_fields spec.data_fields topic_values data_values [] e)

  Carries-length :
      (shape : Shape V) (whole : V) (names : List String) (values : List V)
      → Carries sdk shape whole names values
      → length values ≡ length names
  Carries-length (Shape.array items) whole names values h = h.1
  Carries-length (Shape.object obj) whole names values h = Reads-length sdk obj names values h
  Carries-length Shape.single whole names values h = ap length h.0 ∙ sym h.1

  parse_event-known :
      (raw : RawEvent) (maps : ContractSpecMaps) (topic : String) (topics : List String) (value : V)
      (name : String) (specs : Dict EventFieldSpec) (spec : EventFieldSpec)
      → raw.topic ≡ topic ∷ topics
      → sdk.decode topic ≡ some value
      → sdk.as_string (normalize sdk value) ≡ some name
      → get maps raw.contract_id ≡ some specs
      → get specs name ≡ some spec
      → parse_event sdk raw maps ≡ parse_known sdk raw topics (some name) (some spec)
  unfolding parse_event decode_sc_val decode_fields
  parse_event-known raw maps topic topics value name specs spec h0 h1 h2 h3 h4 =
      rw (parse_event, decode_sc_val, h0, h1, h2, h3, h4) refl

  -- An event of a known contract and topic, whose topics decode to one value for each topic field
  -- and whose value carries one value for each data field in any of the three formats, is parsed to
  -- the event in which each field of its schema, the names being unique, reads its value.
  pub parse_event-Reads :
      (raw : RawEvent) (maps : ContractSpecMaps) (topic : String) (topics : List String) (value : V)
      (name : String) (specs : Dict EventFieldSpec) (spec : EventFieldSpec) (whole : V)
      (topic_values data_values : List V)
      → raw.topic ≡ topic ∷ topics
      → sdk.decode topic ≡ some value
      → sdk.as_string (normalize sdk value) ≡ some name
      → get maps raw.contract_id ≡ some specs
      → get specs name ≡ some spec
      → Decodes sdk topics topic_values
      → length topic_values ≡ length spec.topic_fields
      → sdk.decode raw.value ≡ some whole
      → Carries sdk (sdk.shape whole) whole spec.data_fields data_values
      → IsUnique (spec.topic_fields ++ spec.data_fields)
      → (fields : Dict V) × (parse_event sdk raw maps
          ≡ some (some (event_of sdk raw (some name) fields)))
        × Reads sdk fields
            (spec.topic_fields ++ spec.data_fields)
            (map (normalize sdk) (topic_values ++ data_values))
  parse_event-Reads raw maps topic topics value name specs spec whole topic_values data_values h0 h1
        h2 h3 h4 decoded e whole_decoded carried unique =
      let names = spec.topic_fields ++ spec.data_fields in
      let values = topic_values ++ data_values in
      (
        fill_array sdk names values [],
        parse_event-known raw maps topic topics value name specs spec h0 h1 h2 h3 h4
            ∙ ap
                (λ (o : Option (Dict V)). elim o [
                  | none ↦ none
                  | some fields ↦ some (some (event_of sdk raw (some name) fields))
                ])
                (decode_fields-fill_array raw topics spec whole topic_values data_values decoded e
                  whole_decoded carried),
        Reads-fill_array names values [] unique (
            length-append topic_values data_values
            ∙ ap₂ (λ a b. a + b) e
                (Carries-length (sdk.shape whole) whole spec.data_fields data_values carried)
            ∙ sym (length-append spec.topic_fields spec.data_fields)),
      )
