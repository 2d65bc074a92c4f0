-- ===== src/Indexer/Spec.antt =====
-- packages/indexer/src/spec-parser.ts: the schemas of a contract's events, and the parsing of a raw
-- event by them. The values of the SDK and its decoder are parameters; `none` of a parse is a throw.
pub mod Formats
pub mod Schemas
pub mod RoundTrip
use stellars_finance_contrac.Base.{
  ℕ, Bool, Option, none, some, List, [], ◌∷◌, if◌then◌else◌, length, ltb, ◌==◌,
}
use stellars_finance_contrac.Base.Dict.{Dict, get, set}
use Prim.Native.String.{String}

-- What `Array.isArray` and `typeof` tell of a native value.
pub data Shape (V : Type 0) : Type 0 where
  array : List V → Shape V
  object : Dict V → Shape V
  single : Shape V

-- The SDK: `decode` is `scValToNative(xdr.ScVal.fromXDR(.., "base64"))` and throws on bad input.
pub record Sdk (V : Type 0) : Type 0 where
  pub decode : String → Option V
  pub shape : V → Shape V
  pub address_string : V → Option V
  pub as_string : V → Option String

pub record EventFieldSpec : Type 0 where
  pub topic_fields : List String
  pub data_fields : List String

abbrev pub ContractSpecMaps : Type 0
ContractSpecMaps = Dict (Dict EventFieldSpec)

-- An entry of a contract's spec; `other` is any entry that is no event.
pub record Param : Type 0 where
  pub name : String
  pub in_topics : Bool

pub data SpecEntry : Type 0 where
  event : (prefix_topics : List String) → (params : List Param) → SpecEntry
  other : SpecEntry

-- The names of the parameters at the given location, in the order of their declaration.
unfoldable pub fields_at : Bool → List Param → List String
fields_at topics [] = []
fields_at topics (param ∷ params) =
    let rest = fields_at topics params in
    if topics
    then (if param.in_topics then param.name ∷ rest else rest)
    else (if param.in_topics then rest else param.name ∷ rest)

abbrev pub field_spec : List Param → EventFieldSpec
field_spec params = record {
  topic_fields = fields_at Bool.true params;
  data_fields = fields_at Bool.false params;
}

-- `if (result.has(topicName)) continue; result.set(topicName, ..)`
abbrev pub keep_first :
    Option EventFieldSpec → String → EventFieldSpec → Dict EventFieldSpec → Dict EventFieldSpec
keep_first (some known) topic_name fields result = result
keep_first none topic_name fields result = set result topic_name fields

unfoldable pub add_entry : SpecEntry → Dict EventFieldSpec → Dict EventFieldSpec
add_entry SpecEntry.other result = result
add_entry (SpecEntry.event [] params) result = result
add_entry (SpecEntry.event (topic_name ∷ more) params) result =
    keep_first (get result topic_name) topic_name (field_spec params) result

unfoldable pub add_entries : List SpecEntry → Dict EventFieldSpec → Dict EventFieldSpec
add_entries [] result = result
add_entries (entry ∷ entries) result = add_entries entries (add_entry entry result)

unfoldable pub extract_event_specs : List SpecEntry → Dict EventFieldSpec
extract_event_specs entries = add_entries entries []

unfoldable pub set_specs : List (String × List SpecEntry) → ContractSpecMaps → ContractSpecMaps
set_specs [] maps = maps
set_specs (contract ∷ contracts) maps =
    set_specs contracts (set maps contract.0 (extract_event_specs contract.1))

unfoldable pub build_contract_spec_maps : List (String × List SpecEntry) → ContractSpecMaps
build_contract_spec_maps contracts = set_specs contracts []

-- packages/indexer/src/rpc.ts: an event as the RPC node gives it; times are in milliseconds.
pub record RawEvent : Type 0 where
  pub contract_id : String
  pub topic : List String
  pub value : String
  pub ledger : ℕ
  pub tx_hash : String
  pub ledger_closed_at : ℕ

pub record SpecEvent (V : Type 0) : Type 0 where
  pub contract_id : String
  pub topic0 : String
  pub fields : Dict V
  pub ledger : ℕ
  pub tx_hash : String
  pub timestamp : ℕ

-- `specMaps.get(contractId)?.get(topic0)`
abbrev pub lookup_in : Option (Dict EventFieldSpec) → String → Option EventFieldSpec
lookup_in none topic0 = none
lookup_in (some specs) topic0 = get specs topic0

abbrev pub lookup_topic : Option (Dict EventFieldSpec) → Option String → Option EventFieldSpec
lookup_topic specs none = none
lookup_topic specs (some topic0) = lookup_in specs topic0

module _ {V : Type 0} (sdk : Sdk V) where
  -- `val instanceof Address ? val.toString() : val`
  unfoldable pub normalize : V → V
  normalize value = elim (sdk.address_string value) [ none ↦ value | some text ↦ text ]

  abbrev pub normalize_decoded : Option V → Option V
  normalize_decoded none = none
  normalize_decoded (some value) = some (normalize value)

  unfoldable pub decode_sc_val : String → Option V
  decode_sc_val b64 = normalize_decoded (sdk.decode b64)

  -- The loop over the topic fields, which stops where the topics end.
  unfoldable pub decode_topics : List String → List String → Dict V → Option (Dict V)
  decode_topics [] topics fields = some fields
  decode_topics (name ∷ names) [] fields = some fields
  decode_topics (name ∷ names) (topic ∷ topics) fields = elim (decode_sc_val topic) [
    | none ↦ none
    | some value ↦ decode_topics names topics (set fields name value)
  ]

  -- The three formats of the data.
  unfoldable pub fill_array : List String → List V → Dict V → Dict V
  fill_array [] values fields = fields
  fill_array (name ∷ names) [] fields = fields
  fill_array (name ∷ names) (value ∷ values) fields =
      fill_array names values (set fields name (normalize value))

  unfoldable pub fill_object : List String → Dict V → Dict V → Dict V
  fill_object [] obj fields = fields
  fill_object (name ∷ names) obj fields =
      fill_object names obj
        (elim (get obj name) [ none ↦ fields | some value ↦ set fields name (normalize value) ])

  unfoldable pub fill_single : List String → V → Dict V → Dict V
  fill_single (name ∷ []) value fields = set fields name (normalize value)
  fill_single [] value fields = fields
  fill_single (name ∷ second ∷ names) value fields = fields

  abbrev pub fill : Shape V → V → List String → Dict V → Dict V
  fill (Shape.array values) value names fields = fill_array names values fields
  fill (Shape.object obj) value names fields = fill_object names obj fields
  fill Shape.single value names fields = fill_single names value fields

  -- The topics and then the data of an event whose schema is known.
  abbrev pub decode_value : RawEvent → EventFieldSpec → Option (Dict V) → Option (Dict V)
  decode_value raw spec none = none
  decode_value raw spec (some fields) = elim (sdk.decode raw.value) [
    | none ↦ none
    | some value ↦ some (fill (sdk.shape value) value spec.data_fields fields)
  ]

  unfoldable pub decode_fields : RawEvent → List String → EventFieldSpec → Option (Dict V)
  decode_fields raw topics spec = decode_value raw spec (decode_topics spec.topic_fields topics [])

  abbrev pub event_of : RawEvent → Option String → Dict V → SpecEvent V
  event_of raw topic0 fields = record {
    contract_id = raw.contract_id;
    topic0 = elim topic0 [ none ↦ "" | some name ↦ name ];
    fields = fields;
    ledger = raw.ledger;
    tx_hash = raw.tx_hash;
    timestamp = raw.ledger_closed_at;
  }

  abbrev pub parse_known :
      RawEvent → List String → Option String → Option EventFieldSpec → Option (Option (SpecEvent V))
  parse_known raw topics topic0 none = some none
  parse_known raw topics topic0 (some spec) = elim (decode_fields raw topics spec) [
    | none ↦ none
    | some fields ↦ some (some (event_of raw topic0 fields))
  ]

  abbrev pub parse_topics :
      RawEvent → List String → ContractSpecMaps → Option V → Option (Option (SpecEvent V))
  parse_topics raw topics maps none = none
  parse_topics raw topics maps (some value) =
      let topic0 = sdk.as_string value in
      parse_known raw topics topic0 (lookup_topic (get maps raw.contract_id) topic0)

  -- `some none` is the `null` of an unknown contract or event.
  unfoldable pub parse_event : RawEvent → ContractSpecMaps → Option (Option (SpecEvent V))
  parse_event raw maps = elim raw.topic [
    | [] ↦ none
    | topic ∷ topics ↦ parse_topics raw topics maps (decode_sc_val topic)
  ]
