-- ===== src/Indexer/Spec/Schemas.antt =====
-- packages/indexer/src/spec-parser.ts: which schema an event's name has after the specs are read.
use stellars_finance_contrac.Base.{
  Option, none, some, List, [], ◌∷◌, ◌≡◌, refl, ap, ◌∙◌, if◌then◌else◌,
}
use stellars_finance_contrac.Base.Dict.{Dict, get, get-set}
use stellars_finance_contrac.Indexer.Spec.{
  EventFieldSpec, SpecEntry, field_spec, keep_first, add_entry, add_entries, extract_event_specs,
}
use Prim.Native.String.{String}
use text.Mathlib.Text.{◌==◌}
use text.Mathlib.TextEquality.{eq_iff}
use native.Mathlib.Omega.{arith}

-- The schema that one entry gives to a name.
unfoldable pub declares : SpecEntry → String → Option EventFieldSpec
declares SpecEntry.other name = none
declares (SpecEntry.event [] params) name = none
declares (SpecEntry.event (topic_name ∷ more) params) name =
    if topic_name == name then some (field_spec params) else none

abbrev pub or_else : {A : Type 0} → Option A → Option A → Option A
or_else none other = other
or_else (some a) other = some a

-- The schema of the first entry that gives the name one.
unfoldable pub first_declared : List SpecEntry → String → Option EventFieldSpec
first_declared [] name = none
first_declared (entry ∷ entries) name = or_else (declares entry name) (first_declared entries name)

pub or_else_assoc :
    {A : Type 0} (a b c : Option A) → or_else (or_else a b) c ≡ or_else a (or_else b c)
or_else_assoc none b c = refl
or_else_assoc (some a) b c = refl

or_else-none : {A : Type 0} (a : Option A) → a ≡ or_else a none
or_else-none none = refl
or_else-none (some a) = refl

-- The first of two schemas for one name stays.
get-keep_first :
    (known : Option EventFieldSpec) (topic name : String) (fields : EventFieldSpec)
    (result : Dict EventFieldSpec)
    → get result topic ≡ known
    → get (keep_first known topic fields result) name
      ≡ or_else (get result name) (if topic == name then some fields else none)
get-keep_first (some old) topic name fields result h =
    ground (arith, eq_iff topic name, or_else-none (get result name))
get-keep_first none topic name fields result h =
    ground
      (arith, eq_iff topic name, get-set result topic name fields, or_else-none (get result name))

get-add_entry :
    (entry : SpecEntry) (result : Dict EventFieldSpec) (name : String)
    → get (add_entry entry result) name ≡ or_else (get result name) (declares entry name)
unfolding add_entry declares
get-add_entry SpecEntry.other result name = or_else-none (get result name)
get-add_entry (SpecEntry.event [] params) result name = or_else-none (get result name)
get-add_entry (SpecEntry.event (topic ∷ more) params) result name =
    get-keep_first (get result topic) topic name (field_spec params) result refl

get-add_entries :
    (entries : List SpecEntry) (result : Dict EventFieldSpec) (name : String)
    → get (add_entries entries result) name
      ≡ or_else (get result name) (first_declared entries name)
unfolding add_entries first_declared
get-add_entries [] result name = or_else-none (get result name)
get-add_entries (entry ∷ entries) result name =
    get-add_entries entries (add_entry entry result) name
    ∙ ap (λ o. or_else o (first_declared entries name)) (get-add_entry entry result name)
    ∙ or_else_assoc (get result name) (declares entry name) (first_declared entries name)

-- After the specs of a contract are read, each event name has the schema of the first event entry
-- with that name, and a name without such an entry has none.
pub get-extract_event_specs :
    (entries : List SpecEntry) (name : String)
    → get (extract_event_specs entries) name ≡ first_declared entries name
unfolding extract_event_specs get
get-extract_event_specs entries name = get-add_entries entries [] name
