-- ===== src/Base/Dict.antt =====
-- `Map<string, V>`: its entries in insertion order, read and written by key.
use stellars_finance_contrac.Base.Tests.{if◌then◌else◌}
use Prim.Native.String.{String}
use text.Mathlib.Text.{◌==◌}
use text.Mathlib.TextEquality.{eq_iff}
use mathlib.Core.Path.{◌≡◌, refl}
use mathlib.Core.Option.{Option, none, some}
use mathlib.Core.List.{List, [], ◌∷◌}
use native.Mathlib.Omega.{arith}

abbrev pub Dict {ℓ} : Type ℓ → Type ℓ
Dict V = List (String × V)

module _ {ℓ} {V : Type ℓ} where
  -- `map.get(key)`
  unfoldable pub get : Dict V → String → Option V
  get [] key = none
  get (entry ∷ rest) key = if entry.0 == key then some entry.1 else get rest key

  -- `map.set(key, value)`: a known key keeps its place.
  unfoldable pub set : Dict V → String → V → Dict V
  set [] key value = (key, value) ∷ []
  set (entry ∷ rest) key value =
      if entry.0 == key then (key, value) ∷ rest else entry ∷ set rest key value

  -- `map.delete(key)`
  unfoldable pub delete : Dict V → String → Dict V
  delete [] key = []
  delete (entry ∷ rest) key = if entry.0 == key then delete rest key else entry ∷ delete rest key

  pub get-set :
      (table : Dict V) (key other : String) (value : V)
      → get (set table key value) other ≡ (if key == other then some value else get table other)
  unfolding get set
  get-set [] key other value = refl
  get-set (entry ∷ rest) key other value = ground (
    arith,
    eq_iff key other,
    eq_iff entry.0 key,
    eq_iff entry.0 other,
    get-set rest key other value,
  )

  pub get-delete :
      (table : Dict V) (key other : String)
      → get (delete table key) other ≡ (if key == other then none else get table other)
  unfolding get delete
  get-delete [] key other = ground arith
  get-delete (entry ∷ rest) key other =
      ground (
        arith,
        eq_iff key other,
        eq_iff entry.0 key,
        eq_iff entry.0 other,
        get-delete rest key other,
      )
