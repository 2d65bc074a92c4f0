-- ===== src/Frontend/Geometry/Store.antt =====
-- packages/frontend/src/desktop/geometry.ts: saving a place and loading it.
use stellars_finance_contrac.Base.{
  ◌≡◌, ◌≢◌, refl, ap, ◌∙◌, Bool, true, false, inl, inr, Bool-cases, Option, some, if◌then◌else◌,
}
use stellars_finance_contrac.Base.Dict.{Dict, get, set, get-set}
use stellars_finance_contrac.Frontend.Geometry.{
  Geometry, Json, read_store, load_geometry, save_geometry,
}
use Prim.Native.String.{String}
use text.Mathlib.Text.{◌==◌}
use text.Mathlib.TextEquality.{eq_iff}

module _ (json : Json)
    (round_trips : (store : Dict Geometry) → json.parse (json.stringify store) ≡ some store)
    (not_empty : (store : Dict Geometry) → json.stringify store ≢ "") where
  read_store-stringify :
      (store : Dict Geometry) → read_store json (some (json.stringify store)) ≡ store
  unfolding read_store
  read_store-stringify store = elim (Bool-cases (json.stringify store == "")) [
    | inl e ↦ absurd (not_empty store ((eq_iff (json.stringify store) "").0 e))
    | inr e ↦ rw (e, round_trips store) refl
  ]

  -- With a store whose JSON is read back as it was written, a load after a save finds the saved place
  -- under its id if the browser accepts the save, and what it found before under any other id, and
  -- under every id if the save is refused, whatever the store held.
  pub load_geometry-save_geometry :
      (accepts : Bool) (id other : String) (geom : Geometry) (raw : Option String)
      → load_geometry json (save_geometry json accepts id geom raw) other ≡ (
          if accepts
          then (if id == other then some geom else load_geometry json raw other)
          else load_geometry json raw other)
  unfolding load_geometry save_geometry
  load_geometry-save_geometry true id other geom raw =
      ap (λ store. get store other) (read_store-stringify (set (read_store json raw) id geom))
      ∙ get-set (read_store json raw) id other geom
  load_geometry-save_geometry false id other geom raw = refl
