-- ===== src/Frontend/Geometry.antt =====
-- packages/frontend/src/desktop/geometry.ts: where a window is put, and the store of places. Lengths
-- are whole numbers; a difference that is negative in the code meets a `Math.max` with a number that
-- is not. The JSON of the store and the failures of `localStorage` are parameters.
pub mod Bounds
pub mod Store
use stellars_finance_contrac.Base.{
  ℕ, ◌+◌, ◌-◌, ◌*◌, ◌%◌, min, max, Bool, Option, none, some, [], if◌then◌else◌,
}
use stellars_finance_contrac.Base.Dict.{Dict, get, set}
use stellars_finance_contrac.Frontend.Windows.{AppKind}
use Prim.Native.String.{String}
use text.Mathlib.Text.{◌==◌}

pub record Geometry : Type 0 where
  pub x : ℕ
  pub y : ℕ
  pub width : ℕ
  pub height : ℕ

pub record Size : Type 0 where
  pub width : ℕ
  pub height : ℕ

unfoldable pub default_size : AppKind → Size
default_size AppKind.trade = record { width = 880; height = 600 }
default_size AppKind.vault = record { width = 560; height = 580 }
default_size AppKind.faucet = record { width = 400; height = 380 }
default_size AppKind.profile = record { width = 680; height = 500 }
default_size AppKind.leaderboard = record { width = 720; height = 460 }

unfoldable pub min_size : AppKind → Size
min_size AppKind.trade = record { width = 480; height = 360 }
min_size AppKind.vault = record { width = 360; height = 320 }
min_size AppKind.faucet = record { width = 320; height = 280 }
min_size AppKind.profile = record { width = 400; height = 280 }
min_size AppKind.leaderboard = record { width = 440; height = 240 }

abbrev pub fitted : ℕ → ℕ → ℕ → ℕ
fitted size smallest available = min size (max smallest (available - 16))

unfoldable pub default_geometry : AppKind → ℕ → Size → Geometry
default_geometry kind index desktop =
    let size = default_size kind in
    let smallest = min_size kind in
    let width = fitted size.width smallest.width desktop.width in
    let height = fitted size.height smallest.height desktop.height in
    let offset = 28 * (index % 8) in
    record {
      x = min (48 + offset) (desktop.width - width);
      y = min (24 + offset) (desktop.height - height);
      width = width;
      height = height;
    }

-- `JSON`: a parse is `none` where it throws.
pub record Json : Type 0 where
  pub parse : String → Option (Dict Geometry)
  pub stringify : Dict Geometry → String

module _ (json : Json) where
  abbrev pub parsed_or_empty : Option (Dict Geometry) → Dict Geometry
  parsed_or_empty none = []
  parsed_or_empty (some store) = store

  -- `raw` is the item under the store's key.
  unfoldable pub read_store : Option String → Dict Geometry
  read_store none = []
  read_store (some raw) = if raw == "" then [] else parsed_or_empty (json.parse raw)

  unfoldable pub load_geometry : Option String → String → Option Geometry
  load_geometry raw id = get (read_store raw) id

  -- `accepts` says whether `setItem` succeeds.
  unfoldable pub save_geometry : Bool → String → Geometry → Option String → Option String
  save_geometry accepts id geom raw =
      if accepts then some (json.stringify (set (read_store raw) id geom)) else raw
