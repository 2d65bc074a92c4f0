-- ===== src/Frontend/Geometry/Bounds.antt =====
-- packages/frontend/src/desktop/geometry.ts: where a window is put.
use stellars_finance_contrac.Base.{ℕ, ◌+◌, ◌-◌, ◌*◌, ◌%◌, ◌≤◌, min, arith}
use stellars_finance_contrac.Frontend.Windows.{AppKind}
use stellars_finance_contrac.Frontend.Geometry.{
  Geometry, Size, default_size, min_size, fitted, default_geometry,
}

-- One side: a window that is at least as long as its least length ends within the desktop.
fits :
    (size smallest available start : ℕ)
    → smallest ≤ size
    → smallest ≤ available
    → (smallest ≤ fitted size smallest available)
      × (fitted size smallest available ≤ size)
      × (min start (available - fitted size smallest available) + fitted size smallest available
          ≤ available)
fits size smallest available start h k = (omega (arith, h, k), omega arith, omega (arith, h, k))

sizes_ordered :
    (kind : AppKind)
    → ((min_size kind).width ≤ (default_size kind).width)
      × ((min_size kind).height ≤ (default_size kind).height)
unfolding min_size default_size
sizes_ordered AppKind.trade = (omega arith, omega arith)
sizes_ordered AppKind.vault = (omega arith, omega arith)
sizes_ordered AppKind.faucet = (omega arith, omega arith)
sizes_ordered AppKind.profile = (omega arith, omega arith)
sizes_ordered AppKind.leaderboard = (omega arith, omega arith)

-- A place on the desktop for a window of this kind.
pub record IsPlaced (kind : AppKind) (desktop : Size) (g : Geometry) : Type 0 where
  pub width_ge : (min_size kind).width ≤ g.width
  pub width_le : g.width ≤ (default_size kind).width
  pub right_le : g.x + g.width ≤ desktop.width
  pub height_ge : (min_size kind).height ≤ g.height
  pub height_le : g.height ≤ (default_size kind).height
  pub bottom_le : g.y + g.height ≤ desktop.height

-- On a desktop that has room for the least size of the kind, a new window of any index is between its
-- least and its usual size and lies within the desktop.
pub default_geometry-IsPlaced :
    (kind : AppKind) (index : ℕ) (desktop : Size)
    → (min_size kind).width ≤ desktop.width
    → (min_size kind).height ≤ desktop.height
    → IsPlaced kind desktop (default_geometry kind index desktop)
unfolding default_geometry
default_geometry-IsPlaced kind index desktop w h =
    let sizes = sizes_ordered kind in
    let offset = 28 * (index % 8) in
    let across =
      fits (default_size kind).width (min_size kind).width desktop.width (48 + offset) sizes.0 w in
    let down =
      fits (default_size kind).height (min_size kind).height desktop.height (24 + offset) sizes.1
        h in
    record {
      width_ge = across.0;
      width_le = across.1;
      right_le = across.2;
      height_ge = down.0;
      height_le = down.1;
      bottom_le = down.2;
    }
