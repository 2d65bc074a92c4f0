-- ===== src/Indexer/Positions/Table.antt =====
-- The table of positions as a map from the trader and the symbol.
use stellars_finance_contrac.Base.{
  Bool, true, false, ◌&&◌, Option, none, some, List, [], ◌∷◌, if◌then◌else◌, ◌≡◌, refl, arith,
}
use stellars_finance_contrac.Indexer.Positions.{Position}
use stellars_finance_contrac.Indexer.Positions.Rows.{is_at, exists_at, update_at, delete_at}
use Prim.Native.String.{String}
use text.Mathlib.Text.{◌==◌}
use text.Mathlib.TextEquality.{eq_iff}

-- The row of a trader and a symbol.
unfoldable pub find_at : String → String → List Position → Option Position
find_at trader symbol [] = none
find_at trader symbol (p ∷ ps) = if is_at trader symbol p then some p else find_at trader symbol ps

-- The change leaves the key of a row as it is.
pub record KeepsKey (f : Position → Position) : Type 0 where
  pub trader : (p : Position) → (f p).trader ≡ p.trader
  pub symbol : (p : Position) → (f p).symbol ≡ p.symbol

abbrev pub same_key : String → String → String → String → Bool
same_key a b trader symbol = (a == trader) && (b == symbol)

abbrev pub map_option : (Position → Position) → Option Position → Option Position
map_option f none = none
map_option f (some p) = some (f p)

pub find_at-update_at :
    (a b : String) (f : Position → Position)
    → KeepsKey f
    → (trader symbol : String) (ps : List Position)
    → find_at trader symbol (update_at a b f ps) ≡ (
        if same_key a b trader symbol
        then map_option f (find_at trader symbol ps)
        else find_at trader symbol ps)
unfolding find_at update_at
find_at-update_at a b f keeps trader symbol [] = ground arith
find_at-update_at a b f keeps trader symbol (p ∷ ps) = ground (
  arith,
  keeps.trader p,
  keeps.symbol p,
  eq_iff a trader,
  eq_iff b symbol,
  eq_iff p.trader a,
  eq_iff p.symbol b,
  eq_iff p.trader trader,
  eq_iff p.symbol symbol,
  find_at-update_at a b f keeps trader symbol ps,
)

pub find_at-delete_at :
    (a b trader symbol : String) (ps : List Position)
    → find_at trader symbol (delete_at a b ps)
      ≡ (if same_key a b trader symbol then none else find_at trader symbol ps)
unfolding find_at delete_at
find_at-delete_at a b trader symbol [] = ground arith
find_at-delete_at a b trader symbol (p ∷ ps) = ground (
  arith,
  eq_iff a trader,
  eq_iff b symbol,
  eq_iff p.trader a,
  eq_iff p.symbol b,
  eq_iff p.trader trader,
  eq_iff p.symbol symbol,
  find_at-delete_at a b trader symbol ps,
)

abbrev pub is_some : Option Position → Bool
is_some none = false
is_some (some p) = true

pub exists_at-find_at :
    (trader symbol : String) (ps : List Position)
    → exists_at trader symbol ps ≡ is_some (find_at trader symbol ps)
unfolding exists_at find_at
exists_at-find_at trader symbol [] = refl
exists_at-find_at trader symbol (p ∷ ps) = ground (arith, exists_at-find_at trader symbol ps)
