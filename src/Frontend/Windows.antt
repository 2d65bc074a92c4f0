-- ===== src/Frontend/Windows.antt =====
-- packages/frontend/src/desktop/wm.tsx: the window manager. Its state is the search parameter `w` of
-- the URL and the flags of the windows; a callback reads `ids` and `flags` of the last rendering.
pub mod Ids
pub mod Order
pub mod Calls
pub mod Focus
use Prim.Native.Char.{Char, char, code}
use Prim.Native.String
use Prim.Native.String.{String, [], ◌∷◌}
use stellars_finance_contrac.Base.{
  ℕ, Bool, true, false, ◌&&◌, not, Option, none, some, List, if◌then◌else◌,
}
use stellars_finance_contrac.Base.Dict.{Dict, get, set, delete}
use stellars_finance_contrac.Frontend.Split.{split, join, cut}
use mathlib.Core.List.{[], ◌∷◌, ◌++◌}
use text.Mathlib.Text.{◌==◌}

pub data AppKind : Type 0 where
  trade vault faucet profile leaderboard : AppKind

-- The kind's own text.
unfoldable pub kind_text : AppKind → String
kind_text AppKind.trade = "trade"
kind_text AppKind.vault = "vault"
kind_text AppKind.faucet = "faucet"
kind_text AppKind.profile = "profile"
kind_text AppKind.leaderboard = "leaderboard"

abbrev pub colon : Char
colon = ":"

abbrev pub comma : Char
comma = ","

unfoldable pub window_id : AppKind → Option String → String
window_id kind none = kind_text kind
window_id kind (some param) =
    if param == "" then kind_text kind else String.◌++◌ (kind_text kind) (colon ∷ param)

-- `KINDS.includes(kind)`, with the kind that it is.
unfoldable pub kind_of : String → Option AppKind
kind_of s =
    if s == "trade"
    then some AppKind.trade
    else if s == "vault"
    then some AppKind.vault
    else if s == "faucet"
    then some AppKind.faucet
    else if s == "profile"
    then some AppKind.profile
    else if s == "leaderboard"
    then some AppKind.leaderboard
    else none

pub record WindowName : Type 0 where
  pub kind : AppKind
  pub param : Option String

-- `kind === "trade" && !param`
unfoldable pub lacks_symbol : AppKind → Option String → Bool
lacks_symbol AppKind.trade none = true
lacks_symbol AppKind.trade (some param) = param == ""
lacks_symbol AppKind.vault param = false
lacks_symbol AppKind.faucet param = false
lacks_symbol AppKind.profile param = false
lacks_symbol AppKind.leaderboard param = false

abbrev pub name_of : Option AppKind → Option String → Option WindowName
name_of none param = none
name_of (some kind) param =
    if lacks_symbol kind param then none else some (record { kind = kind; param = param })

unfoldable pub parse_window_id : String → Option WindowName
parse_window_id id = let parts = cut (code colon) id in name_of (kind_of parts.0) parts.1

pub record WindowFlags : Type 0 where
  pub minimized : Bool
  pub maximized : Bool

pub record Desktop : Type 0 where
  pub w : Option String
  pub flags : Dict WindowFlags

abbrev pub is_known : String → Bool
is_known id = elim (parse_window_id id) [ none ↦ false | some name ↦ true ]

-- `filter`
unfoldable pub keep_known : List String → List String
keep_known [] = []
keep_known (id ∷ ids) = let rest = keep_known ids in if is_known id then id ∷ rest else rest

unfoldable pub ids_of : Option String → List String
ids_of none = []
ids_of (some w) = if w == "" then [] else keep_known (split (code comma) w)

abbrev pub ids : Desktop → List String
ids s = ids_of s.w

-- `next.length > 0 ? next.join(",") : undefined`
unfoldable pub search_of : List String → Option String
search_of [] = none
search_of (id ∷ rest) = some (join comma (id ∷ rest))

unfoldable pub set_ids : List String → Desktop → Desktop
set_ids next s = record s { w = search_of next }

abbrev pub flags_of : Option WindowFlags → WindowFlags
flags_of none = record { minimized = false; maximized = false }
flags_of (some f) = f

-- `setFlag(id, { minimized })`
unfoldable pub set_minimized : String → Bool → Desktop → Desktop
set_minimized id minimized s = record s {
  flags = set s.flags id (record (flags_of (get s.flags id)) { minimized = minimized });
}

unfoldable pub includes : List String → String → Bool
includes [] id = false
includes (x ∷ xs) id = let rest = includes xs id in if x == id then true else rest

-- `filter((x) => x !== id)`
unfoldable pub without : List String → String → List String
without [] id = []
without (x ∷ xs) id = let rest = without xs id in if x == id then rest else x ∷ rest

-- `ids[ids.length - 1]`
unfoldable pub last_id : List String → Option String
last_id [] = none
last_id (x ∷ []) = some x
last_id (x ∷ second ∷ xs) = last_id (second ∷ xs)

abbrev pub is_at : Option String → String → Bool
is_at none id = false
is_at (some x) id = x == id

abbrev pub raise : String → Desktop → Desktop
raise id s = if is_at (last_id (ids s)) id then s else set_ids (without (ids s) id ++ id ∷ []) s

unfoldable pub focus : String → Desktop → Desktop
focus id s = if includes (ids s) id then raise id (set_minimized id false s) else s

unfoldable pub open_window : AppKind → Option String → Desktop → Desktop
open_window kind param s =
    let id = window_id kind param in
    if includes (ids s) id
    then focus id s
    else set_ids (ids s ++ id ∷ []) (set_minimized id false s)

unfoldable pub close : String → Desktop → Desktop
close id s = record (set_ids (without (ids s) id) s) { flags = delete s.flags id }

unfoldable pub minimize : String → Desktop → Desktop
minimize id s = set_minimized id true s

unfoldable pub toggle_maximize : String → Desktop → Desktop
toggle_maximize id s =
    let f = flags_of (get s.flags id) in
    focus id (record s { flags = set s.flags id (record f { maximized = not f.maximized }) })

-- The window's `minimized`, and the topmost window that is not minimized.
abbrev pub is_minimized : Desktop → String → Bool
is_minimized s id = (flags_of (get s.flags id)).minimized

unfoldable pub topmost : Desktop → List String → Option String
topmost s [] = none
topmost s (id ∷ rest) = elim (topmost s rest) [
  | some above ↦ some above
  | none ↦ if is_minimized s id then none else some id
]

unfoldable pub focused_id : Desktop → Option String
focused_id s = topmost s (ids s)

unfoldable pub taskbar_activate : String → Desktop → Desktop
taskbar_activate id s =
    if includes (ids s) id
    then (if is_minimized s id
        then focus id s
        else if is_at (focused_id s) id
        then minimize id s
        else focus id s)
    else s
