-- ===== src/Frontend/Windows/Calls.antt =====
-- packages/frontend/src/desktop/wm.tsx: the calls and the list of windows.
use Prim.Native.Char.{code}
use Prim.Native.String
use Prim.Native.String.{String, [], ◌∷◌}
use stellars_finance_contrac.Base.{
  ℕ, sym, subst, inl, inr, Bool-cases, Option, none, some, List, All, IsUnique,
}
use stellars_finance_contrac.Frontend.Split.{Lacks}
use stellars_finance_contrac.Frontend.Windows.{
  AppKind, kind_text, comma, window_id, Desktop, ids, set_ids, set_minimized, includes, without,
  last_id, is_at, focus, open_window, close, minimize, toggle_maximize, taskbar_activate,
}
use stellars_finance_contrac.Frontend.Windows.Order.{
  All-without, All-snoc, without_gone, excluded, keep_known-IsUnique, without-IsUnique,
  snoc-IsUnique, included,
}
use stellars_finance_contrac.Frontend.Windows.Ids.{ids_of-IsId, All-Lacks, ids_of-search_of}
use mathlib.Core.List.{[], ◌∷◌, ◌++◌}
use text.Mathlib.Text.{◌==◌}
use text.Mathlib.TextLemmas.{nil-append, cons-append}
use native.Mathlib.Omega.{arith}

-- A call of the window manager.
pub data Call : Type 0 where
  focuses closes minimizes toggles activates : String → Call
  opens : AppKind → Option String → Call

unfoldable pub perform : Call → Desktop → Desktop
perform (Call.focuses id) s = focus id s
perform (Call.closes id) s = close id s
perform (Call.minimizes id) s = minimize id s
perform (Call.toggles id) s = toggle_maximize id s
perform (Call.activates id) s = taskbar_activate id s
perform (Call.opens kind param) s = open_window kind param s

-- The parameter of a window has no comma, which parts the ids in the URL.
abbrev pub HasNoComma : Option String → Type 0
HasNoComma none = Unit
HasNoComma (some param) = Lacks (code comma) param

abbrev pub IsPlain : Call → Type 0
IsPlain (Call.opens kind param) = HasNoComma param
IsPlain (Call.focuses id) = Unit
IsPlain (Call.closes id) = Unit
IsPlain (Call.minimizes id) = Unit
IsPlain (Call.toggles id) = Unit
IsPlain (Call.activates id) = Unit

append-Lacks : (sep : ℕ) (s t : String) → Lacks sep s → Lacks sep t → Lacks sep (String.◌++◌ s t)
append-Lacks sep [] t h k = rw nil-append k
append-Lacks sep (c ∷ s) t h k = rw cons-append (h.0, append-Lacks sep s t h.1 k)

kind_text-Lacks : (kind : AppKind) → Lacks (code comma) (kind_text kind)
unfolding kind_text
kind_text-Lacks AppKind.trade = ground arith
kind_text-Lacks AppKind.vault = ground arith
kind_text-Lacks AppKind.faucet = ground arith
kind_text-Lacks AppKind.profile = ground arith
kind_text-Lacks AppKind.leaderboard = ground arith

pub window_id-Lacks :
    (kind : AppKind) (param : Option String)
    → HasNoComma param
    → Lacks (code comma) (window_id kind param)
unfolding window_id
window_id-Lacks kind none h = kind_text-Lacks kind
window_id-Lacks kind (some param) h = elim (Bool-cases (param == "")) [
  | inl e ↦ rw e (kind_text-Lacks kind)
  | inr e ↦
      rw e (append-Lacks (code comma) (kind_text kind) _ (kind_text-Lacks kind) (ground arith, h))
]

pub ids-Lacks : (s : Desktop) → All (Lacks (code comma)) (ids s)
ids-Lacks s = All-Lacks (ids s) (ids_of-IsId s.w)

-- The ids after they are written are those written, less what is no id.
set_ids-IsUnique :
    (next : List String) (s : Desktop)
    → All (Lacks (code comma)) next
    → IsUnique next
    → IsUnique (ids (set_ids next s))
unfolding set_ids
set_ids-IsUnique next s h unique =
    subst IsUnique (sym (ids_of-search_of next h)) (keep_known-IsUnique next unique)

focus-IsUnique : (id : String) (s : Desktop) → IsUnique (ids s) → IsUnique (ids (focus id s))
unfolding focus set_minimized
focus-IsUnique id s h = elim (Bool-cases (includes (ids s) id)) [
  | inl e ↦ rw e (elim (Bool-cases (is_at (last_id (ids s)) id)) [
    | inl top ↦ rw top h
    | inr under ↦ rw under (
        set_ids-IsUnique (without (ids s) id ++ id ∷ []) _
          (All-snoc _ (without (ids s) id) id (All-without _ (ids s) id (ids-Lacks s))
            (included (Lacks (code comma)) (ids s) id e (ids-Lacks s)))
          (snoc-IsUnique (without (ids s) id) id (without-IsUnique (ids s) id h)
            (without_gone (ids s) id)))
  ])
  | inr e ↦ rw e h
]

open_window-IsUnique :
    (kind : AppKind) (param : Option String) (s : Desktop)
    → HasNoComma param
    → IsUnique (ids s)
    → IsUnique (ids (open_window kind param s))
unfolding open_window set_minimized
open_window-IsUnique kind param s plain h =
    let id = window_id kind param in
    elim (Bool-cases (includes (ids s) id)) [
      | inl e ↦ rw e (focus-IsUnique id s h)
      | inr e ↦ rw e (
          set_ids-IsUnique (ids s ++ id ∷ []) _
            (All-snoc _ (ids s) id (ids-Lacks s) (window_id-Lacks kind param plain))
            (snoc-IsUnique (ids s) id h (excluded (ids s) id e)))
    ]

close-IsUnique : (id : String) (s : Desktop) → IsUnique (ids s) → IsUnique (ids (close id s))
unfolding close
close-IsUnique id s h =
    set_ids-IsUnique (without (ids s) id) s (All-without _ (ids s) id (ids-Lacks s))
      (without-IsUnique (ids s) id h)

taskbar_activate-IsUnique :
    (id : String) (s : Desktop) → IsUnique (ids s) → IsUnique (ids (taskbar_activate id s))
unfolding taskbar_activate minimize set_minimized
taskbar_activate-IsUnique id s h = ground (arith, focus-IsUnique id s h)

-- If no window is on the desktop twice, then none is after any call, the parameter of a window that
-- is opened having no comma.
pub perform-IsUnique :
    (call : Call) (s : Desktop) → IsPlain call → IsUnique (ids s) → IsUnique (ids (perform call s))
unfolding perform minimize set_minimized toggle_maximize
perform-IsUnique (Call.focuses id) s plain h = focus-IsUnique id s h
perform-IsUnique (Call.closes id) s plain h = close-IsUnique id s h
perform-IsUnique (Call.minimizes id) s plain h = h
perform-IsUnique (Call.toggles id) s plain h = focus-IsUnique id _ h
perform-IsUnique (Call.activates id) s plain h = taskbar_activate-IsUnique id s h
perform-IsUnique (Call.opens kind param) s plain h = open_window-IsUnique kind param s plain h
