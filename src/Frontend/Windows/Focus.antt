-- ===== src/Frontend/Windows/Focus.antt =====
-- packages/frontend/src/desktop/wm.tsx: which window has the focus after a call.
use Prim.Native.String.{String, [], ◌∷◌}
use stellars_finance_contrac.Base.{
  ◌≡◌, ◌≢◌, refl, ap, subst, ◌∙◌, Bool, true, false, inl, inr, Bool-cases, Option, none, some, List,
  if◌then◌else◌, All,
}
use stellars_finance_contrac.Base.Dict.{get}
use stellars_finance_contrac.Frontend.Windows.{
  AppKind, kind_text, window_id, Desktop, is_known, keep_known, ids_of, ids, search_of, set_ids,
  flags_of, set_minimized, includes, without, last_id, is_at, raise, focus, open_window, minimize,
  is_minimized, focused_id, taskbar_activate,
}
use stellars_finance_contrac.Frontend.Windows.Order.{All-without, All-snoc, included}
use stellars_finance_contrac.Frontend.Windows.Ids.{IsId, ids_of-IsId, All-Lacks, ids_of-search_of}
use mathlib.Core.Option.{some-injective, none-ne-some}
use mathlib.Core.List.{[], ◌∷◌, ◌++◌}
use text.Mathlib.Text.{◌==◌}
use text.Mathlib.TextEquality.{eq_iff}
use native.Mathlib.Omega.{arith}
use stellars_finance_contrac.Frontend.Windows.Calls.{HasNoComma, window_id-Lacks}
use stellars_finance_contrac.Frontend.Windows.Ids.{parse_window_id-window_id}
use stellars_finance_contrac.Base.Dict.{get-set}
use stellars_finance_contrac.Frontend.Windows.{WindowName, parse_window_id, lacks_symbol, topmost}

last_id-snoc : (xs : List String) (id : String) → last_id (xs ++ id ∷ []) ≡ some id
unfolding last_id
last_id-snoc [] id = refl
last_id-snoc (x ∷ []) id = refl
last_id-snoc (x ∷ second ∷ xs) id = last_id-snoc (second ∷ xs) id

-- The last window is the topmost one unless it is minimized.
topmost-last :
    (s : Desktop) (xs : List String) (id : String)
    → last_id xs ≡ some id
    → is_minimized s id ≡ false
    → topmost s xs ≡ some id
unfolding last_id topmost
topmost-last s [] id h m = absurd (ground arith)
topmost-last s (x ∷ []) id h m = rw (some-injective x id h, m) refl
topmost-last s (x ∷ second ∷ xs) id h m = rw (topmost-last s (second ∷ xs) id h m) refl

shown_some :
    (s : Desktop) (x id : String)
    → is_minimized s x ≡ false
    → (if is_minimized s x then none else some x) ≡ some id
    → some x ≡ some id
shown_some s x id e h = ground (arith, e, h)

hidden_none :
    (s : Desktop) (x id : String)
    → is_minimized s x ≡ true
    → (if is_minimized s x then none else some x) ≡ some id
    → ⊥
hidden_none s x id e h = ground (arith, e, h)

shown_step :
    (s : Desktop) (x id : String) (above : Option String)
    → (above ≡ some id → is_minimized s id ≡ false)
    → elim above [ some y ↦ some y | none ↦ if is_minimized s x then none else some x ] ≡ some id
    → is_minimized s id ≡ false
shown_step s x id (some y) later h = later h
shown_step s x id none later h = elim (Bool-cases (is_minimized s x)) [
  | inl e ↦ absurd (hidden_none s x id e h)
  | inr e ↦ subst (λ y. is_minimized s y ≡ false) (some-injective x id (shown_some s x id e h)) e
]

topmost-shown :
    (s : Desktop) (xs : List String) (id : String)
    → topmost s xs ≡ some id
    → is_minimized s id ≡ false
unfolding topmost
topmost-shown s [] id h = absurd (ground arith)
topmost-shown s (x ∷ xs) id h = shown_step s x id (topmost s xs) (topmost-shown s xs id) h

set_minimized-shown :
    (id : String) (minimized : Bool) (s : Desktop)
    → is_minimized (set_minimized id minimized s) id ≡ minimized
unfolding set_minimized
set_minimized-shown id minimized s = ground (
  arith,
  eq_iff id id,
  get-set s.flags id id (record (flags_of (get s.flags id)) { minimized = minimized }),
)

keep_known-snoc :
    (xs : List String) (id : String)
    → All IsId xs
    → is_known id ≡ true
    → keep_known (xs ++ id ∷ []) ≡ xs ++ id ∷ []
unfolding keep_known
keep_known-snoc [] id h k = rw k refl
keep_known-snoc (x ∷ xs) id h k = rw h.0.0 (ap (λ ys. x ∷ ys) (keep_known-snoc xs id h.1 k))

-- A window that is put last and shown has the focus.
focused-last :
    (xs : List String) (id : String) (s : Desktop)
    → All IsId xs
    → IsId id
    → is_minimized s id ≡ false
    → focused_id (set_ids (xs ++ id ∷ []) s) ≡ some id
unfolding focused_id set_ids
focused-last xs id s h k m =
    topmost-last _ (ids_of (search_of (xs ++ id ∷ []))) id
      (ap last_id (
          ids_of-search_of (xs ++ id ∷ []) (All-Lacks (xs ++ id ∷ []) (All-snoc IsId xs id h k))
          ∙ keep_known-snoc xs id h k.0)
        ∙ last_id-snoc xs id)
      m

is_at-eq : (o : Option String) (id : String) → is_at o id ≡ true → o ≡ some id
is_at-eq none id h = absurd (ground arith)
is_at-eq (some x) id h = ap (λ y. some y) ((eq_iff x id).0 h)

at-is_at : (o : Option String) (id : String) → o ≡ some id → is_at o id ≡ true
at-is_at o id h = rw h ((eq_iff id id).1 refl)

apart-is_at : (o : Option String) (id : String) → o ≢ some id → is_at o id ≡ false
apart-is_at o id h = elim (Bool-cases (is_at o id)) [
  | inl e ↦ absurd (h (is_at-eq o id e))
  | inr e ↦ e
]

some-is_known :
    (id : String) (name : WindowName) → parse_window_id id ≡ some name → is_known id ≡ true
some-is_known id name h = rw (is_known, h) refl

symbol_of_empty :
    (kind : AppKind) (param : String)
    → lacks_symbol kind (some param) ≡ false
    → (param == "") ≡ true
    → lacks_symbol kind none ≡ false
unfolding lacks_symbol
symbol_of_empty AppKind.trade param h e = ground (arith, h, e)
symbol_of_empty AppKind.vault param h e = refl
symbol_of_empty AppKind.faucet param h e = refl
symbol_of_empty AppKind.profile param h e = refl
symbol_of_empty AppKind.leaderboard param h e = refl

kind_text-known :
    (kind : AppKind) → lacks_symbol kind none ≡ false → is_known (kind_text kind) ≡ true
unfolding window_id
kind_text-known kind h =
    some-is_known (window_id kind none) _ (parse_window_id-window_id kind none h (none-ne-some ""))

window_id-known :
    (kind : AppKind) (param : Option String)
    → lacks_symbol kind param ≡ false
    → is_known (window_id kind param) ≡ true
unfolding window_id
window_id-known kind none h = kind_text-known kind h
window_id-known kind (some param) h = elim (Bool-cases (param == "")) [
  | inl e ↦ rw e (kind_text-known kind (symbol_of_empty kind param h e))
  | inr e ↦ some-is_known (window_id kind (some param)) _ (
      parse_window_id-window_id kind (some param) h
        (λ same. ground (arith, eq_iff param "", some-injective param "" same, e)))
]

raise-focused :
    (id : String) (s : Desktop)
    → IsId id
    → is_minimized s id ≡ false
    → focused_id (raise id s) ≡ some id
unfolding focused_id
raise-focused id s k m = elim (Bool-cases (is_at (last_id (ids s)) id)) [
  | inl e ↦ rw e (topmost-last s (ids s) id (is_at-eq (last_id (ids s)) id e) m)
  | inr e ↦
      rw e
        (focused-last (without (ids s) id) id s (All-without IsId (ids s) id (ids_of-IsId s.w)) k m)
]

focus-focused_id :
    (id : String) (s : Desktop) → includes (ids s) id ≡ true → focused_id (focus id s) ≡ some id
unfolding focus
focus-focused_id id s h = rw h (
    raise-focused id (set_minimized id false s) (included IsId (ids s) id h (ids_of-IsId s.w))
      (set_minimized-shown id false s))

-- A window that is opened, with a symbol if it is a trade window and without a comma in its
-- parameter, has the focus, whether it was on the desktop before or not.
pub open_window-focused_id :
    (kind : AppKind) (param : Option String) (s : Desktop)
    → lacks_symbol kind param ≡ false
    → HasNoComma param
    → focused_id (open_window kind param s) ≡ some (window_id kind param)
unfolding open_window
open_window-focused_id kind param s has plain =
    let id = window_id kind param in
    elim (Bool-cases (includes (ids s) id)) [
      | inl e ↦ rw e (focus-focused_id id s e)
      | inr e ↦ rw e (
          focused-last (ids s) id (set_minimized id false s) (ids_of-IsId s.w)
            (window_id-known kind param has, window_id-Lacks kind param plain)
            (set_minimized-shown id false s))
    ]

-- The taskbar button of an open window minimizes it if it has the focus, and else gives it the focus.
pub taskbar_activate-cases :
    (id : String) (s : Desktop)
    → includes (ids s) id ≡ true
    → (focused_id s ≡ some id → is_minimized (taskbar_activate id s) id ≡ true)
      × (focused_id s ≢ some id → focused_id (taskbar_activate id s) ≡ some id)
unfolding taskbar_activate minimize focused_id
taskbar_activate-cases id s h = (
  λ f.
      rw (h, topmost-shown s (ids s) id f, at-is_at (focused_id s) id f)
        (set_minimized-shown id true s),
  λ n. elim (Bool-cases (is_minimized s id)) [
    | inl e ↦ rw (h, e) (focus-focused_id id s h)
    | inr e ↦ rw (h, e, apart-is_at (focused_id s) id n) (focus-focused_id id s h)
  ],
)
