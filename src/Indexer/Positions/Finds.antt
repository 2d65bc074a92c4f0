-- ===== src/Indexer/Positions/Finds.antt =====
-- packages/indexer/src/handlers/position-manager.ts: what each query of the table does to the entry
-- of one trader and symbol.
use stellars_finance_contrac.Base.{
  Bool, true, false, Option, none, some, List, ◌∷◌, if◌then◌else◌, ◌≡◌, refl, sym, ap, ◌∙◌, arith,
  inl, inr, Bool-cases,
}
use stellars_finance_contrac.Base.Int.{ℤ, pos}
use stellars_finance_contrac.Indexer.Event.{ParsedEvent}
use stellars_finance_contrac.Indexer.Positions.{
  IncreasePositionData, DecreasePositionData, PositionManagerEvent, Position,
}
use stellars_finance_contrac.Indexer.Positions.Rows.{
  exists_at, update_at, delete_at, or_else, inserted_position, increased_position,
  decreased_position, updated_positions, increased_positions,
}
use stellars_finance_contrac.Indexer.Positions.Table.{
  find_at, KeepsKey, same_key, map_option, is_some, find_at-update_at, find_at-delete_at,
  exists_at-find_at,
}
use stellars_finance_contrac.Indexer.Positions.Effects.{Holds, Holds-if}
use Prim.Native.String.{String}
use text.Mathlib.TextEquality.{eq_iff}
use stellars_finance_contrac.Indexer.Positions.Entry.{entry_increased}

-- Equal keys find the same row.
exists_at-same_key :
    (a b trader symbol : String) (ps : List Position)
    → same_key a b trader symbol ≡ true
    → exists_at a b ps ≡ is_some (find_at trader symbol ps)
exists_at-same_key a b trader symbol ps k =
    exists_at-find_at a b ps ∙ ap is_some (ground (arith, eq_iff a trader, eq_iff b symbol))

none_of_is_some : (entry : Option Position) → is_some entry ≡ false → entry ≡ none
none_of_is_some none e = refl
none_of_is_some (some p) e = cc

absent :
    (a b trader symbol : String) (ps : List Position)
    → same_key a b trader symbol ≡ true
    → exists_at a b ps ≡ false
    → find_at trader symbol ps ≡ none
absent a b trader symbol ps k e =
    none_of_is_some (find_at trader symbol ps) (sym (exists_at-same_key a b trader symbol ps k) ∙ e)

Holds-map :
    {A : Type 0} (P Q : A → Type 0) (r : Option A) → ((a : A) → P a → Q a) → Holds P r → Holds Q r
Holds-map P Q none f h = tt
Holds-map P Q (some a) f h = f a h

pub keeps :
    {f : Position → Position}
    → ((p : Position) → (f p).trader ≡ p.trader)
    → ((p : Position) → (f p).symbol ≡ p.symbol)
    → KeepsKey f
keeps t s = record { trader = t; symbol = s }

module _ (event : ParsedEvent PositionManagerEvent) (trader symbol : String) where
  pub decreased-Finds :
      (d : DecreasePositionData) (b : Bool) (ps : List Position)
      → find_at trader symbol (
          if b
          then delete_at d.trader d.symbol ps
          else update_at d.trader d.symbol (decreased_position event d) ps)
        ≡ (if same_key d.trader d.symbol trader symbol
            then (if b
                then none
                else map_option (decreased_position event d) (find_at trader symbol ps))
            else find_at trader symbol ps)
  decreased-Finds d true ps = find_at-delete_at d.trader d.symbol trader symbol ps
  decreased-Finds d false ps =
      find_at-update_at d.trader d.symbol (decreased_position event d)
        (keeps (λ p. refl) (λ p. refl)) trader symbol ps

  inserted-Finds :
      (d : IncreasePositionData) (ps : List Position)
      → exists_at d.trader d.symbol ps ≡ false
      → find_at trader symbol (inserted_position event d ∷ ps) ≡ (
          if same_key d.trader d.symbol trader symbol
          then entry_increased event d (find_at trader symbol ps)
          else find_at trader symbol ps)
  unfolding find_at
  inserted-Finds d ps e = elim (Bool-cases (same_key d.trader d.symbol trader symbol)) [
    | inl k ↦ rw (k, absent d.trader d.symbol trader symbol ps k e) refl
    | inr k ↦ rw k refl
  ]

  updated-Finds :
      (d : IncreasePositionData) (borrow funding : Option ℤ) (ps : List Position)
      → exists_at d.trader d.symbol ps ≡ true
      → Holds
          (λ after. find_at trader symbol after ≡ (
            if same_key d.trader d.symbol trader symbol
            then map_option
                (increased_position event d (or_else borrow (pos 0)) (or_else funding (pos 0)))
                (find_at trader symbol ps)
            else find_at trader symbol ps))
          (updated_positions event d borrow funding ps)
  unfolding updated_positions
  updated-Finds d none funding ps e = tt
  updated-Finds d (some borrow) none ps e = tt
  updated-Finds d (some borrow) (some funding) ps e =
      find_at-update_at d.trader d.symbol (increased_position event d borrow funding)
        (keeps (λ p. refl) (λ p. refl)) trader symbol ps

  as_increase :
      (d : IncreasePositionData) (k : Bool) (entry : Option Position)
      → (k ≡ true → is_some entry ≡ true)
      → (if k
          then map_option
              (increased_position event d
                (or_else d.entry_borrow_index (pos 0))
                (or_else d.entry_funding_index (pos 0)))
              entry
          else entry)
        ≡ (if k then entry_increased event d entry else entry)
  as_increase d true none h = let e = h refl in cc
  as_increase d true (some p) h = refl
  as_increase d false entry h = refl

  -- The list of positions, and what its entry is to become.
  abbrev Becomes : IncreasePositionData → List Position → List Position → Type 0
  Becomes d ps after = find_at trader symbol after ≡ (
      if same_key d.trader d.symbol trader symbol
      then entry_increased event d (find_at trader symbol ps)
      else find_at trader symbol ps)

  pub increased_positions-Becomes :
      (d : IncreasePositionData) (ps : List Position)
      → Holds (Becomes d ps) (increased_positions event d ps)
  unfolding increased_positions
  increased_positions-Becomes d ps =
      Holds-if (Becomes d ps) (exists_at d.trader d.symbol ps) _ _
        (λ e.
          Holds-map _ (Becomes d ps)
            (updated_positions event d d.entry_borrow_index d.entry_funding_index ps)
            (λ after h.
              h
              ∙ as_increase d (same_key d.trader d.symbol trader symbol) (find_at trader symbol ps)
                  (λ k. sym (exists_at-same_key d.trader d.symbol trader symbol ps k) ∙ e))
            (updated-Finds d d.entry_borrow_index d.entry_funding_index ps e))
        (λ e. inserted-Finds d ps e)
