-- ===== src/Keeper/Serializer/Drains.antt =====
-- packages/keeper/src/serializer.ts: how the calls are served.
use stellars_finance_contrac.Base.{
  ℕ, suc, ◌+◌, ◌≡◌, refl, ◌⊎◌, inl, inr, Bool, true, false, [], ◌∷◌, ◌++◌, arith,
}
use stellars_finance_contrac.Keeper.Serializer.{Status, end_of, Links, IsResolved, Turn, Reaches}
use stellars_finance_contrac.Keeper.Serializer.Order.{
  AllSettled, IsSerial, turn-IsSerial, Reaches-IsSerial,
}

-- The turns that a link still needs.
abbrev pub turns_of : Status → ℕ
turns_of Status.waiting = 2
turns_of Status.begun = 1
turns_of Status.fulfilled = 0
turns_of Status.rejected = 0

turns_of-end_of : (ok : Bool) → turns_of (end_of ok) ≡ 0
turns_of-end_of true = refl
turns_of-end_of false = refl

module _ {A : Type 0} where
  abbrev pub turns_left : Links A → ℕ
  turns_left [] = 0
  turns_left (link ∷ links) = turns_of link.1 + turns_left links

  -- A sequence of turns without a call.
  pub data Turns : ℕ → Links A → Links A → Type 0 where
    none_left : (links : Links A) → Turns 0 links links
    one_more :
        (n : ℕ) (links after last : Links A)
        → Turn links after
        → Turns n after last
        → Turns (suc n) links last

  turns_left-append :
      (newer older : Links A) (action : A) (status : Status)
      → turns_left (newer ++ (action, status) ∷ older)
        ≡ turns_left newer + (turns_of status + turns_left older)
  turns_left-append [] older action status = omega arith
  turns_left-append (link ∷ newer) older action status =
      omega (arith, turns_left-append newer older action status)

  turn-turns_left :
      (links after : Links A) → Turn links after → turns_left links ≡ suc (turns_left after)
  turn-turns_left _ _ (Turn.begins newer older action h) = omega (
    arith,
    turns_left-append newer older action Status.waiting,
    turns_left-append newer older action Status.begun,
  )
  turn-turns_left _ _ (Turn.ends newer older action ok) = omega (
    arith,
    turns_left-append newer older action Status.begun,
    turns_left-append newer older action (end_of ok),
    turns_of-end_of ok,
  )

  AllSettled-IsResolved : (links : Links A) → AllSettled links → IsResolved links
  AllSettled-IsResolved [] h = tt
  AllSettled-IsResolved (link ∷ links) h = h.0

  push_turn :
      (a : A) (links after : Links A)
      → Turn links after
      → Turn ((a, Status.waiting) ∷ links) ((a, Status.waiting) ∷ after)
  push_turn a _ _ (Turn.begins newer older action h) =
      Turn.begins ((a, Status.waiting) ∷ newer) older action h
  push_turn a _ _ (Turn.ends newer older action ok) =
      Turn.ends ((a, Status.waiting) ∷ newer) older action ok

  -- A turn is possible, or all has ended.
  next_turn :
      (links : Links A) → IsSerial links → AllSettled links ⊎ ((after : Links A) × Turn links after)
  next_turn [] s = inl tt
  next_turn ((a, Status.fulfilled) ∷ links) s = inl (tt, s)
  next_turn ((a, Status.rejected) ∷ links) s = inl (tt, s)
  next_turn ((a, Status.begun) ∷ links) s = inr (_, Turn.ends [] links a true)
  next_turn ((a, Status.waiting) ∷ links) s = elim (next_turn links s) [
    | inl all ↦ inr (_, Turn.begins [] links a (AllSettled-IsResolved links all))
    | inr (after, turn) ↦ inr (_, push_turn a links after turn)
  ]

  Turns-turns_left :
      (n : ℕ) (links last : Links A) → Turns n links last → n + turns_left last ≡ turns_left links
  Turns-turns_left _ _ _ (Turns.none_left links) = omega arith
  Turns-turns_left _ _ _ (Turns.one_more n links after last turn turns) =
      omega (arith, turn-turns_left links after turn, Turns-turns_left n after last turns)

  Turns-IsSerial :
      (n : ℕ) (links last : Links A) → Turns n links last → IsSerial links → IsSerial last
  Turns-IsSerial _ _ _ (Turns.none_left links) s = s
  Turns-IsSerial _ _ _ (Turns.one_more n links after last turn turns) s =
      Turns-IsSerial n after last turns (turn-IsSerial links after turn s)

  -- When no further call comes, each turn brings a reachable chain one nearer to its end, two turns
  -- for each call that waits and one for the action under way, and a turn is possible until every
  -- action has ended; an error holds nothing up.
  pub served :
      (n : ℕ) (links last : Links A)
      → Reaches links
      → Turns n links last
      → (n + turns_left last ≡ turns_left links)
        × (AllSettled last ⊎ ((after : Links A) × Turn last after))
  served n links last r turns = (
    Turns-turns_left n links last turns,
    next_turn last (Turns-IsSerial n links last turns (Reaches-IsSerial links r)),
  )
