-- ===== src/Keeper/Serializer/Order.antt =====
-- packages/keeper/src/serializer.ts: the order of the actions.
use stellars_finance_contrac.Base.{Bool, true, false, [], ◌∷◌, ◌++◌}
use stellars_finance_contrac.Keeper.Serializer.{
  Status, end_of, IsSettled, Links, IsResolved, Turn, Reaches,
}

module _ {A : Type 0} where
  abbrev pub AllSettled : Links A → Type 0
  AllSettled [] = Unit
  AllSettled (link ∷ links) = IsSettled link.1 × AllSettled links

  -- Below calls that wait there is at most one action that has begun, and below it all have ended.
  abbrev pub IsSerial : Links A → Type 0
  IsSerial [] = Unit
  IsSerial ((action, Status.waiting) ∷ links) = IsSerial links
  IsSerial ((action, Status.begun) ∷ links) = AllSettled links
  IsSerial ((action, Status.fulfilled) ∷ links) = AllSettled links
  IsSerial ((action, Status.rejected) ∷ links) = AllSettled links

  not_settled :
      (newer older : Links A) (action : A) (status : Status)
      → (IsSettled status → ⊥)
      → AllSettled (newer ++ (action, status) ∷ older)
      → ⊥
  not_settled [] older action status h all = h all.0
  not_settled (link ∷ newer) older action status h all =
      not_settled newer older action status h all.1

  resolved-AllSettled : (links : Links A) → IsResolved links → IsSerial links → AllSettled links
  resolved-AllSettled [] h s = tt
  resolved-AllSettled ((action, Status.waiting) ∷ links) h s = absurd h
  resolved-AllSettled ((action, Status.begun) ∷ links) h s = absurd h
  resolved-AllSettled ((action, Status.fulfilled) ∷ links) h s = (tt, s)
  resolved-AllSettled ((action, Status.rejected) ∷ links) h s = (tt, s)

  begins-IsSerial :
      (newer older : Links A) (action : A)
      → IsResolved older
      → IsSerial (newer ++ (action, Status.waiting) ∷ older)
      → IsSerial (newer ++ (action, Status.begun) ∷ older)
  begins-IsSerial [] older action h s = resolved-AllSettled older h s
  begins-IsSerial ((b, Status.waiting) ∷ newer) older action h s =
      begins-IsSerial newer older action h s
  begins-IsSerial ((b, Status.begun) ∷ newer) older action h s =
      absurd (not_settled newer older action Status.waiting (λ n. n) s)
  begins-IsSerial ((b, Status.fulfilled) ∷ newer) older action h s =
      absurd (not_settled newer older action Status.waiting (λ n. n) s)
  begins-IsSerial ((b, Status.rejected) ∷ newer) older action h s =
      absurd (not_settled newer older action Status.waiting (λ n. n) s)

  ended-IsSerial :
      (older : Links A) (action : A) (ok : Bool)
      → AllSettled older
      → IsSerial ((action, end_of ok) ∷ older)
  ended-IsSerial older action true s = s
  ended-IsSerial older action false s = s

  ends-IsSerial :
      (newer older : Links A) (action : A) (ok : Bool)
      → IsSerial (newer ++ (action, Status.begun) ∷ older)
      → IsSerial (newer ++ (action, end_of ok) ∷ older)
  ends-IsSerial [] older action ok s = ended-IsSerial older action ok s
  ends-IsSerial ((b, Status.waiting) ∷ newer) older action ok s =
      ends-IsSerial newer older action ok s
  ends-IsSerial ((b, Status.begun) ∷ newer) older action ok s =
      absurd (not_settled newer older action Status.begun (λ n. n) s)
  ends-IsSerial ((b, Status.fulfilled) ∷ newer) older action ok s =
      absurd (not_settled newer older action Status.begun (λ n. n) s)
  ends-IsSerial ((b, Status.rejected) ∷ newer) older action ok s =
      absurd (not_settled newer older action Status.begun (λ n. n) s)

  pub turn-IsSerial : (links after : Links A) → Turn links after → IsSerial links → IsSerial after
  turn-IsSerial _ _ (Turn.begins newer older action h) s = begins-IsSerial newer older action h s
  turn-IsSerial _ _ (Turn.ends newer older action ok) s = ends-IsSerial newer older action ok s

  -- Whatever calls and turns come, at most one action is under way; every call before it has ended,
  -- with or without an error, and no call after it has begun.
  pub Reaches-IsSerial : (links : Links A) → Reaches links → IsSerial links
  Reaches-IsSerial _ Reaches.created = tt
  Reaches-IsSerial _ (Reaches.called action links r) = Reaches-IsSerial links r
  Reaches-IsSerial _ (Reaches.turned links after r turn) =
      turn-IsSerial links after turn (Reaches-IsSerial links r)
