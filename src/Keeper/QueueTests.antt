-- ===== src/Keeper/QueueTests.antt =====
-- The serializer's theorems at a short chain.
use stellars_finance_contrac.Base.{ℕ, ◌+◌, ◌≡◌, ◌⊎◌, false, [], ◌∷◌}
use stellars_finance_contrac.Keeper.Serializer.{Status, Links, Turn, Reaches}
use stellars_finance_contrac.Keeper.Serializer.Order.{AllSettled, IsSerial, Reaches-IsSerial}
use stellars_finance_contrac.Keeper.Serializer.Drains.{turns_left, Turns, served}

-- Two calls; the first action begins.
abbrev called_twice : Links ℕ
called_twice = (2, Status.waiting) ∷ (1, Status.waiting) ∷ []

abbrev first_begun : Links ℕ
first_begun = (2, Status.waiting) ∷ (1, Status.begun) ∷ []

abbrev first_rejected : Links ℕ
first_rejected = (2, Status.waiting) ∷ (1, Status.rejected) ∷ []

reached : Reaches first_begun
reached =
    Reaches.turned called_twice first_begun
      (Reaches.called 2 _ (Reaches.called 1 [] Reaches.created))
      (Turn.begins ((2, Status.waiting) ∷ []) [] 1 tt)

Reaches-IsSerial_example : IsSerial first_begun
Reaches-IsSerial_example = Reaches-IsSerial first_begun reached

served_example :
    (1 + turns_left first_rejected ≡ turns_left first_begun)
    × (AllSettled first_rejected ⊎ ((after : Links ℕ) × Turn first_rejected after))
served_example = served 1 first_begun first_rejected reached (
    Turns.one_more 0 first_begun first_rejected first_rejected
      (Turn.ends ((2, Status.waiting) ∷ []) [] 1 false) (Turns.none_left first_rejected))
