-- ===== src/Keeper/Serializer.antt =====
-- packages/keeper/src/serializer.ts: the chain of promises that runs the keeper's submissions one
-- after another. The chain is the list of its links, the latest call first.
pub mod Order
pub mod Drains
use stellars_finance_contrac.Base.{Bool, List, [], ◌∷◌, ◌++◌}

-- A promise of `chain.then(action)`: its action has not begun, has begun, or has ended.
pub data Status : Type 0 where
  waiting begun fulfilled rejected : Status

-- How an action ends.
abbrev pub end_of : Bool → Status
end_of Bool.true = Status.fulfilled
end_of Bool.false = Status.rejected

abbrev pub IsSettled : Status → Type 0
IsSettled Status.waiting = ⊥
IsSettled Status.begun = ⊥
IsSettled Status.fulfilled = Unit
IsSettled Status.rejected = Unit

abbrev pub Links : Type 0 → Type 0
Links A = List (A × Status)

module _ {A : Type 0} where
  -- `chain`, the latest link's promise with its error caught, has a value; `Promise.resolve()` has
  -- one from the start.
  abbrev pub IsResolved : Links A → Type 0
  IsResolved [] = Unit
  IsResolved (link ∷ links) = IsSettled link.1

  -- What the runtime does next: the action of a link begins once the chain before it has a value, or
  -- an action that has begun ends.
  pub data Turn : Links A → Links A → Type 0 where
    begins :
        (newer older : Links A) (action : A)
        → IsResolved older
        → Turn (newer ++ (action, Status.waiting) ∷ older) (newer ++ (action, Status.begun) ∷ older)
    ends :
        (newer older : Links A) (action : A) (ok : Bool)
        → Turn (newer ++ (action, Status.begun) ∷ older) (newer ++ (action, end_of ok) ∷ older)

  -- A call of the serializer puts a link on the chain; any turn can come between two calls.
  pub data Reaches : Links A → Type 0 where
    created : Reaches []
    called :
        (action : A) (links : Links A) → Reaches links → Reaches ((action, Status.waiting) ∷ links)
    turned : (links after : Links A) → Reaches links → Turn links after → Reaches after
