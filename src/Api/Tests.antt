-- ===== src/Api/Tests.antt =====
-- The queue's theorems at a queue that is full.
use stellars_finance_contrac.Base.{ℕ, false, [], ◌∷◌, inl, inr, refl, arith}
use stellars_finance_contrac.Api.Stream.{Queue}
use stellars_finance_contrac.Api.Stream.Backlog.{
  Call, perform, IsSound, accepted, InOrder, perform-InOrder,
}

abbrev full_queue : Queue ℕ
full_queue = record { buf = 1 ∷ 2 ∷ []; waiters = []; closed = false; dropped = 0 }

full_queue-IsSound : IsSound 2 full_queue
full_queue-IsSound = record { bounded = omega arith; fed = inr refl; released = inl refl }

perform-InOrder_example :
    InOrder 2
      (accepted 2 (Call.push_call 3) full_queue)
      full_queue
      (perform 2 (Call.push_call 3) full_queue)
perform-InOrder_example =
    perform-InOrder 2 (Call.push_call 3) full_queue (omega arith) full_queue-IsSound
