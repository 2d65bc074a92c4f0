-- ===== src/Api/ListenTests.antt =====
-- The broadcaster's theorems at a disconnection.
use stellars_finance_contrac.Base.{refl, true, false, List, [], ◌∷◌, ◌++◌, map, arith}
use mathlib.Core.List.{cons-ne-nil}
use stellars_finance_contrac.Api.Broadcaster.{
  Subscription, created, schedule_reconnect, handle_disconnect, connect, has, holds, add_subscriber,
  subscribe, Input, perform, run,
}
use stellars_finance_contrac.Api.Broadcaster.Upkeep.{run-IsKept}
use stellars_finance_contrac.Api.Broadcaster.Kept.{IsKept}
use stellars_finance_contrac.Api.Broadcaster.Resync.{Answer, fires_with, IsBack, run-IsBack}

abbrev prices : Subscription
prices = record { channel = "price_update"; subscriber = 1 }

abbrev subscribed : List Input
subscribed = Input.connects true ∷ Input.subscribes true true prices ∷ []

abbrev lost : List Input
lost = Input.connects true ∷ Input.subscribes true true prices ∷ Input.disconnects 0 ∷ []

run-IsKept_example : IsKept (run lost created)
run-IsKept_example = run-IsKept lost

-- One reconnect is refused, the next accepted.
abbrev refusal : Answer
refusal = record { ok = false; accepted = 0; random = 0 }

run-IsBack_example :
    IsBack
      ("price_update" ∷ [])
      (prices ∷ [])
      (run (map fires_with (refusal ∷ []) ++ Input.fires true 1 0 ∷ []) (run lost created))
unfolding run perform subscribe connect add_subscriber holds has handle_disconnect
    schedule_reconnect
run-IsBack_example =
    run-IsBack ("price_update" ∷ []) (prices ∷ []) (refusal ∷ []) 1 0 (run lost created)
      (run-IsKept lost) (cons-ne-nil "price_update" []) (refl, tt) (omega arith)
      (refl, refl, refl, refl)
