-- ===== src/Api/Broadcaster/Upkeep.antt =====
-- packages/api/src/broadcaster.ts: the invariant of a broadcaster under all its inputs.
use stellars_finance_contrac.Base.{refl, if_intro, List, [], ◌∷◌, arith}
use stellars_finance_contrac.Api.Broadcaster.{
  Broadcaster, created, has, notify, close, Input, perform, run,
}
use Prim.Native.String.{String}
use stellars_finance_contrac.Api.Broadcaster.Kept.{
  IsKept, created-IsKept, connect-IsKept, unsubscribe-IsKept,
}
use stellars_finance_contrac.Api.Broadcaster.Reconnects.{
  subscribe-IsKept, handle_disconnect-IsKept, fire-IsKept,
}

close-IsKept : (b : Broadcaster) → IsKept b → IsKept (close b)
unfolding close
close-IsKept b k =
    if_intro IsKept b.connected_flag
      (λ c. record {
        known = k.known;
        heard = λ n d. absurd (ground (arith, n));
        fresh = λ u. ((k.fresh u).0, refl, (k.fresh u).2);
        spent = λ d. absurd (ground (arith, d));
        calm = λ d. absurd (ground (arith, d));
        single = k.single;
        due = λ n d. absurd (ground (arith, n));
      })
      λ c. record {
        known = k.known;
        heard = λ n d. absurd (ground (arith, n));
        fresh = k.fresh;
        spent = k.spent;
        calm = k.calm;
        single = k.single;
        due = λ n d. absurd (ground (arith, n));
      }

notify-IsKept :
    (channel payload : String) (b : Broadcaster) → IsKept b → IsKept (notify channel payload b)
unfolding notify
notify-IsKept channel payload b k =
    if_intro IsKept (has b.client channel)
      (λ e. record {
        known = k.known;
        heard = k.heard;
        fresh = k.fresh;
        spent = k.spent;
        calm = k.calm;
        single = k.single;
        due = k.due;
      })
      λ e. k

pub perform-IsKept : (input : Input) (b : Broadcaster) → IsKept b → IsKept (perform input b)
unfolding perform
perform-IsKept (Input.connects ok) b k = connect-IsKept ok b k
perform-IsKept (Input.subscribes ok listens s) b k = subscribe-IsKept ok listens s b k
perform-IsKept (Input.unsubscribes s) b k = unsubscribe-IsKept s b k
perform-IsKept (Input.disconnects random) b k = handle_disconnect-IsKept random b k
perform-IsKept (Input.fires ok accepted random) b k =
    fire-IsKept ok accepted random b b.timers refl k
perform-IsKept (Input.notifies channel payload) b k = notify-IsKept channel payload b k
perform-IsKept Input.closes b k = close-IsKept b k

run-IsKept_from : (inputs : List Input) (b : Broadcaster) → IsKept b → IsKept (run inputs b)
unfolding run
run-IsKept_from [] b k = k
run-IsKept_from (input ∷ inputs) b k =
    run-IsKept_from inputs (perform input b) (perform-IsKept input b k)

-- Whatever happens to a new broadcaster: it listens to the channel of every subscription; while it is
-- connected and not shut down its client listens to all these channels and no reconnect is due; and
-- while it is neither connected nor shut down, exactly one reconnect is due or no subscription was
-- ever accepted.
pub run-IsKept : (inputs : List Input) → IsKept (run inputs created)
run-IsKept inputs = run-IsKept_from inputs created created-IsKept
