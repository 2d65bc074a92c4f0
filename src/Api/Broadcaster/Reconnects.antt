-- ===== src/Api/Broadcaster/Reconnects.antt =====
-- packages/api/src/broadcaster.ts: a client that is lost, and the reconnect that follows.
use stellars_finance_contrac.Base.{
  ℕ, suc, ◌≡◌, refl, sym, ap, ◌∙◌, inl, inr, Bool, true, false, ◌&&◌, not, Bool-cases, if_intro,
  List, [], ◌∷◌, length, leb, All, arith,
}
use stellars_finance_contrac.Api.Broadcaster.{
  Subscription, Broadcaster, Delivery, schedule_reconnect, handle_disconnect, connect, has,
  subscribe, reconnect, fire,
}
use mathlib.Core.List.{cons-ne-nil}
use stellars_finance_contrac.Api.Broadcaster.Kept.{IsKept, connect-IsKept, after_connect-IsKept}

-- A client that listens no more, of a broadcaster that is shut down or not connected.
silent-IsKept :
    (b : Broadcaster)
    → (b.shutting_down ≡ false → b.connected_flag ≡ true → ⊥)
    → IsKept b
    → IsKept (record b { client = [] })
silent-IsKept b apart k = record {
  known = k.known;
  heard = λ n c. absurd (apart n c);
  fresh = λ u. ((k.fresh u).0, refl, (k.fresh u).2);
  spent = k.spent;
  calm = k.calm;
  single = k.single;
  due = k.due;
}

pub subscribe-IsKept :
    (ok listens : Bool) (s : Subscription) (b : Broadcaster)
    → IsKept b
    → IsKept (subscribe ok listens s b)
unfolding subscribe
subscribe-IsKept ok listens s b k =
    after_connect-IsKept listens s (connect ok b) (connect-IsKept ok b k)

-- A reconnect that is scheduled with none due.
schedule_reconnect-IsKept :
    (random : ℕ) (b : Broadcaster)
    → b.connected_flag ≡ false
    → b.used ≡ true
    → b.timers ≡ []
    → All (λ (s : Subscription). has b.listening s.channel ≡ true) b.subscribers
    → IsKept (schedule_reconnect random b)
unfolding schedule_reconnect
schedule_reconnect-IsKept random b c u none_due known = elim (Bool-cases b.shutting_down) [
  | inl e ↦ rw e (record {
    known = known;
    heard = λ n d. absurd (ground (arith, c, d));
    calm = λ d. absurd (ground (arith, c, d));
    fresh = λ v. absurd (ground (arith, u, v));
    spent = λ d. u;
    single = inl none_due;
    due = λ n d. absurd (ground (arith, e, n));
  })
  | inr e ↦ rw e (record {
    known = known;
    heard = λ n d. absurd (ground (arith, c, d));
    calm = λ d. absurd (ground (arith, c, d));
    fresh = λ v. absurd (ground (arith, u, v));
    spent = λ d. u;
    single = inr (ap (λ ts. suc (length ts)) none_due);
    due = λ n d. inl (ap (λ ts. suc (length ts)) none_due);
  })
]

disconnected-IsKept :
    (random : ℕ) (b : Broadcaster)
    → b.connected_flag ≡ true
    → IsKept b
    → IsKept (schedule_reconnect random (record b { client = []; connected_flag = false }))
disconnected-IsKept random b c k =
    schedule_reconnect-IsKept random (record b { client = []; connected_flag = false }) refl
      (k.spent c) (k.calm c) k.known

pub handle_disconnect-IsKept :
    (random : ℕ) (b : Broadcaster)
    → IsKept b
    → IsKept (handle_disconnect random (record b { client = [] }))
unfolding handle_disconnect
handle_disconnect-IsKept random b k =
    if_intro IsKept b.shutting_down (λ e. silent-IsKept b (λ n c. ground (arith, e, n)) k)
      λ e.
        if_intro IsKept (not b.connected_flag)
          (λ c. silent-IsKept b (λ n d. ground (arith, c, d)) k)
          λ c. disconnected-IsKept random b (ground (arith, c)) k

resynced-IsKept :
    (b : Broadcaster) (log : List Delivery)
    → b.timers ≡ []
    → All (λ (s : Subscription). has b.listening s.channel ≡ true) b.subscribers
    → IsKept (record b {
      client = b.listening;
      used = true;
      connected_flag = true;
      reconnect_attempt = 0;
      delivered = log;
    })
resynced-IsKept b log none_due known = record {
  known = known;
  heard = λ n c. refl;
  calm = λ c. none_due;
  fresh = λ u. absurd (ground (arith, u));
  spent = λ c. refl;
  single = inl none_due;
  due = λ n c. absurd (ground (arith, c));
}

reconnect-IsKept :
    (ok : Bool) (accepted random : ℕ) (b : Broadcaster)
    → b.connected_flag ≡ false
    → b.timers ≡ []
    → All (λ (s : Subscription). has b.listening s.channel ≡ true) b.subscribers
    → IsKept (reconnect ok accepted random b)
reconnect-IsKept ok accepted random b c none_due known =
    if_intro IsKept (ok && leb (length b.listening) accepted)
      (λ e. resynced-IsKept b _ none_due known)
      λ e. schedule_reconnect-IsKept random _ c refl none_due known

-- A reconnect that is due is the only one, of a broadcaster that is not connected.
only_one :
    (b : Broadcaster) (delay : ℕ) (timers : List ℕ)
    → b.timers ≡ delay ∷ timers
    → IsKept b
    → timers ≡ []
only_one b delay timers e k = elim k.single [
  | inl none_due ↦ absurd (cons-ne-nil delay timers (sym e ∙ none_due))
  | inr one ↦ empty_rest timers (ap length (sym e) ∙ one)
]
  where
    empty_rest : (ts : List ℕ) → suc (length ts) ≡ 1 → ts ≡ []
    empty_rest [] h = refl
    empty_rest (t ∷ ts) h = absurd (omega (arith, h))

due_apart :
    (b : Broadcaster) (delay : ℕ) (timers : List ℕ)
    → b.timers ≡ delay ∷ timers
    → IsKept b
    → b.connected_flag ≡ false
due_apart b delay timers e k = elim (Bool-cases b.connected_flag) [
  | inl c ↦ absurd (cons-ne-nil delay timers (sym e ∙ k.calm c))
  | inr c ↦ c
]

-- The callback of a timer, the first of those that are due.
pub fire-IsKept :
    (ok : Bool) (accepted random : ℕ) (b : Broadcaster) (timers : List ℕ)
    → b.timers ≡ timers
    → IsKept b
    → IsKept (fire ok accepted random timers b)
fire-IsKept ok accepted random b [] e k = k
fire-IsKept ok accepted random b (delay ∷ timers) e k =
    if_intro IsKept b.shutting_down
      (λ n. record {
        known = k.known;
        heard = λ m c. absurd (ground (arith, n, m));
        fresh = λ u. ((k.fresh u).0, (k.fresh u).1, rest);
        spent = k.spent;
        calm = λ c. rest;
        single = inl rest;
        due = λ m c. absurd (ground (arith, n, m));
      })
      λ n.
        reconnect-IsKept ok accepted random (record b { timers = timers })
          (due_apart b delay timers e k) rest k.known
  where
    rest : timers ≡ []
    rest = only_one b delay timers e k
