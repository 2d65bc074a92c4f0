-- ===== src/Api/Broadcaster/Kept.antt =====
-- packages/api/src/broadcaster.ts: the invariant of a broadcaster, with connecting and subscribing.
use stellars_finance_contrac.Base.{
  ◌≡◌, refl, sym, ap, ◌∙◌, ◌⊎◌, inl, inr, Bool, true, false, ◌&&◌, not, Bool-cases, if_intro, List,
  [], ◌∷◌, ◌++◌, length, leb, All, arith,
}
use stellars_finance_contrac.Api.Broadcaster.{
  Subscription, Broadcaster, created, connect, has, holds, add_subscriber, listen, after_connect,
  remove, unsubscribe,
}
use Prim.Native.String.{String}
use text.Mathlib.Text.{◌==◌}
use text.Mathlib.TextEquality.{eq_iff}

-- Every subscription's channel is listened to by a client that is connected; and unless the
-- broadcaster is shut down, it is connected, or one reconnect is due, or nobody ever subscribed.
pub record IsKept (b : Broadcaster) : Type 0 where
  pub known : All (λ (s : Subscription). has b.listening s.channel ≡ true) b.subscribers
  pub heard : b.shutting_down ≡ false → b.connected_flag ≡ true → b.client ≡ b.listening
  pub fresh : b.used ≡ false → (b.listening ≡ []) × (b.client ≡ []) × (b.timers ≡ [])
  pub spent : b.connected_flag ≡ true → b.used ≡ true
  pub calm : b.connected_flag ≡ true → b.timers ≡ []
  pub single : (b.timers ≡ []) ⊎ (length b.timers ≡ 1)
  pub due :
      b.shutting_down ≡ false
      → b.connected_flag ≡ false
      → (length b.timers ≡ 1) ⊎ (b.listening ≡ [])

has-append : (xs : List String) (x y : String) → has xs x ≡ true → has (xs ++ y ∷ []) x ≡ true
unfolding has
has-append [] x y h = absurd (ground arith)
has-append (z ∷ xs) x y h = ground (arith, has-append xs x y)

has-last : (xs : List String) (x : String) → has (xs ++ x ∷ []) x ≡ true
unfolding has
has-last [] x = ground (arith, eq_iff x x)
has-last (z ∷ xs) x = ground (arith, has-last xs x)

known-listen :
    (xs : List String) (x : String) (ss : List Subscription)
    → All (λ (s : Subscription). has xs s.channel ≡ true) ss
    → All (λ (s : Subscription). has (xs ++ x ∷ []) s.channel ≡ true) ss
known-listen xs x [] h = tt
known-listen xs x (s ∷ ss) h = (has-append xs s.channel x h.0, known-listen xs x ss h.1)

module _ {κ} (P : Subscription → Type κ) where
  All-last : (ss : List Subscription) (s : Subscription) → All P ss → P s → All P (ss ++ s ∷ [])
  All-last [] s h p = (p, tt)
  All-last (x ∷ ss) s h p = (h.0, All-last ss s h.1 p)

  All-remove : (s : Subscription) (ss : List Subscription) → All P ss → All P (remove s ss)
  unfolding remove
  All-remove s [] h = tt
  All-remove s (x ∷ xs) h =
      elim (Bool-cases (
        leb x.subscriber s.subscriber && leb s.subscriber x.subscriber && x.channel == s.channel)) [
          | inl e ↦ rw e (All-remove s xs h.1)
          | inr e ↦ rw e (h.0, All-remove s xs h.1)
        ]

pub created-IsKept : IsKept created
created-IsKept = record {
  known = tt;
  heard = λ n e. refl;
  fresh = λ e. (refl, refl, refl);
  spent = λ e. absurd (ground (arith, e));
  calm = λ e. refl;
  single = inl refl;
  due = λ s c. inr refl;
}

connected-IsKept :
    (b : Broadcaster)
    → b.used ≡ false
    → IsKept b
    → IsKept (record b { used = true; connected_flag = true })
connected-IsKept b u k =
    let new = k.fresh u in
    record {
      known = k.known;
      heard = λ n c. new.1 ∙ sym new.0;
      calm = λ c. new.2;
      fresh = λ e. absurd (ground (arith, e));
      spent = λ c. refl;
      single = k.single;
      due = λ n c. absurd (ground (arith, c));
    }

pub connect-IsKept : (ok : Bool) (b : Broadcaster) → IsKept b → IsKept (connect ok b)
unfolding connect
connect-IsKept ok b k =
    if_intro IsKept b.connected_flag (λ e. k)
      λ e.
        if_intro IsKept (not b.used && ok)
          (λ accepted. connected-IsKept b (ground (arith, accepted)) k)
          λ refused. record {
            known = k.known;
            heard = λ n c. absurd (ground (arith, e, c));
            calm = λ c. absurd (ground (arith, e, c));
            fresh = λ u. absurd (ground (arith, u));
            spent = λ c. refl;
            single = k.single;
            due = λ n c. k.due n e;
          }

add_subscriber-IsKept :
    (s : Subscription) (b : Broadcaster)
    → has b.listening s.channel ≡ true
    → IsKept b
    → IsKept (add_subscriber s b)
unfolding add_subscriber
add_subscriber-IsKept s b h k = elim (Bool-cases (holds b.subscribers s)) [
  | inl e ↦ rw e k
  | inr e ↦ rw e (record {
    known = All-last _ b.subscribers s k.known h;
    heard = k.heard;
    fresh = k.fresh;
    spent = k.spent;
    calm = k.calm;
    single = k.single;
    due = k.due;
  })
]

listen-IsKept :
    (channel : String) (b : Broadcaster)
    → b.connected_flag ≡ true
    → IsKept b
    → IsKept (listen channel b)
listen-IsKept channel b c k = record {
  known = known-listen b.listening channel b.subscribers k.known;
  heard = λ n e. ap (λ xs. xs ++ channel ∷ []) (k.heard n e);
  fresh = λ u. absurd (ground (arith, k.spent c, u));
  spent = k.spent;
  calm = k.calm;
  single = k.single;
  due = λ s e. absurd (ground (arith, c, e));
}

pub unsubscribe-IsKept : (s : Subscription) (b : Broadcaster) → IsKept b → IsKept (unsubscribe s b)
unfolding unsubscribe
unsubscribe-IsKept s b k = record {
  known = All-remove _ s b.subscribers k.known;
  heard = k.heard;
  fresh = k.fresh;
  spent = k.spent;
  calm = k.calm;
  single = k.single;
  due = k.due;
}

pub after_connect-IsKept :
    (listens : Bool) (s : Subscription) (b : Broadcaster)
    → IsKept b
    → IsKept (after_connect listens s b)
after_connect-IsKept listens s b k =
    if_intro IsKept b.connected_flag
      (λ c.
        if_intro IsKept (has b.listening s.channel) (λ e. add_subscriber-IsKept s b e k)
          λ e.
            if_intro IsKept listens
              (λ l.
                add_subscriber-IsKept s (listen s.channel b) (has-last b.listening s.channel)
                  (listen-IsKept s.channel b c k))
              λ l. k)
      λ c. k
