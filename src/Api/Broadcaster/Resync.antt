-- ===== src/Api/Broadcaster/Resync.antt =====
-- packages/api/src/broadcaster.ts: the way back to the database, and the delivery of notifications.
use stellars_finance_contrac.Base.{
  ℕ, ◌≤◌, ◌≡◌, ◌≢◌, sym, ap, subst, ◌∙◌, inl, inr, Bool, true, false, ◌&&◌, if_intro, List, [], ◌∷◌,
  ◌++◌, length, leb, map, All, In, All-In, arith,
}
use stellars_finance_contrac.Api.Broadcaster.{
  Subscription, Payload, Broadcaster, connected, schedule_reconnect, has, on_channel, deliver,
  notify, fire, Input, perform, run,
}
use stellars_finance_contrac.Api.Broadcaster.Upkeep.{perform-IsKept}
use stellars_finance_contrac.Api.Broadcaster.Kept.{IsKept}
use Prim.Native.String.{String}
use text.Mathlib.Text.{◌==◌}
use text.Mathlib.TextEquality.{eq_iff}

In-append_right : {A : Type 0} (a : A) (xs ys : List A) → In a ys → In a (xs ++ ys)
In-append_right a [] ys h = h
In-append_right a (x ∷ xs) ys h = inr (In-append_right a xs ys h)

In-map : {A B : Type 0} (f : A → B) (a : A) (xs : List A) → In a xs → In (f a) (map f xs)
In-map f a [] h = absurd h
In-map f a (x ∷ xs) (inl e) = inl (ap f e)
In-map f a (x ∷ xs) (inr h) = inr (In-map f a xs h)

In-on_channel :
    (s : Subscription) (ss : List Subscription) → In s ss → In s (on_channel s.channel ss)
unfolding on_channel
In-on_channel s [] h = absurd h
In-on_channel s (x ∷ xs) (inl e) =
    if_intro (In s) (x.channel == s.channel) (λ c. inl e)
      λ c.
        absurd (ground (arith, eq_iff x.channel s.channel, ap (λ (y : Subscription). y.channel) e))
In-on_channel s (x ∷ xs) (inr h) =
    if_intro (In s) (x.channel == s.channel) (λ c. inr (In-on_channel s xs h))
      λ c. In-on_channel s xs h

-- While the broadcaster is connected, a notification reaches every subscription of its channel.
pub notify-delivered :
    (payload : String) (s : Subscription) (b : Broadcaster)
    → IsKept b
    → connected b ≡ true
    → In s b.subscribers
    → In (deliver (Payload.notified payload) s) (notify s.channel payload b).delivered
unfolding notify connected
notify-delivered payload s b k c i =
    if_intro (λ (after : Broadcaster). In (deliver (Payload.notified payload) s) after.delivered)
      (has b.client s.channel)
      (λ e.
        In-append_right _ b.delivered _
          (In-map (deliver (Payload.notified payload)) s _ (In-on_channel s b.subscribers i)))
      λ e. absurd (deaf e)
  where
    deaf : has b.client s.channel ≡ false → ⊥
    deaf e =
        let heard = k.heard (ground (arith, c)) (ground (arith, c)) in
        let known =
          All-In (λ (t : Subscription). has b.listening t.channel ≡ true) s b.subscribers k.known
            i in
        ground (arith, e, ap (λ xs. has xs s.channel) heard, known)

-- What the server answers to one reconnect.
pub record Answer : Type 0 where
  pub ok : Bool
  pub accepted : ℕ
  pub random : ℕ

abbrev pub fires_with : Answer → Input
fires_with a = Input.fires a.ok a.accepted a.random

-- The reconnect of a broadcaster that listens to these channels fails.
abbrev pub Fails : List String → Answer → Type 0
Fails channels a = (a.ok && leb (length channels) a.accepted) ≡ false

module _ (channels : List String) (subscribers : List Subscription) where
  -- The broadcaster waits for a reconnect, with these channels and subscriptions.
  abbrev pub Waits : Broadcaster → Type 0
  Waits b =
      (b.listening ≡ channels)
      × (b.subscribers ≡ subscribers)
      × (b.shutting_down ≡ false)
      × (b.connected_flag ≡ false)

  -- It is connected again, listens to them, and has told every subscription to read anew.
  abbrev pub IsBack : Broadcaster → Type 0
  IsBack b =
      (connected b ≡ true)
      × (b.client ≡ channels)
      × ((s : Subscription) → In s subscribers → In (deliver Payload.resync s) b.delivered)

  schedule_reconnect-Waits :
      (random : ℕ) (b : Broadcaster) → Waits b → Waits (schedule_reconnect random b)
  unfolding schedule_reconnect
  schedule_reconnect-Waits random b w = if_intro Waits b.shutting_down (λ e. w) λ e. w

  fire-Waits :
      (a : Answer) (timers : List ℕ) (b : Broadcaster)
      → Fails channels a
      → Waits b
      → Waits (fire a.ok a.accepted a.random timers b)
  fire-Waits a [] b f w = w
  fire-Waits a (delay ∷ timers) b f w =
      if_intro Waits b.shutting_down (λ e. w)
        λ e.
          if_intro Waits (a.ok && leb (length b.listening) a.accepted)
            (λ ok.
              absurd (ground (arith, ok, f, ap (λ xs. a.ok && leb (length xs) a.accepted) w.0)))
            λ refused. schedule_reconnect-Waits a.random _ w

  fire-IsBack :
      (accepted random : ℕ) (timers : List ℕ) (b : Broadcaster)
      → length timers ≡ 1
      → length channels ≤ accepted
      → Waits b
      → IsBack (fire true accepted random timers b)
  unfolding connected
  fire-IsBack accepted random [] b one enough w = absurd (omega (arith, one))
  fire-IsBack accepted random (delay ∷ timers) b one enough w =
      if_intro IsBack b.shutting_down (λ e. absurd (ground (arith, e, w.2)))
        λ e.
          if_intro IsBack (true && leb (length b.listening) accepted)
            (λ ok. (
              ground (arith, w.2),
              w.0,
              λ s i.
                  In-append_right _ b.delivered _
                    (In-map (deliver Payload.resync) s b.subscribers (subst (In s) (sym w.1) i)),
            ))
            λ refused. absurd (ground (arith, refused, enough, ap length w.0))

  one_due : (b : Broadcaster) → IsKept b → channels ≢ [] → Waits b → length b.timers ≡ 1
  one_due b k some_channel w = elim (k.due w.2 w.3) [
    | inl one ↦ one
    | inr never ↦ absurd (some_channel (sym w.0 ∙ never))
  ]

  -- After any number of failed reconnects, the first that succeeds brings a broadcaster that had a
  -- subscription accepted and is not shut down back: it is connected, its client listens to every
  -- channel it knew, and every subscription is told to read anew.
  pub run-IsBack :
      (answers : List Answer) (accepted random : ℕ) (b : Broadcaster)
      → IsKept b
      → channels ≢ []
      → All (Fails channels) answers
      → length channels ≤ accepted
      → Waits b
      → IsBack (run (map fires_with answers ++ Input.fires true accepted random ∷ []) b)
  unfolding run perform
  run-IsBack [] accepted random b k some_channel fails enough w =
      fire-IsBack accepted random b.timers b (one_due b k some_channel w) enough w
  run-IsBack (a ∷ answers) accepted random b k some_channel fails enough w =
      run-IsBack answers accepted random (perform (fires_with a) b)
        (perform-IsKept (fires_with a) b k) some_channel fails.1 enough
        (fire-Waits a b.timers b fails.0 w)
