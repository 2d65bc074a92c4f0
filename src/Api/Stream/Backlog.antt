-- ===== src/Api/Stream/Backlog.antt =====
-- packages/api/src/sse-stream.ts: the queue, its consumers and its bound.
use stellars_finance_contrac.Base.{
  ℕ, suc, ◌≤◌, Bool, true, false, Option, none, some, List, [], ◌∷◌, ◌++◌, if◌then◌else◌, leb,
  length, length-append, ◌≡◌, refl, sym, ap, ◌∙◌, arith, ◌⊎◌, inl, inr,
}
use stellars_finance_contrac.Api.Stream.{
  Queue, Step, shift, enqueue, push_to, push, finish, close, next_of, next,
}

-- A call of one of the queue's functions.
pub data Call (A : Type 0) : Type 0 where
  push_call : A → Call A
  close_call : Call A
  next_call : ℕ → Call A

at_most_equal : (m n : ℕ) → leb m n ≡ true → n ≤ m → n ≡ m
at_most_equal m n e h = ground arith

module _ {A : Type 0} (max_len : ℕ) where
  unfoldable pub perform : Call A → Queue A → Step A
  perform (Call.push_call v) q = push max_len v q
  perform Call.close_call q = close q
  perform (Call.next_call w) q = next w q

  -- The backlog is bounded, no consumer waits while there is something to give, and none waits on
  -- a queue that is closed.
  pub record IsSound (q : Queue A) : Type 0 where
    pub bounded : length q.buf ≤ max_len
    pub fed : (q.buf ≡ []) ⊎ (q.waiters ≡ [])
    pub released : (q.closed ≡ false) ⊎ (q.waiters ≡ [])

  IsSound-if :
      (b : Bool) (x y : Step A)
      → (b ≡ true → IsSound x.1)
      → (b ≡ false → IsSound y.1)
      → IsSound (if b then x else y).1
  IsSound-if true x y f g = f refl
  IsSound-if false x y f g = g refl

  length-shift : (xs : List A) → 1 ≤ length xs → suc (length (shift xs)) ≡ length xs
  length-shift [] h = omega arith
  length-shift (x ∷ xs) h = refl

  length-enqueue :
      (v : A) (q : Queue A)
      → 1 ≤ max_len
      → length q.buf ≤ max_len
      → length (enqueue max_len v q).buf ≤ max_len
  unfolding enqueue
  length-enqueue v q pos_len h = ground (
    arith,
    length-append q.buf (v ∷ []),
    length-append (shift q.buf) (v ∷ []),
    length-shift q.buf,
  )

  enqueue-waiters : (v : A) (q : Queue A) → (enqueue max_len v q).waiters ≡ q.waiters
  unfolding enqueue
  enqueue-waiters v q = ground arith

  enqueue-closed : (v : A) (q : Queue A) → (enqueue max_len v q).closed ≡ q.closed
  unfolding enqueue
  enqueue-closed v q = ground arith

  push_to-IsSound :
      (v : A) (ws : List ℕ) (q : Queue A)
      → 1 ≤ max_len
      → q.closed ≡ false
      → q.waiters ≡ ws
      → IsSound q
      → IsSound (push_to max_len v ws q).1
  push_to-IsSound v [] q pos_len live e h = record {
    bounded = length-enqueue v q pos_len h.bounded;
    fed = inr (enqueue-waiters v q ∙ e);
    released = inr (enqueue-waiters v q ∙ e);
  }
  push_to-IsSound v (w ∷ ws) q pos_len live e h = record {
    bounded = h.bounded;
    fed = elim h.fed [ inl empty ↦ inl empty | inr none_wait ↦ let k = sym e ∙ none_wait in cc ];
    released = inl live;
  }

  next_of-IsSound :
      (w : ℕ) (xs : List A) (q : Queue A) → q.buf ≡ xs → IsSound q → IsSound (next_of w xs q).1
  next_of-IsSound w (x ∷ xs) q e h = record {
    bounded = omega (arith, ap length e, h.bounded);
    fed = elim h.fed [ inl empty ↦ let k = sym e ∙ empty in cc | inr none_wait ↦ inr none_wait ];
    released = h.released;
  }
  next_of-IsSound w [] q e h =
      IsSound-if q.closed _ _ (λ shut. h)
        (λ live. record { bounded = h.bounded; fed = inl e; released = inl live })

  -- Every call keeps the queue sound, for a bound of at least one: no more than the bound is
  -- buffered, no consumer waits while something is buffered, and none waits once it is closed.
  pub perform-IsSound :
      (c : Call A) (q : Queue A) → 1 ≤ max_len → IsSound q → IsSound (perform c q).1
  unfolding perform push close next
  perform-IsSound (Call.push_call v) q pos_len h =
      IsSound-if q.closed _ _ (λ shut. h)
        (λ live. push_to-IsSound v q.waiters q pos_len live refl h)
  perform-IsSound Call.close_call q pos_len h =
      IsSound-if q.closed _ _ (λ shut. h)
        (λ live. record { bounded = h.bounded; fed = inr refl; released = inr refl })
  perform-IsSound (Call.next_call w) q pos_len h = next_of-IsSound w q.buf q refl h

  -- The values given to consumers, in order.
  abbrev pub values : List (ℕ × Option A) → List A
  values [] = []
  values (r ∷ rs) = elim r.1 [ none ↦ values rs | some v ↦ v ∷ values rs ]

  -- The value that a call hands in, if the queue is open.
  abbrev pub accepted : Call A → Queue A → List A
  accepted (Call.push_call v) q = if q.closed then [] else v ∷ []
  accepted Call.close_call q = []
  accepted (Call.next_call w) q = []

  -- What went out and what is kept is what was kept and came in, but for the oldest value where one
  -- was dropped.
  abbrev pub InOrder : List A → Queue A → Step A → Type 0
  InOrder came q r =
      ((r.1.dropped ≡ q.dropped) × (values r.0 ++ r.1.buf ≡ q.buf ++ came))
      ⊎ ((r.1.dropped ≡ suc q.dropped)
          × (values r.0 ++ r.1.buf ≡ shift (q.buf ++ came))
          × (length q.buf ≡ max_len))

  values-finish : (ws : List ℕ) → values (finish ws) ≡ []
  values-finish [] = refl
  values-finish (w ∷ ws) = values-finish ws

  append_nil : (xs : List A) → xs ++ [] ≡ xs
  append_nil [] = refl
  append_nil (x ∷ xs) = ap (λ ys. x ∷ ys) (append_nil xs)

  shift-append : (xs ys : List A) → 1 ≤ length xs → shift xs ++ ys ≡ shift (xs ++ ys)
  shift-append [] ys h = absurd (omega arith)
  shift-append (x ∷ xs) ys h = refl

  InOrder-if :
      (b : Bool) (came : List A) (q : Queue A) (x y : Step A)
      → (b ≡ true → InOrder came q x)
      → (b ≡ false → InOrder came q y)
      → InOrder came q (if b then x else y)
  InOrder-if true came q x y f g = f refl
  InOrder-if false came q x y f g = g refl

  enqueue_if :
      (v : A) (q : Queue A) (full : Bool)
      → leb max_len (length q.buf) ≡ full
      → 1 ≤ max_len
      → length q.buf ≤ max_len
      → InOrder (v ∷ []) q (
        [],
        if full
            then record q { buf = shift q.buf ++ (v ∷ []); dropped = suc q.dropped }
            else record q { buf = q.buf ++ (v ∷ []) },
      )
  enqueue_if v q true e pos_len h =
      let at_bound = at_most_equal max_len (length q.buf) e h in
      inr (refl, shift-append q.buf (v ∷ []) (omega (arith, at_bound)), at_bound)
  enqueue_if v q false e pos_len h = inl (refl, refl)

  enqueue-InOrder :
      (v : A) (q : Queue A)
      → 1 ≤ max_len
      → length q.buf ≤ max_len
      → InOrder (v ∷ []) q ([], enqueue max_len v q)
  unfolding enqueue
  enqueue-InOrder v q pos_len h = enqueue_if v q (leb max_len (length q.buf)) refl pos_len h

  push_if :
      (b : Bool) (v : A) (q : Queue A) (r : Step A)
      → (b ≡ false → InOrder (v ∷ []) q r)
      → InOrder (if b then [] else (v ∷ [])) q (if b then ([], q) else r)
  push_if true v q r f = inl (refl, sym (append_nil q.buf))
  push_if false v q r f = f refl

  push_to-InOrder :
      (v : A) (ws : List ℕ) (q : Queue A)
      → 1 ≤ max_len
      → q.waiters ≡ ws
      → IsSound q
      → InOrder (v ∷ []) q (push_to max_len v ws q)
  push_to-InOrder v [] q pos_len e h = enqueue-InOrder v q pos_len h.bounded
  push_to-InOrder v (w ∷ ws) q pos_len e h = elim h.fed [
    | inl empty ↦ inl (refl, ap (λ b. v ∷ b) empty ∙ ap (λ b. b ++ (v ∷ [])) (sym empty))
    | inr none_wait ↦ let k = sym e ∙ none_wait in cc
  ]

  next_of-InOrder : (w : ℕ) (xs : List A) (q : Queue A) → q.buf ≡ xs → InOrder [] q (next_of w xs q)
  next_of-InOrder w (x ∷ xs) q e = inl (refl, sym e ∙ sym (append_nil q.buf))
  next_of-InOrder w [] q e =
      InOrder-if q.closed [] q _ _ (λ shut. inl (refl, sym (append_nil q.buf)))
        (λ live. inl (refl, sym (append_nil q.buf)))

  -- Every call keeps the order, for a bound of at least one: what consumers were given, and after it
  -- what is buffered, is what was buffered and after it what came in; but where the buffer was full
  -- the oldest value is missing, and is counted.
  pub perform-InOrder :
      (c : Call A) (q : Queue A) → 1 ≤ max_len → IsSound q → InOrder (accepted c q) q (perform c q)
  unfolding perform push close next
  perform-InOrder (Call.push_call v) q pos_len h =
      push_if q.closed v q _ (λ live. push_to-InOrder v q.waiters q pos_len refl h)
  perform-InOrder Call.close_call q pos_len h =
      InOrder-if q.closed [] q _ _ (λ shut. inl (refl, sym (append_nil q.buf)))
        (λ live.
          inl (refl, ap (λ vs. vs ++ q.buf) (values-finish q.waiters) ∙ sym (append_nil q.buf)))
  perform-InOrder (Call.next_call w) q pos_len h = next_of-InOrder w q.buf q refl
