-- ===== src/Clientset/Atomic.antt =====
-- What the read-modify-write loops send and return.
use metacontroller.Prelude.{
  ℕ, ◌<◌, Option, none, some, ◌==◌, string_eq, Result, ok, err, ◌≡◌, refl, Result-cases,
  Option-cases, Bool-cases, inl, inr, ◌⊎◌,
}
use metacontroller.Objects.{Accessors}
use metacontroller.ControllerRef.{Reason, not_found, conflict}
use metacontroller.Clientset.{
  Server, IsRetry, Attempt, error_of, write_change, attempt, last_attempt, retried,
}

module _ {Obj : Type 0} (acc : Accessors Obj) (server : Server Obj)
    (put : ℕ → Obj → Result Reason Obj) (orig : Obj) (change : Obj → Option Obj) where
  -- What one attempt may be: a failure that sends nothing, the object as it is, where there is no
  -- change to make, or the answer to the object that the change makes of it. In the last two the object
  -- was read in this attempt and has the UID of the original.
  pub data Tried (n : ℕ) : Attempt Obj → Type 0 where
    failed : (e : Reason) → Tried n (err e, none)
    unchanged :
        (current : Obj)
        → server.get n ≡ ok current
        → acc.uid current ≡ acc.uid orig
        → change current ≡ none
        → Tried n (ok current, none)
    changed :
        (current o : Obj)
        → server.get n ≡ ok current
        → acc.uid current ≡ acc.uid orig
        → change current ≡ some o
        → Tried n (put n o, some o)

  attempt-Tried : (n : ℕ) → Tried n (attempt acc server put orig change n)
  unfolding attempt write_change
  attempt-Tried n = elim (Option-cases (server.ctx_err n)) [
    | inr (e, c) ↦ rw (attempt, c) (failed e)
    | inl c ↦ elim (Result-cases (server.get n)) [
      | inr (e, g) ↦ rw (attempt, c, g) (failed e)
      | inl (current, g) ↦ elim (Bool-cases (acc.uid current == acc.uid orig)) [
        | inr f ↦ rw (attempt, c, g, f) (failed not_found)
        | inl t ↦
            let same = (string_eq.same_iff (acc.uid current) (acc.uid orig)).0 t in
            elim (Option-cases (change current)) [
              | inl u ↦ rw (attempt, c, g, t, write_change, u) (unchanged current g same u)
              | inr (o, u) ↦ rw (attempt, c, g, t, write_change, u) (changed current o g same u)
            ]
      ]
    ]
  ]

  -- Every attempt of the loop reads the object anew and sends only what the change makes of it, where
  -- it has the UID of the original; all attempts but the last end with a conflict, and the loop returns
  -- what the last one does.
  pub retried_lem :
      IsRetry server.retry
      → (last : ℕ) × (retried acc server put orig change
          ≡ (attempt acc server put orig change last).0)
        × ((n : ℕ) → Tried n (attempt acc server put orig change n))
        × ((n : ℕ) → n < last → error_of (attempt acc server put orig change n) ≡ some conflict)
  unfolding retried
  retried_lem h = (
    last_attempt acc server put orig change,
    refl,
    attempt-Tried,
    h (λ n. error_of (attempt acc server put orig change n)),
  )

  -- What a loop that succeeds has ended with.
  abbrev pub Done : Obj → Type 0
  Done r =
      ((change r ≡ none) × (acc.uid r ≡ acc.uid orig))
      ⊎ ((n : ℕ) × (current o : Obj) × (change current ≡ some o) × (put n o ≡ ok r))

  Tried-Done : (n : ℕ) (a : Attempt Obj) → Tried n a → (r : Obj) → a.0 ≡ ok r → Done r
  Tried-Done n _ (failed e) r h = cc
  Tried-Done n _ (unchanged current g u c) r h =
      let same : current ≡ r = cc h in inl (rw (← same) c, rw (← same) u)
  Tried-Done n _ (changed current o g u c) r h = inr (n, current, o, c, h)

  pub retried-Done : (r : Obj) → retried acc server put orig change ≡ ok r → Done r
  unfolding retried
  retried-Done r h =
      let last = last_attempt acc server put orig change in
      Tried-Done last (attempt acc server put orig change last) (attempt-Tried last) r h
