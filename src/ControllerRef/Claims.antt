-- ===== src/ControllerRef/Claims.antt =====
-- What the claims of a parent may do to its children.
use metacontroller.Prelude.{
  suc, ◌≤◌, Bool, true, false, not, ◌||◌, Option, none, some, List, [], ◌∷◌, ◌==◌, string_eq, ◌≡◌,
  refl, sym, ◌∙◌, arith, is_some, All, All-append, Option-cases, if-elim, none-is_some, inl, inr,
  ◌⊎◌,
}
use metacontroller.Objects.{OwnerReference, Accessors}
use metacontroller.ControllerRef.{
  Reason, Call, adopting, releasing, Manager, State, ask, can_adopt, adopt_child, release_child,
  claim_object, claim_children, initial, settle, request, adopt_if, forgive_missing,
}

-- The answer of `CanAdopt`.
abbrev pub verdict_of : Option (Option Reason) → Option Reason
verdict_of none = none
verdict_of (some answer) = answer

ask_lem :
    {Obj : Type 0} (f : Option (Option Reason)) (s : State Obj)
    → ((ask f s).0 ≡ verdict_of f)
      × ((ask f s).1.memo ≡ some (verdict_of f))
      × ((ask f s).1.calls ≡ s.calls)
      × ((ask f s).1.checks ≤ suc s.checks)
unfolding ask
ask_lem none s = (refl, refl, refl, omega arith)
ask_lem (some answer) s = (refl, refl, refl, omega arith)

module _ {Obj : Type 0} (acc : Accessors Obj) (m : Manager Obj) where
  abbrev pub verdict : Option Reason
  verdict = verdict_of m.can_adopt_func

  -- A call that the manager may make: it adopts an orphan that matches and is not being deleted, and
  -- releases an object of its own that does not match, in both cases while the parent is not being
  -- deleted; it adopts only where `CanAdopt` has no objection.
  abbrev pub Justified : Call Obj → Type 0
  Justified (adopting o) =
      (m.controller_of o ≡ none)
      × (m.deletion_timestamp ≡ none)
      × (m.matches o ≡ true)
      × (acc.deletion_timestamp o ≡ none)
      × (verdict ≡ none)
  Justified (releasing o) =
      ((ref : OwnerReference) × (m.controller_of o ≡ some ref) × (ref.uid ≡ m.uid))
      × (m.deletion_timestamp ≡ none)
      × (m.matches o ≡ false)

  -- The calls are justified, `CanAdoptFunc` ran once at most, and its answer is remembered.
  pub record IsSafe (s : State Obj) : Type 0 where
    pub calls : All Justified s.calls
    pub once : s.checks ≤ 1
    pub remembered : ((s.memo ≡ none) × (s.checks ≡ 0)) ⊎ (s.memo ≡ some verdict)

  pub initial-IsSafe : IsSafe initial
  initial-IsSafe = record { calls = tt; once = omega arith; remembered = inl (refl, refl) }

  can_adopt-asks : (s : State Obj) → s.memo ≡ none → can_adopt acc m s ≡ ask m.can_adopt_func s
  unfolding can_adopt
  can_adopt-asks s e = simp (e, can_adopt)

  can_adopt-recalls :
      (s : State Obj) (answer : Option Reason)
      → s.memo ≡ some answer
      → can_adopt acc m s ≡ (answer, s)
  unfolding can_adopt
  can_adopt-recalls s answer e = simp (e, can_adopt)

  pub can_adopt-IsSafe :
      (s : State Obj) → IsSafe s → IsSafe (can_adopt acc m s).1 × ((can_adopt acc m s).0 ≡ verdict)
  can_adopt-IsSafe s h = elim h.remembered [
    | inr e ↦ rw (can_adopt-recalls s verdict e) (h, refl)
    | inl (e, zero_checks) ↦
        let (answer, memo, calls, checks) = ask_lem m.can_adopt_func s in
        rw (can_adopt-asks s e) (
          record {
            calls = rw (calls) h.calls;
            once = omega (arith, checks, zero_checks);
            remembered = inr memo;
          },
          answer,
        )
  ]

  request-IsSafe :
      (call : Call Obj) (s : State Obj)
      → Justified call
      → IsSafe s
      → IsSafe (request acc m call s).1
  unfolding request
  request-IsSafe call s j h = record {
    calls = All-append Justified s.calls (call ∷ []) h.calls (j, tt);
    once = h.once;
    remembered = h.remembered;
  }

  adopt_child-IsSafe :
      (o : Obj) (s : State Obj)
      → m.controller_of o ≡ none
      → m.deletion_timestamp ≡ none
      → m.matches o ≡ true
      → acc.deletion_timestamp o ≡ none
      → IsSafe s
      → IsSafe (adopt_child acc m o s).1
  unfolding adopt_child adopt_if
  adopt_child-IsSafe o s orphan alive match there h =
      let (safe, answer) = can_adopt-IsSafe s h in
      elim (Option-cases (can_adopt acc m s).0) [
        | inl e ↦
            rw (e, adopt_if)
              (request-IsSafe (adopting o) (can_adopt acc m s).1
                (orphan, alive, match, there, sym answer ∙ e) safe)
        | inr (r, e) ↦ rw (e, adopt_if) safe
      ]

  forgive_missing-state : (r : Option Reason × State Obj) → (forgive_missing acc m r).1 ≡ r.1
  unfolding forgive_missing
  forgive_missing-state (none, s) = refl
  forgive_missing-state (some e, s) = ground arith

  settle-state : (done : Bool) (r : Option Reason × State Obj) → (settle acc m done r).1 ≡ r.1
  unfolding settle
  settle-state done (none, s) = refl
  settle-state done (some e, s) = ground arith

  settle-IsSafe :
      (done : Bool) (r : Option Reason × State Obj) → IsSafe r.1 → IsSafe (settle acc m done r).1
  settle-IsSafe done r h = rw (settle-state done r) h

  release_child-IsSafe :
      (o : Obj) (s : State Obj)
      → Justified (releasing o)
      → IsSafe s
      → IsSafe (release_child acc m o s).1
  unfolding release_child
  release_child-IsSafe o s j h =
      rw (forgive_missing-state (request acc m (releasing o) s))
        (request-IsSafe (releasing o) s j h)

  abbrev SafeAfter : (Bool × Option Reason) × State Obj → Type 0
  SafeAfter r = IsSafe r.1

  -- One claim of an object, on every branch.
  pub claim_object-IsSafe : (o : Obj) (s : State Obj) → IsSafe s → IsSafe (claim_object acc m o s).1
  unfolding claim_object
  claim_object-IsSafe o s h = elim (Option-cases (m.controller_of o)) [
    | inr (ref, owner) ↦
        rw (owner, claim_object)
          (if-elim SafeAfter (not (ref.uid == m.uid)) (λ _. h)
            (λ own.
              if-elim SafeAfter (m.matches o) (λ _. h)
                (λ other.
                  if-elim SafeAfter (is_some m.deletion_timestamp) (λ _. h)
                    (λ alive. settle-IsSafe false (release_child acc m o s) (
                      release_child-IsSafe o s
                        (
                          (ref, owner, ground (arith, own, string_eq.same_iff ref.uid m.uid)),
                          none-is_some m.deletion_timestamp alive,
                          other,
                        )
                        h)))))
    | inl orphan ↦
        rw (orphan, claim_object)
          (if-elim SafeAfter (is_some m.deletion_timestamp || not (m.matches o)) (λ _. h)
            (λ wanted.
              if-elim SafeAfter (is_some (acc.deletion_timestamp o)) (λ _. h)
                (λ there. settle-IsSafe true (adopt_child acc m o s) (
                  adopt_child-IsSafe o s orphan
                    (none-is_some m.deletion_timestamp (ground (arith, wanted)))
                    (ground (arith, wanted)) (none-is_some (acc.deletion_timestamp o) there) h))))
  ]

  -- Claiming any list of objects in any state keeps what is safe: every adoption and every release
  -- that the API server is asked for is justified, and `CanAdoptFunc` runs at most once.
  pub claim_children-IsSafe :
      (children : List Obj) (s : State Obj) → IsSafe s → IsSafe (claim_children acc m children s).1
  unfolding claim_children
  claim_children-IsSafe [] s h = h
  claim_children-IsSafe (o ∷ children) s h =
      claim_children-IsSafe children (claim_object acc m o s).1 (claim_object-IsSafe o s h)
