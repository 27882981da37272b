-- ===== src/ControllerRef/Claimed.antt =====
-- Which objects the claims of a parent yield.
use metacontroller.Prelude.{
  Bool, true, false, not, ◌||◌, ◌&&◌, Option, none, some, List, [], ◌∷◌, ◌==◌, string_eq,
  if◌then◌else◌, ◌≡◌, refl, ◌∙◌, arith, is_some, Option-cases, select, inl, inr,
}
use metacontroller.Objects.{Accessors}
use metacontroller.ControllerRef.{
  Reason, adopting, Manager, State, can_adopt, adopt_child, release_child, claim_object,
  claim_children, gather, settle, request, adopt_if,
}
use metacontroller.ControllerRef.Claims.{verdict, IsSafe, can_adopt-IsSafe, claim_object-IsSafe}

module _ {Obj : Type 0} (acc : Accessors Obj) (m : Manager Obj) where
  -- A child that the parent may count as its own: one that it controls and selects, or an orphan
  -- that it selects and that may be, and is, adopted.
  abbrev pub claimable : Obj → Bool
  claimable o = elim (m.controller_of o) [
    | some ref ↦ ref.uid == m.uid && m.matches o
    | none ↦
        not (is_some m.deletion_timestamp)
        && m.matches o
        && not (is_some (acc.deletion_timestamp o))
        && not (is_some (verdict acc m))
        && not (is_some (m.update (adopting o)))
  ]

  abbrev claimed : Bool × Option Reason → Bool
  claimed r = r.0 && not (is_some r.1)

  claimed-settle :
      (done : Bool) (r : Option Reason × State Obj)
      → claimed (settle acc m done r).0 ≡ (done && not (is_some r.0))
  unfolding settle
  claimed-settle done (none, s) = ground arith
  claimed-settle done (some e, s) = ground arith

  adopt_if-answer :
      (o : Obj) (r : Option Reason × State Obj)
      → is_some (adopt_if acc m o r).0 ≡ (is_some r.0 || is_some (m.update (adopting o)))
  unfolding adopt_if request
  adopt_if-answer o (none, s) = refl
  adopt_if-answer o (some e, s) = refl

  adopt_child-answer :
      (o : Obj) (s : State Obj)
      → IsSafe acc m s
      → is_some (adopt_child acc m o s).0
        ≡ (is_some (verdict acc m) || is_some (m.update (adopting o)))
  unfolding adopt_child
  adopt_child-answer o s h =
      rw (← (can_adopt-IsSafe acc m s h).1) (adopt_if-answer o (can_adopt acc m s))

  claimed-claim_object :
      (o : Obj) (s : State Obj) → IsSafe acc m s → claimed (claim_object acc m o s).0 ≡ claimable o
  unfolding claim_object
  claimed-claim_object o s h = elim (Option-cases (m.controller_of o)) [
    | inr (ref, owner) ↦
        rw (owner, claim_object) (ground (arith, claimed-settle false (release_child acc m o s)))
    | inl orphan ↦
        rw (orphan, claim_object)
          (ground (arith, claimed-settle true (adopt_child acc m o s), adopt_child-answer o s h))
  ]

  gather-claimed :
      (o : Obj) (r : Bool × Option Reason) (g : List Obj × List Reason)
      → (gather acc m o r g).0 ≡ (if claimed r then o ∷ g.0 else g.0)
  unfolding gather
  gather-claimed o (done, some e) g = ground arith
  gather-claimed o (done, none) g = ground arith

  -- From any safe state, the objects that a parent claims are the claimable ones, in their order.
  pub claim_children-select :
      (children : List Obj) (s : State Obj)
      → IsSafe acc m s
      → (claim_children acc m children s).0.0 ≡ select claimable children
  unfolding claim_children select
  claim_children-select [] s h = refl
  claim_children-select (o ∷ children) s h =
      gather-claimed o (claim_object acc m o s).0
        (claim_children acc m children (claim_object acc m o s).1).0
      ∙ rw
          (
            claimed-claim_object o s h,
            claim_children-select children (claim_object acc m o s).1
                (claim_object-IsSafe acc m o s h),
          )
          refl
