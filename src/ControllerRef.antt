-- ===== src/ControllerRef.antt =====
-- Ownership of children: pkg/dynamic/controllerref (owner references, the claims of unstructured
-- children and of ControllerRevisions) over pkg/third_party/kubernetes/controller_ref_manager.go.
-- The API server answers through parameters; each call of it is recorded in the state.
pub mod References
pub mod Claims
pub mod Claimed
mod Tests
use metacontroller.Prelude.{
  ℕ, suc, String, Bool, true, false, not, ◌||◌, ◌&&◌, Option, none, some, List, [], ◌∷◌, ◌++◌, ◌==◌,
  string_eq, if◌then◌else◌, is_some,
}
use metacontroller.Objects.{OwnerReference, Accessors}

-- The loop of `addOwnerReference`: the rebuilt list and whether the owner was found.
add_loop : List OwnerReference → OwnerReference → List OwnerReference × Bool
add_loop [] add = ([], false)
add_loop (ref ∷ refs) add =
    let (out, found) = add_loop refs add in
    if ref.uid == add.uid then (add ∷ out, true) else (ref ∷ out, found)

unfoldable pub add_owner_reference : List OwnerReference → OwnerReference → List OwnerReference
unfolding add_loop
add_owner_reference refs add =
    let (out, found) = add_loop refs add in if found then out else out ++ (add ∷ [])

unfoldable pub remove_owner_reference : List OwnerReference → String → List OwnerReference
remove_owner_reference [] uid = []
remove_owner_reference (ref ∷ refs) uid =
    let rest = remove_owner_reference refs uid in if not (ref.uid == uid) then ref ∷ rest else rest

-- An error by its API reason, which wrapping with `%w` keeps.
pub data Reason : Type 0 where
  not_found gone conflict already_exists bad_request forbidden other : Reason

abbrev pub is_not_found : Reason → Bool
is_not_found not_found = true
is_not_found _ = false

abbrev pub is_gone : Reason → Bool
is_gone gone = true
is_gone _ = false

pub data Call (Obj : Type 0) : Type 0 where
  adopting : Obj → Call Obj
  releasing : Obj → Call Obj

-- A manager for one parent, and what is outside of it: the selector, the controller of an object
-- (metav1.GetControllerOf), the answer of the API server to an update, and the answer of
-- `CanAdoptFunc`, if there is one.
pub record Manager (Obj : Type 0) : Type 0 where
  pub uid : String
  pub deletion_timestamp : Option String
  pub matches : Obj → Bool
  pub controller_of : Obj → Option OwnerReference
  pub update : Call Obj → Option Reason
  pub can_adopt_func : Option (Option Reason)

-- `canAdoptOnce` and `canAdoptErr` are one memory: `none` until the first call. `checks` counts the
-- runs of `CanAdoptFunc`.
pub record State (Obj : Type 0) : Type 0 where
  pub memo : Option (Option Reason)
  pub checks : ℕ
  pub calls : List (Call Obj)

abbrev pub initial : {Obj : Type 0} → State Obj
initial = record { memo = none; checks = 0; calls = [] }

-- The body that `canAdoptOnce` runs.
ask : {Obj : Type 0} → Option (Option Reason) → State Obj → Option Reason × State Obj
ask none s = (none, record s { memo = some none })
ask (some answer) s = (answer, record s { memo = some answer; checks = suc s.checks })

module _ {Obj : Type 0} (acc : Accessors Obj) (m : Manager Obj) where
  unfoldable pub can_adopt : State Obj → Option Reason × State Obj
  unfolding ask
  can_adopt s = elim s.memo [ some answer ↦ (answer, s) | none ↦ ask m.can_adopt_func s ]

  -- `AtomicUpdate` and `UpdateWithRetries`, by their answer.
  request : Call Obj → State Obj → Option Reason × State Obj
  request call s = (m.update call, record s { calls = s.calls ++ (call ∷ []) })

  adopt_if : Obj → Option Reason × State Obj → Option Reason × State Obj
  adopt_if o (none, s) = request (adopting o) s
  adopt_if o (some e, s) = (some e, s)

  -- `adoptChild` and `adoptControllerRevision`.
  unfoldable pub adopt_child : Obj → State Obj → Option Reason × State Obj
  unfolding can_adopt adopt_if request
  adopt_child o s = adopt_if o (can_adopt s)

  forgive_missing : Option Reason × State Obj → Option Reason × State Obj
  forgive_missing (none, s) = (none, s)
  forgive_missing (some e, s) = if is_not_found e || is_gone e then (none, s) else (some e, s)

  -- `releaseChild` and `releaseControllerRevision`.
  unfoldable pub release_child : Obj → State Obj → Option Reason × State Obj
  unfolding request forgive_missing
  release_child o s = forgive_missing (request (releasing o) s)

  -- The result of `ClaimObject` after an adoption or a release that may have failed.
  settle : Bool → Option Reason × State Obj → (Bool × Option Reason) × State Obj
  settle done (none, s) = ((done, none), s)
  settle done (some e, s) = if is_not_found e then ((false, none), s) else ((false, some e), s)

  -- `ClaimObject`.
  unfoldable pub claim_object : Obj → State Obj → (Bool × Option Reason) × State Obj
  unfolding settle
  claim_object o s = elim (m.controller_of o) [
    | some ref ↦
        if not (ref.uid == m.uid)
        then ((false, none), s)
        else if m.matches o
        then ((true, none), s)
        else if is_some m.deletion_timestamp
        then ((false, none), s)
        else settle false (release_child o s)
    | none ↦
        if is_some m.deletion_timestamp || not (m.matches o)
        then ((false, none), s)
        else if is_some (acc.deletion_timestamp o)
        then ((false, none), s)
        else settle true (adopt_child o s)
  ]

  -- What `ClaimChildren` and `ClaimControllerRevisions` gather: the claimed objects and the errors.
  abbrev pub Gathered : Type 0
  Gathered = List Obj × List Reason

  gather : Obj → Bool × Option Reason → Gathered → Gathered
  gather o (done, some e) (claimed, errors) = (claimed, e ∷ errors)
  gather o (done, none) (claimed, errors) =
      if done then (o ∷ claimed, errors) else (claimed, errors)

  unfoldable pub claim_children : List Obj → State Obj → Gathered × State Obj
  unfolding gather
  claim_children [] s = (([], []), s)
  claim_children (o ∷ children) s =
      let (result, s') = claim_object o s in
      let (gathered, s'') = claim_children children s' in (gather o result gathered, s'')
