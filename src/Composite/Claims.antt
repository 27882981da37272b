-- ===== src/Composite/Claims.antt =====
-- `claimChildren` of pkg/controller/composite/controller.go, with `canAdoptFunc` and
-- `RecheckDeletionTimestamp` of pkg/third_party/kubernetes/controller_ref_manager.go: for each kind of
-- children the candidates are listed by two indexes, merged, claimed and put into the map.
pub mod Candidates
pub mod Justified
mod Tests
use metacontroller.Prelude.{
  String, Bool, true, false, not, Option, none, some, List, [], ◌∷◌, ◌++◌, ◌==◌, string_eq,
  if◌then◌else◌, Result, ok, err, ◌>>=◌, contains, is_some,
}
use metacontroller.Names.{Gvk}
use metacontroller.Objects.{OwnerReference, Accessors}
use metacontroller.ControllerRef.{Reason, Call, Manager, State, initial, claim_children}
use metacontroller.Informers.Index.{Indexer, list_by_owner_uid, list_orphans}
use metacontroller.ObjectMap.{ObjectMap, qualified_name, init_group, insert_all}

pub data ClaimError : Type 0 where
  no_client : String → ClaimError
  no_informer : String → String → ClaimError
  cannot_list : String → ClaimError
  cannot_claim : List Reason → ClaimError

-- `CompositeControllerChildResourceRule`, by what it is read for.
pub record ChildResource : Type 0 where
  pub api_version : String
  pub resource : String

module _ {Obj : Type 0} (acc : Accessors Obj) where
  -- The inner loop: the objects of a list whose UID has not been seen.
  unfoldable pub unseen : List Obj → List String → List Obj × List String
  unseen [] seen = ([], seen)
  unseen (o ∷ objects) seen =
      let (skipped, skipped_seen) = unseen objects seen in
      let (all, all_seen) = unseen objects (acc.uid o ∷ seen) in
      if contains (acc.uid o) seen then (skipped, skipped_seen) else (o ∷ all, all_seen)

  -- The candidates: both lists, each UID once.
  unfoldable pub merge_candidates : List Obj → List Obj → List Obj
  unfolding unseen
  merge_candidates owned orphans =
      let (first, seen) = unseen owned [] in first ++ (unseen orphans seen).0

  -- `canAdoptFunc` over the uncached read of the parent, with `RecheckDeletionTimestamp`. The errors that
  -- it makes itself have no API reason.
  unfoldable pub recheck : Result Reason Obj → Obj → Option Reason
  recheck (err e) parent = some e
  recheck (ok fresh) parent =
      if not (acc.uid fresh == acc.uid parent)
      then some Reason.other
      else if is_some (acc.deletion_timestamp fresh)
      then some Reason.other
      else none

-- What is outside of the claims: `metav1.GetControllerOf`, the live parent, the API server's answers to
-- adoptions and releases, the clients by their kind, and the informers.
pub record Sources (Obj : Type 0) : Type 0 where
  pub controller_of : Obj → Option OwnerReference
  pub live_parent : Result Reason Obj
  pub update : Call Obj → Option Reason
  pub client : ChildResource → Option Gvk
  pub informer : ChildResource → Option (Indexer Obj)
  pub namespaced : Bool

-- The children found so far, and the calls that claimed them.
abbrev pub Claiming : Type 0 → Type 0
Claiming Obj = ObjectMap Obj × List (Call Obj)

module _ {Obj : Type 0} (acc : Accessors Obj) (src : Sources Obj) (matches : Obj → Bool)
    (parent : Obj) where
  abbrev pub manager : Manager Obj
  manager = record {
    uid = acc.uid parent;
    deletion_timestamp = acc.deletion_timestamp parent;
    matches = matches;
    controller_of = src.controller_of;
    update = src.update;
    can_adopt_func = some (recheck acc src.live_parent parent);
  }

  abbrev pub list_namespace : String
  list_namespace = if src.namespaced then acc.namespace parent else ""

  -- The listing of the candidates of one kind.
  unfoldable pub candidates : Indexer Obj → Result ClaimError (List Obj)
  unfolding merge_candidates
  candidates indexer = elim (list_by_owner_uid acc indexer (acc.uid parent) list_namespace) [
    | err e ↦ err (cannot_list e)
    | ok owned ↦ elim (list_orphans acc indexer list_namespace) [
      | err e ↦ err (cannot_list e)
      | ok orphans ↦ ok (merge_candidates acc owned orphans)
    ]
  ]

  -- The end of a claim of one kind: the calls are made whether it fails or not.
  add_claimed :
      Gvk
      → (List Obj × List Reason) × State Obj
      → Claiming Obj
      → Result ClaimError (ObjectMap Obj) × List (Call Obj)
  add_claimed gvk ((claimed, []), s) (m, calls) =
      (ok (insert_all acc (qualified_name acc) parent claimed (init_group gvk m)), calls ++ s.calls)
  add_claimed gvk ((claimed, e ∷ errors), s) (m, calls) =
      (err (cannot_claim (e ∷ errors)), calls ++ s.calls)

  claim_listed :
      Gvk
      → Result ClaimError (List Obj)
      → Claiming Obj
      → Result ClaimError (ObjectMap Obj) × List (Call Obj)
  unfolding add_claimed
  claim_listed gvk (err e) (m, calls) = (err e, calls)
  claim_listed gvk (ok all) (m, calls) =
      add_claimed gvk (claim_children acc manager all initial) (m, calls)

  -- The body of the loop over the child resources.
  unfoldable pub claim_kind :
      ChildResource → Claiming Obj → Result ClaimError (ObjectMap Obj) × List (Call Obj)
  unfolding claim_listed candidates
  claim_kind child (m, calls) = elim (src.client child) [
    | none ↦ (err (no_client child.resource), calls)
    | some gvk ↦ elim (src.informer child) [
      | none ↦ (err (no_informer child.resource child.api_version), calls)
      | some indexer ↦ claim_listed gvk (candidates indexer) (m, calls)
    ]
  ]

  then_kinds :
      (Claiming Obj → Result ClaimError (ObjectMap Obj) × List (Call Obj))
      → Result ClaimError (ObjectMap Obj) × List (Call Obj)
      → Result ClaimError (ObjectMap Obj) × List (Call Obj)
  then_kinds rest (err e, calls) = (err e, calls)
  then_kinds rest (ok m, calls) = rest (m, calls)

  unfoldable pub claim_kinds :
      List ChildResource → Claiming Obj → Result ClaimError (ObjectMap Obj) × List (Call Obj)
  unfolding claim_kind then_kinds
  claim_kinds [] (m, calls) = (ok m, calls)
  claim_kinds (child ∷ kinds) claiming = then_kinds (claim_kinds kinds) (claim_kind child claiming)
