-- ===== src/Composite/Revisions.antt =====
-- What is done with the revisions of a parent in pkg/controller/composite/controller_revision.go: the
-- storage of the desired ones, which is manageRevisions, and the single answer that syncRevisions puts
-- together from the answers of the hook for each of them.
pub mod Stored
pub mod Aggregated
mod Tests
use metacontroller.Prelude.{
  ℕ, String, Bool, true, false, not, ◌||◌, ◌&&◌, Option, none, some, List, [], ◌∷◌, ◌++◌, ◌==◌,
  string_eq, if◌then◌else◌, Dict, lookup, insert, has, ltb, nat_eq, is_some,
}
use metacontroller.Names.{GroupKind}
use metacontroller.Objects.{Accessors}
use metacontroller.ControllerRef.{Reason}
use metacontroller.ObjectMap.{
  ObjectMap, relative_name, find_group_kind_name, replace_object_if_exists,
}
use metacontroller.Revision.{KindChildren, Children}

-- A call of the client of ControllerRevisions.
pub data RevisionCall (Rev : Type 0) : Type 0 where
  deletes : String → String → RevisionCall Rev
  updates : Rev → RevisionCall Rev
  creates : Rev → RevisionCall Rev

-- What is read of a ControllerRevision, `DeepEqual` of two, and the API server's refusal of a call.
pub record Storage (Rev : Type 0) : Type 0 where
  pub name : Rev → String
  pub uid : Rev → String
  pub resource_version : Rev → String
  pub set_resource_version : Rev → String → Rev
  pub deep_equal : Rev → Rev → Bool
  pub api : RevisionCall Rev → Option Reason

module _ {Rev : Type 0} (st : Storage Rev) where
  -- The error that ends the loop, and the calls.
  abbrev pub Calls : Type 0
  Calls = Option Reason × List (RevisionCall Rev)

  -- `observedMap` and `desiredMap`.
  unfoldable pub by_name : List Rev → Dict String Rev → Dict String Rev
  by_name [] m = m
  by_name (r ∷ revisions) m = by_name revisions (insert (st.name r) r m)

  -- A call ends the loop where it is refused.
  unfoldable pub call_then : RevisionCall Rev → Option Reason → Calls → Calls
  call_then call (some e) rest = (some e, call ∷ [])
  call_then call none (e, calls) = (e, call ∷ calls)

  unfoldable pub delete_undesired : Dict String Rev → List Rev → Calls → Calls
  unfolding call_then
  delete_undesired desired [] rest = rest
  delete_undesired desired (r ∷ observed) rest =
      let later = delete_undesired desired observed rest in
      if not (has (st.name r) desired)
      then call_then (deletes (st.name r) (st.uid r)) (st.api (deletes (st.name r) (st.uid r)))
          later
      else later

  -- The revision with the resource version that is stored.
  abbrev pub refreshed : Rev → Rev → Rev
  refreshed old r =
      if not (st.resource_version old == st.resource_version r)
      then st.set_resource_version r (st.resource_version old)
      else r

  unfoldable pub store_one : Rev → Option Rev → Calls → Calls
  unfolding call_then
  store_one r none rest = call_then (creates r) (st.api (creates r)) rest
  store_one r (some old) rest =
      if st.deep_equal old r
      then rest
      else call_then (updates (refreshed old r)) (st.api (updates (refreshed old r))) rest

  unfoldable pub store_desired : Dict String Rev → List Rev → Calls
  unfolding store_one
  store_desired observed [] = (none, [])
  store_desired observed (r ∷ desired) =
      store_one r (lookup (st.name r) observed) (store_desired observed desired)

  -- `manageRevisions`. What comes after a refused call is not made, so the calls of the second loop stand
  -- as what follows the first.
  unfoldable pub manage_revisions : List Rev → List Rev → Calls
  unfolding by_name delete_undesired store_desired
  manage_revisions observed desired =
      delete_undesired (by_name desired []) observed (store_desired (by_name observed []) desired)

-- The delay of a revision's answer, in nanoseconds, 0 where it is not positive.
unfoldable pub smallest_delay : ℕ → List ℕ → ℕ
smallest_delay least [] = least
smallest_delay least (delay ∷ delays) =
    smallest_delay (if ltb 0 delay && (least == 0 || ltb delay least) then delay else least) delays

unfoldable pub all_finalized : List Bool → Bool
all_finalized [] = true
all_finalized (finalized ∷ rest) =
    let later = all_finalized rest in if not finalized then false else later

-- A revision by what it claims and what its hook's answer desires.
pub record Answer (Obj : Type 0) : Type 0 where
  pub children : Children GroupKind
  pub desired : ObjectMap Obj

module _ {Obj : Type 0} (acc : Accessors Obj) (parent : Obj) where
  unfoldable pub override_child : Option Obj → ObjectMap Obj → ObjectMap Obj
  override_child none m = m
  override_child (some child) m = replace_object_if_exists acc (relative_name acc) parent child m

  unfoldable pub override_names :
      GroupKind → ObjectMap Obj → List String → ObjectMap Obj → ObjectMap Obj
  unfolding override_child
  override_names gk desired [] m = m
  override_names gk desired (name ∷ names) m =
      override_names gk desired names (override_child (find_group_kind_name gk name desired) m)

  unfoldable pub override_kinds : Children GroupKind → ObjectMap Obj → ObjectMap Obj → ObjectMap Obj
  unfolding override_names
  override_kinds [] desired m = m
  override_kinds (ck ∷ children) desired m =
      override_kinds children desired (override_names ck.kind desired ck.names m)

  -- The children that the latest revision desires, with those that other revisions claim as these
  -- desire them.
  unfoldable pub override_all : List (Answer Obj) → ObjectMap Obj → ObjectMap Obj
  unfolding override_kinds
  override_all [] m = m
  override_all (a ∷ answers) m = override_all answers (override_kinds a.children a.desired m)
