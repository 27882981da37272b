-- ===== src/Composite/Events.antt =====
-- What queues a parent: the event handlers of pkg/controller/composite/controller.go, over the parents
-- that its informer has cached.
pub mod Queued
mod Tests
use metacontroller.Prelude.{
  ℕ, String, Bool, true, false, not, ◌||◌, ◌&&◌, Option, none, some, List, [], ◌∷◌, ◌++◌, ◌==◌,
  string_eq, if◌then◌else◌, is_some, select,
}
use metacontroller.Names.{parse_api_version}
use metacontroller.Objects.{OwnerReference, Accessors}
use metacontroller.Composite.Sync.{Labels}
use metacontroller.Composite.Queue.{Outside, Log, enqueue_parent_object}

-- A parent's selector, as `makeSelector` gives it: what it matches, and whether it is empty.
pub record Selector : Type 0 where
  pub matches : Labels → Bool
  pub empty : Bool

-- The parent's resource and informer, `metav1.GetControllerOf`, and the tests of the handlers:
-- pointer equality, equal generations, and equal labels and annotations by `reflect.DeepEqual`.
pub record Watch (Obj : Type 0) : Type 0 where
  pub acc : Accessors Obj
  pub out : Outside Obj
  pub group : String
  pub kind : String
  pub namespaced : Bool
  pub get_parent : String → String → Option Obj
  pub list_parents : Option String → Option (List Obj)
  pub controller_of : Obj → Option OwnerReference
  pub labels : Obj → Labels
  pub selector : Obj → Option Selector
  pub has_finalizer : Obj → Bool
  pub selected : Obj → Bool
  pub ignore_status_changes : Option Bool
  pub same_object : Obj → Obj → Bool
  pub same_generation : Obj → Obj → Bool
  pub same_labels : Obj → Obj → Bool
  pub same_annotations : Obj → Obj → Bool

-- What a delete handler is given: an object, a `DeletedFinalStateUnknown` with or without one, or
-- anything else.
pub data Deleted (Obj : Type 0) : Type 0 where
  object : Obj → Deleted Obj
  tombstone : Option Obj → Deleted Obj
  anything : Deleted Obj

module _ {Obj : Type 0} (w : Watch Obj) where
  -- The update leaves all but the status as it was.
  abbrev pub only_status : Obj → Obj → Bool
  only_status old cur =
      not (w.same_object old cur)
      && w.same_generation old cur
      && w.same_labels old cur
      && w.same_annotations old cur
      && not (is_some (w.acc.deletion_timestamp cur))

module _ {Obj Act : Type 0} (w : Watch Obj) where
  -- `enqueueParentObject`
  abbrev pub enqueue : Obj → Log Obj Act → Log Obj Act
  enqueue parent log = enqueue_parent_object w.out w.has_finalizer w.selected parent log

  -- `updateParentObject`
  unfoldable pub update_parent_object : Obj → Obj → Log Obj Act → Log Obj Act
  unfolding enqueue_parent_object
  update_parent_object old cur log = elim w.ignore_status_changes [
    | none ↦ enqueue cur log
    | some ignore ↦ if ignore && only_status w old cur then log else enqueue cur log
  ]

  -- The loop that queues the potential parents of an orphan.
  unfoldable pub enqueue_all : List Obj → Log Obj Act → Log Obj Act
  unfolding enqueue_parent_object
  enqueue_all [] log = log
  enqueue_all (parent ∷ parents) log = enqueue_all parents (enqueue parent log)

module _ {Obj : Type 0} (w : Watch Obj) where
  -- The tests of `resolveControllerRef` on the parent that its name leads to.
  unfoldable pub accept_parent : OwnerReference → Option Obj → Option Obj
  accept_parent ref none = none
  accept_parent ref (some parent) =
      if not (w.acc.uid parent == ref.uid)
      then none
      else if not (w.has_finalizer parent) && not (w.selected parent)
      then none
      else some parent

  unfoldable pub resolve_controller_ref : String → OwnerReference → Option Obj
  unfolding accept_parent
  resolve_controller_ref child_namespace ref =
      if not ((parse_api_version ref.api_version).0 == w.group)
      then none
      else if not (ref.kind == w.kind)
      then none
      else accept_parent ref (w.get_parent (if w.namespaced then child_namespace else "") ref.name)

  -- Whether a parent may adopt an orphan with the labels.
  unfoldable pub may_adopt : Labels → Obj → Bool
  may_adopt labels parent = elim (w.selector parent) [
    | none ↦ false
    | some selector ↦ if selector.empty then false else selector.matches labels
  ]

  -- The loop of `findPotentialParents`.
  unfoldable pub matching_parents : Labels → List Obj → List Obj
  unfolding may_adopt
  matching_parents labels parents = select (may_adopt labels) parents

  abbrev pub listed_for : Obj → Option (List Obj)
  listed_for child = w.list_parents (if w.namespaced then some (w.acc.namespace child) else none)

  unfoldable pub find_potential_parents : Obj → List Obj
  unfolding matching_parents
  find_potential_parents child = elim (listed_for child) [
    | none ↦ []
    | some parents ↦ matching_parents (w.labels child) parents
  ]

module _ {Obj Act : Type 0} (w : Watch Obj) where
  enqueue_resolved : Option Obj → Log Obj Act → Log Obj Act
  unfolding enqueue_parent_object
  enqueue_resolved none log = log
  enqueue_resolved (some parent) log = enqueue w parent log

  -- `onChildDelete`, for an object.
  unfoldable pub on_object_deleted : Obj → Log Obj Act → Log Obj Act
  unfolding resolve_controller_ref enqueue_resolved
  on_object_deleted child log = elim (w.controller_of child) [
    | none ↦ log
    | some ref ↦ enqueue_resolved (resolve_controller_ref w (w.acc.namespace child) ref) log
  ]

  -- `onChildDelete`
  unfoldable pub on_child_delete : Deleted Obj → Log Obj Act → Log Obj Act
  unfolding on_object_deleted
  on_child_delete (object child) log = on_object_deleted child log
  on_child_delete (tombstone (some child)) log = on_object_deleted child log
  on_child_delete (tombstone none) log = log
  on_child_delete anything log = log

  -- `onChildAdd`
  unfoldable pub on_child_add : Obj → Log Obj Act → Log Obj Act
  unfolding on_child_delete resolve_controller_ref enqueue_resolved find_potential_parents
      enqueue_all
  on_child_add child log =
      if is_some (w.acc.deletion_timestamp child)
      then on_child_delete (object child) log
      else elim (w.controller_of child) [
        | some ref ↦ enqueue_resolved (resolve_controller_ref w (w.acc.namespace child) ref) log
        | none ↦ enqueue_all w (find_potential_parents w child) log
      ]

  -- `onChildUpdate`
  unfoldable pub on_child_update : Obj → Obj → Log Obj Act → Log Obj Act
  unfolding on_child_add
  on_child_update old cur log =
      if w.acc.resource_version old == w.acc.resource_version cur then log else on_child_add cur log
