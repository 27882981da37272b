-- ===== src/Finalizers.antt =====
-- The finalizer of a controller on its parents: pkg/controller/common/finalizer/finalizer.go, over the
-- loops of Clientset.
pub mod Settled
mod Tests
use metacontroller.Prelude.{
  String, Bool, true, false, not, ◌||◌, Option, none, some, List, [], ◌∷◌, ◌==◌, string_eq,
  if◌then◌else◌, Result, ok, err, is_some, Comparable, bool_eq,
}
use metacontroller.Objects.{Accessors}
use metacontroller.ControllerRef.{Reason}
use metacontroller.Clientset.{Server, FinalizerUtil, client_add_finalizer, client_remove_finalizer}

-- `Manager`
pub record Finalizer : Type 0 where
  pub name : String
  pub enabled : Bool

-- The loop of `hasGCFinalizer`, over `metav1.FinalizerDeleteDependents` and `FinalizerOrphanDependents`.
unfoldable pub has_gc_item : List String → Bool
has_gc_item [] = false
has_gc_item (item ∷ items) =
    let rest = has_gc_item items in
    if item == "foregroundDeletion" || item == "orphan" then true else rest

module _ {Obj : Type 0} (acc : Accessors Obj) (util : FinalizerUtil Obj) (m : Finalizer) where
  abbrev pub has_gc_finalizer : Obj → Bool
  has_gc_finalizer o = has_gc_item (acc.finalizers o)

  unfoldable pub should_finalize : Obj → Bool
  should_finalize parent =
      if has_gc_finalizer parent
      then false
      else if not (util.contains_finalizer parent m.name)
      then false
      else m.enabled

  -- `SyncObject`
  unfoldable pub sync_object : Server Obj → Obj → Result Reason Obj
  unfolding client_add_finalizer client_remove_finalizer
  sync_object server o =
      if util.contains_finalizer o m.name == m.enabled
      then ok o
      else if m.enabled
      then if is_some (acc.deletion_timestamp o)
        then ok o
        else client_add_finalizer acc util server o m.name
      else client_remove_finalizer acc util server o m.name
