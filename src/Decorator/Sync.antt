-- ===== src/Decorator/Sync.antt =====
-- `syncParentObject` of pkg/controller/decorator/controller.go, stage by stage over the components that
-- it calls. What changes something is recorded in order.
pub mod Stages
pub mod Updating
pub mod Orderly
mod Tests
use metacontroller.Prelude.{
  ℕ, String, Bool, true, false, not, ◌||◌, ◌&&◌, Option, none, some, List, [], ◌∷◌, ◌++◌, ◌==◌,
  string_eq, Dict, Result, ok, err, if◌then◌else◌, is_some, ltb, or_default,
}
use metacontroller.Names.{Gvk}
use metacontroller.Objects.{Accessors}
use metacontroller.ControllerRef.{Reason, conflict, not_found}
use metacontroller.ObjectMap.{Named, ObjectMap, make_object_map, qualified_name}
use metacontroller.Composite.Queue.{SyncError, failed}
use metacontroller.Decorator.Selector.{Strings}
use metacontroller.Decorator.Strings.{update_string_map}

-- What syncParentObject does, in the order of its stages. A delay is in nanoseconds.
pub data Act (Obj Related : Type 0) : Type 0 where
  syncs_finalizer : Obj → Act Obj Related
  asks_related : Obj → Act Obj Related
  calls_hook : Obj → ObjectMap Obj → Related → Act Obj Related
  resyncs_after : Obj → ℕ → Act Obj Related
  updates_status : Obj → Act Obj Related
  updates_parent : Obj → Act Obj Related
  manages : Obj → ObjectMap Obj → ObjectMap Obj → Act Obj Related

-- `DecoratorHookResponse`. A label or annotation without a value is to be removed, and a status that is
-- not there is left as it is.
pub record SyncResult (Obj Status : Type 0) : Type 0 where
  pub labels : Dict String (Option String)
  pub annotations : Dict String (Option String)
  pub status : Option Status
  pub attachments : List Obj
  pub resync_after : ℕ
  pub finalized : Bool

-- The components that a sync calls, and the fields of objects. `status_of` is `NestedMap` and `set_status`
-- is `SetNestedField`, both `none` on an error; a missing status is read as an empty one.
pub record Parts (Obj Related Status : Type 0) : Type 0 where
  pub acc : Accessors Obj
  pub cancelled : Bool
  pub has_client : Obj → Bool
  pub has_finalizer : Obj → Bool
  pub selected : Obj → Bool
  pub should_finalize : Obj → Bool
  pub sync_finalizer : Obj → Result SyncError Obj
  pub get_children : Obj → Result SyncError (ObjectMap Obj)
  pub related : Obj → Result SyncError Related
  pub call_hook : Obj → ObjectMap Obj → Related → Result SyncError (SyncResult Obj Status)
  pub labels : Obj → Strings
  pub annotations : Obj → Strings
  pub set_labels : Obj → Strings → Obj
  pub set_annotations : Obj → Strings → Obj
  pub status_of : Obj → Option Status
  pub set_status : Obj → Status → Option Obj
  pub same_status : Status → Status → Bool
  pub has_status_subresource : Bool
  pub set_resource_version : Obj → String → Obj
  pub remove_finalizer : Obj → Obj
  pub update_status : Obj → Result Reason Obj
  pub update : Obj → Result Reason Obj
  pub mark : Obj → Obj
  pub marked : Obj → Bool
  pub manage : Obj → ObjectMap Obj → ObjectMap Obj → Option SyncError

-- What is to be changed on the parent.
pub record Changes (Status : Type 0) : Type 0 where
  pub labels : Strings
  pub annotations : Strings
  pub status : Status
  pub metadata_changed : Bool
  pub status_changed : Bool
  pub finalized : Bool

module _ {Obj Related Status : Type 0} (p : Parts Obj Related Status) where
  abbrev pub Acts : Type 0
  Acts = List (Act Obj Related)

  abbrev pub Run : Type 0
  Run = Option SyncError × Acts

  abbrev pub act : Act Obj Related → Acts → Acts
  act a acts = acts ++ (a ∷ [])

  abbrev pub ignored : Obj → Bool
  ignored parent = not (p.selected parent) && not (p.has_finalizer parent)

  -- The loops that mark the desired children with the annotation of the decorator.
  unfoldable pub mark_child : Obj → Obj
  mark_child o = if p.marked o then o else p.mark o

  unfoldable pub mark_group : Named Obj → Named Obj
  unfolding mark_child
  mark_group [] = []
  mark_group ((name, o) ∷ group) = (name, mark_child o) ∷ mark_group group

  unfoldable pub mark_all : ObjectMap Obj → ObjectMap Obj
  unfolding mark_group
  mark_all [] = []
  mark_all ((gvk, group) ∷ m) = (gvk, mark_group group) ∷ mark_all m

  -- From the marking of the desired children on.
  unfoldable pub reconcile : Obj → ObjectMap Obj → ObjectMap Obj → Acts → Run
  unfolding mark_all
  reconcile parent observed desired acts =
      if not (is_some (p.acc.deletion_timestamp parent)) || p.should_finalize parent
      then (
        p.manage parent observed (mark_all desired),
        act (manages parent observed (mark_all desired)) acts,
      )
      else (none, acts)

  -- An update of the parent that is refused ends the sync, without an error where the parent is gone or
  -- has been modified meanwhile.
  unfoldable pub refused : Reason → Acts → Run
  refused not_found acts = (none, acts)
  refused conflict acts = (none, acts)
  refused _ acts = (some failed, acts)

  unfoldable pub after_update : Obj → ObjectMap Obj → ObjectMap Obj → Result Reason Obj → Acts → Run
  unfolding reconcile refused
  after_update parent observed desired (err e) acts = refused e acts
  after_update parent observed desired (ok o) acts = reconcile parent observed desired acts

  abbrev pub finalized_parent : Changes Status → Obj → Obj
  finalized_parent c updated = if c.finalized then p.remove_finalizer updated else updated

  unfoldable pub send_update :
      Obj → ObjectMap Obj → ObjectMap Obj → Changes Status → Obj → Acts → Run
  unfolding after_update
  send_update parent observed desired c updated acts =
      after_update parent observed desired (p.update (finalized_parent c updated))
        (act (updates_parent (finalized_parent c updated)) acts)

  unfoldable pub after_status :
      Obj → ObjectMap Obj → ObjectMap Obj → Changes Status → Obj → Result Reason Obj → Acts → Run
  unfolding send_update refused
  after_status parent observed desired c updated (err e) acts = refused e acts
  after_status parent observed desired c updated (ok o) acts =
      send_update parent observed desired c
        (p.set_resource_version updated (p.acc.resource_version o)) acts

  -- The updates of the parent, from the copy that has its new labels, annotations and status.
  unfoldable pub update_parent :
      Obj → ObjectMap Obj → ObjectMap Obj → Changes Status → Option Obj → Acts → Run
  unfolding after_status send_update
  update_parent parent observed desired c none acts = (some failed, acts)
  update_parent parent observed desired c (some updated) acts =
      if c.status_changed && p.has_status_subresource
      then after_status parent observed desired c updated (p.update_status updated)
          (act (updates_status updated) acts)
      else send_update parent observed desired c updated acts

  abbrev pub changed : Obj → Changes Status → Bool
  changed parent c =
      c.metadata_changed || c.status_changed || (c.finalized && p.has_finalizer parent)

  -- Only where something has changed is the parent updated.
  unfoldable pub decorate : Obj → ObjectMap Obj → ObjectMap Obj → Changes Status → Acts → Run
  unfolding update_parent reconcile
  decorate parent observed desired c acts =
      if changed parent c
      then update_parent parent observed desired c
          (p.set_status (p.set_annotations (p.set_labels parent c.labels) c.annotations) c.status)
          acts
      else reconcile parent observed desired acts

  -- What the hook's answer changes on a parent with a status.
  unfoldable pub changes : Obj → SyncResult Obj Status → Status → Changes Status
  unfolding update_string_map
  changes parent result status =
      let (labels, labels_changed) = update_string_map (p.labels parent) result.labels in
      let (annotations, annotations_changed) =
        update_string_map (p.annotations parent) result.annotations in
      record {
        labels = labels;
        annotations = annotations;
        status = or_default status result.status;
        metadata_changed = labels_changed || annotations_changed;
        status_changed = not (p.same_status status (or_default status result.status));
        finalized = result.finalized;
      }

  unfoldable pub after_delay :
      Obj → ObjectMap Obj → SyncResult Obj Status → Option Status → Acts → Run
  unfolding decorate changes
  after_delay parent observed result none acts = (some failed, acts)
  after_delay parent observed result (some status) acts =
      decorate parent observed
        (make_object_map p.acc (qualified_name p.acc) parent result.attachments)
        (changes parent result status) acts

  unfoldable pub after_hook :
      Obj → ObjectMap Obj → Result SyncError (SyncResult Obj Status) → Acts → Run
  unfolding after_delay
  after_hook parent observed (err e) acts = (some e, acts)
  after_hook parent observed (ok result) acts =
      after_delay parent observed result (p.status_of parent) (
        if ltb 0 result.resync_after
        then act (resyncs_after parent result.resync_after) acts
        else acts)

  unfoldable pub after_related : Obj → ObjectMap Obj → Result SyncError Related → Acts → Run
  unfolding after_hook
  after_related parent observed (err e) acts = (some e, acts)
  after_related parent observed (ok related) acts =
      after_hook parent observed (p.call_hook parent observed related)
        (act (calls_hook parent observed related) acts)

  unfoldable pub after_children : Obj → Result SyncError (ObjectMap Obj) → Acts → Run
  unfolding after_related
  after_children parent (err e) acts = (some e, acts)
  after_children parent (ok observed) acts =
      after_related parent observed (p.related parent) (act (asks_related parent) acts)

  unfoldable pub after_finalizer : Result SyncError Obj → Acts → Run
  unfolding after_children
  after_finalizer (err e) acts = (some e, acts)
  after_finalizer (ok parent) acts =
      if ignored parent then (none, acts) else after_children parent (p.get_children parent) acts

  -- `syncParentObject`
  unfoldable pub sync_parent_object : Obj → Run
  unfolding after_finalizer
  sync_parent_object parent =
      if p.cancelled
      then (some failed, [])
      else if ignored parent
      then (none, [])
      else if not (p.has_client parent)
      then (some failed, [])
      else after_finalizer (p.sync_finalizer parent) (syncs_finalizer parent ∷ [])
