-- ===== src/Composite/Sync.antt =====
-- `syncParentObject` of pkg/controller/composite/controller.go with `updateParentStatus`: the stages of a
-- sync, each over the component that it calls. What changes something is recorded in the log.
pub mod Orderly
pub mod Managed
mod Tests
use Prim.Native.Nat.{◌+◌}
use metacontroller.Prelude.{
  ℕ, String, Bool, true, false, not, ◌||◌, ◌&&◌, Option, none, some, List, [], ◌∷◌, ◌++◌, ◌==◌,
  string_eq, Dict, has, insert, or_default, Result, ok, err, if◌then◌else◌, is_some, ltb,
}
use metacontroller.Names.{Gvk}
use metacontroller.Objects.{Accessors}
use metacontroller.ControllerRef.{Reason, conflict, not_found}
use metacontroller.ObjectMap.{Named, ObjectMap, make_object_map, qualified_name}
use metacontroller.Composite.Queue.{SyncError, failed, Log, Outside, enqueue_parent_object_after}

abbrev pub Labels : Type 0
Labels = Dict String String

-- What syncParentObject does, in the order of its stages.
pub data Act (Obj Related Status : Type 0) : Type 0 where
  syncs_finalizer : Obj → Act Obj Related Status
  claims : Obj → Act Obj Related Status
  asks_related : Obj → Act Obj Related Status
  syncs_revisions : Obj → ObjectMap Obj → Related → Act Obj Related Status
  removes_finalizer : Obj → Act Obj Related Status
  manages : Obj → ObjectMap Obj → ObjectMap Obj → Act Obj Related Status
  updates_status : Obj → Status → Act Obj Related Status

-- `SyncHookResponse` of the revisions together; the delay is in nanoseconds.
pub record SyncResult (Obj Status : Type 0) : Type 0 where
  pub status : Status
  pub children : List Obj
  pub resync_after : ℕ
  pub finalized : Bool

-- The components that a sync calls, and the objects' labels. `selector` is what `makeSelector` gives for
-- a parent, and `labels_of` is `NestedStringMap`, both `none` on an error; `update_status` writes a
-- status, with the observed generation that updateParentStatus adds, by an atomic status update.
pub record Parts (Obj Related Status : Type 0) : Type 0 where
  pub acc : Accessors Obj
  pub out : Outside Obj
  pub cancelled : Bool
  pub generate_selector : Bool
  pub has_finalizer : Obj → Bool
  pub selected : Obj → Bool
  pub should_finalize : Obj → Bool
  pub sync_finalizer : Obj → Result SyncError Obj
  pub remove_finalizer : Obj → Result SyncError Obj
  pub claim : Obj → Result SyncError (ObjectMap Obj)
  pub related : Obj → Result SyncError Related
  pub sync_revisions :
      Obj → ObjectMap Obj → Related → Result SyncError (Option (SyncResult Obj Status))
  pub selector : Obj → Option (Labels → Bool)
  pub labels_of : Obj → Option Labels
  pub set_labels : Obj → Labels → Obj
  pub manage : Obj → ObjectMap Obj → ObjectMap Obj → Option SyncError
  pub update_status : Obj → Status → Option Reason

module _ {Obj Related Status : Type 0} (p : Parts Obj Related Status) where
  abbrev pub Run : Type 0
  Run = Option SyncError × Log Obj (Act Obj Related Status)

  abbrev pub act :
      Act Obj Related Status → Log Obj (Act Obj Related Status) → Log Obj (Act Obj Related Status)
  act a log = record log { acts = log.acts ++ (a ∷ []) }

  -- `doNotMatchLabels` without our finalizer: a parent that is none of ours.
  abbrev pub ignored : Obj → Bool
  ignored parent = not (p.has_finalizer parent) && not (p.selected parent)

  -- The labels that a generated selector wants on a desired child.
  abbrev pub with_controller_uid : Obj → Labels → Labels
  with_controller_uid parent labels =
      if has "controller-uid" labels
      then labels
      else insert "controller-uid" (p.acc.uid parent) labels

  -- The labels of a desired child that are matched, and the child with them.
  unfoldable pub label_child : Obj → Obj → Labels → Labels × Obj
  label_child parent o labels =
      if p.generate_selector && not (has "controller-uid" labels)
      then (with_controller_uid parent labels, p.set_labels o (with_controller_uid parent labels))
      else (labels, o)

  -- The body of the loop over the desired children.
  unfoldable pub enforce_child : Obj → (Labels → Bool) → Obj → Result SyncError Obj
  unfolding label_child
  enforce_child parent selector o = elim (p.labels_of o) [
    | none ↦ err failed
    | some labels ↦
        let (matched, labelled) = label_child parent o labels in
        if not (selector matched) then err failed else ok labelled
  ]

  and_child :
      String → Result SyncError Obj → Result SyncError (Named Obj) → Result SyncError (Named Obj)
  and_child name (err e) rest = err e
  and_child name (ok o) (err e) = err e
  and_child name (ok o) (ok rest) = ok ((name, o) ∷ rest)

  unfoldable pub enforce_group : Obj → (Labels → Bool) → Named Obj → Result SyncError (Named Obj)
  unfolding enforce_child and_child
  enforce_group parent selector [] = ok []
  enforce_group parent selector ((name, o) ∷ group) =
      and_child name (enforce_child parent selector o) (enforce_group parent selector group)

  and_group :
      Gvk
      → Result SyncError (Named Obj)
      → Result SyncError (ObjectMap Obj)
      → Result SyncError (ObjectMap Obj)
  and_group gvk (err e) rest = err e
  and_group gvk (ok group) (err e) = err e
  and_group gvk (ok group) (ok rest) = ok ((gvk, group) ∷ rest)

  -- The loops that enforce the parent's selector.
  unfoldable pub enforce_labels :
      Obj → (Labels → Bool) → ObjectMap Obj → Result SyncError (ObjectMap Obj)
  unfolding enforce_group and_group
  enforce_labels parent selector [] = ok []
  enforce_labels parent selector ((gvk, group) ∷ m) =
      and_group gvk (enforce_group parent selector group) (enforce_labels parent selector m)

  -- The end: the status is updated whatever managing the children has given, but its error is returned
  -- only where the update succeeds.
  unfoldable pub end_with_status : Option SyncError → Option Reason → Option SyncError
  end_with_status manage_err none = manage_err
  end_with_status manage_err (some not_found) = none
  end_with_status manage_err (some conflict) = none
  end_with_status manage_err (some _) = some failed

  unfoldable pub update_parent_status :
      Obj → Status → Option SyncError → Log Obj (Act Obj Related Status) → Run
  unfolding end_with_status
  update_parent_status parent status manage_err log = (
    end_with_status manage_err (p.update_status parent status),
    act (updates_status parent status) log,
  )

  -- From the desired children on.
  unfoldable pub reconcile :
      Obj
      → ObjectMap Obj
      → Status
      → Result SyncError (ObjectMap Obj)
      → Log Obj (Act Obj Related Status)
      → Run
  unfolding update_parent_status
  reconcile parent observed status (err e) log = (some e, log)
  reconcile parent observed status (ok desired) log =
      if not (is_some (p.acc.deletion_timestamp parent)) || p.should_finalize parent
      then update_parent_status parent status (p.manage parent observed desired)
          (act (manages parent observed desired) log)
      else update_parent_status parent status none log

  unfoldable pub enforce_selector :
      Obj → Option (Labels → Bool) → ObjectMap Obj → Result SyncError (ObjectMap Obj)
  unfolding enforce_labels
  enforce_selector parent none desired = err failed
  enforce_selector parent (some selector) desired = enforce_labels parent selector desired

  unfoldable pub enforce_and_reconcile :
      ObjectMap Obj
      → Status
      → ObjectMap Obj
      → Result SyncError Obj
      → Log Obj (Act Obj Related Status)
      → Run
  unfolding reconcile enforce_selector
  enforce_and_reconcile observed status desired (err e) log = (some e, log)
  enforce_and_reconcile observed status desired (ok parent) log =
      reconcile parent observed status (enforce_selector parent (p.selector parent) desired) log

  -- The finalizer is removed once all revisions have finished.
  unfoldable pub finish :
      Obj → ObjectMap Obj → Status → ObjectMap Obj → Bool → Log Obj (Act Obj Related Status) → Run
  unfolding enforce_and_reconcile
  finish parent observed status desired true log =
      enforce_and_reconcile observed status desired (p.remove_finalizer parent)
        (act (removes_finalizer parent) log)
  finish parent observed status desired false log =
      enforce_and_reconcile observed status desired (ok parent) log

  -- After the hook: a missing result ends the sync, and a delay is queued.
  unfoldable pub after_revisions :
      Obj
      → ObjectMap Obj
      → Result SyncError (Option (SyncResult Obj Status))
      → Log Obj (Act Obj Related Status)
      → Run
  unfolding finish enqueue_parent_object_after
  after_revisions parent observed (err e) log = (some e, log)
  after_revisions parent observed (ok none) log = (none, log)
  after_revisions parent observed (ok (some result)) log =
      finish parent observed result.status
        (make_object_map p.acc (qualified_name p.acc) parent result.children) result.finalized
        (if ltb 0 result.resync_after
          then enqueue_parent_object_after p.out parent result.resync_after log
          else log)

  unfoldable pub after_related :
      Obj → ObjectMap Obj → Result SyncError Related → Log Obj (Act Obj Related Status) → Run
  unfolding after_revisions
  after_related parent observed (err e) log = (some e, log)
  after_related parent observed (ok related) log =
      after_revisions parent observed (p.sync_revisions parent observed related)
        (act (syncs_revisions parent observed related) log)

  unfoldable pub after_claims :
      Obj → Result SyncError (ObjectMap Obj) → Log Obj (Act Obj Related Status) → Run
  unfolding after_related
  after_claims parent (err e) log = (some e, log)
  after_claims parent (ok observed) log =
      after_related parent observed (p.related parent) (act (asks_related parent) log)

  unfoldable pub after_finalizer : Result SyncError Obj → Log Obj (Act Obj Related Status) → Run
  unfolding after_claims
  after_finalizer (err e) log = (some e, log)
  after_finalizer (ok parent) log =
      if ignored parent
      then (none, log)
      else after_claims parent (p.claim parent) (act (claims parent) log)

  -- `syncParentObject`
  unfoldable pub sync_parent_object : Obj → Log Obj (Act Obj Related Status) → Run
  unfolding after_finalizer
  sync_parent_object parent log =
      if p.cancelled
      then (some failed, log)
      else if ignored parent
      then (none, log)
      else after_finalizer (p.sync_finalizer parent) (act (syncs_finalizer parent) log)
