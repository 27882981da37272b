-- ===== src/Decorator/Sync/Tests.antt =====
-- The theorem on a decorator's sync for a parent that gets a label and a child.
use metacontroller.Prelude.{String, Bool, true, false, none, some, List, [], ◌∷◌, ok, refl}
use metacontroller.Objects.{PlainObject, plain_accessors}
use metacontroller.Composite.Samples.{parent, orphan}
use metacontroller.Decorator.Sync.{SyncResult, Parts, sync_parent_object}
use metacontroller.Decorator.Sync.Stages.{Ends}
use metacontroller.Decorator.Sync.Orderly.{decorator_sync-Ends}

abbrev is_marked : List String → Bool
is_marked [] = false
is_marked (item ∷ items) = true

abbrev result : SyncResult PlainObject String
result = record {
  labels = ("app", some "a") ∷ [];
  annotations = [];
  status = none;
  attachments = orphan ∷ [];
  resync_after = 0;
  finalized = false;
}

abbrev parts : Parts PlainObject String String
parts = record {
  acc = plain_accessors;
  cancelled = false;
  has_client = λ o. true;
  has_finalizer = λ o. false;
  selected = λ o. true;
  should_finalize = λ o. false;
  sync_finalizer = λ o. ok o;
  get_children = λ o. ok [];
  related = λ o. ok "none";
  call_hook = λ o observed related. ok result;
  labels = λ o. [];
  annotations = λ o. [];
  set_labels = λ o labels. o;
  set_annotations = λ o annotations. o;
  status_of = λ o. some "status";
  set_status = λ o status. some o;
  same_status = λ a b. true;
  has_status_subresource = true;
  set_resource_version = λ o version. o;
  remove_finalizer = λ o. o;
  update_status = λ o. ok o;
  update = λ o. ok o;
  mark = λ o. record o { finalizers = "marked" ∷ [] };
  marked = λ o. is_marked o.finalizers;
  manage = λ o observed desired. none;
}

decorator_sync-Ends_example : Ends parts parent (sync_parent_object parts parent).1
decorator_sync-Ends_example = decorator_sync-Ends parts parent (λ o. refl)
