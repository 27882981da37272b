-- ===== src/Composite/Sync/Tests.antt =====
-- The theorem on a sync for a parent with one desired child.
use metacontroller.Prelude.{
  get_or, insert, lookup, ◌==◌, string_eq, List, String, Bool, true, false, none, some, [], ◌∷◌,
  ◌≡◌, refl, ok,
}
use metacontroller.Objects.{Accessors, PlainObject}
use metacontroller.ObjectMap.{make_object_map, insert_object}
use metacontroller.Composite.Samples.{parent, orphan}
use metacontroller.Composite.Queue.{empty_log}
use metacontroller.Composite.Sync.{Labels, Act, manages, SyncResult, Parts, sync_parent_object}
use metacontroller.Composite.Sync.Orderly.{Ends, sync_parent_object-Ends}

-- Objects with their labels.
record Labelled : Type 0 where
  base : PlainObject
  labels : Labels

abbrev labelled : Accessors Labelled
labelled = record {
  gvk = λ o. o.base.gvk;
  api_version = λ o. o.base.api_version;
  kind = λ o. o.base.gvk.kind;
  namespace = λ o. o.base.namespace;
  name = λ o. o.base.name;
  uid = λ o. o.base.uid;
  generation = λ o. o.base.generation;
  resource_version = λ o. o.base.resource_version;
  deletion_timestamp = λ o. o.base.deletion_timestamp;
  finalizers = λ o. o.base.finalizers;
  owner_references = λ o. o.base.owner_references;
  content = λ o. o.base.content;
}

abbrev unlabelled : PlainObject → Labelled
unlabelled o = record { base = o; labels = [] }

abbrev result : SyncResult Labelled String
result = record {
  status = "synced";
  children = unlabelled orphan ∷ [];
  resync_after = 5;
  finalized = false;
}

-- Children get the UID of the parent as a label and are selected by it.
abbrev parts : Parts Labelled String String
parts = record {
  acc = labelled;
  out = record {
    split_key = λ key. some ("ns", key);
    get_object = λ namespace name. ok (unlabelled parent);
    key_func = λ o. some o.base.name;
  };
  cancelled = false;
  generate_selector = true;
  has_finalizer = λ o. false;
  selected = λ o. true;
  should_finalize = λ o. false;
  sync_finalizer = λ o. ok o;
  remove_finalizer = λ o. ok o;
  claim = λ o. ok [];
  related = λ o. ok "none";
  sync_revisions = λ o observed related. ok (some result);
  selector = λ o. some (λ labels. get_or "" "controller-uid" labels == o.base.uid);
  labels_of = λ o. some o.labels;
  set_labels = λ o labels. record o { labels = labels };
  manage = λ o observed desired. none;
  update_status = λ o status. none;
}

sync_parent_object-Ends_example :
    Ends parts (sync_parent_object parts (unlabelled parent) empty_log).1.acts
sync_parent_object-Ends_example =
    sync_parent_object-Ends parts (unlabelled parent) empty_log (λ o labels. refl) refl

abbrev managed : {Obj Related Status : Type 0} → List (Act Obj Related Status) → Bool
managed [] = false
managed (manages o observed desired ∷ acts) = true
managed (_ ∷ acts) = managed acts

-- The one desired child is managed.
managed_run : managed (sync_parent_object parts (unlabelled parent) empty_log).1.acts ≡ true
unfolding sync_parent_object make_object_map insert_object insert lookup
managed_run = refl
