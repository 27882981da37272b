-- ===== src/Composite/Events/Tests.antt =====
-- The theorems on events for an orphan and for a child of its parent.
use metacontroller.Prelude.{
  String, true, false, none, some, [], ◌∷◌, refl, In, All, inl, ok, if◌then◌else◌, ◌==◌, string_eq,
  cut,
}
use metacontroller.Names.{parse_api_version}
use metacontroller.Informers.Index.{first_controller}
use metacontroller.Objects.{PlainObject, plain_accessors}
use metacontroller.Composite.Samples.{parent, to_parent, orphan, owned_pod, controller_of}
use metacontroller.Composite.Queue.{add, Log, empty_log}
use metacontroller.Composite.Events.{
  Watch, object, tombstone, on_child_add, on_child_update, on_child_delete, may_adopt,
  resolve_controller_ref, accept_parent,
}
use metacontroller.Composite.Events.Queued.{
  Wanted, on_child_add-orphan, on_child_add-Wanted, child-controlled,
}

abbrev watch : Watch PlainObject
watch = record {
  acc = plain_accessors;
  out = record {
    split_key = λ key. some ("ns", key);
    get_object = λ namespace name. ok parent;
    key_func = λ o. some o.name;
  };
  group = "";
  kind = "Parent";
  namespaced = true;
  get_parent = λ namespace name. if name == "parent" then some parent else none;
  list_parents = λ namespace. some (parent ∷ []);
  controller_of = controller_of;
  labels = λ o. [];
  selector = λ o. some (record { matches = λ labels. true; empty = false });
  has_finalizer = λ o. false;
  selected = λ o. true;
  ignore_status_changes = none;
  same_object = λ a b. false;
  same_generation = λ a b. true;
  same_labels = λ a b. true;
  same_annotations = λ a b. true;
}

abbrev log : Log PlainObject String
log = empty_log

on_child_add-orphan_example : In (add "parent") (on_child_add watch orphan log).calls
unfolding may_adopt first_controller
on_child_add-orphan_example =
    on_child_add-orphan watch orphan parent (parent ∷ []) "parent" log refl refl refl (inl refl)
      refl refl refl

on_child_add-Wanted_example : All (Wanted watch orphan) (on_child_add watch orphan log).calls
on_child_add-Wanted_example = on_child_add-Wanted watch orphan log tt

abbrev changed : PlainObject
changed = record owned_pod { resource_version = "2" }

child-controlled_example :
    In (add "parent") (on_child_add watch changed log).calls
    × In (add "parent") (on_child_update watch owned_pod changed log).calls
    × In (add "parent") (on_child_delete watch (object changed) log).calls
    × In (add "parent") (on_child_delete watch (tombstone (some changed)) log).calls
unfolding resolve_controller_ref accept_parent first_controller parse_api_version cut
child-controlled_example =
    child-controlled watch owned_pod changed parent to_parent "parent" log refl refl refl refl refl
