-- ===== src/Finalizers/Tests.antt =====
-- The theorems on finalizers for an object that gets one.
use metacontroller.Prelude.{
  String, true, false, none, List, [], ◌∷◌, ok, ◌≡◌, refl, ◌↔◌, In, contains, string_eq, nat_eq,
  ◌==◌, not, select, arith,
}
use metacontroller.Objects.{PlainObject, plain_accessors, plain_object}
use metacontroller.Clientset.{
  Server, FinalizerUtil, IsFinalizerUtil, atomic_update, retried, attempt, write_change,
  client_add_finalizer,
}
use metacontroller.Finalizers.{Finalizer, should_finalize, sync_object}
use metacontroller.Finalizers.Settled.{should_finalize_iff, Settled, sync_object-Settled}

abbrev parent : PlainObject
parent = plain_object (record { group = ""; version = "v1"; kind = "Pod" }) "ns" "a" "1"

abbrev util : FinalizerUtil PlainObject
util = record {
  contains_finalizer = λ o name. contains name o.finalizers;
  add_finalizer = λ o name. record o { finalizers = name ∷ o.finalizers };
  remove_finalizer =
      λ o name. record o { finalizers = select (λ item. not (item == name)) o.finalizers };
}

removed :
    (name : String) (items : List String)
    → contains name (select (λ item. not (item == name)) items) ≡ false
unfolding contains select
removed name [] = refl
removed name (item ∷ items) = ground (arith, removed name items, string_eq.same_iff item name)

util-IsFinalizerUtil : IsFinalizerUtil util
unfolding contains
util-IsFinalizerUtil = record {
  added = λ o name. ground (arith, string_eq.same_iff name name);
  removed = λ o name. removed name o.finalizers;
}

abbrev server : Server PlainObject
server = record {
  ctx_err = λ n. none;
  get = λ n. ok parent;
  update = λ n o. ok o;
  update_status = λ n o. ok o;
  has_status = false;
  retry = λ errors. 0;
}

abbrev finalizer : Finalizer
finalizer = record { name = "f"; enabled = true }

abbrev stored : PlainObject
stored = record parent { finalizers = "f" ∷ [] }

sync_object-Settled_example : Settled plain_accessors util finalizer parent stored
unfolding sync_object client_add_finalizer atomic_update retried attempt write_change contains
sync_object-Settled_example =
    sync_object-Settled plain_accessors util finalizer server parent stored util-IsFinalizerUtil
      (λ n o other e. cc e) refl

should_finalize_iff_example : (should_finalize plain_accessors util finalizer stored ≡ true) ↔ (
    (true ≡ true)
    × (util.contains_finalizer stored "f" ≡ true)
    × (In "foregroundDeletion" stored.finalizers → ⊥)
    × (In "orphan" stored.finalizers → ⊥))
should_finalize_iff_example = should_finalize_iff plain_accessors util finalizer stored
