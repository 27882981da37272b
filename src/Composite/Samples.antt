-- ===== src/Composite/Samples.antt =====
-- A parent with its children in a cache, for runs and examples.
use metacontroller.Prelude.{
  String, true, Option, some, List, [], ◌∷◌, ◌==◌, string_eq, ok, if◌then◌else◌, select, contains,
}
use metacontroller.Names.{Gvk}
use metacontroller.Objects.{OwnerReference, PlainObject, plain_accessors, plain_object}
use metacontroller.Informers.Index.{
  Indexer, owner_uid_index_func, orphan_index_func, first_controller,
}

abbrev pub kind_named : String → Gvk
kind_named kind = record { group = ""; version = "v1"; kind = kind }

abbrev pub parent : PlainObject
parent = plain_object (kind_named "Parent") "ns" "parent" "p"

abbrev pub to_parent : OwnerReference
to_parent = record {
  api_version = "v1";
  kind = "Parent";
  name = "parent";
  uid = "p";
  controller = some true;
  block_owner_deletion = some true;
}

abbrev pub orphan : PlainObject
orphan = plain_object (kind_named "Pod") "ns" "orphan" "1"

abbrev pub owned_pod : PlainObject
owned_pod = record (plain_object (kind_named "Pod") "ns" "mine" "2") {
  owner_references = to_parent ∷ [];
}

abbrev pub controller_of : PlainObject → Option OwnerReference
controller_of o = first_controller o.owner_references

abbrev pub pods : List PlainObject
pods = orphan ∷ owned_pod ∷ []

-- The items whose index function yields the key.
abbrev pub indexed : String → String → List PlainObject
indexed index key =
    if index == "ownerUID"
    then select (λ o. contains key (owner_uid_index_func plain_accessors o)) pods
    else select (λ o. contains key (orphan_index_func plain_accessors o)) pods

abbrev pub indexer : Indexer PlainObject
indexer = record { objects = pods; by_index = λ index key. ok (indexed index key) }
