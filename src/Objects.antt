-- ===== src/Objects.antt =====
-- What the controllers read of a Kubernetes object through the accessors of
-- k8s.io/apimachinery (metav1.Object, unstructured.Unstructured), which are a parameter.
use metacontroller.Prelude.{String, Bool, Option, none, List, []}
use metacontroller.Json.{ℤ, pos, Object}
use metacontroller.Names.{Gvk}

-- metav1.OwnerReference
pub record OwnerReference : Type 0 where
  pub api_version : String
  pub kind : String
  pub name : String
  pub uid : String
  pub controller : Option Bool
  pub block_owner_deletion : Option Bool

pub record Accessors (Obj : Type 0) : Type 0 where
  pub gvk : Obj → Gvk
  pub api_version : Obj → String
  pub kind : Obj → String
  pub namespace : Obj → String
  pub name : Obj → String
  pub uid : Obj → String
  pub generation : Obj → ℤ
  pub resource_version : Obj → String
  pub deletion_timestamp : Obj → Option String
  pub finalizers : Obj → List String
  pub owner_references : Obj → List OwnerReference
  pub content : Obj → Object

-- An object that is its own metadata, for runs and examples.
pub record PlainObject : Type 0 where
  pub gvk : Gvk
  pub api_version : String
  pub namespace : String
  pub name : String
  pub uid : String
  pub generation : ℤ
  pub resource_version : String
  pub deletion_timestamp : Option String
  pub finalizers : List String
  pub owner_references : List OwnerReference
  pub content : Object

abbrev pub plain_accessors : Accessors PlainObject
plain_accessors = record {
  gvk = λ o. o.gvk;
  api_version = λ o. o.api_version;
  kind = λ o. o.gvk.kind;
  namespace = λ o. o.namespace;
  name = λ o. o.name;
  uid = λ o. o.uid;
  generation = λ o. o.generation;
  resource_version = λ o. o.resource_version;
  deletion_timestamp = λ o. o.deletion_timestamp;
  finalizers = λ o. o.finalizers;
  owner_references = λ o. o.owner_references;
  content = λ o. o.content;
}

abbrev pub plain_object : Gvk → String → String → String → PlainObject
plain_object gvk namespace name uid = record {
  gvk = gvk;
  api_version = gvk.version;
  namespace = namespace;
  name = name;
  uid = uid;
  generation = pos 1;
  resource_version = "1";
  deletion_timestamp = none;
  finalizers = [];
  owner_references = [];
  content = [];
}
