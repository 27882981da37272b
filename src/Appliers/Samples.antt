-- ===== src/Appliers/Samples.antt =====
-- Objects that are their own content, an API server and a codec, for runs and examples.
use metacontroller.Prelude.{
  String, false, Option, none, some, List, [], ◌∷◌, or_default, lookup, insert, string_eq, Result,
  ok,
}
use metacontroller.Json.{ℤ, pos, Value, null, int, str, Object, object}
use metacontroller.Objects.{Accessors, OwnerReference}
use metacontroller.ControllerRef.{Reason}
use metacontroller.Update.Samples.{content, inner, text}
use metacontroller.Appliers.{Outside, Request, applying}

abbrev pub meta_text : String → Object → String
meta_text name o = text (or_default null (lookup name (inner "metadata" o)))

abbrev pub as_text : Option Value → Option String
as_text (some (str s)) = some s
as_text _ = none

abbrev pub as_number : Option Value → ℤ
as_number (some (int n)) = n
as_number _ = pos 0

abbrev pub object_accessors : Accessors Object
object_accessors = record {
  gvk = λ o. record { group = ""; version = "v1"; kind = text (or_default null (lookup "kind" o)) };
  api_version = λ o. "v1";
  kind = λ o. text (or_default null (lookup "kind" o));
  namespace = meta_text "namespace";
  name = meta_text "name";
  uid = meta_text "uid";
  generation = λ o. as_number (lookup "generation" (inner "metadata" o));
  resource_version = meta_text "resourceVersion";
  deletion_timestamp = λ o. as_text (lookup "deletionTimestamp" (inner "metadata" o));
  finalizers = λ o. [];
  owner_references = λ o. [];
  content = λ o. o;
}

-- The owners of an object that is written are in one field.
abbrev pub owners : List OwnerReference → String
owners [] = ""
owners (ref ∷ refs) = ref.uid

abbrev pub child : String → String → Object → Object
child name uid rest =
    ("metadata", object (("namespace", str "ns") ∷ ("name", str name) ∷ ("uid", str uid) ∷ []))
    ∷ rest

-- Everything is granted; a server-side apply is answered with the child "a".
abbrev pub grants : Request → Result Reason Object
grants (applying client namespace name data_text dry) = ok (child "a" "1" [])
grants _ = ok []

abbrev pub outside : Outside
outside = record {
  acc = object_accessors;
  content = content;
  set_owner_references = λ o refs. insert "owner" (str (owners refs)) o;
  codec = record { marshal = λ o. some "{}"; unmarshal = λ s. some [] };
  print = λ v. "";
  deep_equal = λ a b. false;
  hash = λ s. 7;
  api = grants;
}
