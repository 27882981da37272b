-- ===== src/Update/Samples.antt =====
-- Content of objects read and written by paths of one and of two names, for runs and examples.
use metacontroller.Prelude.{
  String, Option, none, some, List, [], ◌∷◌, or_default, lookup, insert, delete, string_eq,
}
use metacontroller.Json.{Value, str, null, Object, object}
use metacontroller.Apply.{fields_of}
use metacontroller.Apply.Annotation.{Annotations}
use metacontroller.Update.{Content}

abbrev pub inner : String → Object → Object
inner key o = fields_of (or_default null (lookup key o))

abbrev pub get : Object → List String → Option (Option Value)
get o (key ∷ []) = some (lookup key o)
get o (key ∷ name ∷ []) = some (lookup name (inner key o))
get o path = none

abbrev pub set : Object → Value → List String → Option Object
set o v (key ∷ []) = some (insert key v o)
set o v (key ∷ name ∷ []) = some (insert key (object (insert name v (inner key o))) o)
set o v path = none

abbrev pub remove : Object → List String → Object
remove o (key ∷ []) = delete key o
remove o (key ∷ name ∷ []) = insert key (object (delete name (inner key o))) o
remove o path = o

abbrev pub text : Value → String
text (str s) = s
text v = ""

unfoldable pub texts : Object → Annotations
texts [] = []
texts ((key, v) ∷ o) = (key, text v) ∷ texts o

unfoldable pub strings : Annotations → Object
strings [] = []
strings ((key, s) ∷ a) = (key, str s) ∷ strings a

abbrev pub content : Content
content = record {
  annotations =
      λ o. some (texts (fields_of (or_default null (lookup "annotations" (inner "metadata" o)))));
  set_annotations = λ o a.
      insert "metadata" (object (insert "annotations" (object (strings a)) (inner "metadata" o))) o;
  get_field = get;
  set_field = set;
  remove_field = remove;
}
