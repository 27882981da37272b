-- ===== src/Status/Samples.antt =====
-- Field access by paths of one and of two names, for runs and examples.
use metacontroller.Prelude.{
  String, Option, none, some, List, [], ◌∷◌, Result, ok, err, ◌>>=◌, lookup, insert, or_default,
  string_eq,
}
use metacontroller.Json.{ℤ, Value, int, arr, obj, Object, items, entries}
use metacontroller.Status.{FieldAccess}

abbrev pub as_slice : Option Value → Result String (Option (List Value))
as_slice none = ok none
as_slice (some (arr xs)) = ok (some (items xs))
as_slice (some _) = err "not a slice"

abbrev pub as_map : Option Value → Result String (Option Object)
as_map none = ok none
as_map (some (obj fs)) = ok (some (entries fs))
as_map (some _) = err "not a map"

abbrev pub as_int64 : Option Value → Result String (Option ℤ)
as_int64 none = ok none
as_int64 (some (int n)) = ok (some n)
as_int64 (some _) = err "not an int64"

abbrev pub slice_at : Object → List String → Result String (Option (List Value))
slice_at o (key ∷ []) = as_slice (lookup key o)
slice_at o (key ∷ key' ∷ []) =
    as_map (lookup key o) >>= λ found. as_slice (lookup key' (or_default [] found))
slice_at o path = err "path"

abbrev pub map_at : Object → List String → Result String (Option Object)
map_at o (key ∷ []) = as_map (lookup key o)
map_at o path = err "path"

abbrev pub int64_at : Object → List String → Result String (Option ℤ)
int64_at o (key ∷ key' ∷ []) =
    as_map (lookup key o) >>= λ found. as_int64 (lookup key' (or_default [] found))
int64_at o path = err "path"

abbrev pub set_at : Object → Value → List String → Result String Object
set_at o v (key ∷ []) = ok (insert key v o)
set_at o v path = err "path"

abbrev pub access : FieldAccess
access = record {
  Error = String;
  nested_slice = slice_at;
  nested_map = map_at;
  nested_int64 = int64_at;
  assigned = λ o path xs. o;
  set_nested_field = set_at;
}
