-- ===== src/Apply.antt =====
-- pkg/dynamic/apply/apply.go: the three-way merge in the style of `kubectl apply`.
-- `merge` recurs through `mergeObject` and `mergeListMap`; here these take the recursive call as an
-- argument, and `merge` itself runs on fuel. Error texts are left out; the error names its side.
-- The keys of the items of a list map are read before the merge changes the items in place; the two
-- readings agree when the merge key of each item is a scalar.
pub mod Total
pub mod Fields
pub mod Detect
pub mod Rebuild
pub mod Annotation
mod Tests
use metacontroller.Prelude.{
  ℕ, zero, suc, String, Bool, true, false, not, ◌&&◌, Option, none, some, List, [], ◌∷◌, ◌++◌,
  lookup, has, get_or, insert, delete, keys, Result, ok, err, ◌>>=◌, if◌then◌else◌, is_some,
  or_default, select, contains, string_eq,
}
use metacontroller.Json.{Value, null, str, arr, obj, Object, items, entries, object, array, height}

pub data MergeError : Type 0 where
  last_applied_type desired_type out_of_fuel : MergeError

-- `fmt.Sprintf("%v", val)` of a value that is no string.
abbrev pub Printer : Type 0
Printer = Value → String

-- The two-valued type assertions `v.(map[string]interface{})` and `v.([]interface{})`: a failed one
-- gives the zero value, which is nil.
unfoldable pub assert_object : Value → Option Object × Bool
assert_object (obj fs) = (some (entries fs), true)
assert_object _ = (none, false)

unfoldable pub assert_array : Value → Option (List Value) × Bool
assert_array (arr xs) = (some (items xs), true)
assert_array _ = (none, false)

-- A nil map reads as an empty one, and so does a nil slice.
abbrev pub or_empty {ℓ} : {A : Type ℓ} → Option (List A) → List A
or_empty o = or_default [] o

-- The map behind an item that is an object; `detect_list_map_key` has seen that all items are.
abbrev pub fields_of : Value → Object
fields_of (obj fs) = entries fs
fields_of _ = []

unfoldable pub string_merge_key : Printer → Value → String
string_merge_key print (str s) = s
string_merge_key print v = print v

abbrev pub item_key : Printer → String → Value → String
item_key print merge_key item = string_merge_key print (get_or null merge_key (fields_of item))

-- `makeListMap`: a later item with the key of an earlier one takes its place.
list_map_from : Printer → String → Object → List Value → Object
list_map_from print merge_key res [] = res
list_map_from print merge_key res (item ∷ list) =
    list_map_from print merge_key (insert (item_key print merge_key item) item res) list

unfoldable pub make_list_map : Printer → String → List Value → Object
unfolding list_map_from
make_list_map print merge_key list = list_map_from print merge_key [] list

abbrev pub known_merge_keys : List String
known_merge_keys = "containerPort" ∷ "port" ∷ "mountPath" ∷ "name" ∷ "uid" ∷ "ip" ∷ "path" ∷ []

-- The keys that all the objects seen so far have in common; `none` before the first object.
abbrev pub common_with : Option (List String) → Object → List String
common_with none fields = keys fields
common_with (some common) fields = select (λ key. has key fields) common

-- The two nested loops over the lists; the outer `none` is the early `return ""`.
unfoldable pub common_keys : Option (List String) → List Value → Option (Option (List String))
common_keys common [] = some common
common_keys common (obj fs ∷ rest) = common_keys (some (common_with common (entries fs))) rest
common_keys common (_ ∷ rest) = none

first_known : List String → List String → Option String
first_known common [] = none
first_known common (key ∷ known) =
    let rest = first_known common known in if contains key common then some key else rest

-- `none` stands for the empty string.
unfoldable pub detect_list_map_key : List Value → List Value → List Value → Option String
unfolding first_known common_keys
detect_list_map_key destination last_applied desired =
    elim (common_keys none (destination ++ (last_applied ++ desired))) [
      | none ↦ none
      | some common ↦ first_known (or_empty common) known_merge_keys
    ]

-- The loop that deletes what was applied before and is not desired any more.
unfoldable pub remove_stale : Object → Object → Object → Object
remove_stale [] desired destination = destination
remove_stale ((key, v) ∷ last_applied) desired destination =
    remove_stale last_applied desired
      (if has key desired then destination else delete key destination)

abbrev pub Merger : Type 0
Merger = Value → Value → Value → Result MergeError Value

module _ (recur : Merger) where
  -- The loop over the desired fields.
  unfoldable pub set_desired : Object → Object → Object → Result MergeError Object
  set_desired last_applied [] destination = ok destination
  set_desired last_applied ((key, v) ∷ desired) destination =
      recur (get_or null key destination) (get_or null key last_applied) v >>= λ merged.
      set_desired last_applied desired (insert key merged destination)

  unfoldable pub merge_object : Object → Object → Object → Result MergeError Object
  unfolding remove_stale set_desired
  merge_object destination last_applied desired =
      set_desired last_applied desired (remove_stale last_applied desired destination)

-- The first loop of the rebuilt list: the observed items that are left, with their new values, and
-- the keys added. `destList` and `added` grow together.
unfoldable pub keep_observed :
    Printer → String → Object → List Value → List Value × List String → List Value × List String
keep_observed print merge_key merged [] acc = acc
keep_observed print merge_key merged (item ∷ destination) (list, added) =
    keep_observed print merge_key merged destination (
      let key = item_key print merge_key item in
      elim (lookup key merged) [
        | none ↦ (list, added)
        | some new_item ↦ (list ++ (new_item ∷ []), key ∷ added)
      ])

-- The second loop: the desired items that are not there yet.
unfoldable pub add_desired :
    Printer → String → Object → List Value → List Value × List String → List Value × List String
add_desired print merge_key merged [] acc = acc
add_desired print merge_key merged (item ∷ desired) (list, added) =
    add_desired print merge_key merged desired (
      let key = item_key print merge_key item in
      if contains key added
      then (list, added)
      else (list ++ (get_or null key merged ∷ []), key ∷ added))

unfoldable pub rebuild : Printer → String → Object → List Value → List Value → List Value
unfolding keep_observed add_desired
rebuild print merge_key merged destination desired =
    (add_desired print merge_key merged desired
      (keep_observed print merge_key merged destination ([], []))).0

module _ (print : Printer) (recur : Merger) where
  unfoldable pub merge_list_map :
      String → List Value → List Value → List Value → Result MergeError Value
  merge_list_map merge_key destination last_applied desired =
      merge_object recur (make_list_map print merge_key destination)
        (make_list_map print merge_key last_applied) (make_list_map print merge_key desired)
      >>= λ merged. ok (array (rebuild print merge_key merged destination desired))

  unfoldable pub merge_array : List Value → List Value → List Value → Result MergeError Value
  merge_array destination last_applied desired =
      elim (detect_list_map_key destination last_applied desired) [
        | none ↦ ok (array desired)
        | some merge_key ↦ merge_list_map merge_key destination last_applied desired
      ]

  object_case : Object → Option Object × Bool → Option Object × Bool → Result MergeError Value
  object_case dest_val (last_val, last_ok) (des_val, des_ok) =
      if not last_ok && is_some last_val
      then err last_applied_type
      else if not des_ok && is_some des_val
      then err desired_type
      else (merge_object recur dest_val (or_empty last_val) (or_empty des_val) >>= λ merged.
          ok (object merged))

  array_case :
      List Value → Option (List Value) × Bool → Option (List Value) × Bool → Result MergeError Value
  array_case dest_val (last_val, last_ok) (des_val, des_ok) =
      if not last_ok && is_some last_val
      then err last_applied_type
      else if not des_ok && is_some des_val
      then err desired_type
      else merge_array dest_val (or_empty last_val) (or_empty des_val)

  -- The type switch of `merge`.
  unfoldable pub merge_step : Merger
  unfolding object_case array_case
  merge_step (obj fs) last_applied desired =
      object_case (entries fs) (assert_object last_applied) (assert_object desired)
  merge_step (arr xs) last_applied desired =
      array_case (items xs) (assert_array last_applied) (assert_array desired)
  merge_step _ last_applied desired = ok desired

unfoldable pub merge : Printer → ℕ → Merger
merge print zero destination last_applied desired = err out_of_fuel
merge print (suc fuel) destination last_applied desired =
    merge_step print (merge print fuel) destination last_applied desired

-- The same with the fuel that is enough: one unit for each level of the desired value.
unfoldable pub merge_value : Printer → Merger
merge_value print destination last_applied desired =
    merge print (suc (height desired)) destination last_applied desired

-- `Merge`: the copy of `observed` that `merge` has changed in place is the result.
unfoldable pub merge_objects : Printer → Object → Object → Object → Result MergeError Object
merge_objects print observed last_applied desired =
    merge_value print (object observed) (object last_applied) (object desired) >>= λ merged.
    ok (fields_of merged)
