-- ===== src/Apply/Tests.antt =====
-- Runs of the merge, and its theorems at concrete objects.
use metacontroller.Prelude.{
  ℕ, delete, insert, contains, select, keys, String, none, some, List, [], ◌∷◌, ◌++◌, ok, ◌≡◌, refl,
  arith, get_or, All, In, inl, inr, lookup, if◌then◌else◌, ◌==◌, string_eq,
}
use metacontroller.Json.{Value, null, int, str, pos, Object, object, height, to_fields}
use metacontroller.Apply.{
  Printer, merge, merge_value, merge_objects, rebuild, item_key, detect_list_map_key,
  known_merge_keys, merge_step, merge_object, remove_stale, assert_object,
}
use metacontroller.Apply.Total.{merge_total, merge_fuel}
use metacontroller.Apply.Fields.{three_way, merge_objects_field, merge_value-dropped}
use metacontroller.Apply.Detect.{HasField, detect_list_map_key_sound, detect_list_map_key_complete}
use metacontroller.Apply.Rebuild.{kept, rebuild_complete}
use metacontroller.Apply.Annotation.{
  Codec, set_last_applied, get_last_applied, last_applied_annotation,
  get_last_applied-set_last_applied, Annotations,
}

abbrev print_none : Printer
print_none v = "?"

abbrev n : ℕ → Value
n k = int (pos k)

abbrev observed : Object
observed = ("a", n 1) ∷ ("b", n 2) ∷ ("c", n 3) ∷ []

abbrev last : Object
last = ("a", n 1) ∷ ("b", n 2) ∷ []

abbrev desired : Object
desired = ("a", n 5) ∷ ("d", n 4) ∷ []

abbrev container : String → ℕ → Value
container name k = object (("name", str name) ∷ ("image", n k) ∷ [])

abbrev observed_list : List Value
observed_list = container "x" 1 ∷ container "y" 2 ∷ []

abbrev desired_list : List Value
desired_list = container "z" 3 ∷ container "y" 4 ∷ []

merge_runs :
    merge_objects print_none observed last desired ≡ ok (("a", n 5) ∷ ("c", n 3) ∷ ("d", n 4) ∷ [])
unfolding merge_objects merge_value merge height merge_step assert_object merge_object lookup delete
    insert
merge_runs = refl

merge_total_example :
    (w : Value) × (merge print_none 3 (object observed) null (object desired) ≡ ok w)
unfolding height
merge_total_example = merge_total print_none 3 (object observed) null (object desired) (omega arith)

merge_fuel_example :
    merge print_none 3 (object observed) null (object desired)
    ≡ merge print_none 7 (object observed) null (object desired)
unfolding height
merge_fuel_example =
    merge_fuel print_none 3 7 (object observed) null (object desired) (omega arith) (omega arith)

merge_objects_field_example :
    (out : Object) × (merge_objects print_none observed last desired ≡ ok out)
    × ((k : String)
        → three_way (merge_value print_none) (lookup k observed) (lookup k last) (lookup k desired)
          ≡ ok (lookup k out))
unfolding lookup
merge_objects_field_example =
    merge_objects_field print_none observed last desired (refl, (refl, tt))

merge_value-dropped_example :
    merge_value print_none (object observed) (object last) (str "x") ≡ ok (object (("c", n 3) ∷ []))
unfolding remove_stale assert_object lookup delete
merge_value-dropped_example =
    merge_value-dropped print_none (to_fields observed) (object last) (str "x") refl

detected_name : detect_list_map_key observed_list [] desired_list ≡ some "name"
unfolding detect_list_map_key contains select keys lookup
detected_name = refl

detect_list_map_key_sound_example :
    In "name" known_merge_keys
    × All (HasField "name") observed_list
    × All (HasField "name") []
    × All (HasField "name") desired_list
detect_list_map_key_sound_example =
    detect_list_map_key_sound observed_list [] desired_list "name" detected_name

name_known : In "name" known_merge_keys
name_known = inr (inr (inr (inl refl)))

detect_list_map_key_complete_example :
    (k : String) × (detect_list_map_key observed_list [] desired_list ≡ some k)
unfolding lookup
detect_list_map_key_complete_example =
    detect_list_map_key_complete observed_list [] desired_list "name"
      (to_fields (("name", str "x") ∷ ("image", n 1) ∷ [])) (container "y" 2 ∷ desired_list) refl
      name_known (refl, (refl, (refl, (refl, tt))))

abbrev merged_list : Object
merged_list = ("x", container "x" 1) ∷ ("y", container "y" 4) ∷ ("z", container "z" 3) ∷ []

rebuild_complete_example :
    (new : List Value) × (rebuild print_none "name" merged_list observed_list desired_list
      ≡ kept print_none "name" merged_list observed_list ++ new)
    × All
        (λ item.
          In
            (get_or null (item_key print_none "name" item) merged_list)
            (rebuild print_none "name" merged_list observed_list desired_list))
        desired_list
rebuild_complete_example = rebuild_complete print_none "name" merged_list observed_list desired_list

abbrev codec : Codec
codec = record { marshal = λ m. some "{}"; unmarshal = λ t. some last }

get_last_applied-set_last_applied_example :
    (out : Annotations) × (set_last_applied codec none last ≡ ok out)
    × (get_last_applied codec (some out) ≡ ok (some last))
    × ((key : String)
        → lookup key out ≡ (if last_applied_annotation == key then some "{}" else lookup key []))
get_last_applied-set_last_applied_example =
    get_last_applied-set_last_applied codec none last "{}" refl refl
      (ground (arith, string_eq.same_iff "{}" ""))
