-- ===== src/Status.antt =====
-- pkg/dynamic/object/status.go: conditions in the status of an object, and `childStatusCheck` of
-- pkg/controller/composite/rolling_update.go. The helpers of k8s.io/apimachinery's package unstructured that
-- read and write a field by its path are a parameter.
pub mod Conditions
pub mod Checks
pub mod Samples
mod Tests
use metacontroller.Prelude.{
  String, Bool, true, false, Option, none, some, List, [], ◌∷◌, ◌++◌, ◌==◌, string_eq,
  if◌then◌else◌, is_some, or_default, lookup, insert, Result, ok, err, ◌>>=◌,
}
use metacontroller.Json.{
  ℤ, Value, null, bool, int, float, str, arr, obj, Object, entries, object, array,
}

-- NestedSlice, NestedMap, NestedInt64 and SetNestedField; `none` is nothing found. `assigned` is what an
-- object is after items of the slice that NestedSlice has returned for a path were assigned, which
-- depends on whether that slice is shared with the object.
pub record FieldAccess : Type 1 where
  pub Error : Type 0
  pub nested_slice : Object → List String → Result Error (Option (List Value))
  pub nested_map : Object → List String → Result Error (Option Object)
  pub nested_int64 : Object → List String → Result Error (Option ℤ)
  pub assigned : Object → List String → List Value → Object
  pub set_nested_field : Object → Value → List String → Result Error Object

pub record StatusCondition : Type 0 where
  pub type : String
  pub status : String
  pub reason : String
  pub message : String

with_text : String → String → Object → Object
with_text key text o = let o' = insert key (str text) o in if text == "" then o else o'

-- `StatusCondition.Object`
unfoldable pub condition_object : StatusCondition → Object
unfolding with_text insert
condition_object c =
    with_text "message" c.message
      (with_text "reason" c.reason (("type", str c.type) ∷ ("status", str c.status) ∷ []))

abbrev pub as_string : Option Value → Option String
as_string (some (str s)) = some s
as_string _ = none

abbrev pub string_field : String → Object → Option String
string_field key o = as_string (lookup key o)

unfoldable pub new_status_condition : Object → StatusCondition
new_status_condition o = record {
  type = or_default "" (string_field "type" o);
  status = or_default "" (string_field "status" o);
  reason = or_default "" (string_field "reason" o);
  message = or_default "" (string_field "message" o);
}

-- The item as an object of the condition type.
abbrev pub of_type : String → Value → Option Object
of_type condition_type (obj fields) = elim (string_field "type" (entries fields)) [
  | none ↦ none
  | some t ↦ if t == condition_type then some (entries fields) else none
]
of_type condition_type _ = none

-- The loop of `GetStatusCondition`.
unfoldable pub find_condition : String → List Value → Option StatusCondition
unfolding new_status_condition
find_condition condition_type [] = none
find_condition condition_type (item ∷ conditions) =
    let rest = find_condition condition_type conditions in
    elim (of_type condition_type item) [ some o ↦ some (new_status_condition o) | none ↦ rest ]

-- The loop of `SetCondition`: the conditions with the first one of the type replaced.
unfoldable pub replace_condition : StatusCondition → List Value → Option (List Value)
unfolding condition_object
replace_condition c [] = none
replace_condition c (item ∷ conditions) =
    let rest = replace_condition c conditions in
    elim (of_type c.type item) [
      | some o ↦ some (object (condition_object c) ∷ conditions)
      | none ↦ elim rest [ none ↦ none | some changed ↦ some (item ∷ changed) ]
    ]

abbrev pub conditions_path : List String
conditions_path = "conditions" ∷ []

abbrev pub status_path : List String
status_path = "status" ∷ []

module _ (access : FieldAccess) where
  unfoldable pub get_status_condition :
      Object → String → Result access.Error (Option StatusCondition)
  get_status_condition o condition_type =
      access.nested_slice o ("status" ∷ "conditions" ∷ []) >>= λ found. elim found [
        | none ↦ ok none
        | some conditions ↦ ok (find_condition condition_type conditions)
      ]

  append_condition : StatusCondition → Object → List Value → Result access.Error Object
  unfolding condition_object
  append_condition c status conditions =
      access.set_nested_field status (array (conditions ++ (object (condition_object c) ∷ [])))
        conditions_path

  -- A condition that is there is replaced in the slice that `NestedSlice` has returned.
  write_condition : StatusCondition → Object → Option (List Value) → Result access.Error Object
  unfolding append_condition
  write_condition c status none = append_condition c status []
  write_condition c status (some conditions) = elim (replace_condition c conditions) [
    | some changed ↦ ok (access.assigned status conditions_path changed)
    | none ↦ append_condition c status conditions
  ]

  -- `SetCondition`
  unfoldable pub set_condition : Object → StatusCondition → Result access.Error Object
  unfolding write_condition
  set_condition status c =
      access.nested_slice status conditions_path >>= λ found. write_condition c status found

  unfoldable pub set_status_condition : Object → StatusCondition → Result access.Error Object
  unfolding set_condition
  set_status_condition o c = access.nested_map o status_path >>= λ status.
      (set_condition (or_default [] status) c >>= λ changed.
      access.set_nested_field o (object changed) status_path)

  unfoldable pub get_observed_generation : Object → Result access.Error (Option ℤ)
  get_observed_generation o = access.nested_int64 o ("status" ∷ "observedGeneration" ∷ [])

pub record StatusConditionCheck : Type 0 where
  pub type : String
  pub status : Option String
  pub reason : Option String

pub data CheckError : Type 0 where
  missing : String → CheckError
  wrong_status : String → CheckError
  wrong_reason : String → CheckError

-- A value that is asked for and differs.
abbrev pub differs : Option String → String → Bool
differs none actual = false
differs (some wanted) actual = if actual == wanted then false else true

module _ (access : FieldAccess) where
  judge : StatusConditionCheck → Result access.Error (Option StatusCondition) → Option CheckError
  judge check (err e) = some (missing check.type)
  judge check (ok none) = some (missing check.type)
  judge check (ok (some c)) =
      if differs check.status c.status
      then some (wrong_status check.type)
      else if differs check.reason c.reason
      then some (wrong_reason check.type)
      else none

  check_condition : StatusConditionCheck → Object → Option CheckError
  unfolding get_status_condition judge
  check_condition check child = judge check (get_status_condition access child check.type)

  -- The loop of `childStatusCheck`; `none` is a nil error.
  check_all : List StatusConditionCheck → Object → Option CheckError
  unfolding check_condition
  check_all [] child = none
  check_all (check ∷ checks) child =
      let rest = check_all checks child in
      elim (check_condition check child) [ some e ↦ some e | none ↦ rest ]

  unfoldable pub child_status_check :
      Option (List StatusConditionCheck) → Object → Option CheckError
  unfolding check_all
  child_status_check none child = none
  child_status_check (some checks) child = check_all checks child
