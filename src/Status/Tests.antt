-- ===== src/Status/Tests.antt =====
-- The theorems on conditions at concrete objects, with field access in the way of the helpers.
use metacontroller.Prelude.{
  none, some, List, [], ◌∷◌, ◌≡◌, refl, ok, lookup, insert, lookup-insert_self, string_eq, All, ◌↔◌,
}
use metacontroller.Json.{str, Object, object, array, items-to_items, entries-to_fields}
use metacontroller.Status.{
  StatusCondition, StatusConditionCheck, condition_object, new_status_condition, find_condition,
  get_status_condition, set_condition, set_status_condition, child_status_check,
}
use metacontroller.Status.Conditions.{
  ReadsBack, new_status_condition-condition_object, get_status_condition-set_status_condition,
  set_condition-kept,
}
use metacontroller.Status.Checks.{Meets, child_status_check_iff}
use metacontroller.Status.Samples.{access}

access-ReadsBack : ReadsBack access
access-ReadsBack = record {
  set_slice = λ o xs. (
    insert "conditions" (array xs) o,
    refl,
    rw (lookup-insert_self "conditions" (array xs) o, items-to_items xs) refl,
  );
  set_map = λ o status. (
    insert "status" (object status) o,
    refl,
    rw (lookup-insert_self "status" (object status) o, entries-to_fields status) refl,
  );
  step = λ o status h. rw h refl;
}

abbrev ready : StatusCondition
ready = record { type = "Ready"; status = "True"; reason = ""; message = "fine" }

abbrev stale : StatusCondition
stale = record { type = "Ready"; status = "False"; reason = "Waiting"; message = "" }

abbrev child : Object
child =
    (
      "status",
      object (
          (
            "conditions",
            array (
                object
                  (("type", str "Ready") ∷ ("status", str "True") ∷ ("message", str "fine") ∷ [])
                ∷ []),
          )
          ∷ []),
    )
    ∷ []

ready_object :
    condition_object ready
    ≡ ("type", str "Ready") ∷ ("status", str "True") ∷ ("message", str "fine") ∷ []
unfolding condition_object
ready_object = refl

new_status_condition-condition_object_example :
    new_status_condition (condition_object stale) ≡ stale
new_status_condition-condition_object_example = new_status_condition-condition_object stale

get_status_condition-set_status_condition_example :
    (out : Object) × (set_status_condition access [] ready ≡ ok out)
    × (get_status_condition access out "Ready" ≡ ok (some ready))
get_status_condition-set_status_condition_example =
    get_status_condition-set_status_condition access access-ReadsBack ready [] none none
      (unfold lookup in refl) (unfold lookup in refl) (unfold find_condition in refl)

abbrev status : Object
status =
    (
      "conditions",
      array (
          object (("type", str "Ready") ∷ ("status", str "False") ∷ ("reason", str "Waiting") ∷ [])
          ∷ []),
    )
    ∷ []

abbrev holder : Object
holder = ("status", object status) ∷ []

set_condition-kept_example :
    (set_condition access status ready ≡ ok status)
    × ((out : Object) × (set_status_condition access holder ready ≡ ok out)
        × (get_status_condition access out "Ready" ≡ ok (some stale)))
set_condition-kept_example =
    set_condition-kept access access-ReadsBack (λ o path changed. refl) holder status ready stale
      (object (("type", str "Ready") ∷ ("status", str "False") ∷ ("reason", str "Waiting") ∷ [])
        ∷ [])
      (unfold lookup in refl) (unfold lookup in refl)
      (unfold find_condition new_status_condition lookup in refl)

abbrev checks : List StatusConditionCheck
checks = record { type = "Ready"; status = some "True"; reason = none } ∷ []

child_status_check_iff_example :
    (child_status_check access (some checks) child ≡ none) ↔ All (Meets access child) checks
child_status_check_iff_example = child_status_check_iff access child checks
