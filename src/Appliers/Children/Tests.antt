-- ===== src/Appliers/Children/Tests.antt =====
-- The theorems on the appliers at concrete children.
use mathlib.Core.List.{map}
use metacontroller.Prelude.{
  true, false, Option, none, some, [], ◌∷◌, ◌++◌, ◌≡◌, refl, lookup, insert, delete, keys, String,
}
use metacontroller.Json.{Object, str, height}
use metacontroller.Apply.{
  merge_objects, merge_value, merge, merge_step, assert_object, merge_object,
}
use metacontroller.Apply.Annotation.{set_last_applied, get_last_applied}
use metacontroller.Update.{apply_update}
use metacontroller.Update.Samples.{texts}
use metacontroller.Names.{Gvk}
use metacontroller.ObjectMap.{ObjectMap, get_objects_by_gvk}
use metacontroller.Manage.{Client}
use metacontroller.Appliers.{
  World, Request, deleting, creating, updating, to_method, in_place, recreate,
}
use metacontroller.Appliers.Samples.{outside, child}
use metacontroller.Appliers.Sends.{Sends}
use metacontroller.Appliers.Dynamic.{dynamic_apply}
use metacontroller.Appliers.Dynamic.Permitted.{Permitted, dynamic_apply-Sends}
use metacontroller.Appliers.ServerSide.{prepared, server_side_apply}
use metacontroller.Appliers.ServerSide.Permitted.{patch, Allowed, server_side_apply-Sends}
use metacontroller.Appliers.ServerSide.Quiet.{server_side_apply-settles}
use metacontroller.Appliers.Children.{Settings, manage_children}
use metacontroller.Appliers.Children.Kinds.{Justified}
use metacontroller.Appliers.Children.Justified.{manage_children-Sends}

abbrev pods : Client
pods = record { group = ""; kind = "Pod" }

abbrev parent : Object
parent = child "parent" "p" []

abbrev start : World
start = record { requests = []; cache = [] }

abbrev observed : Object
observed = child "a" "1" (("spec", str "old") ∷ [])

abbrev desired : Object
desired = child "a" "" (("spec", str "new") ∷ [])

dynamic_apply-Sends_example :
    Sends
      (Permitted outside pods in_place parent (some observed) desired)
      start
      (dynamic_apply outside pods in_place parent (some observed) desired start).1
dynamic_apply-Sends_example =
    dynamic_apply-Sends outside pods in_place parent (some observed) desired start

server_side_apply-Sends_example :
    Sends
      (Allowed outside pods recreate parent start (some observed) desired)
      start
      (server_side_apply outside pods recreate parent (some observed) desired start).1
server_side_apply-Sends_example =
    server_side_apply-Sends outside pods recreate parent (some observed) desired start

server_side_apply-settles_example :
    ((server_side_apply outside pods in_place parent none desired start).0 ≡ none)
    × ((server_side_apply outside pods in_place parent none desired start).1.requests
        ≡ start.requests
          ++ (patch outside pods (prepared outside pods in_place parent desired) "{}" in_place false
              ∷ []))
    × (server_side_apply outside pods in_place parent
          (some (child "a" "1" []))
          desired
          (server_side_apply outside pods in_place parent none desired start).1
        ≡ (none, (server_side_apply outside pods in_place parent none desired start).1))
server_side_apply-settles_example =
    server_side_apply-settles outside pods in_place parent desired "{}" refl (child "a" "1" [])
      start refl

abbrev settings : Settings
settings = record {
  has_client = λ gvk. true;
  get_method = λ kind. "InPlace";
  sort = λ gvks. gvks;
  strategy = "dynamic-apply";
}

abbrev pod : Gvk
pod = record { group = ""; version = "v1"; kind = "Pod" }

abbrev observed_children : Option (ObjectMap Object)
observed_children = some ((pod, ("a", observed) ∷ ("b", child "b" "2" []) ∷ []) ∷ [])

abbrev desired_children : Option (ObjectMap Object)
desired_children = some ((pod, ("a", desired) ∷ ("c", child "c" "" []) ∷ []) ∷ [])

manage_children-Sends_example :
    Sends
      (Justified outside settings parent observed_children desired_children)
      start
      (manage_children outside settings parent observed_children desired_children start).1
manage_children-Sends_example =
    manage_children-Sends outside settings parent observed_children desired_children start

abbrev verb : Request → String
verb (deleting c d) = "delete"
verb (updating c ns o) = "update"
verb (creating c ns o) = "create"
verb _ = "patch"

requests_made :
    map verb
      (manage_children outside settings parent observed_children desired_children start).1.requests
    ≡ "delete" ∷ "update" ∷ "create" ∷ []
unfolding manage_children keys get_objects_by_gvk lookup insert delete set_last_applied apply_update
    get_last_applied texts merge_objects merge_value merge merge_step assert_object merge_object
    height to_method
requests_made = refl
