-- ===== src/ObjectMap/Tests.antt =====
-- The theorems on object maps at concrete objects.
use metacontroller.Prelude.{
  ◌&&◌, none, some, [], ◌∷◌, string_eq, if◌then◌else◌, ◌≡◌, refl, lookup, lookup_nested, is_some,
  In,
}
use metacontroller.Names.{Gvk, gvk_eq, group_kind}
use metacontroller.Objects.{PlainObject, plain_accessors, plain_object}
use metacontroller.ObjectMap.{
  ObjectMap, relative_name, find_group_kind_name, find_at, insert_object, make_object_map,
  replace_object_if_exists, convert, list,
}
use metacontroller.ObjectMap.Find.{
  find_last, stands_at, find_at-insert_object, find_at-replace, find_at-make_object_map,
  find_group_kind_name_sound, find_group_kind_name_complete, list_complete,
}
use metacontroller.ObjectMap.Convert.{within_reach, find_at-convert}

abbrev pod : Gvk
pod = record { group = ""; version = "v1"; kind = "Pod" }

abbrev parent : PlainObject
parent = plain_object pod "ns" "parent" "p"

abbrev a : PlainObject
a = plain_object pod "ns" "a" "1"

abbrev b : PlainObject
b = plain_object pod "ns" "b" "2"

abbrev pods : ObjectMap PlainObject
pods = (pod, ("a", a) ∷ ("b", b) ∷ []) ∷ []

find_at-insert_object_example :
    find_at pod "b" (insert_object plain_accessors (relative_name plain_accessors) parent b pods)
    ≡ (if stands_at plain_accessors (relative_name plain_accessors) parent pod "b" b
        then some b
        else find_at pod "b" pods)
find_at-insert_object_example =
    find_at-insert_object plain_accessors (relative_name plain_accessors) parent b pods pod "b"

find_at-replace_example :
    find_at pod "b"
      (replace_object_if_exists plain_accessors (relative_name plain_accessors) parent b pods)
    ≡ (if stands_at plain_accessors (relative_name plain_accessors) parent pod "b" b
          && is_some (find_at pod "b" pods)
        then some b
        else find_at pod "b" pods)
find_at-replace_example =
    find_at-replace plain_accessors (relative_name plain_accessors) parent b pods pod "b"

find_at-make_object_map_example :
    find_at pod "a"
      (make_object_map plain_accessors (relative_name plain_accessors) parent (a ∷ b ∷ []))
    ≡ find_last
        (stands_at plain_accessors (relative_name plain_accessors) parent pod "a")
        none
        (a ∷ b ∷ [])
find_at-make_object_map_example =
    find_at-make_object_map plain_accessors (relative_name plain_accessors) parent (a ∷ b ∷ []) pod
      "a"

find_group_kind_name_sound_example :
    (gvk : Gvk) × (group_kind gvk ≡ group_kind pod) × (find_at gvk "b" pods ≡ some b)
unfolding find_group_kind_name lookup
find_group_kind_name_sound_example =
    find_group_kind_name_sound (group_kind pod) "b" pods {o = b} (refl, tt) refl

find_group_kind_name_complete_example : find_at pod "c" pods ≡ none
unfolding find_group_kind_name lookup
find_group_kind_name_complete_example =
    find_group_kind_name_complete (group_kind pod) "c" pods pod refl refl

list_complete_example : In b (list pods)
unfolding lookup lookup_nested
list_complete_example = list_complete pod "b" b pods refl

find_at-convert_example :
    find_at pod "a" (convert plain_accessors parent pods)
    ≡ find_last
        (λ o.
          within_reach plain_accessors parent o
          && stands_at plain_accessors (relative_name plain_accessors) parent pod "a" o)
        none
        (list pods)
find_at-convert_example = find_at-convert plain_accessors parent pods pod "a"
