-- ===== src/ObjectMap.antt =====
-- pkg/controller/common/api/v1/common.go (RelativeObjectMap) and pkg/controller/common/api/v2/common.go
-- (UniformObjectMap): children grouped by group, version and kind, and named relative to their parent
-- or by namespace and name. The two types differ in that name alone, so the operations take it.
pub mod Find
pub mod Convert
mod Tests
use metacontroller.Prelude.{
  String, Bool, true, false, not, ◌&&◌, Option, none, some, List, [], ◌∷◌, ◌++◌, Dict, lookup, has,
  insert, get_or, lookup_nested, find_nested, replace_nested, ◌==◌, string_eq, if◌then◌else◌, keys,
}
use metacontroller.Names.{Gvk, GroupKind, gvk_eq, group_kind, group_kind_eq, slashed}
use metacontroller.Objects.{Accessors}

abbrev pub Named : Type 0 → Type 0
Named Obj = Dict String Obj

abbrev pub ObjectMap : Type 0 → Type 0
ObjectMap Obj = Dict Gvk (Named Obj)

module _ {Obj : Type 0} (acc : Accessors Obj) where
  -- `relativeName` of v1.
  unfoldable pub relative_name : Obj → Obj → String
  relative_name parent o =
      if acc.namespace parent == "" && not (acc.namespace o == "")
      then slashed (acc.namespace o) (acc.name o)
      else acc.name o

  -- `qualifiedName` of v2, which does not look at the parent.
  unfoldable pub qualified_name : Obj → Obj → String
  qualified_name parent o =
      if not (acc.namespace o == "") then slashed (acc.namespace o) (acc.name o) else acc.name o

module _ {Obj : Type 0} where
  unfoldable pub init_group : Gvk → ObjectMap Obj → ObjectMap Obj
  init_group gvk m = if has gvk m then m else insert gvk [] m

  -- v1 has an inner loop for the lookup of the name that v2 makes. Go's order of the groups is not
  -- specified; here it is the order of the entries.
  unfoldable pub find_group_kind_name : GroupKind → String → ObjectMap Obj → Option Obj
  unfolding find_nested
  find_group_kind_name gk name m = find_nested (λ gvk. group_kind gvk == gk) name m

  values : Named Obj → List Obj
  values [] = []
  values ((name, o) ∷ group) = o ∷ values group

  unfoldable pub list : ObjectMap Obj → List Obj
  unfolding values
  list [] = []
  list ((gvk, group) ∷ m) = values group ++ list m

  -- A missing group is the nil map.
  unfoldable pub get_objects_by_gvk : Gvk → ObjectMap Obj → Option (Named Obj)
  get_objects_by_gvk gvk m = lookup gvk m

  -- The object under a group, version, kind and name.
  abbrev pub find_at : Gvk → String → ObjectMap Obj → Option Obj
  find_at gvk name m = lookup_nested gvk name m

  init_groups : ObjectMap Obj → ObjectMap Obj → ObjectMap Obj
  init_groups [] m = m
  init_groups ((gvk, group) ∷ rest) m = init_groups rest (init_group gvk m)

module _ {Obj : Type 0} (acc : Accessors Obj) (name_of : Obj → Obj → String) where
  unfoldable pub insert_object : Obj → Obj → ObjectMap Obj → ObjectMap Obj
  unfolding init_group
  insert_object parent o m =
      let gvk = acc.gvk o in
      let m' = if has gvk m then m else init_group gvk m in
      insert gvk (insert (name_of parent o) o (get_or [] gvk m')) m'

  unfoldable pub insert_all : Obj → List Obj → ObjectMap Obj → ObjectMap Obj
  insert_all parent [] m = m
  insert_all parent (o ∷ objects) m = insert_all parent objects (insert_object parent o m)

  -- `MakeRelativeObjectMap` and `MakeUniformObjectMap`.
  unfoldable pub make_object_map : Obj → List Obj → ObjectMap Obj
  unfolding insert_all
  make_object_map parent objects = insert_all parent objects []

  unfoldable pub replace_object_if_exists : Obj → Obj → ObjectMap Obj → ObjectMap Obj
  unfolding replace_nested
  replace_object_if_exists parent o m = replace_nested (acc.gvk o) (name_of parent o) o m

module _ {Obj : Type 0} (acc : Accessors Obj) where
  -- The loop over the potential children of a namespaced parent.
  unfoldable pub insert_same_namespace : Obj → List Obj → ObjectMap Obj → ObjectMap Obj
  insert_same_namespace parent [] m = m
  insert_same_namespace parent (child ∷ children) m = insert_same_namespace parent children (
      if acc.namespace parent == acc.namespace child
      then insert_object acc (relative_name acc) parent child m
      else m)

  -- `Convert` of v2.
  unfoldable pub convert : Obj → ObjectMap Obj → ObjectMap Obj
  unfolding init_groups
  convert parent m =
      let groups = init_groups m [] in
      if acc.namespace parent == ""
      then insert_all acc (relative_name acc) parent (list m) groups
      else insert_same_namespace parent (list m) groups
