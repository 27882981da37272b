-- ===== src/ObjectMap/Find.antt =====
-- What is found in an object map after each operation on it.
use metacontroller.Prelude.{
  String, Bool, ◌&&◌, Option, none, some, List, [], ◌∷◌, lookup, has, get_or, ◌==◌, string_eq,
  if◌then◌else◌, ◌≡◌, refl, ap, ◌∙◌, is_some, UniqueKeys, Bool-cases, Option-cases, inl, inr, In,
  In-append_left, In-append_right, lookup_nested-replace, find_nested_sound, find_nested_complete,
  lookup_nested, lookup_nested-insert, lookup_nested-init, lookup-get_or_empty,
}
use metacontroller.Names.{Gvk, GroupKind, gvk_eq, group_kind, group_kind_eq}
use metacontroller.Objects.{Accessors}
use metacontroller.ObjectMap.{
  ObjectMap, Named, init_group, find_group_kind_name, find_at, insert_object, insert_all,
  make_object_map, replace_object_if_exists, list, values,
}

-- The last object of a list that passes a test, or else a given one.
unfoldable pub find_last {ℓ} : {A : Type ℓ} → (A → Bool) → Option A → List A → Option A
find_last p before [] = before
find_last p before (x ∷ xs) = find_last p (if p x then some x else before) xs

module _ {Obj : Type 0} (acc : Accessors Obj) (name_of : Obj → Obj → String) where
  -- The object is stored under this group, version and kind, and this name.
  abbrev pub stands_at : Obj → Gvk → String → Obj → Bool
  stands_at parent gvk name o = acc.gvk o == gvk && name_of parent o == name

  init_group_twice :
      (g : Gvk) (m : ObjectMap Obj) (gvk : Gvk) (name : String)
      → find_at gvk name (if has g m then m else init_group g m) ≡ find_at gvk name m
  unfolding init_group
  init_group_twice g m gvk name = elim (Bool-cases (has g m)) [
    | inl t ↦ rw t
    | inr f ↦ rw f (rw f at (lookup_nested-init g gvk name m))
  ]

  -- After an insertion the object is found under its own group, version, kind and name, and
  -- every other place has what it had.
  pub find_at-insert_object :
      (parent o : Obj) (m : ObjectMap Obj) (gvk : Gvk) (name : String)
      → find_at gvk name (insert_object acc name_of parent o m)
        ≡ (if stands_at parent gvk name o then some o else find_at gvk name m)
  unfolding insert_object
  find_at-insert_object parent o m gvk name =
      let g = acc.gvk o in
      let m' : ObjectMap Obj = if has g m then m else init_group g m in
      lookup_nested-insert g gvk (name_of parent o) name o (get_or [] g m') m'
        (lookup-get_or_empty g name m')
      ∙ ap (λ (r : Option Obj). if stands_at parent gvk name o then some o else r)
          (init_group_twice g m gvk name)

  -- A replacement changes what is found only at the place of the object itself, and only if an
  -- object was there.
  pub find_at-replace :
      (parent o : Obj) (m : ObjectMap Obj) (gvk : Gvk) (name : String)
      → find_at gvk name (replace_object_if_exists acc name_of parent o m) ≡ (
          if stands_at parent gvk name o && is_some (find_at gvk name m)
          then some o
          else find_at gvk name m)
  unfolding replace_object_if_exists
  find_at-replace parent o m gvk name =
      lookup_nested-replace (acc.gvk o) gvk (name_of parent o) name o m

  pub find_at-insert_all :
      (parent : Obj) (objects : List Obj) (m : ObjectMap Obj) (gvk : Gvk) (name : String)
      → find_at gvk name (insert_all acc name_of parent objects m)
        ≡ find_last (stands_at parent gvk name) (find_at gvk name m) objects
  unfolding insert_all find_last
  find_at-insert_all parent [] m gvk name = refl
  find_at-insert_all parent (o ∷ objects) m gvk name =
      find_at-insert_all parent objects (insert_object acc name_of parent o m) gvk name
      ∙ ap (λ (b : Option Obj). find_last (stands_at parent gvk name) b objects)
          (find_at-insert_object parent o m gvk name)

module _ {Obj : Type 0} where
  -- In a map that has each group, version and kind once, an object found by group, kind and name
  -- stands under some version of that group and kind, with that name.
  pub find_group_kind_name_sound :
      (gk : GroupKind) (name : String) (m : ObjectMap Obj) {o : Obj}
      → UniqueKeys m
      → find_group_kind_name gk name m ≡ some o
      → (gvk : Gvk) × (group_kind gvk ≡ gk) × (find_at gvk name m ≡ some o)
  unfolding find_group_kind_name
  find_group_kind_name_sound gk name m {o} u h =
      let (gvk, t, f) = find_nested_sound (λ g. group_kind g == gk) name o m u h in
      (gvk, (group_kind_eq.same_iff (group_kind gvk) gk).0 t, f)

  -- Where a search by group, kind and name finds nothing, no version of that group and kind has
  -- an object of that name.
  pub find_group_kind_name_complete :
      (gk : GroupKind) (name : String) (m : ObjectMap Obj) (gvk : Gvk)
      → find_group_kind_name gk name m ≡ none
      → group_kind gvk ≡ gk
      → find_at gvk name m ≡ none
  unfolding find_group_kind_name
  find_group_kind_name_complete gk name m gvk h e =
      find_nested_complete (λ g. group_kind g == gk) name m gvk h
        ((group_kind_eq.same_iff (group_kind gvk) gk).1 e)

module _ {Obj : Type 0} (acc : Accessors Obj) (name_of : Obj → Obj → String) where
  -- A map made of a list has, under each group, version, kind and name, the last object of the list
  -- that belongs there.
  pub find_at-make_object_map :
      (parent : Obj) (objects : List Obj) (gvk : Gvk) (name : String)
      → find_at gvk name (make_object_map acc name_of parent objects)
        ≡ find_last (stands_at acc name_of parent gvk name) none objects
  unfolding make_object_map lookup_nested lookup
  find_at-make_object_map parent objects gvk name =
      find_at-insert_all acc name_of parent objects [] gvk name

module _ {Obj : Type 0} where
  values_complete :
      (name : String) (o : Obj) (group : Named Obj)
      → lookup name group ≡ some o
      → In o (values group)
  unfolding values lookup
  values_complete name o [] h = cc
  values_complete name o ((n, x) ∷ group) h = elim (Bool-cases (n == name)) [
    | inl t ↦ inl (cc (rw t at h))
    | inr f ↦ inr (values_complete name o group (rw f at h))
  ]

  list_group :
      (gvk : Gvk) (objects : Named Obj) (o : Obj) (m : ObjectMap Obj)
      → lookup gvk m ≡ some objects
      → In o (values objects)
      → In o (list m)
  unfolding list lookup
  list_group gvk objects o [] h i = cc
  list_group gvk objects o ((g, group) ∷ m) h i = elim (Bool-cases (gvk_eq.same g gvk)) [
    | inl t ↦
        let e : group ≡ objects = cc (rw t at h) in
        In-append_left o (values group) (list m) (rw e i)
    | inr f ↦ In-append_right o (values group) (list m) (list_group gvk objects o m (rw f at h) i)
  ]

  -- Every object that stands anywhere in the map is in its list.
  pub list_complete :
      (gvk : Gvk) (name : String) (o : Obj) (m : ObjectMap Obj)
      → find_at gvk name m ≡ some o
      → In o (list m)
  unfolding lookup_nested
  list_complete gvk name o m h = elim (Option-cases (lookup gvk m)) [
    | inl e ↦ cc (rw (e, lookup_nested) at h)
    | inr (objects, e) ↦
        list_group gvk objects o m e (values_complete name o objects (rw (e, lookup_nested) at h))
  ]
