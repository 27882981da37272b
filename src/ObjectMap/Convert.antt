-- ===== src/ObjectMap/Convert.antt =====
-- What the conversion of a uniform map for a parent keeps.
use metacontroller.Prelude.{
  String, Bool, ◌&&◌, ◌||◌, Option, none, List, [], ◌∷◌, ◌==◌, string_eq, ◌≡◌, refl, ap, ◌∙◌,
  lookup, lookup_nested, lookup_nested-init, Bool-cases, inl, inr,
}
use metacontroller.Names.{Gvk, gvk_eq}
use metacontroller.Objects.{Accessors}
use metacontroller.ObjectMap.{
  ObjectMap, relative_name, init_group, init_groups, find_at, insert_object, insert_same_namespace,
  convert, list,
}
use metacontroller.ObjectMap.Find.{find_last, stands_at, find_at-insert_object, find_at-insert_all}

module _ {Obj : Type 0} (acc : Accessors Obj) where
  find_at-init_groups :
      (rest m : ObjectMap Obj) (gvk : Gvk) (name : String)
      → find_at gvk name (init_groups rest m) ≡ find_at gvk name m
  unfolding init_groups init_group
  find_at-init_groups [] m gvk name = refl
  find_at-init_groups ((g, group) ∷ rest) m gvk name =
      find_at-init_groups rest (init_group g m) gvk name ∙ lookup_nested-init g gvk name m

  -- The object may be a child of the parent: any object of a cluster-scoped parent, and an object in
  -- its own namespace of a namespaced one.
  abbrev pub within_reach : Obj → Obj → Bool
  within_reach parent o = acc.namespace parent == "" || acc.namespace parent == acc.namespace o

  find_at-same_namespace :
      (parent : Obj) (children : List Obj) (m : ObjectMap Obj) (gvk : Gvk) (name : String)
      → find_at gvk name (insert_same_namespace acc parent children m)
        ≡ find_last
            (λ o.
              acc.namespace parent == acc.namespace o
              && stands_at acc (relative_name acc) parent gvk name o)
            (find_at gvk name m)
            children
  unfolding insert_same_namespace find_last
  find_at-same_namespace parent [] m gvk name = refl
  find_at-same_namespace parent (o ∷ children) m gvk name =
      elim (Bool-cases (acc.namespace parent == acc.namespace o)) [
        | inl t ↦ rw t (
            rw (find_at-insert_object acc (relative_name acc) parent o m gvk name) at (
              find_at-same_namespace parent children
                (insert_object acc (relative_name acc) parent o m) gvk name))
        | inr f ↦ rw f (find_at-same_namespace parent children m gvk name)
      ]

  -- The converted map has, under each group, version, kind and relative name, the last listed object
  -- within the parent's reach that belongs there.
  pub find_at-convert :
      (parent : Obj) (m : ObjectMap Obj) (gvk : Gvk) (name : String)
      → find_at gvk name (convert acc parent m)
        ≡ find_last
            (λ o. within_reach parent o && stands_at acc (relative_name acc) parent gvk name o)
            none
            (list m)
  unfolding convert lookup_nested lookup
  find_at-convert parent m gvk name = elim (Bool-cases (acc.namespace parent == "")) [
    | inl t ↦ rw t (
        find_at-insert_all acc (relative_name acc) parent (list m) (init_groups m []) gvk name
        ∙ ap
            (λ (b : Option Obj).
              find_last (stands_at acc (relative_name acc) parent gvk name) b (list m))
            (find_at-init_groups m [] gvk name))
    | inr f ↦ rw f (
        find_at-same_namespace parent (list m) (init_groups m []) gvk name
        ∙ ap
            (λ (b : Option Obj).
              find_last
                (λ o.
                  acc.namespace parent == acc.namespace o
                  && stands_at acc (relative_name acc) parent gvk name o)
                b (list m))
            (find_at-init_groups m [] gvk name))
  ]
