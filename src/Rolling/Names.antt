-- ===== src/Rolling/Names.antt =====
-- Rollouts of children that have a namespace: claimChildren observes them in a UniformObjectMap, under
-- `namespace/name`, while a revision claims the children of a namespaced parent by their names alone.
use metacontroller.Prelude.{
  String, Bool, true, false, none, some, List, [], ◌∷◌, ◌==◌, string_eq, ◌≡◌, ◌≢◌, refl, ◌∙◌, sym,
  ap, arith, All, All-In, In, Lacks, cut, cut-join, cut-Lacks, UniqueKeys, insert-UniqueKeys, has,
  if-elim, Option-cases, Bool-cases, inl, inr,
}
use metacontroller.Json.{Object}
use metacontroller.Names.{Gvk, GroupKind, slashed, gvk_eq}
use metacontroller.Objects.{Accessors}
use metacontroller.ObjectMap.{
  ObjectMap, qualified_name, init_group, insert_object, insert_all, make_object_map,
  find_group_kind_name,
}
use metacontroller.ObjectMap.Find.{
  find_last, stands_at, find_group_kind_name_sound, find_at-make_object_map,
}
use metacontroller.Apply.{Printer}
use metacontroller.Apply.Annotation.{Codec}
use metacontroller.Update.{Content}
use metacontroller.Status.{FieldAccess}
use metacontroller.Revision.{KindChildren, Children}
use metacontroller.Rolling.{
  Strategy, Strategies, get_strategy, is_rolling_strategy, should_continue_rolling,
}
use metacontroller.Rolling.Reached.{is_rolling_strategy_iff}
use metacontroller.Rolling.Happy.{goes_on_iff}

module _ {Obj : Type 0} (acc : Accessors Obj) where
  init_group-UniqueKeys :
      (gvk : Gvk) (m : ObjectMap Obj) → UniqueKeys m → UniqueKeys (init_group gvk m)
  unfolding init_group
  init_group-UniqueKeys gvk m u =
      if-elim (λ (n : ObjectMap Obj). UniqueKeys n) (has gvk m) (λ t. u)
        (λ f. insert-UniqueKeys gvk [] m u)

  insert_object-UniqueKeys :
      (name_of : Obj → Obj → String) (parent o : Obj) (m : ObjectMap Obj)
      → UniqueKeys m
      → UniqueKeys (insert_object acc name_of parent o m)
  unfolding insert_object
  insert_object-UniqueKeys name_of parent o m u = insert-UniqueKeys (acc.gvk o) _ _ (
      if-elim (λ (n : ObjectMap Obj). UniqueKeys n) (has (acc.gvk o) m) (λ t. u)
        (λ f. init_group-UniqueKeys (acc.gvk o) m u))

  insert_all-UniqueKeys :
      (name_of : Obj → Obj → String) (parent : Obj) (objects : List Obj) (m : ObjectMap Obj)
      → UniqueKeys m
      → UniqueKeys (insert_all acc name_of parent objects m)
  unfolding insert_all
  insert_all-UniqueKeys name_of parent [] m u = u
  insert_all-UniqueKeys name_of parent (o ∷ objects) m u =
      insert_all-UniqueKeys name_of parent objects (insert_object acc name_of parent o m)
        (insert_object-UniqueKeys name_of parent o m u)

  make_object_map-UniqueKeys :
      (name_of : Obj → Obj → String) (parent : Obj) (objects : List Obj)
      → UniqueKeys (make_object_map acc name_of parent objects)
  unfolding make_object_map
  make_object_map-UniqueKeys name_of parent objects =
      insert_all-UniqueKeys name_of parent objects [] tt

  -- An object with a namespace, in which there is no `/`.
  abbrev pub Namespaced : Obj → Type 0
  Namespaced o = ((acc.namespace o == "") ≡ false) × Lacks b'/' (acc.namespace o)

  qualified_name-Namespaced :
      (parent o : Obj) (name : String)
      → Namespaced o
      → Lacks b'/' name
      → (qualified_name acc parent o == name) ≡ false
  unfolding qualified_name
  qualified_name-Namespaced parent o name h l =
      elim (Bool-cases (qualified_name acc parent o == name)) [
        | inr f ↦ f
        | inl t ↦
            let same : qualified_name acc parent o ≡ name =
              (string_eq.same_iff (qualified_name acc parent o) name).0 t in
            let long : qualified_name acc parent o ≡ slashed (acc.namespace o) (acc.name o) =
              rw (qualified_name, h.0) refl in
            cc (
              sym (cut-join b'/' "/" (acc.namespace o) (acc.name o) refl h.1)
              ∙ ap (cut b'/') (sym long ∙ same)
              ∙ cut-Lacks b'/' name l)
      ]

  find_last-Namespaced :
      (parent : Obj) (gvk : Gvk) (name : String) (objects : List Obj)
      → All Namespaced objects
      → Lacks b'/' name
      → find_last (stands_at acc (qualified_name acc) parent gvk name) none objects ≡ none
  unfolding find_last
  find_last-Namespaced parent gvk name [] h l = refl
  find_last-Namespaced parent gvk name (o ∷ objects) h l =
      let elsewhere : stands_at acc (qualified_name acc) parent gvk name o ≡ false =
        ground (arith, qualified_name-Namespaced parent o name h.0 l) in
      rw elsewhere (find_last-Namespaced parent gvk name objects h.1 l)

  unobserved :
      (parent : Obj) (gk : GroupKind) (name : String) (objects : List Obj)
      → All Namespaced objects
      → Lacks b'/' name
      → find_group_kind_name gk name (make_object_map acc (qualified_name acc) parent objects)
        ≡ none
  unobserved parent gk name objects h l =
      let m = make_object_map acc (qualified_name acc) parent objects in
      elim (Option-cases (find_group_kind_name gk name m)) [
        | inl e ↦ e
        | inr (o, e) ↦
            let (gvk, same, found) =
              find_group_kind_name_sound gk name m
                (make_object_map-UniqueKeys (qualified_name acc) parent objects) e in
            cc (
              sym found
              ∙ find_at-make_object_map acc (qualified_name acc) parent objects gvk name
              ∙ find_last-Namespaced parent gvk name objects h l)
      ]

module _ {Obj : Type 0} (acc : Accessors Obj) (content : Content) (access : FieldAccess)
    (codec : Codec) (print : Printer) (deep_equal : Object → Object → Bool)
    (strategies : Strategies) (desired : ObjectMap Obj) where
  -- Where the observed children are named as claimChildren names them and all have a namespace, no
  -- rollout goes on once the latest revision claims, under a rolling strategy, a child by a name with
  -- no `/` in it, whatever state that child is in.
  pub should_continue_rolling-Namespaced :
      (parent : Obj) (objects : List Obj) (children : Children GroupKind)
      (ck : KindChildren GroupKind) (s : Strategy) (name : String)
      → All (Namespaced acc) objects
      → In ck children
      → get_strategy ck.kind strategies ≡ some s
      → is_rolling_strategy (some s) ≡ true
      → In name ck.names
      → Lacks b'/' name
      → should_continue_rolling acc content access codec print deep_equal strategies
          (make_object_map acc (qualified_name acc) parent objects)
          desired
          children
        ≢ none
  should_continue_rolling-Namespaced parent objects children ck s name h m e r n l go =
      let observed = make_object_map acc (qualified_name acc) parent objects in
      let happy =
        (goes_on_iff acc content access codec print deep_equal strategies observed desired
            children).0
          go in
      let (ck', same, kind) = All-In children ck happy m in
      let all = (rw (same, e) at kind) ((is_rolling_strategy_iff s).0 r) in
      let (name', same', (child, found, _)) = All-In ck.names name all n in
      let missing : find_group_kind_name ck.kind name' observed ≡ none =
        rw same' (unobserved acc parent ck.kind name objects h l) in
      cc (sym found ∙ missing)
