-- ===== src/Decorator/Children.antt =====
-- `getChildren` of pkg/controller/decorator/controller.go: the children that a decorator has created for
-- a parent. The listers, the resources and `metav1.GetControllerOf` are parameters.
use metacontroller.Prelude.{
  sym, ◌∙◌, Bool-cases, lookup_nested-init, String, Bool, true, false, not, Option, none, some,
  List, [], ◌∷◌, ◌==◌, string_eq, if◌then◌else◌, Result, ok, err, ◌≡◌, In, inl, inr, ◌⊎◌, select,
  select_iff, arith, Option-cases, Result-cases, lookup_nested, lookup,
}
use metacontroller.Names.{Gvk, gvk_eq}
use metacontroller.Objects.{OwnerReference, Accessors}
use metacontroller.ObjectMap.{ObjectMap, qualified_name, init_group, insert_all, find_at}
use metacontroller.ObjectMap.Find.{find_last, stands_at, find_at-insert_all}

-- `DecoratorControllerAttachmentRule`, by what it is read for.
pub record Attachment : Type 0 where
  pub api_version : String
  pub resource : String

pub data ListError : Type 0 where
  no_informer no_resource : Attachment → ListError
  cannot_list : String → ListError

-- The lister of an attachment, if there is an informer, in a namespace or in all; the kind of its
-- resource; and the annotation by which the decorator marks what it has created.
pub record Listing (Obj : Type 0) : Type 0 where
  pub lister : Attachment → Option (Option String → Result String (List Obj))
  pub resource : Attachment → Option Gvk
  pub controller_of : Obj → Option OwnerReference
  pub decorator_annotation : Obj → String
  pub decorator_name : String

module _ {Obj : Type 0} (acc : Accessors Obj) (src : Listing Obj) (parent : Obj) where
  -- The object is controlled by the parent and was created by this decorator.
  unfoldable pub belongs : Obj → Bool
  belongs o = elim (src.controller_of o) [
    | none ↦ false
    | some ref ↦
        if not (ref.uid == acc.uid parent)
        then false
        else if not (src.decorator_annotation o == src.decorator_name)
        then false
        else true
  ]

  -- The loop over the listed objects.
  abbrev pub insert_belonging : List Obj → ObjectMap Obj → ObjectMap Obj
  insert_belonging objects m = insert_all acc (qualified_name acc) parent (select belongs objects) m

  abbrev pub list_scope : Option String
  list_scope = if not (acc.namespace parent == "") then some (acc.namespace parent) else none

  unfoldable pub add_listed :
      Attachment → Result String (List Obj) → ObjectMap Obj → Result ListError (ObjectMap Obj)
  add_listed child (err e) m = err (cannot_list e)
  add_listed child (ok all) m = elim (src.resource child) [
    | none ↦ err (no_resource child)
    | some gvk ↦ ok (insert_belonging all (init_group gvk m))
  ]

  -- The body of the loop over the attachments.
  unfoldable pub add_attachment : Attachment → ObjectMap Obj → Result ListError (ObjectMap Obj)
  unfolding add_listed
  add_attachment child m = elim (src.lister child) [
    | none ↦ err (no_informer child)
    | some list ↦ add_listed child (list list_scope) m
  ]

  and_then :
      (ObjectMap Obj → Result ListError (ObjectMap Obj))
      → Result ListError (ObjectMap Obj)
      → Result ListError (ObjectMap Obj)
  and_then rest (err e) = err e
  and_then rest (ok m) = rest m

  unfoldable pub add_attachments :
      List Attachment → ObjectMap Obj → Result ListError (ObjectMap Obj)
  unfolding add_attachment and_then
  add_attachments [] m = ok m
  add_attachments (child ∷ children) m =
      and_then (add_attachments children) (add_attachment child m)

  -- `getChildren`
  unfoldable pub get_children : List Attachment → Result ListError (ObjectMap Obj)
  unfolding add_attachments
  get_children attachments = add_attachments attachments []

  abbrev OnlyBelonging : ObjectMap Obj → Type 0
  OnlyBelonging m =
      (gvk : Gvk) (name : String) (o : Obj) → find_at gvk name m ≡ some o → belongs o ≡ true

  find_last-In :
      (p : Obj → Bool) (before : Option Obj) (xs : List Obj) (o : Obj)
      → find_last p before xs ≡ some o
      → (before ≡ some o) ⊎ In o xs
  unfolding find_last
  find_last-In p before [] o h = inl h
  find_last-In p before (x ∷ xs) o h =
      elim (find_last-In p (if p x then some x else before) xs o h) [
        | inr m ↦ inr (inr m)
        | inl e ↦ elim (Bool-cases (p x)) [
          | inl t ↦ inr (inl (cc (rw t at e)))
          | inr f ↦ inl (rw f at e)
        ]
      ]

  insert_belonging-OnlyBelonging :
      (all : List Obj) (m : ObjectMap Obj)
      → OnlyBelonging m
      → OnlyBelonging (insert_belonging all m)
  insert_belonging-OnlyBelonging all m h gvk name o e =
      elim (find_last-In (stands_at acc (qualified_name acc) parent gvk name) (find_at gvk name m)
        (select belongs all) o
        (sym (find_at-insert_all acc (qualified_name acc) parent (select belongs all) m gvk name)
          ∙ e)) [
            | inl before ↦ h gvk name o before
            | inr there ↦ ((select_iff belongs o all).0 there).1
          ]

  init_group-OnlyBelonging :
      (g : Gvk) (m : ObjectMap Obj) → OnlyBelonging m → OnlyBelonging (init_group g m)
  unfolding init_group
  init_group-OnlyBelonging g m h gvk name o e =
      h gvk name o (sym (lookup_nested-init g gvk name m) ∙ e)

  add_listed-OnlyBelonging :
      (child : Attachment) (listed : Result String (List Obj)) (m m' : ObjectMap Obj)
      → OnlyBelonging m
      → add_listed child listed m ≡ ok m'
      → OnlyBelonging m'
  unfolding add_listed
  add_listed-OnlyBelonging child (err e) m m' h eq = cc
  add_listed-OnlyBelonging child (ok all) m m' h eq = elim (Option-cases (src.resource child)) [
    | inl e ↦ cc (rw (add_listed, e) at eq)
    | inr (gvk, e) ↦
        let same : insert_belonging all (init_group gvk m) ≡ m' = cc (rw (add_listed, e) at eq) in
        rw (← same)
          (insert_belonging-OnlyBelonging all (init_group gvk m) (init_group-OnlyBelonging gvk m h))
  ]

  add_attachment-OnlyBelonging :
      (child : Attachment) (m m' : ObjectMap Obj)
      → OnlyBelonging m
      → add_attachment child m ≡ ok m'
      → OnlyBelonging m'
  unfolding add_attachment
  add_attachment-OnlyBelonging child m m' h eq = elim (Option-cases (src.lister child)) [
    | inl e ↦ cc (rw (add_attachment, e) at eq)
    | inr (list, e) ↦
        add_listed-OnlyBelonging child (list list_scope) m m' h (rw (add_attachment, e) at eq)
  ]

  add_attachments-OnlyBelonging :
      (children : List Attachment) (m m' : ObjectMap Obj)
      → OnlyBelonging m
      → add_attachments children m ≡ ok m'
      → OnlyBelonging m'
  unfolding add_attachments and_then
  add_attachments-OnlyBelonging [] m m' h eq = let same : m ≡ m' = cc eq in rw (← same) h
  add_attachments-OnlyBelonging (child ∷ children) m m' h eq =
      elim (Result-cases (add_attachment child m)) [
        | inr (e, f) ↦ cc (rw (add_attachments, f, and_then) at eq)
        | inl (next, f) ↦
            add_attachments-OnlyBelonging children next m'
              (add_attachment-OnlyBelonging child m next h f)
              (rw (add_attachments, f, and_then) at eq)
      ]

  -- Whatever is listed: where the children can be got, every object among them is controlled by the
  -- parent, by its UID, and carries the annotation of this decorator.
  pub get_children-belongs :
      (attachments : List Attachment) (m : ObjectMap Obj) (gvk : Gvk) (name : String) (o : Obj)
      → get_children attachments ≡ ok m
      → find_at gvk name m ≡ some o
      → ((ref : OwnerReference) × (src.controller_of o ≡ some ref) × (ref.uid ≡ acc.uid parent))
        × (src.decorator_annotation o ≡ src.decorator_name)
  unfolding get_children belongs lookup_nested lookup
  get_children-belongs attachments m gvk name o e found =
      let t = add_attachments-OnlyBelonging attachments [] m (λ g n x h. cc h) e gvk name o found in
      elim (Option-cases (src.controller_of o)) [
        | inl n ↦ cc (rw (belongs, n) at t)
        | inr (ref, c) ↦
            let u : (if not (ref.uid == acc.uid parent)
                  then false
                  else if not (src.decorator_annotation o == src.decorator_name)
                  then false
                  else true)
                ≡ true =
              rw (belongs, c) at t in
            (
              (ref, c, ground (arith, u, string_eq.same_iff ref.uid (acc.uid parent))),
              ground (arith, u, string_eq.same_iff (src.decorator_annotation o) src.decorator_name),
            )
      ]
