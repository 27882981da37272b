-- ===== src/Informers/Index.antt =====
-- The indexes by which candidates are listed: the index functions and the listings of
-- pkg/dynamic/informer/informer.go. The indexer of client-go is a parameter.
use metacontroller.Prelude.{
  String, Bool, false, not, ◌&&◌, Option, none, some, List, [], ◌∷◌, ◌==◌, string_eq, if◌then◌else◌,
  Result, ok, ◌>>=◌, ◌≡◌, refl, In, Bool-cases, inl, inr, ◌↔◌, select, select_iff,
}
use metacontroller.Objects.{OwnerReference, Accessors}

abbrev pub is_controller : OwnerReference → Bool
is_controller ref = elim ref.controller [ none ↦ false | some b ↦ b ]

-- The loop of `ownerUIDIndexFunc`.
unfoldable pub controller_uids : List OwnerReference → List String
controller_uids [] = []
controller_uids (ref ∷ refs) =
    let rest = controller_uids refs in if is_controller ref then ref.uid ∷ rest else rest

-- The loop of `orphanIndexFunc`.
unfoldable pub orphan_keys : List OwnerReference → List String
orphan_keys [] = "true" ∷ []
orphan_keys (ref ∷ refs) = let rest = orphan_keys refs in if is_controller ref then [] else rest

-- `metav1.GetControllerOf`: the first reference that is marked as the controller.
unfoldable pub first_controller : List OwnerReference → Option OwnerReference
first_controller [] = none
first_controller (ref ∷ refs) =
    let rest = first_controller refs in if is_controller ref then some ref else rest

-- What is cached, and `ByIndex`: the items under a key of an index.
pub record Indexer (Obj : Type 0) : Type 0 where
  pub objects : List Obj
  pub by_index : String → String → Result String (List Obj)

module _ {Obj : Type 0} (acc : Accessors Obj) where
  abbrev pub owner_uid_index_func : Obj → List String
  owner_uid_index_func o = controller_uids (acc.owner_references o)

  abbrev pub orphan_index_func : Obj → List String
  orphan_index_func o = orphan_keys (acc.owner_references o)

  -- The empty namespace stands for all of them.
  abbrev pub in_namespace : String → Obj → Bool
  in_namespace namespace o = not (not (namespace == "") && not (acc.namespace o == namespace))

  -- The loop over the items of the index.
  abbrev pub within : String → List Obj → List Obj
  within namespace items = select (in_namespace namespace) items

  unfoldable pub by_index_and_namespace :
      Indexer Obj → String → String → String → Result String (List Obj)
  by_index_and_namespace indexer index key namespace =
      indexer.by_index index key >>= λ items. ok (within namespace items)

  unfoldable pub list_by_owner_uid : Indexer Obj → String → String → Result String (List Obj)
  unfolding by_index_and_namespace
  list_by_owner_uid indexer uid namespace = by_index_and_namespace indexer "ownerUID" uid namespace

  unfoldable pub list_orphans : Indexer Obj → String → Result String (List Obj)
  unfolding by_index_and_namespace
  list_orphans indexer namespace = by_index_and_namespace indexer "orphan" "true" namespace

  -- An indexer that answers by the index functions it was given.
  pub record IsIndexed (indexer : Indexer Obj) : Type 0 where
    pub owned :
        (uid : String)
        → (items : List Obj) × (indexer.by_index "ownerUID" uid ≡ ok items)
          × ((o : Obj) → In o items ↔ (In o indexer.objects × In uid (owner_uid_index_func o)))
    pub orphans :
        (items : List Obj) × (indexer.by_index "orphan" "true" ≡ ok items)
        × ((o : Obj) → In o items ↔ (In o indexer.objects × In "true" (orphan_index_func o)))

  first_controller-uid :
      (refs : List OwnerReference) (ref : OwnerReference)
      → first_controller refs ≡ some ref
      → In ref.uid (controller_uids refs)
  unfolding first_controller controller_uids
  first_controller-uid [] ref h = cc
  first_controller-uid (r ∷ refs) ref h = elim (Bool-cases (is_controller r)) [
    | inl t ↦ rw (controller_uids, t) (inl (cc (rw t at h)))
    | inr f ↦ rw (controller_uids, f) (first_controller-uid refs ref (rw f at h))
  ]

  no_controller-orphan :
      (refs : List OwnerReference) → first_controller refs ≡ none → In "true" (orphan_keys refs)
  unfolding first_controller orphan_keys
  no_controller-orphan [] h = inl refl
  no_controller-orphan (r ∷ refs) h = elim (Bool-cases (is_controller r)) [
    | inl t ↦ cc (rw t at h)
    | inr f ↦ rw (orphan_keys, f) (no_controller-orphan refs (rw f at h))
  ]

  -- The listing by owner has every cached object of the namespace whose controller has the UID.
  pub list_by_owner_uid_lem :
      (indexer : Indexer Obj) (uid namespace : String)
      → IsIndexed indexer
      → (items : List Obj) × (list_by_owner_uid indexer uid namespace ≡ ok items)
        × ((o : Obj) → In o items → In o (within namespace indexer.objects))
        × ((o : Obj) (ref : OwnerReference)
            → In o (within namespace indexer.objects)
            → first_controller (acc.owner_references o) ≡ some ref
            → ref.uid ≡ uid
            → In o items)
  unfolding list_by_owner_uid by_index_and_namespace
  list_by_owner_uid_lem indexer uid namespace h =
      let (items, e, all) = h.owned uid in
      (
        within namespace items,
        rw (e) refl,
        λ o m.
            let (there, own) = (select_iff (in_namespace namespace) o items).0 m in
            (select_iff (in_namespace namespace) o indexer.objects).1 (((all o).0 there).0, own),
        λ o ref m c u.
            let (there, own) = (select_iff (in_namespace namespace) o indexer.objects).0 m in
            (select_iff (in_namespace namespace) o items).1 (
              (all o).1 (there, rw (← u) (first_controller-uid (acc.owner_references o) ref c)),
              own,
            ),
      )

  -- The listing of orphans has every cached object of the namespace that has no controller.
  pub list_orphans_lem :
      (indexer : Indexer Obj) (namespace : String)
      → IsIndexed indexer
      → (items : List Obj) × (list_orphans indexer namespace ≡ ok items)
        × ((o : Obj) → In o items → In o (within namespace indexer.objects))
        × ((o : Obj)
            → In o (within namespace indexer.objects)
            → first_controller (acc.owner_references o) ≡ none
            → In o items)
  unfolding list_orphans by_index_and_namespace
  list_orphans_lem indexer namespace h =
      let (items, e, all) = h.orphans in
      (
        within namespace items,
        rw (e) refl,
        λ o m.
            let (there, own) = (select_iff (in_namespace namespace) o items).0 m in
            (select_iff (in_namespace namespace) o indexer.objects).1 (((all o).0 there).0, own),
        λ o m c.
            let (there, own) = (select_iff (in_namespace namespace) o indexer.objects).0 m in
            (select_iff (in_namespace namespace) o items).1
              ((all o).1 (there, no_controller-orphan (acc.owner_references o) c), own),
      )
