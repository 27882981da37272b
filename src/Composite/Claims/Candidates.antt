-- ===== src/Composite/Claims/Candidates.antt =====
-- The merged candidates, and what is claimed from them.
use metacontroller.Prelude.{
  String, Bool, true, none, some, List, [], ◌∷◌, ◌++◌, ◌==◌, string_eq, ok, contains, In, ◌≡◌, refl,
  ◌⊎◌, inl, inr, Bool-cases, Option-cases, arith, select_iff, ◌↔◌, sym, ◌∙◌, In-append_left,
  In-append_right,
}
use metacontroller.Objects.{OwnerReference, Accessors}
use metacontroller.ControllerRef.{initial, claim_children}
use metacontroller.ControllerRef.Claims.{initial-IsSafe}
use metacontroller.ControllerRef.Claimed.{claimable, claim_children-select}
use metacontroller.Informers.Index.{
  Indexer, IsIndexed, within, first_controller, list_by_owner_uid_lem, list_orphans_lem,
}
use metacontroller.Composite.Claims.{
  unseen, merge_candidates, Sources, manager, list_namespace, candidates,
}

module _ {Obj : Type 0} (acc : Accessors Obj) where
  unseen-In : (o : Obj) (xs : List Obj) (seen : List String) → In o (unseen acc xs seen).0 → In o xs
  unfolding unseen
  unseen-In o [] seen m = m
  unseen-In o (x ∷ xs) seen m = elim (Bool-cases (contains (acc.uid x) seen)) [
    | inl t ↦ inr (unseen-In o xs seen (rw (unseen, t) at m))
    | inr f ↦
        let n : In o (x ∷ (unseen acc xs (acc.uid x ∷ seen)).0) = rw (unseen, f) at m in
        elim n [ inl e ↦ inl e | inr r ↦ inr (unseen-In o xs (acc.uid x ∷ seen) r) ]
  ]

  -- An object with the UID is in a list.
  abbrev HasUid : String → List Obj → Type 0
  HasUid uid xs = (o : Obj) × In o xs × (acc.uid o ≡ uid)

  later : (uid : String) (x : Obj) (xs : List Obj) → HasUid uid xs → HasUid uid (x ∷ xs)
  later uid x xs (o, m, e) = (o, inr m, e)

  unseen-kept :
      (o : Obj) (xs : List Obj) (seen : List String)
      → In o xs
      → (contains (acc.uid o) seen ≡ true) ⊎ HasUid (acc.uid o) (unseen acc xs seen).0
  unfolding unseen contains
  unseen-kept o [] seen m = absurd m
  unseen-kept o (x ∷ xs) seen m = elim (Bool-cases (contains (acc.uid x) seen)) [
    | inl t ↦ elim m [ inl e ↦ inl (rw (← e) t) | inr n ↦ rw (unseen, t) (unseen-kept o xs seen n) ]
    | inr f ↦ elim m [
      | inl e ↦ inr (rw (unseen, f) (x, inl refl, cc e))
      | inr n ↦ elim (unseen-kept o xs (acc.uid x ∷ seen) n) [
        | inr h ↦ inr (rw (unseen, f) (later (acc.uid o) x (unseen acc xs (acc.uid x ∷ seen)).0 h))
        | inl c ↦ elim (Bool-cases (acc.uid x == acc.uid o)) [
          | inl same ↦
              inr
                (rw (unseen, f) (x, inl refl, (string_eq.same_iff (acc.uid x) (acc.uid o)).0 same))
          | inr other ↦ inl (ground (arith, c, other))
        ]
      ]
    ]
  ]

  unseen-seen :
      (uid : String) (xs : List Obj) (seen : List String)
      → contains uid (unseen acc xs seen).1 ≡ true
      → (contains uid seen ≡ true) ⊎ HasUid uid (unseen acc xs seen).0
  unfolding unseen contains
  unseen-seen uid [] seen h = inl h
  unseen-seen uid (x ∷ xs) seen h = elim (Bool-cases (contains (acc.uid x) seen)) [
    | inl t ↦ rw (unseen, t) (unseen-seen uid xs seen (rw (unseen, t) at h))
    | inr f ↦ elim (unseen-seen uid xs (acc.uid x ∷ seen) (rw (unseen, f) at h)) [
      | inr k ↦ inr (rw (unseen, f) (later uid x (unseen acc xs (acc.uid x ∷ seen)).0 k))
      | inl c ↦ elim (Bool-cases (acc.uid x == uid)) [
        | inl same ↦ inr (rw (unseen, f) (x, inl refl, (string_eq.same_iff (acc.uid x) uid).0 same))
        | inr other ↦ inl (ground (arith, c, other))
      ]
    ]
  ]

  In-append : (o : Obj) (xs ys : List Obj) → In o (xs ++ ys) → In o xs ⊎ In o ys
  In-append o [] ys m = inr m
  In-append o (x ∷ xs) ys (inl e) = inl (inl e)
  In-append o (x ∷ xs) ys (inr m) = elim (In-append o xs ys m) [
    | inl n ↦ inl (inr n)
    | inr n ↦ inr n
  ]

  merge_candidates-In :
      (o : Obj) (owned orphans : List Obj)
      → In o (merge_candidates acc owned orphans)
      → In o owned ⊎ In o orphans
  unfolding merge_candidates
  merge_candidates-In o owned orphans m =
      elim (In-append o (unseen acc owned []).0 (unseen acc orphans (unseen acc owned []).1).0 m) [
        | inl n ↦ inl (unseen-In o owned [] n)
        | inr n ↦ inr (unseen-In o orphans (unseen acc owned []).1 n)
      ]

  first_has : (uid : String) (xs ys : List Obj) → HasUid uid xs → HasUid uid (xs ++ ys)
  first_has uid xs ys (o, m, e) = (o, In-append_left o xs ys m, e)

  second_has : (uid : String) (xs ys : List Obj) → HasUid uid ys → HasUid uid (xs ++ ys)
  second_has uid xs ys (o, m, e) = (o, In-append_right o xs ys m, e)

  merge_candidates-kept :
      (o : Obj) (owned orphans : List Obj)
      → In o owned ⊎ In o orphans
      → HasUid (acc.uid o) (merge_candidates acc owned orphans)
  unfolding merge_candidates contains
  merge_candidates-kept o owned orphans (inl m) = elim (unseen-kept o owned [] m) [
    | inl c ↦ absurd (ground (arith, c))
    | inr h ↦
        first_has (acc.uid o) (unseen acc owned []).0 (unseen acc orphans (unseen acc owned []).1).0
          h
  ]
  merge_candidates-kept o owned orphans (inr m) =
      let (first, seen) = unseen acc owned [] in
      elim (unseen-kept o orphans seen m) [
        | inr h ↦ second_has (acc.uid o) first (unseen acc orphans seen).0 h
        | inl c ↦ elim (unseen-seen (acc.uid o) owned [] c) [
          | inl d ↦ absurd (ground (arith, d))
          | inr h ↦ first_has (acc.uid o) first (unseen acc orphans seen).0 h
        ]
      ]

module _ {Obj : Type 0} (acc : Accessors Obj) (src : Sources Obj) (matches : Obj → Bool)
    (parent : Obj) where
  -- The cached objects in the namespace in which the parent may have children.
  abbrev pub in_scope : Indexer Obj → List Obj
  in_scope indexer = within acc (list_namespace acc src matches parent) indexer.objects

  abbrev mine : Obj → Bool
  mine = claimable acc (manager acc src matches parent)

  claimable-listed :
      (o : Obj) (owned orphans : List Obj) (scope : List Obj)
      → ((o : Obj) → src.controller_of o ≡ first_controller (acc.owner_references o))
      → ((o : Obj) (ref : OwnerReference)
          → In o scope
          → first_controller (acc.owner_references o) ≡ some ref
          → ref.uid ≡ acc.uid parent
          → In o owned)
      → ((o : Obj) → In o scope → first_controller (acc.owner_references o) ≡ none → In o orphans)
      → In o scope
      → mine o ≡ true
      → In o owned ⊎ In o orphans
  claimable-listed o owned orphans scope law own free m t =
      elim (Option-cases (src.controller_of o)) [
        | inl e ↦ inr (free o m (sym (law o) ∙ e))
        | inr (ref, e) ↦ inl (
            own o ref m (sym (law o) ∙ e)
              (ground (arith, t, e, string_eq.same_iff ref.uid (acc.uid parent))))
      ]

  -- With an indexer that answers by its index functions, a cache in which no two objects share a UID,
  -- and controllers read as the first reference that is marked so: claiming from the two indexed
  -- listings finds the same children as claiming from every cached object in the parent's scope.
  pub candidates-claimed :
      (indexer : Indexer Obj)
      → IsIndexed acc indexer
      → ((o : Obj) → src.controller_of o ≡ first_controller (acc.owner_references o))
      → ((o other : Obj)
          → In o indexer.objects
          → In other indexer.objects
          → acc.uid o ≡ acc.uid other
          → o ≡ other)
      → (all : List Obj) × (candidates acc src matches parent indexer ≡ ok all)
        × ((o : Obj)
            → In o (claim_children acc (manager acc src matches parent) all initial).0.0
              ↔ In o
                  (claim_children acc
                    (manager acc src matches parent)
                    (in_scope indexer)
                    initial).0.0)
  unfolding candidates
  candidates-claimed indexer indexed law unique =
      let m = manager acc src matches parent in
      let (owned, listed, from, own) =
        list_by_owner_uid_lem acc indexer (acc.uid parent) (list_namespace acc src matches parent)
          indexed in
      let (orphans, listed', from', free) =
        list_orphans_lem acc indexer (list_namespace acc src matches parent) indexed in
      let all = merge_candidates acc owned orphans in
      let inside : (o : Obj) → In o all → In o (in_scope indexer) = λ o n.
        elim (merge_candidates-In acc o owned orphans n) [ inl a ↦ from o a | inr a ↦ from' o a ] in
      let cached : (o : Obj) → In o (in_scope indexer) → In o indexer.objects =
        λ o n. ((select_iff _ o indexer.objects).0 n).0 in
      (
        all,
        rw (candidates, listed, listed') refl,
        λ o.
            rw
              (
                claim_children-select acc m all initial (initial-IsSafe acc m),
                claim_children-select acc m (in_scope indexer) initial (initial-IsSafe acc m),
              )
              (
                λ n.
                    let (there, t) = (select_iff mine o all).0 n in
                    (select_iff mine o (in_scope indexer)).1 (inside o there, t),
                λ n.
                    let (there, t) = (select_iff mine o (in_scope indexer)).0 n in
                    let (o', n', e) =
                      merge_candidates-kept acc o owned orphans (
                        claimable-listed o owned orphans (in_scope indexer) law own free there t) in
                    let same : o' ≡ o = unique o' o (cached o' (inside o' n')) (cached o there) e in
                    (select_iff mine o all).1 (rw same at n', t),
              ),
      )
