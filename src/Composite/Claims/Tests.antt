-- ===== src/Composite/Claims/Tests.antt =====
-- The theorems on claims for a parent with an orphan and a child of its own.
use metacontroller.Prelude.{
  String, Bool, true, false, none, some, List, [], ◌∷◌, ◌≡◌, refl, ◌↔◌, In, All, ok, contains,
  select_iff, contains→In, In→contains, string_eq, inl, inr, ap, sym, ◌∙◌,
}
use metacontroller.Objects.{PlainObject, plain_accessors}
use metacontroller.ControllerRef.{initial, claim_children}
use metacontroller.Informers.Index.{IsIndexed, owner_uid_index_func, orphan_index_func}
use metacontroller.Composite.Samples.{kind_named, parent, controller_of, pods, indexer}
use metacontroller.Composite.Claims.{Sources, ChildResource, manager, candidates, claim_kinds}
use metacontroller.Composite.Claims.Candidates.{in_scope, candidates-claimed}
use metacontroller.Composite.Claims.Justified.{Granted, claim_kinds-Justified}

abbrev sources : Sources PlainObject
sources = record {
  controller_of = controller_of;
  live_parent = ok parent;
  update = λ call. none;
  client = λ child. some (kind_named "Pod");
  informer = λ child. some indexer;
  namespaced = true;
}

abbrev all_match : PlainObject → Bool
all_match o = true

indexer-IsIndexed : IsIndexed plain_accessors indexer
indexer-IsIndexed = record {
  owned = λ uid. (
    _,
    refl,
    λ o.
        let (into, from) =
          select_iff (λ x. contains uid (owner_uid_index_func plain_accessors x)) o pods in
        (
          λ m. let (there, c) = into m in (there, contains→In uid _ c),
          λ (there, m). from (there, In→contains uid _ m),
        ),
  );
  orphans = (
    _,
    refl,
    λ o.
        let (into, from) =
          select_iff (λ x. contains "true" (orphan_index_func plain_accessors x)) o pods in
        (
          λ m. let (there, c) = into m in (there, contains→In "true" _ c),
          λ (there, m). from (there, In→contains "true" _ m),
        ),
  );
}

apart : ◌≡◌ {A = String} "1" "2" → ⊥
apart h = let t : false ≡ true = (string_eq.same_iff "1" "2").1 h in cc t

pods_unique : (o other : PlainObject) → In o pods → In other pods → o.uid ≡ other.uid → o ≡ other
pods_unique o other (inl e) (inl f) h = cc (e, f)
pods_unique o other (inl e) (inr (inl f)) h =
    absurd (apart (ap (λ (x : PlainObject). x.uid) e ∙ h ∙ sym (ap (λ (x : PlainObject). x.uid) f)))
pods_unique o other (inr (inl e)) (inl f) h =
    absurd
      (apart (ap (λ (x : PlainObject). x.uid) f ∙ sym h ∙ sym (ap (λ (x : PlainObject). x.uid) e)))
pods_unique o other (inr (inl e)) (inr (inl f)) h = cc (e, f)
pods_unique o other (inl e) (inr (inr m)) h = absurd m
pods_unique o other (inr (inl e)) (inr (inr m)) h = absurd m
pods_unique o other (inr (inr m)) n h = absurd m

candidates-claimed_example :
    (all : List PlainObject) × (candidates plain_accessors sources all_match parent indexer
      ≡ ok all)
    × ((o : PlainObject)
        → In o
            (claim_children plain_accessors
              (manager plain_accessors sources all_match parent)
              all
              initial).0.0
          ↔ In o
              (claim_children plain_accessors
                (manager plain_accessors sources all_match parent)
                (in_scope plain_accessors sources all_match parent indexer)
                initial).0.0)
candidates-claimed_example =
    candidates-claimed plain_accessors sources all_match parent indexer indexer-IsIndexed
      (λ o. refl) pods_unique

abbrev pod_kind : ChildResource
pod_kind = record { api_version = "v1"; resource = "pods" }

claim_kinds-Justified_example :
    All
      (Granted plain_accessors sources all_match parent)
      (claim_kinds plain_accessors sources all_match parent (pod_kind ∷ []) ([], [])).1
claim_kinds-Justified_example =
    claim_kinds-Justified plain_accessors sources all_match parent (pod_kind ∷ []) ([], []) tt
