-- ===== src/Revision/Tests.antt =====
-- The theorems on revisions at concrete claims.
use metacontroller.Prelude.{
  String, true, false, ◌&&◌, ◌||◌, List, [], ◌∷◌, ◌≡◌, refl, ◌==◌, string_eq, contains, In, inl,
  inr, lookup_nested, lookup, nat_eq,
}
use metacontroller.Revision.{
  Children, ClaimContext, add_child, remove_child, prune_parent_revisions, sync_revision_claims,
  claim_children,
}
use metacontroller.Revision.Children.{
  claims, IsTidy, has_kind, claims-add_child, claims-remove_child, add_child-IsTidy,
  remove_child-IsTidy,
}
use metacontroller.Revision.Counts.{prune_parent_revisions-keeps}
use metacontroller.Revision.Claims.{first_claimer, sync_revision_claims-lookup}
use metacontroller.Revision.Stale.{sync_revision_claims-stale}

abbrev pods : Children String
pods = record { kind = "Pod"; names = "a" ∷ "b" ∷ [] } ∷ []

pods-IsTidy : IsTidy pods
unfolding contains has_kind
pods-IsTidy = ((refl, (refl, tt)), refl, tt)

claims-add_child_example :
    claims "Pod" "c" (add_child "Pod" "c" pods) ≡ (claims "Pod" "c" pods || true)
claims-add_child_example = claims-add_child "Pod" "Pod" "c" "c" pods

claims-remove_child_example :
    claims "Pod" "a" (remove_child "Pod" "a" pods) ≡ (claims "Pod" "a" pods && false)
claims-remove_child_example = claims-remove_child "Pod" "Pod" "a" "a" pods pods-IsTidy

add_child-IsTidy_example : IsTidy (add_child "Pod" "c" pods)
add_child-IsTidy_example = add_child-IsTidy "Pod" "c" pods pods-IsTidy

remove_child-IsTidy_example : IsTidy (remove_child "Pod" "a" pods)
remove_child-IsTidy_example = remove_child-IsTidy "Pod" "a" pods pods-IsTidy

prune_parent_revisions-keeps_example :
    In [] (prune_parent_revisions ([] ∷ [] ∷ pods ∷ []))
    × In pods (prune_parent_revisions ([] ∷ [] ∷ pods ∷ []))
unfolding claims contains
prune_parent_revisions-keeps_example =
    prune_parent_revisions-keeps "Pod" "a" [] pods ([] ∷ pods ∷ []) refl (inr (inl refl))

-- Pods roll, and only the pod `a` is desired.
abbrev context : ClaimContext String
context = record { key = λ k. k; is_rolling = λ k. k == "Pod"; desires = λ k name. name == "a" }

sync_revision_claims-lookup_example :
    lookup_nested "Pod" "a" (sync_revision_claims context ([] ∷ pods ∷ [])).1
    ≡ first_claimer context 0 "Pod" "a" ([] ∷ pods ∷ [])
sync_revision_claims-lookup_example = sync_revision_claims-lookup context ([] ∷ pods ∷ []) "Pod" "a"

sync_revision_claims-stale_example :
    (latest : Children String) × (others : List (Children String)) × ((sync_revision_claims context
        (pods ∷ [])).0
      ≡ latest ∷ others)
    × In (record { kind = "Pod"; names = "a" ∷ "b" ∷ [] }) latest
sync_revision_claims-stale_example =
    sync_revision_claims-stale context [] [] (record { kind = "Pod"; names = "a" ∷ "b" ∷ [] }) "a"
      [] refl (inl refl) refl (unfold claim_children lookup_nested lookup in refl)
