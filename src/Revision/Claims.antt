-- ===== src/Revision/Claims.antt =====
-- Who claims a child after the reconciliation of the claims: the first revision that may.
use metacontroller.Prelude.{
  ℕ, suc, String, Bool, false, ◌&&◌, ◌||◌, Option, none, some, List, [], ◌∷◌, ◌≡◌, ◌∙◌, arith, ◌==◌,
  string_eq, if◌then◌else◌, contains, lookup, lookup_nested, lookup_nested-insert,
  lookup-get_or_empty, insert, get_or,
}
use metacontroller.Revision.{
  Children, ClaimMap, ClaimContext, claim_names, claim_children, sync_claims_from,
  sync_revision_claims,
}

abbrev or_else : Option ℕ → Option ℕ → Option ℕ
or_else none b = b
or_else (some a) b = some a

module _ {K : Type 0} (ctx : ClaimContext K) where
  -- The revision lists the child under a kind whose strategy is rolling, and the latest desires it.
  pub may_claim : String → String → Children K → Bool
  may_claim key name [] = false
  may_claim key name (ck ∷ children) =
      (ctx.is_rolling ck.kind
        && ((ctx.key ck.kind == key && contains name ck.names) && ctx.desires ck.kind name))
      || may_claim key name children

  -- The place of the first revision that may claim the child.
  pub first_claimer : ℕ → String → String → List (Children K) → Option ℕ
  first_claimer pr key name [] = none
  first_claimer pr key name (children ∷ revisions) =
      let later = first_claimer (suc pr) key name revisions in
      if may_claim key name children then some pr else later

  claim_names-lookup :
      (pr : ℕ) (kind : K) (names : List String) (claimed : ClaimMap) (key name : String)
      → lookup_nested key name (claim_names ctx pr kind names claimed).1
        ≡ or_else (lookup_nested key name claimed) (
            if (ctx.key kind == key && contains name names) && ctx.desires kind name
            then some pr
            else none)
  unfolding claim_names contains
  claim_names-lookup pr kind [] claimed key name = ground arith
  claim_names-lookup pr kind (n ∷ names) claimed key name = ground (
    arith,
    claim_names-lookup pr kind names claimed key name,
    claim_names-lookup pr kind names
        (insert (ctx.key kind) (insert n pr (get_or [] (ctx.key kind) claimed)) claimed) key name,
    lookup_nested-insert (ctx.key kind) key n name pr (get_or [] (ctx.key kind) claimed) claimed,
    lookup-get_or_empty (ctx.key kind) name claimed,
    string_eq.same_iff n name,
    string_eq.same_iff (ctx.key kind) key,
  )

  claim_children-lookup :
      (pr : ℕ) (children : Children K) (claimed : ClaimMap) (key name : String)
      → lookup_nested key name (claim_children ctx pr children claimed).1
        ≡ or_else
            (lookup_nested key name claimed)
            (if may_claim key name children then some pr else none)
  unfolding claim_children may_claim
  claim_children-lookup pr [] claimed key name = ground arith
  claim_children-lookup pr (ck ∷ children) claimed key name = ground (
    arith,
    claim_children-lookup pr children claimed key name,
    claim_children-lookup pr children (claim_names ctx pr ck.kind ck.names claimed).1 key name,
    claim_names-lookup pr ck.kind ck.names claimed key name,
  )

  sync_claims_from-lookup :
      (pr : ℕ) (revisions : List (Children K)) (claimed : ClaimMap) (key name : String)
      → lookup_nested key name (sync_claims_from ctx pr revisions claimed).1
        ≡ or_else (lookup_nested key name claimed) (first_claimer pr key name revisions)
  unfolding sync_claims_from first_claimer
  sync_claims_from-lookup pr [] claimed key name = ground arith
  sync_claims_from-lookup pr (children ∷ revisions) claimed key name = ground (
    arith,
    sync_claims_from-lookup (suc pr) revisions (claim_children ctx pr children claimed).1 key name,
    claim_children-lookup pr children claimed key name,
  )

  -- After the reconciliation a child belongs to the first revision, the latest before all others,
  -- that lists it under a rolling kind, provided that the latest desires it, and to none otherwise.
  pub sync_revision_claims-lookup :
      (revisions : List (Children K)) (key name : String)
      → lookup_nested key name (sync_revision_claims ctx revisions).1
        ≡ first_claimer 0 key name revisions
  unfolding sync_revision_claims lookup_nested lookup
  sync_revision_claims-lookup revisions key name =
      sync_claims_from-lookup 0 revisions [] key name ∙ ground arith
