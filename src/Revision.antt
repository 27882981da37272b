-- ===== src/Revision.antt =====
-- The children that a ControllerRevision claims (pkg/controller/composite/controller_revision.go), and the
-- reconciliation of the claims of all revisions (`syncRevisionClaims` of
-- pkg/controller/composite/rolling_update.go).
pub mod Children
pub mod Counts
pub mod Claims
pub mod Stale
mod Tests
use metacontroller.Prelude.{
  ℕ, suc, ◌+◌, String, Bool, true, false, not, ◌&&◌, ◌||◌, Option, none, some, List, [], ◌∷◌, ◌++◌,
  Dict, lookup_nested, insert, get_or, Comparable, ◌==◌, string_eq, if◌then◌else◌, contains, length,
  is_some, ltb, nat_eq,
}

-- `ControllerRevisionChildren`; the API group and the kind are the one value `kind`.
pub record KindChildren (K : Type 0) : Type 0 where
  pub kind : K
  pub names : List String

-- The `Children` of a revision.
abbrev pub Children : Type 0 → Type 0
Children K = List (KindChildren K)

add_name : String → List String → List String
add_name name names = if contains name names then names else names ++ (name ∷ [])

-- Cuts the first place of the name out of the list.
remove_name : String → List String → List String
remove_name name [] = []
remove_name name (n ∷ names) =
    let rest = remove_name name names in if n == name then names else n ∷ rest

module _ {K : Type 0} ⦃c : Comparable K⦄ where
  unfoldable pub add_child : K → String → Children K → Children K
  unfolding add_name
  add_child kind name [] = record { kind = kind; names = name ∷ [] } ∷ []
  add_child kind name (ch ∷ rest) =
      let later = add_child kind name rest in
      if ch.kind == kind then record ch { names = add_name name ch.names } ∷ rest else ch ∷ later

  unfoldable pub remove_child : K → String → Children K → Children K
  unfolding remove_name
  remove_child kind name [] = []
  remove_child kind name (ch ∷ rest) =
      let later = remove_child kind name rest in
      if ch.kind == kind then record ch { names = remove_name name ch.names } ∷ rest else ch ∷ later

unfoldable pub count_children : {K : Type 0} → Children K → ℕ
count_children [] = 0
count_children (ch ∷ rest) = length ch.names + count_children rest

-- `pruneParentRevisions`: the first revision stays, any other only with children.
unfoldable pub prune_rest : {K : Type 0} → List (Children K) → List (Children K)
prune_rest [] = []
prune_rest (pr ∷ rest) =
    let later = prune_rest rest in if ltb 0 (count_children pr) then pr ∷ later else later

unfoldable pub prune_parent_revisions : {K : Type 0} → List (Children K) → List (Children K)
prune_parent_revisions [] = []
prune_parent_revisions (latest ∷ rest) = latest ∷ prune_rest rest

-- `childClaimMap`: from the key of a kind and a name to the place of the claiming revision.
abbrev pub ClaimMap : Type 0
ClaimMap = Dict String (Dict String ℕ)

-- What the reconciliation asks of the controller: the key of a kind, whether the update strategy of
-- a kind is rolling, and whether the latest revision desires a child.
pub record ClaimContext (K : Type 0) : Type 0 where
  pub key : K → String
  pub is_rolling : K → Bool
  pub desires : K → String → Bool

module _ {K : Type 0} (ctx : ClaimContext K) where
  -- The loop over the names of one kind: the names that the revision `pr` claims.
  unfoldable pub claim_names : ℕ → K → List String → ClaimMap → List String × ClaimMap
  claim_names pr kind [] claimed = ([], claimed)
  claim_names pr kind (name ∷ names) claimed =
      let skip = claim_names pr kind names claimed in
      let claim =
        claim_names pr kind names
          (insert (ctx.key kind) (insert name pr (get_or [] (ctx.key kind) claimed)) claimed) in
      if not (ctx.desires kind name)
      then skip
      else if is_some (lookup_nested (ctx.key kind) name claimed)
      then skip
      else (name ∷ claim.0, claim.1)

  -- The loop over the kinds. A kind is appended as it was read; the names that are left decide only
  -- whether it is.
  unfoldable pub claim_children : ℕ → Children K → ClaimMap → Children K × ClaimMap
  unfolding claim_names
  claim_children pr [] claimed = ([], claimed)
  claim_children pr (ck ∷ children) claimed =
      let skip = claim_children pr children claimed in
      let (names, claimed') = claim_names pr ck.kind ck.names claimed in
      let rest = claim_children pr children claimed' in
      if not (ctx.is_rolling ck.kind)
      then skip
      else if length names == 0
      then rest
      else (ck ∷ rest.0, rest.1)

  sync_claims_from : ℕ → List (Children K) → ClaimMap → List (Children K) × ClaimMap
  sync_claims_from pr [] claimed = ([], claimed)
  sync_claims_from pr (children ∷ revisions) claimed =
      let (children', claimed') = claim_children pr children claimed in
      let rest = sync_claims_from (suc pr) revisions claimed' in (children' ∷ rest.0, rest.1)

  -- `syncRevisionClaims`: the children of each revision, and the claim map. Revisions are numbered
  -- from 0, the latest.
  unfoldable pub sync_revision_claims : List (Children K) → List (Children K) × ClaimMap
  unfolding claim_children sync_claims_from
  sync_revision_claims revisions = sync_claims_from 0 revisions []
