-- ===== src/Revision/Stale.antt =====
-- What the reconciliation leaves in the revisions themselves.
use metacontroller.Prelude.{
  ℕ, String, true, false, none, List, [], ◌∷◌, ◌++◌, ◌≡◌, refl, arith, ◌==◌, string_eq, length,
  nat_eq, lookup_nested, In, inl, inr, Bool-cases,
}
use metacontroller.Revision.{
  KindChildren, Children, ClaimMap, ClaimContext, claim_names, claim_children, sync_revision_claims,
  sync_claims_from,
}

module _ {K : Type 0} (ctx : ClaimContext K) where
  claim_names-some :
      (pr : ℕ) (kind : K) (name : String) (names : List String) (claimed : ClaimMap)
      → In name names
      → ctx.desires kind name ≡ true
      → lookup_nested (ctx.key kind) name claimed ≡ none
      → length (claim_names ctx pr kind names claimed).0 == 0 ≡ false
  unfolding claim_names
  claim_names-some pr kind name [] claimed i d n = absurd i
  claim_names-some pr kind name (first ∷ names) claimed (inl same) d n =
      let wanted : ctx.desires kind first ≡ true = rw same d in
      let free : lookup_nested (ctx.key kind) first claimed ≡ none = rw same n in
      ground (arith, wanted, free)
  claim_names-some pr kind name (first ∷ names) claimed (inr i) d n =
      let rest = claim_names-some pr kind name names claimed i d n in ground (arith, rest)

  claim_children-In :
      (pr : ℕ) (before after : Children K) (group : KindChildren K) (name : String)
      (claimed : ClaimMap)
      → ctx.is_rolling group.kind ≡ true
      → In name group.names
      → ctx.desires group.kind name ≡ true
      → lookup_nested (ctx.key group.kind) name (claim_children ctx pr before claimed).1 ≡ none
      → In group (claim_children ctx pr (before ++ (group ∷ after)) claimed).0
  unfolding claim_children
  claim_children-In pr [] after group name claimed r i d n =
      rw (claim_children, r, claim_names-some pr group.kind name group.names claimed i d n)
        (inl refl)
  claim_children-In pr (ck ∷ before) after group name claimed r i d n =
      let taken = claim_names ctx pr ck.kind ck.names claimed in
      elim (Bool-cases (ctx.is_rolling ck.kind)) [
        | inr f ↦
            rw (claim_children, f)
              (claim_children-In pr before after group name claimed r i d
                (rw (claim_children, f) at n))
        | inl t ↦ elim (Bool-cases (length taken.0 == 0)) [
          | inl z ↦
              rw (claim_children, t, z)
                (claim_children-In pr before after group name taken.1 r i d
                  (rw (claim_children, t, z) at n))
          | inr s ↦
              rw (claim_children, t, s)
                (inr (
                  claim_children-In pr before after group name taken.1 r i d
                    (rw (claim_children, t, s) at n)))
        ]
      ]

  -- A group of a rolling kind stays in the latest revision with every name that it listed, whatever
  -- children are desired now, where one name that it lists is desired and no group before it claims that
  -- name: one desired name holds the whole group.
  pub sync_revision_claims-stale :
      (before after : Children K) (group : KindChildren K) (name : String)
      (revisions : List (Children K))
      → ctx.is_rolling group.kind ≡ true
      → In name group.names
      → ctx.desires group.kind name ≡ true
      → lookup_nested (ctx.key group.kind) name (claim_children ctx 0 before []).1 ≡ none
      → (latest : Children K) × (others : List (Children K)) × ((sync_revision_claims ctx
            ((before ++ (group ∷ after)) ∷ revisions)).0
          ≡ latest ∷ others)
        × In group latest
  unfolding sync_revision_claims sync_claims_from
  sync_revision_claims-stale before after group name revisions r i d n =
      let kept = claim_children ctx 0 (before ++ (group ∷ after)) [] in
      (
        kept.0,
        (sync_claims_from ctx 1 revisions kept.1).0,
        refl,
        claim_children-In 0 before after group name [] r i d n,
      )
