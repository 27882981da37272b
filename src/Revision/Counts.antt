-- ===== src/Revision/Counts.antt =====
-- Which revisions are pruned, by the number of their children.
use metacontroller.Prelude.{
  ℕ, String, true, false, List, [], ◌∷◌, ◌≡◌, refl, arith, Comparable, string_eq, contains, length,
  ltb, In, ◌<◌, Bool-cases, inl, inr,
}
use metacontroller.Revision.{Children, count_children, prune_rest, prune_parent_revisions}
use metacontroller.Revision.Children.{claims}

contains-length :
    (name : String) (names : List String) → contains name names ≡ true → 0 < length names
unfolding contains
contains-length name [] h = cc
contains-length name (x ∷ names) h = omega arith

not-lt_of_ltb : (n : ℕ) → ltb 0 n ≡ false → ¬ (0 < n)
not-lt_of_ltb n h = ground arith

module _ {K : Type 0} ⦃c : Comparable K⦄ where
  claims-count :
      (kind : K) (name : String) (children : Children K)
      → claims kind name children ≡ true
      → 0 < count_children children
  unfolding count_children claims
  claims-count kind name [] h = cc
  claims-count kind name (ch ∷ rest) h =
      ground (arith, claims-count kind name rest, contains-length name ch.names)

  In-prune_rest :
      (kind : K) (name : String) (pr : Children K) (rest : List (Children K))
      → claims kind name pr ≡ true
      → In pr rest
      → In pr (prune_rest rest)
  unfolding prune_rest
  In-prune_rest kind name pr [] h i = absurd i
  In-prune_rest kind name pr (x ∷ rest) h i = elim (Bool-cases (ltb 0 (count_children x))) [
    | inl t ↦ rw t (elim i [ inl e ↦ inl e | inr j ↦ inr (In-prune_rest kind name pr rest h j) ])
    | inr f ↦ rw f (elim i [
      | inl e ↦
          absurd
            (omega (arith, not-lt_of_ltb (count_children x) f, claims-count kind name x (rw e h)))
      | inr j ↦ In-prune_rest kind name pr rest h j
    ])
  ]

  -- A revision that claims a child is not pruned, nor is the latest one.
  pub prune_parent_revisions-keeps :
      (kind : K) (name : String) (latest pr : Children K) (rest : List (Children K))
      → claims kind name pr ≡ true
      → In pr rest
      → In latest (prune_parent_revisions (latest ∷ rest))
        × In pr (prune_parent_revisions (latest ∷ rest))
  unfolding prune_parent_revisions
  prune_parent_revisions-keeps kind name latest pr rest h i =
      (inl refl, inr (In-prune_rest kind name pr rest h i))
