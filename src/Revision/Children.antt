-- ===== src/Revision/Children.antt =====
-- What a revision claims after a child is added or removed.
use metacontroller.Prelude.{
  String, Bool, false, not, ◌&&◌, ◌||◌, List, [], ◌∷◌, ◌++◌, ◌≡◌, refl, arith, Comparable, ◌==◌,
  string_eq, contains, Bool-cases, inl, inr,
}
use metacontroller.Revision.{Children, add_name, add_child, remove_name, remove_child}

-- No name stands twice.
abbrev pub NoDup : List String → Type 0
NoDup [] = Unit
NoDup (n ∷ names) = (contains n names ≡ false) × NoDup names

contains-snoc :
    (name n : String) (names : List String)
    → contains n (names ++ (name ∷ [])) ≡ (contains n names || name == n)
unfolding contains
contains-snoc name n [] = ground arith
contains-snoc name n (x ∷ names) = ground (arith, contains-snoc name n names)

contains-add_name :
    (name n : String) (names : List String)
    → contains n (add_name name names) ≡ (contains n names || name == n)
unfolding add_name
contains-add_name name n names =
    ground (arith, contains-snoc name n names, string_eq.same_iff name n)

contains-remove_name :
    (name n : String) (names : List String)
    → NoDup names
    → contains n (remove_name name names) ≡ (contains n names && not (name == n))
unfolding contains remove_name
contains-remove_name name n [] u = refl
contains-remove_name name n (x ∷ names) u = ground (
  arith,
  contains-remove_name name n names,
  string_eq.same_iff name n,
  string_eq.same_iff x name,
  string_eq.same_iff x n,
)

snoc-NoDup :
    (name : String) (names : List String)
    → contains name names ≡ false
    → NoDup names
    → NoDup (names ++ (name ∷ []))
unfolding contains
snoc-NoDup name [] f u = (refl, tt)
snoc-NoDup name (x ∷ names) f u = ground (
  arith,
  snoc-NoDup name names,
  contains-snoc name x names,
  string_eq.same_iff name x,
  string_eq.same_iff x name,
)

add_name-NoDup : (name : String) (names : List String) → NoDup names → NoDup (add_name name names)
unfolding add_name
add_name-NoDup name names u = elim (Bool-cases (contains name names)) [
  | inl t ↦ rw t u
  | inr f ↦ rw f (snoc-NoDup name names f u)
]

remove_name-NoDup :
    (name : String) (names : List String) → NoDup names → NoDup (remove_name name names)
unfolding remove_name
remove_name-NoDup name [] u = tt
remove_name-NoDup name (x ∷ names) u =
    ground (arith, remove_name-NoDup name names, contains-remove_name name x names)

module _ {K : Type 0} ⦃c : Comparable K⦄ where
  -- The revision claims the child.
  unfoldable pub claims : K → String → Children K → Bool
  claims kind name [] = false
  claims kind name (ch ∷ rest) =
      (ch.kind == kind && contains name ch.names) || claims kind name rest

  unfoldable pub has_kind : K → Children K → Bool
  has_kind kind [] = false
  has_kind kind (ch ∷ rest) = ch.kind == kind || has_kind kind rest

  -- Each kind has one group, and no name stands twice in it.
  abbrev pub IsTidy : Children K → Type 0
  IsTidy [] = Unit
  IsTidy (ch ∷ rest) = NoDup ch.names × (has_kind ch.kind rest ≡ false) × IsTidy rest

  -- After a child is added, the revision claims it and whatever it claimed before, and nothing
  -- else.
  pub claims-add_child :
      (kind k : K) (name n : String) (children : Children K)
      → claims k n (add_child kind name children)
        ≡ (claims k n children || (kind == k && name == n))
  unfolding claims add_child contains
  claims-add_child kind k name n [] = ground arith
  claims-add_child kind k name n (ch ∷ rest) = ground (
    arith,
    claims-add_child kind k name n rest,
    contains-add_name name n ch.names,
    c.same_iff kind k,
    c.same_iff ch.kind kind,
    c.same_iff ch.kind k,
  )

  pub has_kind-claims :
      (kind : K) (name : String) (children : Children K)
      → has_kind kind children ≡ false
      → claims kind name children ≡ false
  unfolding claims has_kind
  has_kind-claims kind name [] h = refl
  has_kind-claims kind name (ch ∷ rest) h = ground (arith, has_kind-claims kind name rest)

  -- After a child is removed from tidy children, the revision claims what it claimed before but
  -- for that child.
  pub claims-remove_child :
      (kind k : K) (name n : String) (children : Children K)
      → IsTidy children
      → claims k n (remove_child kind name children)
        ≡ (claims k n children && not (kind == k && name == n))
  unfolding claims remove_child
  claims-remove_child kind k name n [] t = refl
  claims-remove_child kind k name n (ch ∷ rest) t = ground (
    arith,
    claims-remove_child kind k name n rest,
    contains-remove_name name n ch.names,
    c.same_iff kind k,
    c.same_iff ch.kind kind,
    c.same_iff ch.kind k,
    has_kind-claims ch.kind n rest,
    string_eq.same_iff name n,
  )

  has_kind-add_child :
      (kind k : K) (name : String) (children : Children K)
      → has_kind k (add_child kind name children) ≡ (has_kind k children || kind == k)
  unfolding has_kind add_child
  has_kind-add_child kind k name [] = ground arith
  has_kind-add_child kind k name (ch ∷ rest) = ground (
    arith,
    has_kind-add_child kind k name rest,
    c.same_iff ch.kind kind,
    c.same_iff ch.kind k,
    c.same_iff kind k,
  )

  has_kind-remove_child :
      (kind k : K) (name : String) (children : Children K)
      → has_kind k (remove_child kind name children) ≡ has_kind k children
  unfolding has_kind remove_child
  has_kind-remove_child kind k name [] = refl
  has_kind-remove_child kind k name (ch ∷ rest) =
      ground (arith, has_kind-remove_child kind k name rest)

  -- Adding a child keeps the children tidy: one group for each kind, no name twice in it.
  pub add_child-IsTidy :
      (kind : K) (name : String) (children : Children K)
      → IsTidy children
      → IsTidy (add_child kind name children)
  unfolding add_child contains has_kind
  add_child-IsTidy kind name [] t = ((refl, tt), refl, tt)
  add_child-IsTidy kind name (ch ∷ rest) t = elim (Bool-cases (ch.kind == kind)) [
    | inl e ↦ rw e (add_name-NoDup name ch.names t.0, t.1, t.2)
    | inr f ↦ rw f (
      t.0,
      ground (
        arith,
        has_kind-add_child kind ch.kind name rest,
        c.same_iff kind ch.kind,
        c.same_iff ch.kind kind,
      ),
      add_child-IsTidy kind name rest t.2,
    )
  ]

  -- Removing a child keeps the children tidy: one group for each kind, no name twice in it.
  pub remove_child-IsTidy :
      (kind : K) (name : String) (children : Children K)
      → IsTidy children
      → IsTidy (remove_child kind name children)
  unfolding remove_child
  remove_child-IsTidy kind name [] t = tt
  remove_child-IsTidy kind name (ch ∷ rest) t = elim (Bool-cases (ch.kind == kind)) [
    | inl e ↦ rw e (remove_name-NoDup name ch.names t.0, t.1, t.2)
    | inr f ↦ rw f (
      t.0,
      ground (arith, has_kind-remove_child kind ch.kind name rest),
      remove_child-IsTidy kind name rest t.2,
    )
  ]
