-- ===== src/Informers/Subscribers.antt =====
-- How often a key is held.
use metacontroller.Prelude.{
  ℕ, suc, ◌+◌, ◌<◌, String, none, some, List, [], ◌∷◌, ◌++◌, ◌==◌, string_eq, if◌then◌else◌, lookup,
  nat_eq, ◌≡◌, refl, arith, ap, In, inl, inr, Dict,
}
use metacontroller.Informers.{ResourceInformer}

-- How many subscriptions have a key.
unfoldable pub subscribers : String → List ResourceInformer → ℕ
subscribers key [] = 0
subscribers key (ri ∷ held) =
    let rest = subscribers key held in if ri.key == key then suc rest else rest

subscribers-append :
    (key : String) (xs ys : List ResourceInformer)
    → subscribers key (xs ++ ys) ≡ subscribers key xs + subscribers key ys
unfolding subscribers
subscribers-append key [] ys = omega arith
subscribers-append key (x ∷ xs) ys = ground (arith, subscribers-append key xs ys)

pub subscribers-middle :
    (key : String) (xs : List ResourceInformer) (x : ResourceInformer) (ys : List ResourceInformer)
    → subscribers key (xs ++ (x ∷ ys))
      ≡ (if x.key == key then suc (subscribers key (xs ++ ys)) else subscribers key (xs ++ ys))
unfolding subscribers
subscribers-middle key xs x ys =
    ground (arith, subscribers-append key xs (x ∷ ys), subscribers-append key xs ys)

pub unheld :
    (key : String) (shared : Dict String ℕ) (held : List ResourceInformer)
    → ((ri : ResourceInformer) → In ri held → lookup ri.key shared ≡ some ri.shared)
    → lookup key shared ≡ none
    → subscribers key held ≡ 0
unfolding subscribers
unheld key shared [] h e = refl
unheld key shared (ri ∷ held) h e = ground (
  arith,
  h ri (inl refl),
  string_eq.same_iff ri.key key,
  unheld key shared held (λ other m. h other (inr m)) e,
)

pub held-subscribers :
    (ri : ResourceInformer) (held : List ResourceInformer)
    → In ri held
    → 0 < subscribers ri.key held
unfolding subscribers
held-subscribers ri [] m = absurd m
held-subscribers ri (x ∷ held) (inl e) =
    ground (arith, string_eq.same_iff x.key ri.key, ap (λ (r : ResourceInformer). r.key) e)
held-subscribers ri (x ∷ held) (inr m) = ground (arith, held-subscribers ri held m)

pub In-middle :
    (a x : ResourceInformer) (xs ys : List ResourceInformer)
    → In a (xs ++ ys)
    → In a (xs ++ (x ∷ ys))
In-middle a x [] ys m = inr m
In-middle a x (z ∷ xs) ys (inl e) = inl e
In-middle a x (z ∷ xs) ys (inr m) = inr (In-middle a x xs ys m)

pub In-self : (x : ResourceInformer) (xs ys : List ResourceInformer) → In x (xs ++ (x ∷ ys))
In-self x [] ys = inl refl
In-self x (z ∷ xs) ys = inr (In-self x xs ys)
