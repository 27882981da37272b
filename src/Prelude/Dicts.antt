-- ===== src/Prelude/Dicts.antt =====
-- Go maps as association lists. The order of the entries stands for Go's unspecified order of
-- iteration; a statement about a map speaks of `lookup` only.
use mathlib.Core.Path.{◌≡◌, refl}
use mathlib.Core.Logic.{◌↔◌, inl, inr}
use mathlib.Core.Bool.{Bool, true, false}
use mathlib.Core.Option.{Option, none, some}
use mathlib.Core.List.{List, [], ◌∷◌}
use native.Mathlib.Omega.{arith}
use metacontroller.Prelude.Tests.{Comparable, ◌==◌, if◌then◌else◌, is_some, or_default, Bool-cases}
use metacontroller.Prelude.Lists.{In}

abbrev pub Entry {ℓ κ} : Type ℓ → Type κ → Type (ℓ ⊔ κ)
Entry K V = K × V

abbrev pub Dict {ℓ κ} : Type ℓ → Type κ → Type (ℓ ⊔ κ)
Dict K V = List (K × V)

module _ {ℓ κ} {K : Type ℓ} {V : Type κ} ⦃c : Comparable K⦄ where
  unfoldable pub lookup : K → Dict K V → Option V
  lookup k [] = none
  lookup k ((other, v) ∷ dict) = if other == k then some v else lookup k dict

  abbrev pub has : K → Dict K V → Bool
  has k dict = is_some (lookup k dict)

  -- The value of a missing key is the zero value.
  abbrev pub get_or : V → K → Dict K V → V
  get_or d k dict = or_default d (lookup k dict)

  unfoldable pub insert : K → V → Dict K V → Dict K V
  insert k v [] = (k, v) ∷ []
  insert k v ((other, old) ∷ dict) =
      let rest = insert k v dict in if other == k then (k, v) ∷ dict else (other, old) ∷ rest

  unfoldable pub delete : K → Dict K V → Dict K V
  delete k [] = []
  delete k ((other, old) ∷ dict) =
      let rest = delete k dict in if other == k then rest else (other, old) ∷ rest

  unfoldable pub keys : Dict K V → List K
  keys [] = []
  keys ((k, v) ∷ dict) = k ∷ keys dict

  abbrev pub HasKey : K → Dict K V → Type κ
  HasKey k dict = (v : V) × (lookup k dict ≡ some v)

  -- No key stands twice, as in every Go map.
  abbrev pub UniqueKeys : Dict K V → Type (ℓ ⊔ κ)
  UniqueKeys [] = Unit
  UniqueKeys ((k, v) ∷ dict) = (lookup k dict ≡ none) × UniqueKeys dict

  pub lookup-insert :
      (k other : K) (v : V) (dict : Dict K V)
      → lookup other (insert k v dict) ≡ (if k == other then some v else lookup other dict)
  unfolding lookup insert
  lookup-insert k other v [] = refl
  lookup-insert k other v ((i, old) ∷ dict) =
      ground (
        arith,
        lookup-insert k other v dict,
        c.same_iff i other,
        c.same_iff i k,
        c.same_iff k other,
      )

  pub lookup-delete :
      (k other : K) (dict : Dict K V)
      → lookup other (delete k dict) ≡ (if k == other then none else lookup other dict)
  unfolding lookup delete
  lookup-delete k other [] = ground arith
  lookup-delete k other ((i, old) ∷ dict) =
      ground
        (arith, c.same_iff k other, c.same_iff i k, c.same_iff i other, lookup-delete k other dict)

  pub lookup-insert_self : (k : K) (v : V) (dict : Dict K V) → lookup k (insert k v dict) ≡ some v
  lookup-insert_self k v dict = ground (arith, lookup-insert k k v dict, c.same_iff k k)

  pub has_iff : (k : K) (dict : Dict K V) → (has k dict ≡ true) ↔ HasKey k dict
  has_iff k dict = ground arith

  pub not_has-none : (k : K) (dict : Dict K V) → has k dict ≡ false → lookup k dict ≡ none
  not_has-none k dict h = ground arith

  pub lookup-has : (k : K) (v : V) (dict : Dict K V) → lookup k dict ≡ some v → has k dict ≡ true
  lookup-has k v dict h = ground arith

  pub insert-UniqueKeys :
      (k : K) (v : V) (dict : Dict K V) → UniqueKeys dict → UniqueKeys (insert k v dict)
  unfolding lookup insert
  insert-UniqueKeys k v [] u = (refl, tt)
  insert-UniqueKeys k v ((other, old) ∷ dict) u = ground (
    arith,
    c.same_iff other k,
    c.same_iff k other,
    lookup-insert k other v dict,
    insert-UniqueKeys k v dict,
  )

  pub delete-UniqueKeys : (k : K) (dict : Dict K V) → UniqueKeys dict → UniqueKeys (delete k dict)
  unfolding lookup delete
  delete-UniqueKeys k [] u = tt
  delete-UniqueKeys k ((other, old) ∷ dict) u = ground (
    arith,
    c.same_iff other k,
    c.same_iff k other,
    lookup-delete k other dict,
    delete-UniqueKeys k dict,
  )

module _ {K V : Type 0} ⦃c : Comparable K⦄ where
  pub lookup-In : (k : K) (v : V) (dict : Dict K V) → lookup k dict ≡ some v → In (k, v) dict
  unfolding lookup
  lookup-In k v [] h = absurd (ground arith)
  lookup-In k v ((other, old) ∷ dict) h = elim (Bool-cases (other == k)) [
    | inl t ↦ inl (cc ((c.same_iff other k).0 t, rw t at h))
    | inr f ↦ inr (lookup-In k v dict (rw f at h))
  ]
