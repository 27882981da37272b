-- ===== src/Prelude/Nested.antt =====
-- Maps of maps.
use mathlib.Core.Path.{◌≡◌, refl, ◌∙◌}
use mathlib.Core.Bool.{Bool, true, ◌&&◌}
use mathlib.Core.Option.{Option, none, some}
use mathlib.Core.Logic.{inl, inr}
use mathlib.Core.List.{[], ◌∷◌}
use native.Mathlib.Omega.{arith}
use metacontroller.Prelude.Tests.{
  Comparable, ◌==◌, if◌then◌else◌, is_some, Bool-cases, Option-cases,
}
use metacontroller.Prelude.Dicts.{Dict, lookup, insert, has, get_or, lookup-insert, UniqueKeys}

module _ {K J V : Type 0} ⦃c : Comparable K⦄ ⦃d : Comparable J⦄ where
  unfoldable pub lookup_nested : K → J → Dict K (Dict J V) → Option V
  lookup_nested k j m = elim (lookup k m) [ none ↦ none | some inner ↦ lookup j inner ]

  pub lookup_nested-insert :
      (k k' : K) (j j' : J) (v : V) (inner : Dict J V) (m : Dict K (Dict J V))
      → lookup j' inner ≡ lookup_nested k j' m
      → lookup_nested k' j' (insert k (insert j v inner) m)
        ≡ (if k == k' && j == j' then some v else lookup_nested k' j' m)
  unfolding lookup_nested
  lookup_nested-insert k k' j j' v inner m h =
      ground (
        arith,
        lookup-insert k k' (insert j v inner) m,
        lookup-insert j j' v inner,
        c.same_iff k k',
      )

  -- Writing an empty inner map for a key that has none changes no lookup.
  pub lookup_nested-init :
      (k k' : K) (j' : J) (m : Dict K (Dict J V))
      → lookup_nested k' j' (if has k m then m else insert k [] m) ≡ lookup_nested k' j' m
  unfolding lookup_nested lookup
  lookup_nested-init k k' j' m = ground (arith, lookup-insert k k' [] m, c.same_iff k k')

  pub lookup-get_or_empty :
      (k : K) (j' : J) (m : Dict K (Dict J V)) → lookup j' (get_or [] k m) ≡ lookup_nested k j' m
  unfolding lookup_nested lookup
  lookup-get_or_empty k j' m = ground arith

  -- Writes an inner key that is there already, and nothing else.
  unfoldable pub replace_nested : K → J → V → Dict K (Dict J V) → Dict K (Dict J V)
  replace_nested k j v m = elim (lookup k m) [
    | none ↦ m
    | some inner ↦ if has j inner then insert k (insert j v inner) m else m
  ]

  pub lookup_nested-replace :
      (k k' : K) (j j' : J) (v : V) (m : Dict K (Dict J V))
      → lookup_nested k' j' (replace_nested k j v m) ≡ (
          if (k == k' && j == j') && is_some (lookup_nested k' j' m)
          then some v
          else lookup_nested k' j' m)
  unfolding lookup_nested replace_nested lookup
  lookup_nested-replace k k' j j' v m = elim (Option-cases (lookup k m)) [
    | inl e ↦ rw (e, replace_nested) (ground (arith, c.same_iff k k', e))
    | inr (inner, e) ↦
        rw (e, replace_nested)
          (ground (
            arith,
            lookup-insert k k' (insert j v inner) m,
            lookup-insert j j' v inner,
            c.same_iff k k',
            d.same_iff j j',
            e,
          ))
  ]

  -- The inner key under the first outer key that passes a test and has it.
  unfoldable pub find_nested : (K → Bool) → J → Dict K (Dict J V) → Option V
  find_nested p j [] = none
  find_nested p j ((k, inner) ∷ m) =
      let rest = find_nested p j m in
      if p k then elim (lookup j inner) [ none ↦ rest | some v ↦ some v ] else rest

  skip :
      (i k : K) (j : J) (inner : Dict J V) (v : V) (m : Dict K (Dict J V))
      → lookup i m ≡ none
      → lookup_nested k j m ≡ some v
      → lookup_nested k j ((i, inner) ∷ m) ≡ some v
  unfolding lookup_nested lookup
  skip i k j inner v m absent h = ground (arith, c.same_iff i k)

  first :
      (i : K) (j : J) (inner : Dict J V) (m : Dict K (Dict J V))
      → lookup_nested i j ((i, inner) ∷ m) ≡ lookup j inner
  unfolding lookup_nested lookup
  first i j inner m = ground (arith, c.same_iff i i)

  missed :
      (p : K → Bool) (i : K) (j : J) (inner : Dict J V) (m : Dict K (Dict J V))
      → find_nested p j ((i, inner) ∷ m) ≡ none
      → find_nested p j m ≡ none
  unfolding find_nested
  missed p i j inner m h = ground arith

  absent :
      (p : K → Bool) (i : K) (j : J) (inner : Dict J V) (m : Dict K (Dict J V))
      → find_nested p j ((i, inner) ∷ m) ≡ none
      → p i ≡ true
      → lookup j inner ≡ none
  unfolding find_nested
  absent p i j inner m h t = ground arith

  pub find_nested_sound :
      (p : K → Bool) (j : J) (v : V) (m : Dict K (Dict J V))
      → UniqueKeys m
      → find_nested p j m ≡ some v
      → (k : K) × (p k ≡ true) × (lookup_nested k j m ≡ some v)
  unfolding find_nested lookup_nested lookup
  find_nested_sound p j v [] u h = cc
  find_nested_sound p j v ((i, inner) ∷ m) u h = elim (Bool-cases (p i)) [
    | inl t ↦ elim (Option-cases (lookup j inner)) [
      | inl e ↦
          let (k, q, f) = find_nested_sound p j v m u.1 (rw (t, e) at h) in
          (k, q, skip i k j inner v m u.0 f)
      | inr (x, e) ↦ (i, t, first i j inner m ∙ e ∙ rw (t, e) at h)
    ]
    | inr n ↦
        let (k, q, f) = find_nested_sound p j v m u.1 (rw n at h) in
        (k, q, skip i k j inner v m u.0 f)
  ]

  pub find_nested_complete :
      (p : K → Bool) (j : J) (m : Dict K (Dict J V)) (k : K)
      → find_nested p j m ≡ none
      → p k ≡ true
      → lookup_nested k j m ≡ none
  unfolding find_nested lookup_nested lookup
  find_nested_complete p j [] k h t = refl
  find_nested_complete p j ((i, inner) ∷ m) k h t = elim (Bool-cases (i == k)) [
    | inl e ↦
        let same = (c.same_iff i k).0 e in
        rw (← same) (first i j inner m ∙ absent p i j inner m h (rw (← same) at t))
    | inr n ↦ rw (lookup_nested, n) (find_nested_complete p j m k (missed p i j inner m h) t)
  ]
