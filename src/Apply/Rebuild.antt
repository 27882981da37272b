-- ===== src/Apply/Rebuild.antt =====
-- The list that `mergeListMap` rebuilds from the merged map: the order of the observed items is kept,
-- and no merged item is lost.
use mathlib.Core.List.{append-nil, append_assoc}
use metacontroller.Prelude.{
  String, none, some, List, [], ◌∷◌, ◌++◌, ◌≡◌, refl, sym, ◌∙◌, ap, All, All-map, All-In, All-of_In,
  In, inl, inr, get_or, lookup, contains, contains→In, Bool-cases, Option-cases, string_eq,
  In-append_left, In-append_right,
}
use metacontroller.Json.{Value, null, Object}
use metacontroller.Apply.{Printer, item_key, keep_observed, add_desired, rebuild}

-- The observed items that are left, each with the value that the merged map has under its key.
unfoldable pub kept : Printer → String → Object → List Value → List Value
kept print mk merged [] = []
kept print mk merged (item ∷ rest) = elim (lookup (item_key print mk item) merged) [
  | none ↦ kept print mk merged rest
  | some v ↦ v ∷ kept print mk merged rest
]

module _ (print : Printer) (mk : String) (merged : Object) where
  keep_observed-list :
      (destination list : List Value) (added : List String)
      → (keep_observed print mk merged destination (list, added)).0
        ≡ list ++ kept print mk merged destination
  unfolding keep_observed kept
  keep_observed-list [] list added = sym (append-nil list)
  keep_observed-list (item ∷ rest) list added =
      elim (Option-cases (lookup (item_key print mk item) merged)) [
        | inl e ↦ rw (e, keep_observed, kept) (keep_observed-list rest list added)
        | inr (v, e) ↦
            rw (e, keep_observed, kept)
              (keep_observed-list rest (list ++ (v ∷ [])) (item_key print mk item ∷ added)
                ∙ append_assoc list (v ∷ []) (kept print mk merged rest))
      ]

  add_desired-prefix :
      (desired list : List Value) (added : List String)
      → (new : List Value) × ((add_desired print mk merged desired (list, added)).0 ≡ list ++ new)
  unfolding add_desired
  add_desired-prefix [] list added = ([], sym (append-nil list))
  add_desired-prefix (item ∷ rest) list added =
      elim (Bool-cases (contains (item_key print mk item) added)) [
        | inl t ↦ rw (t, add_desired) (add_desired-prefix rest list added)
        | inr f ↦
            let v = get_or null (item_key print mk item) merged in
            let (new, e) =
              add_desired-prefix rest (list ++ (v ∷ [])) (item_key print mk item ∷ added) in
            rw (f, add_desired) (v ∷ new, e ∙ append_assoc list (v ∷ []) new)
      ]

  -- Every key noted as added has its merged value in the list.
  abbrev Noted : List Value × List String → Type 0
  Noted (list, added) = All (λ (key : String). In (get_or null key merged) list) added

  Noted-snoc :
      (key : String) (v : Value) (list : List Value) (added : List String)
      → get_or null key merged ≡ v
      → Noted (list, added)
      → Noted (list ++ (v ∷ []), key ∷ added)
  Noted-snoc key v list added e n = (
    In-append_right (get_or null key merged) list (v ∷ []) (inl (sym e)),
    All-map added (λ k. In-append_left (get_or null k merged) list (v ∷ [])) n,
  )

  keep_observed-Noted :
      (destination : List Value) (acc : List Value × List String)
      → Noted acc
      → Noted (keep_observed print mk merged destination acc)
  unfolding keep_observed
  keep_observed-Noted [] acc n = n
  keep_observed-Noted (item ∷ rest) (list, added) n =
      elim (Option-cases (lookup (item_key print mk item) merged)) [
        | inl e ↦ rw (e, keep_observed) (keep_observed-Noted rest (list, added) n)
        | inr (v, e) ↦
            rw (e, keep_observed)
              (keep_observed-Noted rest (list ++ (v ∷ []), item_key print mk item ∷ added)
                (Noted-snoc (item_key print mk item) v list added (rw e refl) n))
      ]

  add_desired-Noted :
      (desired : List Value) (acc : List Value × List String)
      → Noted acc
      → Noted (add_desired print mk merged desired acc)
  unfolding add_desired
  add_desired-Noted [] acc n = n
  add_desired-Noted (item ∷ rest) (list, added) n =
      let key = item_key print mk item in
      let v = get_or null key merged in
      elim (Bool-cases (contains key added)) [
        | inl t ↦ rw (t, add_desired) (add_desired-Noted rest (list, added) n)
        | inr f ↦
            rw (f, add_desired)
              (add_desired-Noted rest (list ++ (v ∷ []), key ∷ added)
                (Noted-snoc key v list added refl n))
      ]

  -- What is noted stays noted, and each desired key becomes so.
  add_desired-keeps :
      (desired : List Value) (acc : List Value × List String) (key : String)
      → In key acc.1
      → In key (add_desired print mk merged desired acc).1
  unfolding add_desired
  add_desired-keeps [] acc key m = m
  add_desired-keeps (item ∷ rest) (list, added) key m =
      elim (Bool-cases (contains (item_key print mk item) added)) [
        | inl t ↦ rw (t, add_desired) (add_desired-keeps rest (list, added) key m)
        | inr f ↦ rw (f, add_desired) (add_desired-keeps rest _ key (inr m))
      ]

  add_desired-notes :
      (desired : List Value) (acc : List Value × List String) (item : Value)
      → In item desired
      → In (item_key print mk item) (add_desired print mk merged desired acc).1
  unfolding add_desired
  add_desired-notes [] acc item m = absurd m
  add_desired-notes (x ∷ rest) (list, added) item (inr m) = add_desired-notes rest _ item m
  add_desired-notes (x ∷ rest) (list, added) item (inl e) =
      elim (Bool-cases (contains (item_key print mk x) added)) [
        | inl t ↦
            rw (← e, t, add_desired)
              (add_desired-keeps rest (list, added) (item_key print mk x)
                (contains→In (item_key print mk x) added t))
        | inr f ↦
            rw (← e, f, add_desired) (add_desired-keeps rest _ (item_key print mk x) (inl refl))
      ]

  Noted-In :
      (key : String) (acc : List Value × List String)
      → Noted acc
      → In key acc.1
      → In (get_or null key merged) acc.0
  Noted-In key (list, added) n m = let (k, e, h) = All-In added key n m in rw (← e) h

  -- The rebuilt list begins with the observed items that the merged map still has, in their order
  -- and with their merged values, and it has the merged value of every desired item.
  pub rebuild_complete :
      (destination desired : List Value)
      → (new : List Value) × (rebuild print mk merged destination desired
          ≡ kept print mk merged destination ++ new)
        × All
            (λ item.
              In
                (get_or null (item_key print mk item) merged)
                (rebuild print mk merged destination desired))
            desired
  unfolding rebuild
  rebuild_complete destination desired =
      let (list, added) = keep_observed print mk merged destination ([], []) in
      let (new, e) = add_desired-prefix desired list added in
      (
        new,
        e ∙ ap (λ (l : List Value). l ++ new) (keep_observed-list destination [] []),
        All-of_In desired λ item m.
            Noted-In (item_key print mk item) (add_desired print mk merged desired (list, added))
              (add_desired-Noted desired (list, added)
                (keep_observed-Noted destination ([], []) tt))
              (add_desired-notes desired (list, added) item m),
      )
