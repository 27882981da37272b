-- ===== src/Apply/Fields.antt =====
-- The merge, field by field: what each field of the result is, whatever order Go iterates in.
use metacontroller.Prelude.{
  [], ℕ, suc, ◌<◌, String, Option, none, some, [], ◌∷◌, Result, ok, ◌≡◌, refl, ◌∙◌, ap, sym, ◌>>=◌,
  bind-eq-ok, insert, delete, lookup, has, get_or, or_default, is_some, UniqueKeys, lookup-insert,
  lookup-delete, arith, if◌then◌else◌, ◌==◌, Bool-cases, inl, inr, string_eq, false, Bool,
}
use metacontroller.Json.{
  Fields, bool, int, float, str, arr, Value, null, obj, Object, entries, height, height_fields,
  Below, entries-Below, object, to_fields, entries-to_fields,
}
use metacontroller.Apply.{
  MergeError, Printer, Merger, merge, merge_object, merge_value, merge_objects, set_desired,
  remove_stale, fields_of, assert_object,
}
use metacontroller.Apply.Total.{merge_object_total, merge-TotalBelow, merge_fuel, merge_step-obj}

lookup-remove_stale :
    (last desired destination : Object) (k : String)
    → lookup k (remove_stale last desired destination) ≡ (
        if has k last
        then (if has k desired then lookup k destination else none)
        else lookup k destination)
unfolding remove_stale lookup
lookup-remove_stale [] desired destination k = refl
lookup-remove_stale ((j, v) ∷ last) desired destination k = elim (Bool-cases (has j desired)) [
  | inl t ↦
      rw t (ground (arith, lookup-remove_stale last desired destination k, string_eq.same_iff j k))
  | inr f ↦ rw f (
      ground (
        arith,
        lookup-remove_stale last desired (delete j destination) k,
        lookup-delete j k destination,
        string_eq.same_iff j k,
      ))
]

-- What a field is after the three-way merge.
abbrev pub three_way :
    Merger → Option Value → Option Value → Option Value → Result MergeError (Option Value)
three_way recur observed last none = ok (if is_some last then none else observed)
three_way recur observed last (some v) =
    recur (or_default null observed) (or_default null last) v >>= λ w. ok (some w)

-- What the loop over the desired fields makes of a field.
abbrev field_after :
    Merger → Option Value → Option Value → Option Value → Result MergeError (Option Value)
field_after recur before last none = ok before
field_after recur before last (some v) =
    recur (or_default null before) (or_default null last) v >>= λ w. ok (some w)

module _ (recur : Merger) where
  set_desired-lookup :
      (last desired destination out : Object) (k : String)
      → UniqueKeys desired
      → set_desired recur last desired destination ≡ ok out
      → field_after recur (lookup k destination) (lookup k last) (lookup k desired)
        ≡ ok (lookup k out)
  unfolding set_desired lookup
  set_desired-lookup last [] destination out k u h =
      ap (λ (r : Result MergeError Object). r >>= λ m. ok (lookup k m)) h
  set_desired-lookup last ((j, v) ∷ desired) destination out k u h =
      let (w, merged, rest) =
        bind-eq-ok (recur (get_or null j destination) (get_or null j last) v)
          (λ w. set_desired recur last desired (insert j w destination)) out h in
      let ih = set_desired-lookup last desired (insert j w destination) out k u.1 rest in
      elim (Bool-cases (j == k)) [
        | inl t ↦
            let e = (string_eq.same_iff j k).0 t in
            let absent = rw e at u.0 in
            let here = rw e at merged in rw (t, here) (rw (lookup-insert, t, absent) at ih)
        | inr f ↦ rw f (rw (lookup-insert, f) at ih)
      ]

  -- The deletions and the additions of `mergeObject` together.
  pub merge_object-lookup :
      (destination last desired out : Object) (k : String)
      → UniqueKeys desired
      → merge_object recur destination last desired ≡ ok out
      → three_way recur (lookup k destination) (lookup k last) (lookup k desired)
        ≡ ok (lookup k out)
  unfolding merge_object
  merge_object-lookup destination last desired out k u h =
      after (lookup k desired) refl
        (set_desired-lookup last desired (remove_stale last desired destination) out k u h)
    where
      after :
          (o : Option Value)
          → lookup k desired ≡ o
          → field_after recur
              (lookup k (remove_stale last desired destination))
              (lookup k last)
              (lookup k desired)
            ≡ ok (lookup k out)
          → three_way recur (lookup k destination) (lookup k last) (lookup k desired)
            ≡ ok (lookup k out)
      after none e r =
          rw e (ground (arith, lookup-remove_stale last desired destination k, rw e at r))
      after (some v) e r =
          rw e (ground (arith, lookup-remove_stale last desired destination k, rw e at r))

lookup-Below :
    (n : ℕ) (m : Object) (k : String) (v : Value) → Below n m → lookup k m ≡ some v → height v < n
unfolding lookup
lookup-Below n [] k v b h = absurd (ground arith)
lookup-Below n ((j, w) ∷ m) k v b h = elim (Bool-cases (j == k)) [
  | inl t ↦ let e : w ≡ v = cc (rw t at h) in rw e at (b.0)
  | inr f ↦ lookup-Below n m k v b.1 (rw f at h)
]

merge_objects-ok :
    (print : Printer) (observed last desired out : Object)
    → merge_object (merge print (height (object desired))) observed last desired ≡ ok out
    → merge_objects print observed last desired ≡ ok out
unfolding merge_objects merge_value merge
merge_objects-ok print observed last desired out h =
    rw (merge_step-obj, entries-to_fields, entries-to_fields, entries-to_fields)
      (rw h (ap ok (entries-to_fields out)))

three_way_fuel :
    (print : Printer) (fuel : ℕ) (observed last o : Option Value)
    → ((v : Value) → o ≡ some v → height v < fuel)
    → three_way (merge print fuel) observed last o ≡ three_way (merge_value print) observed last o
unfolding merge_value
three_way_fuel print fuel observed last none h = refl
three_way_fuel print fuel observed last (some v) h = rw (
    merge_fuel print fuel (suc (height v)) (or_default null observed) (or_default null last) v
      (h v refl) (omega arith))

object-Below : (m : Object) → Below (height (object m)) m
unfolding height
object-Below m =
    rw entries-to_fields at
      (entries-Below (to_fields m) (suc (height_fields (to_fields m))) (omega arith))

-- The three-way merge always returns an object, and each field of it is what the three values of
-- that field make: a desired field is merged with the observed and the last applied value, a field
-- that was applied before and is not desired is gone, and any other field is as observed.
pub merge_objects_field :
    (print : Printer) (observed last desired : Object)
    → UniqueKeys desired
    → (out : Object) × (merge_objects print observed last desired ≡ ok out)
      × ((k : String)
          → three_way (merge_value print) (lookup k observed) (lookup k last) (lookup k desired)
            ≡ ok (lookup k out))
merge_objects_field print observed last desired u =
    let fuel = height (object desired) in
    let (out, e) =
      merge_object_total fuel (merge print fuel) (merge-TotalBelow print fuel) observed last desired
        (object-Below desired) in
    (
      out,
      merge_objects-ok print observed last desired out e,
      λ k.
          sym (
            three_way_fuel print fuel (lookup k observed) (lookup k last) (lookup k desired)
              (λ v. lookup-Below fuel desired k v (object-Below desired)))
          ∙ merge_object-lookup (merge print fuel) observed last desired out k u e,
    )

-- A desired value that is no object does not replace an observed object, and no error is returned:
-- the result is the observed object without the fields that were applied before.
pub merge_value-dropped :
    (print : Printer) (fs : Fields) (last desired : Value)
    → assert_object desired ≡ (none, false)
    → merge_value print (obj fs) last desired
      ≡ ok (object (remove_stale (fields_of last) [] (entries fs)))
unfolding merge_value merge height assert_object merge_object set_desired
merge_value-dropped print fs last (obj a) h = cc (ap (λ (p : Option Object × Bool). p.0) h)
merge_value-dropped print fs last (arr a) h =
    merge_step-obj print (merge print (height (arr a))) fs last (arr a)
merge_value-dropped print fs last null h = merge_step-obj print (merge print 0) fs last null
merge_value-dropped print fs last (bool b) h = merge_step-obj print (merge print 0) fs last (bool b)
merge_value-dropped print fs last (int k) h = merge_step-obj print (merge print 0) fs last (int k)
merge_value-dropped print fs last (float k) h =
    merge_step-obj print (merge print 0) fs last (float k)
merge_value-dropped print fs last (str t) h = merge_step-obj print (merge print 0) fs last (str t)
