-- ===== src/Apply/Total.antt =====
-- The fuel of `merge` suffices at the height of the desired value, and no type error is ever returned.
use mathlib.Core.Path.{fun_ext}
use metacontroller.Prelude.{
  ℕ, zero, suc, ◌<◌, String, List, [], ◌∷◌, Result, ok, ◌≡◌, refl, ◌∙◌, ap, ◌>>=◌, insert, get_or,
  arith, ◌==◌, Bool-cases, inl, inr, Option-cases, string_eq,
}
use metacontroller.Json.{
  Value, null, arr, obj, Items, Fields, Object, items, entries, height, Below, ItemsBelow,
  entries-Below, items-ItemsBelow, object, array,
}
use metacontroller.Apply.{
  MergeError, Printer, Merger, merge, merge_step, merge_array, merge_list_map, merge_object,
  set_desired, remove_stale, make_list_map, list_map_from, detect_list_map_key, item_key, rebuild,
  assert_object, assert_array, fields_of,
}

-- A merger that returns a value for every desired value below a height.
abbrev pub TotalBelow : ℕ → Merger → Type 0
TotalBelow n recur = (d l v : Value) → height v < n → (w : Value) × (recur d l v ≡ ok w)

insert-Below :
    (n : ℕ) (k : String) (v : Value) (m : Object)
    → height v < n
    → Below n m
    → Below n (insert k v m)
unfolding insert
insert-Below n k v [] h b = (h, tt)
insert-Below n k v ((j, w) ∷ m) h b = elim (Bool-cases (j == k)) [
  | inl t ↦ rw t (h, b.1)
  | inr f ↦ rw f (b.0, insert-Below n k v m h b.1)
]

list_map_from-Below :
    (print : Printer) (mk : String) (n : ℕ) (res : Object) (list : List Value)
    → Below n res
    → ItemsBelow n list
    → Below n (list_map_from print mk res list)
unfolding list_map_from
list_map_from-Below print mk n res [] b i = b
list_map_from-Below print mk n res (item ∷ list) b i =
    list_map_from-Below print mk n (insert (item_key print mk item) item res) list
      (insert-Below n (item_key print mk item) item res i.0 b) i.1

pub make_list_map-Below :
    (print : Printer) (mk : String) (n : ℕ) (list : List Value)
    → ItemsBelow n list
    → Below n (make_list_map print mk list)
unfolding make_list_map
make_list_map-Below print mk n list i = list_map_from-Below print mk n [] list tt i

module _ (n : ℕ) (recur : Merger) (total : TotalBelow n recur) where
  pub set_desired_total :
      (last desired destination : Object)
      → Below n desired
      → (out : Object) × (set_desired recur last desired destination ≡ ok out)
  unfolding set_desired
  set_desired_total last [] destination b = (destination, refl)
  set_desired_total last ((k, v) ∷ desired) destination b =
      let (w, e) = total (get_or null k destination) (get_or null k last) v b.0 in
      let (out, r) = set_desired_total last desired (insert k w destination) b.1 in (out, rw e r)

  pub merge_object_total :
      (destination last desired : Object)
      → Below n desired
      → (out : Object) × (merge_object recur destination last desired ≡ ok out)
  unfolding merge_object
  merge_object_total destination last desired b =
      set_desired_total last desired (remove_stale last desired destination) b

  merge_list_map_total :
      (print : Printer) (mk : String) (destination last desired : List Value)
      → ItemsBelow n desired
      → (w : Value) × (merge_list_map print recur mk destination last desired ≡ ok w)
  unfolding merge_list_map
  merge_list_map_total print mk destination last desired b =
      let (out, e) =
        merge_object_total (make_list_map print mk destination) (make_list_map print mk last)
          (make_list_map print mk desired) (make_list_map-Below print mk n desired b) in
      (array (rebuild print mk out destination desired), rw e)

  merge_array_total :
      (print : Printer) (destination last desired : List Value)
      → ItemsBelow n desired
      → (w : Value) × (merge_array print recur destination last desired ≡ ok w)
  unfolding merge_array
  merge_array_total print destination last desired b =
      elim (Option-cases (detect_list_map_key destination last desired)) [
        | inl e ↦ (array desired, rw (e, merge_array))
        | inr (mk, e) ↦
            rw (e, merge_array) (merge_list_map_total print mk destination last desired b)
      ]

-- The slices of a value that is an array.
abbrev pub elements_of : Value → List Value
elements_of (arr xs) = items xs
elements_of _ = []

module _ (print : Printer) (recur : Merger) where
  -- A failed assertion leaves nil, so neither error branch can be taken.
  pub merge_step-obj :
      (fs : Fields) (last desired : Value)
      → merge_step print recur (obj fs) last desired ≡ (
          merge_object recur (entries fs) (fields_of last) (fields_of desired) >>= λ merged.
          ok (object merged))
  unfolding merge_step assert_object
  merge_step-obj fs (obj a) (obj b) = refl
  merge_step-obj fs (obj a) _ = refl
  merge_step-obj fs _ (obj b) = refl
  merge_step-obj fs _ _ = refl

  pub merge_step-arr :
      (xs : Items) (last desired : Value)
      → merge_step print recur (arr xs) last desired
        ≡ merge_array print recur (items xs) (elements_of last) (elements_of desired)
  unfolding merge_step assert_array
  merge_step-arr xs (arr a) (arr b) = refl
  merge_step-arr xs (arr a) _ = refl
  merge_step-arr xs _ (arr b) = refl
  merge_step-arr xs _ _ = refl

pub fields_of-Below : (v : Value) (n : ℕ) → height v < suc n → Below n (fields_of v)
unfolding height
fields_of-Below (obj fs) n h = entries-Below fs n (omega arith)
fields_of-Below _ n h = tt

pub elements_of-ItemsBelow : (v : Value) (n : ℕ) → height v < suc n → ItemsBelow n (elements_of v)
unfolding height
elements_of-ItemsBelow (arr xs) n h = items-ItemsBelow xs n (omega arith)
elements_of-ItemsBelow _ n h = tt

module _ (print : Printer) (recur : Merger) (n : ℕ) (total : TotalBelow n recur) where
  -- One level of `merge`, at every kind of destination and of desired value.
  merge_step_total :
      (destination last desired : Value)
      → height desired < suc n
      → (w : Value) × (merge_step print recur destination last desired ≡ ok w)
  unfolding merge_step
  merge_step_total (obj fs) last desired h =
      let (out, e) =
        merge_object_total n recur total (entries fs) (fields_of last) (fields_of desired)
          (fields_of-Below desired n h) in
      (object out, merge_step-obj print recur fs last desired ∙ rw e)
  merge_step_total (arr xs) last desired h =
      let (w, e) =
        merge_array_total n recur total print (items xs) (elements_of last) (elements_of desired)
          (elements_of-ItemsBelow desired n h) in
      (w, merge_step-arr print recur xs last desired ∙ e)
  merge_step_total _ last desired h = (desired, refl)

pub merge-TotalBelow : (print : Printer) (fuel : ℕ) → TotalBelow fuel (merge print fuel)
unfolding merge
merge-TotalBelow print zero d l v h = absurd (omega arith)
merge-TotalBelow print (suc fuel) d l v h =
    merge_step_total print (merge print fuel) fuel (merge-TotalBelow print fuel) d l v h

-- With more fuel than the desired value is deep, `merge` returns a value whatever the observed and
-- the last applied values are: no type error is ever reported.
pub merge_total :
    (print : Printer) (fuel : ℕ) (destination last desired : Value)
    → height desired < fuel
    → (w : Value) × (merge print fuel destination last desired ≡ ok w)
merge_total print fuel destination last desired h =
    merge-TotalBelow print fuel destination last desired h

-- Two mergers that agree on every desired value below a height.
abbrev AgreeBelow : ℕ → Merger → Merger → Type 0
AgreeBelow n f g = (d l v : Value) → height v < n → f d l v ≡ g d l v

module _ (n : ℕ) (f g : Merger) (agree : AgreeBelow n f g) where
  set_desired_agree :
      (last desired destination : Object)
      → Below n desired
      → set_desired f last desired destination ≡ set_desired g last desired destination
  unfolding set_desired
  set_desired_agree last [] destination b = refl
  set_desired_agree last ((k, v) ∷ desired) destination b =
      rw (agree (get_or null k destination) (get_or null k last) v b.0) (
        ap
          (λ (h : Value → Result MergeError Object).
            g (get_or null k destination) (get_or null k last) v >>= h)
          (fun_ext λ w. set_desired_agree last desired (insert k w destination) b.1))

  merge_array_agree :
      (print : Printer) (destination last desired : List Value)
      → ItemsBelow n desired
      → merge_array print f destination last desired ≡ merge_array print g destination last desired
  unfolding merge_array merge_list_map merge_object
  merge_array_agree print destination last desired b =
      elim (Option-cases (detect_list_map_key destination last desired)) [
        | inl e ↦ rw (e, merge_array)
        | inr (mk, e) ↦
            rw (e, merge_array)
              (ap
                (λ (r : Result MergeError Object).
                  r >>= λ merged. ok (array (rebuild print mk merged destination desired)))
                (set_desired_agree (make_list_map print mk last) (make_list_map print mk desired)
                  (remove_stale (make_list_map print mk last) (make_list_map print mk desired)
                    (make_list_map print mk destination))
                  (make_list_map-Below print mk n desired b)))
      ]

  merge_step_agree :
      (print : Printer) (destination last desired : Value)
      → height desired < suc n
      → merge_step print f destination last desired ≡ merge_step print g destination last desired
  merge_step_agree print (obj fs) last desired h =
      rw (merge_step-obj print f, merge_step-obj print g)
        (unfold merge_object in
          ap (λ (r : Result MergeError Object). r >>= λ merged. ok (object merged))
            (set_desired_agree (fields_of last) (fields_of desired)
              (remove_stale (fields_of last) (fields_of desired) (entries fs))
              (fields_of-Below desired n h)))
  merge_step_agree print (arr xs) last desired h =
      rw (merge_step-arr print f, merge_step-arr print g)
        (merge_array_agree print (items xs) (elements_of last) (elements_of desired)
          (elements_of-ItemsBelow desired n h))
  merge_step_agree print _ last desired h = unfold merge_step in refl

-- The fuel does not matter once it is above the height of the desired value.
pub merge_fuel :
    (print : Printer) (f g : ℕ) (destination last desired : Value)
    → height desired < f
    → height desired < g
    → merge print f destination last desired ≡ merge print g destination last desired
unfolding merge
merge_fuel print zero g d l v hf hg = absurd (omega arith)
merge_fuel print (suc f) zero d l v hf hg = absurd (omega arith)
merge_fuel print (suc f) (suc g) d l v hf hg =
    merge_step_agree (height v) (merge print f) (merge print g)
      (λ d' l' v' h. merge_fuel print f g d' l' v' (omega arith) (omega arith)) print d l v
      (omega arith)
