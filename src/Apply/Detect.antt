-- ===== src/Apply/Detect.antt =====
-- What the detection of a list map guarantees: the type assertions of `mergeListMap` cannot panic.
use mathlib.Core.Path.{subst}
use metacontroller.Prelude.{
  String, Bool, true, ◌&&◌, Option, none, some, List, [], ◌∷◌, ◌++◌, ◌≡◌, refl, sym, ◌∙◌, All,
  All-append_left, All-append_right, In, inl, inr, has, keys, lookup, select, contains, arith, ◌==◌,
  Bool-cases, Option-cases, string_eq,
}
use metacontroller.Json.{Value, null, bool, int, float, str, arr, obj, Fields, Object, entries}
use metacontroller.Apply.{
  common_keys, common_with, first_known, detect_list_map_key, known_merge_keys, or_empty,
}

-- The item is an object that has the key.
abbrev pub HasField : String → Value → Type 0
HasField key (obj fs) = has key (entries fs) ≡ true
HasField key _ = ⊥

contains-keys : (key : String) (m : Object) → contains key (keys m) ≡ has key m
unfolding contains keys lookup
contains-keys key [] = refl
contains-keys key ((j, v) ∷ m) = ground (arith, contains-keys key m)

contains-select :
    (p : String → Bool) (key : String) (xs : List String)
    → contains key (select p xs) ≡ (p key && contains key xs)
unfolding contains select
contains-select p key [] = ground arith
contains-select p key (x ∷ xs) = elim (Bool-cases (x == key)) [
  | inl t ↦ rw ((string_eq.same_iff x key).0 t) (ground (arith, contains-select p key xs))
  | inr f ↦ ground (arith, contains-select p key xs)
]

abbrev InCommon : String → Option (List String) → Type 0
InCommon key none = Unit
InCommon key (some common) = contains key common ≡ true

InCommon-common_with :
    (key : String) (common : Option (List String)) (m : Object)
    → contains key (common_with common m) ≡ true
    → (has key m ≡ true) × InCommon key common
InCommon-common_with key none m h = (sym (contains-keys key m) ∙ h, tt)
InCommon-common_with key (some common) m h =
    ground (arith, contains-select (λ (k : String). has k m) key common)

common_keys_sound :
    (key : String) (common out : Option (List String)) (xs : List Value)
    → common_keys common xs ≡ some out
    → contains key (or_empty out) ≡ true
    → All (HasField key) xs × InCommon key common
unfolding common_keys
common_keys_sound key none out [] h c = (tt, tt)
common_keys_sound key (some common) out [] h c =
    (tt, subst (InCommon key) {y = some common} (cc h) (in_common out c))
  where
    in_common : (o : Option (List String)) → contains key (or_empty o) ≡ true → InCommon key o
    in_common none c = tt
    in_common (some l) c = c
common_keys_sound key common out (obj fs ∷ xs) h c =
    let (rest, here) = common_keys_sound key (some (common_with common (entries fs))) out xs h c in
    let (present, before) = InCommon-common_with key common (entries fs) here in
    ((present, rest), before)
common_keys_sound key common out (_ ∷ xs) h c = cc

first_known_sound :
    (common known : List String) (key : String)
    → first_known common known ≡ some key
    → (contains key common ≡ true) × In key known
unfolding first_known
first_known_sound common [] key h = cc
first_known_sound common (k ∷ known) key h = elim (Bool-cases (contains k common)) [
  | inl t ↦ let e : k ≡ key = cc (rw t at h) in (rw (← e) t, inl e)
  | inr f ↦ let (c, i) = first_known_sound common known key (rw f at h) in (c, inr i)
]

detected :
    (all : List Value) (key : String)
    → (elim (common_keys none all) [
      | none ↦ none
      | some common ↦ first_known (or_empty common) known_merge_keys
    ])
      ≡ some key
    → All (HasField key) all × In key known_merge_keys
detected all key h = elim (Option-cases (common_keys none all)) [
  | inl e ↦ cc (rw e at h)
  | inr (common, e) ↦
      let (c, known) = first_known_sound (or_empty common) known_merge_keys key (rw e at h) in
      ((common_keys_sound key none common all e c).0, known)
]

-- Where a merge key is detected, it is one of the known keys, and every item of the three lists is an
-- object that has it.
pub detect_list_map_key_sound :
    (destination last desired : List Value) (key : String)
    → detect_list_map_key destination last desired ≡ some key
    → In key known_merge_keys
      × All (HasField key) destination
      × All (HasField key) last
      × All (HasField key) desired
unfolding detect_list_map_key
detect_list_map_key_sound destination last desired key h =
    let rest = last ++ desired in
    let (all, known) = detected (destination ++ rest) key h in
    let right = All-append_right (HasField key) destination rest all in
    (
      known,
      All-append_left (HasField key) destination rest all,
      All-append_left (HasField key) last desired right,
      All-append_right (HasField key) last desired right,
    )

-- The other way: objects that have a known key in common are taken for a list map.
common_keys_complete :
    (key : String) (common : List String) (xs : List Value)
    → All (HasField key) xs
    → contains key common ≡ true
    → (out : List String) × (common_keys (some common) xs ≡ some (some out))
      × (contains key out ≡ true)
unfolding common_keys
common_keys_complete key common [] a c = (common, refl, c)
common_keys_complete key l (obj fs ∷ xs) a c =
    common_keys_complete key (select (λ k. has k (entries fs)) l) xs a.1
      (ground (arith, contains-select (λ (k : String). has k (entries fs)) key l, a.0))
common_keys_complete key common (null ∷ xs) a c = absurd a.0
common_keys_complete key common (bool b ∷ xs) a c = absurd a.0
common_keys_complete key common (int n ∷ xs) a c = absurd a.0
common_keys_complete key common (float n ∷ xs) a c = absurd a.0
common_keys_complete key common (str t ∷ xs) a c = absurd a.0
common_keys_complete key common (arr l ∷ xs) a c = absurd a.0

first_known_complete :
    (common known : List String) (key : String)
    → contains key common ≡ true
    → In key known
    → (k : String) × (first_known common known ≡ some k)
unfolding first_known
first_known_complete common [] key c i = absurd i
first_known_complete common (k ∷ known) key c (inl e) = (k, rw e (rw c refl))
first_known_complete common (k ∷ known) key c (inr i) = elim (Bool-cases (contains k common)) [
  | inl t ↦ (k, rw t)
  | inr f ↦ rw f (first_known_complete common known key c i)
]

-- Where the three lists are not all empty and all their items are objects with one known key in
-- common, some merge key is detected.
pub detect_list_map_key_complete :
    (destination last desired : List Value) (key : String) (fs : Fields) (rest : List Value)
    → destination ++ (last ++ desired) ≡ obj fs ∷ rest
    → In key known_merge_keys
    → All (HasField key) (destination ++ (last ++ desired))
    → (k : String) × (detect_list_map_key destination last desired ≡ some k)
unfolding detect_list_map_key common_keys
detect_list_map_key_complete destination last desired key fs rest e known all =
    let here = rw e at all in
    let (out, found, c) =
      common_keys_complete key (keys (entries fs)) rest here.1
        (contains-keys key (entries fs) ∙ here.0) in
    rw (detect_list_map_key, e, found) (first_known_complete out known_merge_keys key c known)
