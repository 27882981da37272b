-- ===== src/Status/Conditions.antt =====
-- What is read of a condition that was set.
use metacontroller.Prelude.{
  String, not, ◌&&◌, Option, none, some, List, [], ◌∷◌, ◌++◌, ◌==◌, string_eq, if◌then◌else◌,
  is_some, none-is_some, or_default, lookup, lookup-insert, Result, ok, ◌≡◌, refl, arith,
  Bool-cases, Option-cases, inl, inr, ap, ◌∙◌,
}
use metacontroller.Json.{
  Value, str, obj, Object, entries, object, array, entries-to_fields, Fields, to_fields,
}
use metacontroller.Status.{
  FieldAccess, StatusCondition, condition_object, new_status_condition, with_text, of_type,
  find_condition, replace_condition, conditions_path, status_path, get_status_condition,
  set_condition, write_condition, set_status_condition, append_condition, as_string,
}

lookup-with_text :
    (key text : String) (o : Object) (k : String)
    → lookup k (with_text key text o)
      ≡ (if not (text == "") && (key == k) then some (str text) else lookup k o)
unfolding with_text
lookup-with_text key text o k = ground (arith, lookup-insert key k (str text) o)

text_of :
    (text : String)
    → or_default "" (as_string (if not (text == "") then some (str text) else none)) ≡ text
text_of text = elim (Bool-cases (text == "")) [
  | inl e ↦ rw e (ground (arith, (string_eq.same_iff text "").0 e))
  | inr e ↦ rw e refl
]

of_type-obj :
    (t : String) (fs : Fields) (o : Object)
    → entries fs ≡ o
    → lookup "type" o ≡ some (str t)
    → of_type t (obj fs) ≡ some o
of_type-obj t fs o e h = rw (e, h, of_type) (ground (arith, string_eq.same_iff t t))

module _ (c : StatusCondition) where
  type_lem : lookup "type" (condition_object c) ≡ some (str c.type)
  unfolding condition_object lookup
  type_lem = rw (lookup-with_text, lookup-with_text) (ground arith)

  status_lem : lookup "status" (condition_object c) ≡ some (str c.status)
  unfolding condition_object lookup
  status_lem = rw (lookup-with_text, lookup-with_text) (ground arith)

  reason_lem :
      lookup "reason" (condition_object c)
      ≡ (if not (c.reason == "") then some (str c.reason) else none)
  unfolding condition_object lookup
  reason_lem = rw (lookup-with_text, lookup-with_text) (ground arith)

  message_lem :
      lookup "message" (condition_object c)
      ≡ (if not (c.message == "") then some (str c.message) else none)
  unfolding condition_object lookup
  message_lem = rw (lookup-with_text, lookup-with_text) (ground arith)

  -- A condition is read back from its object, its empty texts included.
  pub new_status_condition-condition_object : new_status_condition (condition_object c) ≡ c
  unfolding new_status_condition
  new_status_condition-condition_object =
      rw
        (
          new_status_condition,
          type_lem,
          status_lem,
          reason_lem,
          message_lem,
          text_of c.reason,
          text_of c.message,
        )
        refl

  of_type-condition_object :
      of_type c.type (object (condition_object c)) ≡ some (condition_object c)
  of_type-condition_object =
      of_type-obj c.type (to_fields (condition_object c)) (condition_object c)
        (entries-to_fields (condition_object c)) type_lem

find-replace :
    (c : StatusCondition) (conditions : List Value)
    → is_some (replace_condition c conditions) ≡ is_some (find_condition c.type conditions)
unfolding replace_condition find_condition
find-replace c [] = refl
find-replace c (item ∷ conditions) = elim (Option-cases (of_type c.type item)) [
  | inl e ↦ ground (arith, e, find-replace c conditions)
  | inr (o, e) ↦ ground (arith, e)
]

replaces-nothing :
    (c : StatusCondition) (conditions : List Value)
    → find_condition c.type conditions ≡ none
    → replace_condition c conditions ≡ none
replaces-nothing c conditions h =
    none-is_some (replace_condition c conditions) (rw (find-replace c conditions, h) refl)

replaces-some :
    (c : StatusCondition) (conditions : List Value) (old : StatusCondition)
    → find_condition c.type conditions ≡ some old
    → (changed : List Value) × (replace_condition c conditions ≡ some changed)
replaces-some c conditions old h = elim (Option-cases (replace_condition c conditions)) [
  | inr found ↦ found
  | inl e ↦ cc (e, rw h at (find-replace c conditions))
]

find-append :
    (t : String) (conditions : List Value) (item : Value)
    → find_condition t conditions ≡ none
    → find_condition t (conditions ++ (item ∷ [])) ≡ find_condition t (item ∷ [])
unfolding find_condition
find-append t [] item h = refl
find-append t (x ∷ conditions) item h = elim (Option-cases (of_type t x)) [
  | inl e ↦ rw (e, find_condition) (find-append t conditions item (rw (e, find_condition) at h))
  | inr (o, e) ↦ cc (rw (e, find_condition) at h)
]

find-single :
    (t : String) (item : Value) (o : Object)
    → of_type t item ≡ some o
    → find_condition t (item ∷ []) ≡ some (new_status_condition o)
unfolding find_condition
find-single t item o e = rw (e, find_condition) refl

-- What the helpers document of a field by the path of its names: a field of an object that was set
-- is read back, and a longer path is read step by step.
pub record ReadsBack (access : FieldAccess) : Type 1 where
  pub set_slice :
      (o : Object) (xs : List Value)
      → (out : Object) × (access.set_nested_field o (array xs) conditions_path ≡ ok out)
        × (access.nested_slice out conditions_path ≡ ok (some xs))
  pub set_map :
      (o status : Object)
      → (out : Object) × (access.set_nested_field o (object status) status_path ≡ ok out)
        × (access.nested_map out status_path ≡ ok (some status))
  pub step :
      (o status : Object)
      → access.nested_map o status_path ≡ ok (some status)
      → access.nested_slice o ("status" ∷ "conditions" ∷ [])
        ≡ access.nested_slice status conditions_path

abbrev answered : {E : Type 0} → Option StatusCondition → Result E (Option StatusCondition)
answered found = ok found

module _ (access : FieldAccess) (laws : ReadsBack access) (c : StatusCondition) where
  append_condition-read :
      (status : Object) (conditions : List Value)
      → find_condition c.type conditions ≡ none
      → (out : Object) × (found : List Value) × (append_condition access c status conditions
          ≡ ok out)
        × (access.nested_slice out conditions_path ≡ ok (some found))
        × (find_condition c.type found ≡ some c)
  unfolding append_condition find_condition
  append_condition-read status conditions h =
      let item = object (condition_object c) in
      let (out, set, get) = laws.set_slice status (conditions ++ (item ∷ [])) in
      (
        out,
        conditions ++ (item ∷ []),
        set,
        get,
        find-append c.type conditions item h
            ∙ find-single c.type item (condition_object c) (of_type-condition_object c)
            ∙ ap some (new_status_condition-condition_object c),
      )

  write_condition-read :
      (status : Object) (found : Option (List Value))
      → find_condition c.type (or_default [] found) ≡ none
      → (out : Object) × (conditions : List Value) × (write_condition access c status found
          ≡ ok out)
        × (access.nested_slice out conditions_path ≡ ok (some conditions))
        × (find_condition c.type conditions ≡ some c)
  unfolding write_condition
  write_condition-read status none h = append_condition-read status [] h
  write_condition-read status (some l) h =
      rw (write_condition, replaces-nothing c l h) (append_condition-read status l h)

  -- A condition of a type that the status has not is read back after it is set, where the status
  -- and its conditions can be read.
  pub get_status_condition-set_status_condition :
      (o : Object) (status : Option Object) (found : Option (List Value))
      → access.nested_map o status_path ≡ ok status
      → access.nested_slice (or_default [] status) conditions_path ≡ ok found
      → find_condition c.type (or_default [] found) ≡ none
      → (out : Object) × (set_status_condition access o c ≡ ok out)
        × (get_status_condition access out c.type ≡ ok (some c))
  unfolding set_status_condition get_status_condition set_condition
  get_status_condition-set_status_condition o status found m s h =
      let (changed, conditions, set, get, hit) =
        write_condition-read (or_default [] status) found h in
      let (out, set_out, get_out) = laws.set_map o changed in
      (
        out,
        rw (set_status_condition, m, set_condition, s, set) set_out,
        rw (get_status_condition, laws.step out changed get_out, get) (ap answered hit),
      )

-- `NestedSlice` documents that it returns a deep copy: an assignment to it does not reach the object.
abbrev pub Copies : FieldAccess → Type 0
Copies access =
    (o : Object) (path : List String) (changed : List Value) → access.assigned o path changed ≡ o

module _ (access : FieldAccess) (laws : ReadsBack access) (copies : Copies access) where
  write_condition-kept :
      (status : Object) (c old : StatusCondition) (conditions : List Value)
      → find_condition c.type conditions ≡ some old
      → write_condition access c status (some conditions) ≡ ok status
  unfolding write_condition
  write_condition-kept status c old conditions h =
      let (changed, r) = replaces-some c conditions old h in
      rw (write_condition, r) (ap ok (copies status conditions_path changed))

  -- Setting a condition of a type that the status has already changes nothing, where the helpers
  -- return copies as they document: the status is as it was, and the old condition is what is read
  -- after the new one was set.
  pub set_condition-kept :
      (o status : Object) (c old : StatusCondition) (conditions : List Value)
      → access.nested_map o status_path ≡ ok (some status)
      → access.nested_slice status conditions_path ≡ ok (some conditions)
      → find_condition c.type conditions ≡ some old
      → (set_condition access status c ≡ ok status)
        × ((out : Object) × (set_status_condition access o c ≡ ok out)
            × (get_status_condition access out c.type ≡ ok (some old)))
  unfolding set_condition set_status_condition get_status_condition
  set_condition-kept o status c old conditions m e h =
      let kept : set_condition access status c ≡ ok status =
        rw (set_condition, e) (write_condition-kept status c old conditions h) in
      let (out, set, get) = laws.set_map o status in
      (
        kept,
        (
          out,
          rw (set_status_condition, m, kept) set,
          rw (get_status_condition, laws.step out status get, e) (ap answered h),
        ),
      )
