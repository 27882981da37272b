-- ===== src/Update/Protected.antt =====
-- What an update leaves of the original object.
use metacontroller.Prelude.{
  String, Option, none, some, List, [], ◌∷◌, or_default, ok, bind-eq-ok, In, contains, In→contains,
  true, ◌≡◌, ◌≢◌, refl, sym, ◌∙◌, arith, Option-cases, Bool-cases, Result-cases, ◌==◌, string_eq,
  inl, inr, ◌⊎◌,
}
use metacontroller.Json.{Value, Object}
use metacontroller.Apply.{Printer, merge_objects}
use metacontroller.Apply.Annotation.{Codec, Annotations, get_last_applied, set_last_applied}
use metacontroller.Update.{
  Content, bad_last_applied, cannot_merge, object_meta_system_fields, wrap,
  nullify_last_applied_annotation, revert_field, revert_meta_fields, record_applied,
  revert_protected, after_merge, after_last, apply_update,
}

abbrev pub meta : String → List String
meta name = "metadata" ∷ name ∷ []

-- The field that an object has at a path.
abbrev pub field_at : Content → Object → List String → Option Value
field_at content o path = or_default none (content.get_field o path)

-- What package unstructured documents of its helpers, for the status and the fields of the metadata
-- other than the annotations: a field that is set is there, one that is removed is not, and the
-- others stay.
pub record KeepsFields (content : Content) : Type 0 where
  pub set_here :
      (o o' : Object) (v : Value) (path : List String)
      → content.set_field o v path ≡ some o'
      → field_at content o' path ≡ some v
  pub remove_here :
      (o : Object) (path : List String) → field_at content (content.remove_field o path) path ≡ none
  pub set_other :
      (o o' : Object) (v : Value) (name other : String)
      → other ≢ name
      → content.set_field o v (meta name) ≡ some o'
      → field_at content o' (meta other) ≡ field_at content o (meta other)
  pub remove_other :
      (o : Object) (name other : String)
      → other ≢ name
      → field_at content (content.remove_field o (meta name)) (meta other)
        ≡ field_at content o (meta other)
  pub set_status :
      (o o' : Object) (v : Value) (name : String)
      → content.set_field o v ("status" ∷ []) ≡ some o'
      → field_at content o' (meta name) ≡ field_at content o (meta name)
  pub remove_status :
      (o : Object) (name : String)
      → field_at content (content.remove_field o ("status" ∷ [])) (meta name)
        ≡ field_at content o (meta name)
  pub annotations_status :
      (o : Object) (a : Annotations)
      → field_at content (content.set_annotations o a) ("status" ∷ [])
        ≡ field_at content o ("status" ∷ [])
  pub annotations_meta :
      (o : Object) (a : Annotations) (name : String)
      → name ≢ "annotations"
      → field_at content (content.set_annotations o a) (meta name) ≡ field_at content o (meta name)

module _ (content : Content) (laws : KeepsFields content) where
  -- A revert is one of two writes, or it fails.
  revert_field-ok :
      (new_obj orig out : Object) (path : List String)
      → revert_field content new_obj orig path ≡ ok out
      → ((v : Value) × (field_at content orig path ≡ some v)
          × (content.set_field new_obj v path ≡ some out))
        ⊎ ((field_at content orig path ≡ none) × (out ≡ content.remove_field new_obj path))
  unfolding revert_field
  revert_field-ok new_obj orig out path h = elim (Option-cases (content.get_field orig path)) [
    | inl e ↦ cc (rw (e, revert_field) at h)
    | inr (none, e) ↦ inr (rw e refl, cc (rw (e, revert_field) at h))
    | inr (some v, e) ↦ elim (Option-cases (content.set_field new_obj v path)) [
      | inl f ↦ cc (rw (e, f, revert_field) at h)
      | inr (o, f) ↦ inl (v, rw e refl, cc (f, rw (e, f, revert_field) at h))
    ]
  ]

  revert_field-here :
      (new_obj orig out : Object) (path : List String)
      → revert_field content new_obj orig path ≡ ok out
      → field_at content out path ≡ field_at content orig path
  revert_field-here new_obj orig out path h = elim (revert_field-ok new_obj orig out path h) [
    | inl (v, e, f) ↦ laws.set_here new_obj out v path f ∙ sym e
    | inr (e, f) ↦ rw f (laws.remove_here new_obj path) ∙ sym e
  ]

  revert_field-other :
      (new_obj orig out : Object) (name other : String)
      → other ≢ name
      → revert_field content new_obj orig (meta name) ≡ ok out
      → field_at content out (meta other) ≡ field_at content new_obj (meta other)
  revert_field-other new_obj orig out name other n h =
      elim (revert_field-ok new_obj orig out (meta name) h) [
        | inl (v, e, f) ↦ laws.set_other new_obj out v name other n f
        | inr (e, f) ↦ rw f (laws.remove_other new_obj name other n)
      ]

  revert_field-status :
      (new_obj orig out : Object) (name : String)
      → revert_field content new_obj orig ("status" ∷ []) ≡ ok out
      → field_at content out (meta name) ≡ field_at content new_obj (meta name)
  revert_field-status new_obj orig out name h =
      elim (revert_field-ok new_obj orig out ("status" ∷ []) h) [
        | inl (v, e, f) ↦ laws.set_status new_obj out v name f
        | inr (e, f) ↦ rw f (laws.remove_status new_obj name)
      ]

  revert_meta_fields-keeps :
      (names : List String) (new_obj orig out : Object) (name : String)
      → field_at content new_obj (meta name) ≡ field_at content orig (meta name)
      → revert_meta_fields content names new_obj orig ≡ ok out
      → field_at content out (meta name) ≡ field_at content orig (meta name)
  unfolding revert_meta_fields
  revert_meta_fields-keeps [] new_obj orig out name e h = cc
  revert_meta_fields-keeps (n ∷ names) new_obj orig out name e h =
      let (reverted, step, rest) =
        bind-eq-ok (revert_field content new_obj orig (meta n))
          (λ o. revert_meta_fields content names o orig) out h in
      let same : field_at content reverted (meta name) ≡ field_at content orig (meta name) =
        elim (Bool-cases (name == n)) [
          | inl t ↦
              rw ((string_eq.same_iff name n).0 t)
                (revert_field-here new_obj orig reverted (meta n) step)
          | inr f ↦
              revert_field-other new_obj orig reverted n name
                (λ p. ground (arith, f, (string_eq.same_iff name n).1 p)) step
              ∙ e
        ] in
      revert_meta_fields-keeps names reverted orig out name same rest

  revert_meta_fields-reverts :
      (names : List String) (new_obj orig out : Object) (name : String)
      → In name names
      → revert_meta_fields content names new_obj orig ≡ ok out
      → field_at content out (meta name) ≡ field_at content orig (meta name)
  unfolding revert_meta_fields
  revert_meta_fields-reverts [] new_obj orig out name i h = absurd i
  revert_meta_fields-reverts (n ∷ names) new_obj orig out name i h =
      let (reverted, step, rest) =
        bind-eq-ok (revert_field content new_obj orig (meta n))
          (λ o. revert_meta_fields content names o orig) out h in
      elim i [
        | inr j ↦ revert_meta_fields-reverts names reverted orig out name j rest
        | inl p ↦
            revert_meta_fields-keeps names reverted orig out name
              (rw (← p) (revert_field-here new_obj orig reverted (meta n) step)) rest
      ]

  record_applied-status :
      (codec : Codec) (o update : Object)
      → field_at content (record_applied content codec o update) ("status" ∷ [])
        ≡ field_at content o ("status" ∷ [])
  unfolding record_applied
  record_applied-status codec o update =
      elim (Result-cases (set_last_applied codec (content.annotations o) update)) [
        | inl (a, e) ↦ rw (record_applied, e) (laws.annotations_status o a)
        | inr (x, e) ↦ rw (record_applied, e) refl
      ]

  record_applied-meta :
      (codec : Codec) (o update : Object) (name : String)
      → name ≢ "annotations"
      → field_at content (record_applied content codec o update) (meta name)
        ≡ field_at content o (meta name)
  unfolding record_applied
  record_applied-meta codec o update name n =
      elim (Result-cases (set_last_applied codec (content.annotations o) update)) [
        | inl (a, e) ↦ rw (record_applied, e) (laws.annotations_meta o a name n)
        | inr (x, e) ↦ rw (record_applied, e) refl
      ]

  apply_update-steps :
      (codec : Codec) (print : Printer) (orig update out : Object)
      → apply_update content codec print orig update ≡ ok out
      → (merged : Object) × (reverted : Object) × (new_obj : Object) × (applied : Object)
        × (revert_meta_fields content object_meta_system_fields merged orig ≡ ok reverted)
        × (revert_field content reverted orig ("status" ∷ []) ≡ ok new_obj)
        × (record_applied content codec new_obj applied ≡ out)
  unfolding apply_update after_last after_merge revert_protected
  apply_update-steps codec print orig update out h =
      let update' = nullify_last_applied_annotation content update in
      let (last, _, h1) =
        bind-eq-ok (wrap bad_last_applied (get_last_applied codec (content.annotations orig)))
          (λ l. after_last content codec print orig update' l) out h in
      let (merged, _, h2) =
        bind-eq-ok (wrap cannot_merge (merge_objects print orig (or_default [] last) update'))
          (λ o. after_merge content codec orig update' o) out h1 in
      let (new_obj, protected, h3) =
        bind-eq-ok (revert_protected content merged orig)
          (λ o. ok (record_applied content codec o update')) out h2 in
      let (reverted, meta_ok, status_ok) =
        bind-eq-ok (revert_meta_fields content object_meta_system_fields merged orig)
          (λ o. revert_field content o orig ("status" ∷ [])) new_obj protected in
      (merged, reverted, new_obj, update', meta_ok, status_ok, cc h3)

  no_annotations : (name : String) → In name object_meta_system_fields → name ≢ "annotations"
  unfolding contains
  no_annotations name i p =
      let c : contains "annotations" object_meta_system_fields ≡ true =
        In→contains "annotations" object_meta_system_fields (rw (← p) i) in
      cc c

  -- Whatever the update asks for, an update that is computed has the status of the original object
  -- and its system fields in the metadata, each of them absent where it was absent, where the field
  -- helpers do what they document.
  pub apply_update-protects :
      (codec : Codec) (print : Printer) (orig update out : Object)
      → apply_update content codec print orig update ≡ ok out
      → (field_at content out ("status" ∷ []) ≡ field_at content orig ("status" ∷ []))
        × ((name : String)
            → In name object_meta_system_fields
            → field_at content out (meta name) ≡ field_at content orig (meta name))
  unfolding apply_update
  apply_update-protects codec print orig update out h =
      let (merged, reverted, new_obj, applied, meta_ok, status_ok, e) =
        apply_update-steps codec print orig update out h in
      rw (← e) (
        record_applied-status codec new_obj applied
            ∙ revert_field-here reverted orig new_obj ("status" ∷ []) status_ok,
        λ name i.
            record_applied-meta codec new_obj applied name (no_annotations name i)
            ∙ revert_field-status reverted orig new_obj name status_ok
            ∙ revert_meta_fields-reverts object_meta_system_fields merged orig reverted name i
                meta_ok,
      )
