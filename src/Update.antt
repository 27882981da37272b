-- ===== src/Update.antt =====
-- `ApplyUpdate` of pkg/controller/common/manage_children.go, and `nullifyLastAppliedAnnotation` of
-- pkg/controller/common/diff.go. What package unstructured reads and writes of an object's content is a
-- parameter, and so is the JSON codec.
pub mod Protected
pub mod Samples
mod Tests
use metacontroller.Prelude.{
  String, Option, none, some, List, [], ◌∷◌, or_default, Dict, delete, has, string_eq,
  if◌then◌else◌, Result, ok, err, ◌>>=◌,
}
use metacontroller.Json.{Value, Object}
use metacontroller.Apply.{Printer, MergeError, merge_objects}
use metacontroller.Apply.Annotation.{
  Codec, CodecError, Annotations, last_applied_annotation, get_last_applied, set_last_applied,
}

-- GetAnnotations, SetAnnotations, NestedFieldNoCopy, SetNestedField and RemoveNestedField.
pub record Content : Type 0 where
  pub annotations : Object → Option Annotations
  pub set_annotations : Object → Annotations → Object
  pub get_field : Object → List String → Option (Option Value)
  pub set_field : Object → Value → List String → Option Object
  pub remove_field : Object → List String → Object

pub data UpdateError : Type 0 where
  bad_last_applied : CodecError → UpdateError
  cannot_merge : MergeError → UpdateError
  cannot_traverse cannot_set : List String → UpdateError

-- `objectMetaSystemFields`
abbrev pub object_meta_system_fields : List String
object_meta_system_fields =
    "selfLink" ∷ "uid" ∷ "resourceVersion" ∷ "generation" ∷ "creationTimestamp"
    ∷ "deletionTimestamp" ∷ "deletionGracePeriodSeconds" ∷ "managedFields" ∷ []

-- An error under another name.
abbrev pub wrap : {E F A : Type 0} → (E → F) → Result E A → Result F A
wrap f (ok a) = ok a
wrap f (err e) = err (f e)

module _ (content : Content) where
  unfoldable pub nullify_last_applied_annotation : Object → Object
  nullify_last_applied_annotation o = elim (content.annotations o) [
    | none ↦ o
    | some annotations ↦
        if has last_applied_annotation annotations
        then content.set_annotations o (delete last_applied_annotation annotations)
        else o
  ]

  -- `revertField`
  unfoldable pub revert_field : Object → Object → List String → Result UpdateError Object
  revert_field new_obj orig path = elim (content.get_field orig path) [
    | none ↦ err (cannot_traverse path)
    | some none ↦ ok (content.remove_field new_obj path)
    | some (some field) ↦ elim (content.set_field new_obj field path) [
      | none ↦ err (cannot_set path)
      | some reverted ↦ ok reverted
    ]
  ]

  -- `revertObjectMetaSystemFields`, for any names of fields.
  unfoldable pub revert_meta_fields : List String → Object → Object → Result UpdateError Object
  unfolding revert_field
  revert_meta_fields [] new_obj orig = ok new_obj
  revert_meta_fields (name ∷ names) new_obj orig =
      revert_field new_obj orig ("metadata" ∷ name ∷ []) >>= λ reverted.
      revert_meta_fields names reverted orig

  -- A failure to record what was applied is logged only.
  record_applied : Codec → Object → Object → Object
  record_applied codec new_obj update =
      elim (set_last_applied codec (content.annotations new_obj) update) [
        | err e ↦ new_obj
        | ok annotations ↦ content.set_annotations new_obj annotations
      ]

  -- The two reverts after the merge.
  revert_protected : Object → Object → Result UpdateError Object
  unfolding revert_field revert_meta_fields
  revert_protected merged orig =
      revert_meta_fields object_meta_system_fields merged orig >>= λ reverted.
      revert_field reverted orig ("status" ∷ [])

  after_merge : Codec → Object → Object → Object → Result UpdateError Object
  unfolding revert_protected record_applied
  after_merge codec orig update merged =
      revert_protected merged orig >>= λ new_obj. ok (record_applied codec new_obj update)

  after_last : Codec → Printer → Object → Object → Option Object → Result UpdateError Object
  unfolding after_merge
  after_last codec print orig update last =
      wrap cannot_merge (merge_objects print orig (or_default [] last) update) >>= λ merged.
      after_merge codec orig update merged

  -- `ApplyUpdate`
  unfoldable pub apply_update : Codec → Printer → Object → Object → Result UpdateError Object
  unfolding nullify_last_applied_annotation after_last
  apply_update codec print orig update =
      wrap bad_last_applied (get_last_applied codec (content.annotations orig)) >>= λ last.
      after_last codec print orig (nullify_last_applied_annotation update) last
