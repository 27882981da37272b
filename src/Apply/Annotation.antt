-- ===== src/Apply/Annotation.antt =====
-- pkg/dynamic/apply/apply.go: the annotation that remembers what was applied last. The JSON codec of
-- k8s.io/apimachinery is a parameter.
use metacontroller.Prelude.{
  String, Option, none, some, Dict, [], Result, ok, err, ◌≡◌, get_or, insert, lookup, or_default,
  ◌==◌, string_eq, if◌then◌else◌, arith, lookup-insert_self, ◌≢◌, lookup-insert,
}
use metacontroller.Json.{Object}

pub data CodecError : Type 0 where
  cannot_marshal cannot_unmarshal : CodecError

pub record Codec : Type 0 where
  pub marshal : Object → Option String
  pub unmarshal : String → Option Object

abbrev pub last_applied_annotation : String
last_applied_annotation = "metacontroller.k8s.io/last-applied-configuration"

abbrev pub Annotations : Type 0
Annotations = Dict String String

module _ (codec : Codec) where
  -- `SetLastApplied` on the annotations of the object; nil annotations are made an empty map.
  unfoldable pub set_last_applied : Option Annotations → Object → Result CodecError Annotations
  set_last_applied annotations last_applied = elim (codec.marshal last_applied) [
    | none ↦ err cannot_marshal
    | some text ↦ ok (insert last_applied_annotation text (or_default [] annotations))
  ]

  -- `GetLastApplied`; `none` is the nil map.
  unfoldable pub get_last_applied : Option Annotations → Result CodecError (Option Object)
  get_last_applied annotations =
      let text = get_or "" last_applied_annotation (or_default [] annotations) in
      if text == ""
      then ok none
      else elim (codec.unmarshal text) [ none ↦ err cannot_unmarshal | some last ↦ ok (some last) ]

  -- What is recorded is read back, and no other annotation changes, for a value whose text is not
  -- empty and decodes to it.
  pub get_last_applied-set_last_applied :
      (annotations : Option Annotations) (last_applied : Object) (text : String)
      → codec.marshal last_applied ≡ some text
      → codec.unmarshal text ≡ some last_applied
      → text ≢ ""
      → (out : Annotations) × (set_last_applied annotations last_applied ≡ ok out)
        × (get_last_applied (some out) ≡ ok (some last_applied))
        × ((key : String)
            → lookup key out ≡ (
                if last_applied_annotation == key
                then some text
                else lookup key (or_default [] annotations)))
  unfolding set_last_applied get_last_applied
  get_last_applied-set_last_applied annotations last_applied text m u nonempty =
      let before = or_default [] annotations in
      let out = insert last_applied_annotation text before in
      (
        out,
        rw (set_last_applied, m),
        rw (lookup-insert_self last_applied_annotation text before)
            (ground (arith, string_eq.same_iff text "")),
        λ key. lookup-insert last_applied_annotation key text before,
      )
