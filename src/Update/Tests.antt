-- ===== src/Update/Tests.antt =====
-- The theorem on updates at a concrete child, with content of objects read and written by paths of
-- one and of two names.
use metacontroller.Prelude.{
  String, none, some, List, [], ◌∷◌, lookup, insert, delete, lookup-insert, lookup-insert_self,
  lookup-delete, string_eq, ok, In, ◌≡◌, ◌≢◌, refl, ap, sym, ◌∙◌, arith,
}
use metacontroller.Json.{Value, str, Object, object, entries-to_fields, height}
use metacontroller.Apply.{
  Printer, merge_objects, merge_value, merge, merge_step, assert_object, merge_object,
}
use metacontroller.Apply.Annotation.{Codec, get_last_applied, set_last_applied}
use metacontroller.Update.{object_meta_system_fields, apply_update}
use metacontroller.Update.Protected.{field_at, meta, KeepsFields, apply_update-protects}
use metacontroller.Update.Samples.{inner, set, remove, texts, strings, content}

inner-insert : (key : String) (m o : Object) → inner key (insert key (object m) o) ≡ m
inner-insert key m o = rw (lookup-insert_self key (object m) o) (entries-to_fields m)

injected : {a b : Object} → some a ≡ some b → a ≡ b
injected h = cc h

set_here_lem :
    (o o' : Object) (v : Value) (path : List String)
    → set o v path ≡ some o'
    → field_at content o' path ≡ some v
set_here_lem o o' v [] h = cc
set_here_lem o o' v (key ∷ []) h =
    let e : o' ≡ insert key v o = cc h in rw (e, lookup-insert_self key v o) refl
set_here_lem o o' v (key ∷ name ∷ []) h =
    let e : o' ≡ insert key (object (insert name v (inner key o))) o = cc h in
    rw
      (e, inner-insert key (insert name v (inner key o)) o, lookup-insert_self name v (inner key o))
      refl
set_here_lem o o' v (a ∷ b ∷ c ∷ path) h = cc

remove_here_lem : (o : Object) (path : List String) → field_at content (remove o path) path ≡ none
remove_here_lem o [] = refl
remove_here_lem o (key ∷ []) =
    rw (lookup-delete key key o) (ground (arith, string_eq.same_iff key key))
remove_here_lem o (key ∷ name ∷ []) =
    rw (inner-insert key (delete name (inner key o)) o, lookup-delete name name (inner key o))
      (ground (arith, string_eq.same_iff name name))
remove_here_lem o (a ∷ b ∷ c ∷ path) = refl

set_other_lem :
    (o : Object) (v : Value) (name other : String)
    → other ≢ name
    → lookup other
        (inner "metadata" (insert "metadata" (object (insert name v (inner "metadata" o))) o))
      ≡ lookup other (inner "metadata" o)
set_other_lem o v name other n =
    rw
      (
        inner-insert "metadata" (insert name v (inner "metadata" o)) o,
        lookup-insert name other v (inner "metadata" o),
      )
      (ground (arith, n, string_eq.same_iff name other))

content-KeepsFields : KeepsFields content
content-KeepsFields = record {
  set_here = set_here_lem;
  remove_here = remove_here_lem;
  set_other = λ o o' v name other n h.
      ap (λ (x : Object). lookup other (inner "metadata" x)) (sym (injected h))
      ∙ set_other_lem o v name other n;
  remove_other = λ o name other n.
      rw
        (
          inner-insert "metadata" (delete name (inner "metadata" o)) o,
          lookup-delete name other (inner "metadata" o),
        )
        (ground (arith, n, string_eq.same_iff name other));
  set_status = λ o o' v name h.
      ap (λ (x : Object). lookup name (inner "metadata" x)) (sym (injected h))
      ∙ rw (lookup-insert "status" "metadata" v o) refl;
  remove_status = λ o name. rw (lookup-delete "status" "metadata" o) refl;
  annotations_status = λ o a.
      rw
        (lookup-insert "metadata" "status"
          (object (insert "annotations" (object (strings a)) (inner "metadata" o))) o)
        refl;
  annotations_meta = λ o a name n. set_other_lem o (object (strings a)) "annotations" name n;
}

abbrev codec : Codec
codec = record { marshal = λ o. some "{}"; unmarshal = λ s. some [] }

abbrev print : Printer
print v = ""

abbrev orig : Object
orig =
    ("metadata", object (("name", str "a") ∷ ("uid", str "1") ∷ [])) ∷ ("status", str "fine") ∷ []

-- It asks for another UID, a generation and no status.
abbrev update : Object
update =
    ("metadata", object (("name", str "a") ∷ ("uid", str "2") ∷ ("generation", str "5") ∷ []))
    ∷ ("spec", str "new")
    ∷ []

abbrev out : Object
out =
    (
      "metadata",
      object (
          ("name", str "a")
          ∷ ("uid", str "1")
          ∷ (
            "annotations",
            object (("metacontroller.k8s.io/last-applied-configuration", str "{}") ∷ []),
          )
          ∷ []),
    )
    ∷ ("status", str "fine")
    ∷ ("spec", str "new")
    ∷ []

updates : apply_update content codec print orig update ≡ ok out
unfolding apply_update get_last_applied lookup texts merge_objects merge_value merge merge_step
    assert_object merge_object height insert set_last_applied delete strings
updates = refl

apply_update-protects_example :
    (field_at content out ("status" ∷ []) ≡ field_at content orig ("status" ∷ []))
    × ((name : String)
        → In name object_meta_system_fields
        → field_at content out (meta name) ≡ field_at content orig (meta name))
apply_update-protects_example =
    apply_update-protects content content-KeepsFields codec print orig update out updates
