-- ===== src/Rolling/Undesired.antt =====
-- When the check of one child panics.
use metacontroller.Prelude.{
  String, Bool, Option, none, some, ◌==◌, string_eq, Result, ok, err, ◌⊎◌, ap, if-elim, ◌&&◌, ◌≢◌,
  ◌≡◌, refl, ◌↔◌, inl, inr, Bool-cases,
}
use metacontroller.Json.{Object}
use metacontroller.Names.{GroupKind}
use metacontroller.Objects.{Accessors}
use metacontroller.ObjectMap.{ObjectMap, find_group_kind_name}
use metacontroller.Apply.{Printer}
use metacontroller.Apply.Annotation.{Codec, CodecError, get_last_applied}
use metacontroller.Update.{Content, UpdateError, apply_update}
use metacontroller.Status.{FieldAccess, CheckError, child_status_check, get_observed_generation}
use metacontroller.Rolling.{
  Strategy, Strategies, Stop, panics, nil_update, behind, compare_update, check_update,
  check_generation, as_wait, first, check_child,
}

abbrev pub panic : Option Stop
panic = some panics

pub first-panics :
    (a b : Option Stop) → (first a b ≡ panic) ↔ ((a ≡ panic) ⊎ ((a ≡ none) × (b ≡ panic)))
first-panics none b = (λ h. inr (refl, h), λ c. elim c [ inl e ↦ cc e | inr (_, h) ↦ h ])
first-panics (some w) b = (λ h. inl h, λ c. elim c [ inl e ↦ e | inr (e, _) ↦ cc e ])

nil_update-panics :
    (result : Result CodecError (Option Object))
    → (nil_update result ≡ panics) ↔ ((last : Option Object) × (result ≡ ok last))
unfolding nil_update
nil_update-panics (err e) = (λ h. cc h, λ (l, h). cc h)
nil_update-panics (ok last) = (λ _. (last, refl), λ _. refl)

compare_update-never :
    (deep_equal : Object → Object → Bool) (child : Object) (result : Result UpdateError Object)
    → compare_update deep_equal child result ≢ panic
unfolding compare_update
compare_update-never deep_equal child (err e) h = cc h
compare_update-never deep_equal child (ok updated) h =
    elim (Bool-cases (deep_equal child updated)) [
      | inl t ↦ cc (rw (compare_update, t) at h)
      | inr f ↦ cc (rw (compare_update, f) at h)
    ]

as_wait-never : (e : Option CheckError) → as_wait e ≢ panic
as_wait-never none h = cc h
as_wait-never (some e) h = cc h

module _ {Obj : Type 0} (acc : Accessors Obj) (content : Content) (access : FieldAccess)
    (codec : Codec) (print : Printer) (deep_equal : Object → Object → Bool)
    (strategies : Strategies) (observed desired : ObjectMap Obj) where
  -- The child is observed and not desired, and what was last applied to it can be read.
  abbrev pub Undesired : GroupKind → String → Type 0
  Undesired kind name =
      (child : Obj) × (find_group_kind_name kind name observed ≡ some child)
      × (find_group_kind_name kind name desired ≡ none)
      × ((last : Option Object) × (get_last_applied codec (content.annotations (acc.content child))
            ≡ ok last))

  check_generation-never :
      (s : Strategy) (child : Obj)
      → check_generation acc content access codec print deep_equal strategies observed desired s
          child
        ≢ panic
  unfolding check_generation
  check_generation-never s child =
      if-elim (λ (stop : Option Stop). stop ≢ panic)
        (s.method == "RollingInPlace"
          && behind (acc.generation child) (get_observed_generation access (acc.content child)))
        (λ t h. cc h) (λ f h. cc h)

  check_update-panics :
      (child : Obj) (update : Option Obj)
      → (check_update acc content access codec print deep_equal strategies observed desired child
            update
          ≡ panic)
        ↔ ((update ≡ none)
            × ((last : Option Object) × (get_last_applied codec
                    (content.annotations (acc.content child))
                  ≡ ok last)))
  unfolding check_update
  check_update-panics child none =
      let n =
        nil_update-panics (get_last_applied codec (content.annotations (acc.content child))) in
      (λ h. (refl, n.0 (cc h)), λ (_, l). ap some (n.1 l))
  check_update-panics child (some u) = (
    λ h. absurd (
        compare_update-never deep_equal (acc.content child)
          (apply_update content codec print (acc.content child) (acc.content u)) h),
    λ (e, _). cc e,
  )

  pub check_child-panics :
      (s : Strategy) (kind : GroupKind) (name : String) (found : Option Obj)
      → (check_child acc content access codec print deep_equal strategies observed desired s kind
            name found
          ≡ panic)
        ↔ ((child : Obj) × (found ≡ some child)
            × (find_group_kind_name kind name desired ≡ none)
            × ((last : Option Object) × (get_last_applied codec
                    (content.annotations (acc.content child))
                  ≡ ok last)))
  unfolding check_child
  check_child-panics s kind name none = (λ h. cc h, λ (c, e, _, _). cc e)
  check_child-panics s kind name (some child) =
      let update = find_group_kind_name kind name desired in
      let u =
        check_update acc content access codec print deep_equal strategies observed desired child
          update in
      let g =
        check_generation acc content access codec print deep_equal strategies observed desired s
          child in
      let w = as_wait (child_status_check access (some s.status_checks) (acc.content child)) in
      (
        λ h. elim ((first-panics u (first g w)).0 h) [
          | inl e ↦
              let (gone, last) = (check_update-panics child update).0 e in (child, refl, gone, last)
          | inr (_, later) ↦ elim ((first-panics g w).0 later) [
            | inl e ↦ absurd (check_generation-never s child e)
            | inr (_, e) ↦ absurd (
                as_wait-never (child_status_check access (some s.status_checks) (acc.content child))
                  e)
          ]
        ],
        λ (x, e, n, l).
            let same : child ≡ x = cc e in
            (first-panics u (first g w)).1
              (inl ((check_update-panics child update).1 (n, rw same l))),
      )
