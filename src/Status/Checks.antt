-- ===== src/Status/Checks.antt =====
-- When the status checks of a child pass.
use metacontroller.Prelude.{
  String, false, Option, none, some, List, [], ◌∷◌, string_eq, Result, ok, err, ◌≡◌, refl, arith,
  All, ◌↔◌, Option-cases, inl, inr,
}
use metacontroller.Json.{Object}
use metacontroller.Status.{
  FieldAccess, StatusCondition, StatusConditionCheck, get_status_condition, judge, check_condition,
  check_all, child_status_check, differs,
}

-- The text is the one that is asked for, if one is.
abbrev pub Wanted : Option String → String → Type 0
Wanted none actual = Unit
Wanted (some wanted) actual = actual ≡ wanted

differs_iff :
    (wanted : Option String) (actual : String)
    → (differs wanted actual ≡ false) ↔ Wanted wanted actual
differs_iff none actual = (λ _. tt, λ _. refl)
differs_iff (some w) actual = (
  λ h. ground (arith, h, string_eq.same_iff actual w),
  λ e. ground (arith, e, string_eq.same_iff actual w),
)

module _ (access : FieldAccess) (child : Object) where
  Accepted : StatusConditionCheck → StatusCondition → Type 0
  Accepted check c = Wanted check.status c.status × Wanted check.reason c.reason

  judge-Accepted :
      (check : StatusConditionCheck) (c : StatusCondition)
      → (judge access check (ok (some c)) ≡ none) ↔ Accepted check c
  unfolding judge Accepted
  judge-Accepted check c =
      let s = differs_iff check.status c.status in
      let r = differs_iff check.reason c.reason in
      (
        λ h. (s.0 (ground (arith, h)), r.0 (ground (arith, h))),
        λ (w, v). ground (arith, s.1 w, r.1 v),
      )

  judge-answer :
      (check : StatusConditionCheck) (found : Result access.Error (Option StatusCondition))
      → judge access check found ≡ none
      → (c : StatusCondition) × (found ≡ ok (some c))
  unfolding judge
  judge-answer check (err e) h = cc
  judge-answer check (ok none) h = cc
  judge-answer check (ok (some c)) h = (c, refl)

  -- The child has a condition of the type, with the status and the reason that are asked for.
  abbrev pub Meets : StatusConditionCheck → Type 0
  Meets check =
      (c : StatusCondition) × (get_status_condition access child check.type ≡ ok (some c))
      × Wanted check.status c.status
      × Wanted check.reason c.reason

  check_condition_iff :
      (check : StatusConditionCheck) → (check_condition access check child ≡ none) ↔ Meets check
  unfolding check_condition Accepted
  check_condition_iff check = (
    λ h.
        let (c, e) = judge-answer check (get_status_condition access child check.type) h in
        let (s, r) = (judge-Accepted check c).0 (rw (e, check_condition) at h) in (c, e, s, r),
    λ (c, e, s, r). rw (check_condition, e) ((judge-Accepted check c).1 (s, r)),
  )

  check_all_iff :
      (checks : List StatusConditionCheck)
      → (check_all access checks child ≡ none) ↔ All Meets checks
  unfolding check_all
  check_all_iff [] = (λ _. tt, λ _. refl)
  check_all_iff (check ∷ checks) = elim (Option-cases (check_condition access check child)) [
    | inr (e, failed) ↦ (
      λ h. cc (rw (failed, check_all) at h),
      λ (met, _). cc (failed, (check_condition_iff check).1 met),
    )
    | inl passed ↦ (
      λ h. (
        (check_condition_iff check).0 passed,
        (check_all_iff checks).0 (rw (passed, check_all) at h),
      ),
      λ (_, rest). rw (check_all, passed) ((check_all_iff checks).1 rest),
    )
  ]

  -- The status checks of a child pass where it has, for each of them, a condition of that type with
  -- the status and the reason that are asked for, and nowhere else.
  pub child_status_check_iff :
      (checks : List StatusConditionCheck)
      → (child_status_check access (some checks) child ≡ none) ↔ All Meets checks
  unfolding child_status_check
  child_status_check_iff checks = check_all_iff checks
