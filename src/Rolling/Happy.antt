-- ===== src/Rolling/Happy.antt =====
-- When a rollout goes on: every child that the latest revision claims is happy.
use metacontroller.Prelude.{
  ℕ, ◌<◌, String, Bool, true, Option, none, some, List, [], ◌∷◌, ◌==◌, string_eq, Result, ok, err,
  All, ◌≡◌, refl, ◌↔◌, arith, inl, inr, Bool-cases,
}
use metacontroller.Json.{pos, Object}
use metacontroller.Names.{GroupKind}
use metacontroller.Objects.{Accessors}
use metacontroller.ObjectMap.{ObjectMap, find_group_kind_name}
use metacontroller.Apply.{Printer}
use metacontroller.Apply.Annotation.{Codec}
use metacontroller.Update.{Content, UpdateError, apply_update}
use metacontroller.Status.{FieldAccess, CheckError, child_status_check, get_observed_generation}
use metacontroller.Status.Checks.{Meets, child_status_check_iff}
use metacontroller.Revision.{Children, KindChildren}
use metacontroller.Rolling.{
  Strategy, Strategies, get_strategy, is_rolling_strategy, compare_update, check_update,
  check_generation, as_wait, first, check_child, check_names, check_kind, should_continue_rolling,
}
use metacontroller.Rolling.Reached.{
  first_iff, Reached, behind_iff, RollsOut, is_rolling_strategy_iff,
}

module _ {Obj : Type 0} (acc : Accessors Obj) (content : Content) (access : FieldAccess)
    (codec : Codec) (print : Printer) (deep_equal : Object → Object → Bool)
    (strategies : Strategies) (observed desired : ObjectMap Obj) where
  -- The update that is computed changes nothing of the child.
  abbrev pub UpToDate : Obj → Obj → Type 0
  UpToDate child update =
      (updated : Object) × (apply_update content codec print (acc.content child)
          (acc.content update)
        ≡ ok updated)
      × (deep_equal (acc.content child) updated ≡ true)

  -- The child is desired and up to date; for updates in place, a positive observed generation has
  -- reached the one of its latest spec; and it meets the status checks.
  abbrev pub HappyChild : Strategy → GroupKind → String → Obj → Type 0
  HappyChild s kind name child =
      ((update : Obj) × (find_group_kind_name kind name desired ≡ some update)
        × UpToDate child update)
      × (s.method ≡ "RollingInPlace"
          → (seen : ℕ) → get_observed_generation access (acc.content child) ≡ ok (some (pos seen))
          → 0 < seen
          → Reached (acc.generation child) seen)
      × All (Meets access (acc.content child)) s.status_checks

  abbrev pub Happy : Strategy → GroupKind → String → Type 0
  Happy s kind name =
      (child : Obj) × (find_group_kind_name kind name observed ≡ some child)
      × HappyChild s kind name child

  compare_update_iff :
      (child : Object) (result : Result UpdateError Object)
      → (compare_update deep_equal child result ≡ none)
        ↔ ((updated : Object) × (result ≡ ok updated) × (deep_equal child updated ≡ true))
  unfolding compare_update
  compare_update_iff child (err e) = (λ h. cc h, λ (u, e, _). cc e)
  compare_update_iff child (ok updated) = (
    λ h. (updated, refl, ground (arith, h)),
    λ (u, e, d).
        let p : updated ≡ u = cc e in
        let same : deep_equal child updated ≡ true = rw p d in rw same refl,
  )

  check_update_iff :
      (child : Obj) (update : Option Obj)
      → (check_update acc content access codec print deep_equal strategies observed desired child
            update
          ≡ none)
        ↔ ((u : Obj) × (update ≡ some u) × UpToDate child u)
  unfolding check_update
  check_update_iff child none = (λ h. cc h, λ (u, e, _). cc e)
  check_update_iff child (some u) =
      let c =
        compare_update_iff (acc.content child)
          (apply_update content codec print (acc.content child) (acc.content u)) in
      (
        λ h. (u, refl, c.0 h),
        λ (x, e, y). let p : u ≡ x = cc e in let up : UpToDate child u = rw p y in c.1 up,
      )

  check_generation_iff :
      (s : Strategy) (child : Obj)
      → (check_generation acc content access codec print deep_equal strategies observed desired s
            child
          ≡ none)
        ↔ (s.method ≡ "RollingInPlace"
            → (seen : ℕ) → get_observed_generation access (acc.content child) ≡ ok (some (pos seen))
            → 0 < seen
            → Reached (acc.generation child) seen)
  unfolding check_generation
  check_generation_iff s child =
      let m = string_eq.same_iff s.method "RollingInPlace" in
      let seen = get_observed_generation access (acc.content child) in
      let b = behind_iff (acc.generation child) seen in
      (
        λ h in_place. b.0 (ground (arith, h, m.1 in_place)),
        λ f. elim (Bool-cases (s.method == "RollingInPlace")) [
          | inl t ↦ rw (check_generation, t, b.1 (f (m.0 t))) refl
          | inr n ↦ rw (check_generation, n) refl
        ],
      )

  as_wait_iff : (e : Option CheckError) → (as_wait e ≡ none) ↔ (e ≡ none)
  as_wait_iff none = (λ _. refl, λ _. refl)
  as_wait_iff (some e) = (λ h. cc h, λ h. cc h)

  waits_iff :
      (s : Strategy) (kind : GroupKind) (name : String) (child : Obj)
      → (check_child acc content access codec print deep_equal strategies observed desired s kind
            name
            (some child)
          ≡ none)
        ↔ HappyChild s kind name child
  unfolding check_child
  waits_iff s kind name child =
      let update = find_group_kind_name kind name desired in
      let u =
        check_update acc content access codec print deep_equal strategies observed desired child
          update in
      let g =
        check_generation acc content access codec print deep_equal strategies observed desired s
          child in
      let checked = child_status_check access (some s.status_checks) (acc.content child) in
      let met = child_status_check_iff access (acc.content child) s.status_checks in
      (
        λ h.
            let (updated, later) = (first_iff u (first g (as_wait checked))).0 h in
            let (seen, passed) = (first_iff g (as_wait checked)).0 later in
            (
              (check_update_iff child update).0 updated,
              (check_generation_iff s child).0 seen,
              met.0 ((as_wait_iff checked).0 passed),
            ),
        λ (up, gen, ok_checks). (first_iff u (first g (as_wait checked))).1 (
          (check_update_iff child update).1 up,
          (first_iff g (as_wait checked)).1
              ((check_generation_iff s child).1 gen, (as_wait_iff checked).1 (met.1 ok_checks)),
        ),
      )

  pub check_child_iff :
      (s : Strategy) (kind : GroupKind) (name : String) (found : Option Obj)
      → (check_child acc content access codec print deep_equal strategies observed desired s kind
            name found
          ≡ none)
        ↔ ((child : Obj) × (found ≡ some child) × HappyChild s kind name child)
  check_child_iff s kind name none = unfold check_child in (λ h. cc h, λ (c, e, _). cc e)
  check_child_iff s kind name (some child) = (
    λ h. (child, refl, (waits_iff s kind name child).0 h),
    λ (x, e, happy).
        let p : child ≡ x = cc e in
        let here : HappyChild s kind name child = rw p happy in
        (waits_iff s kind name child).1 here,
  )

  pub check_names_iff :
      (s : Strategy) (kind : GroupKind) (names : List String)
      → (check_names acc content access codec print deep_equal strategies observed desired s kind
            names
          ≡ none)
        ↔ All (Happy s kind) names
  unfolding check_names
  check_names_iff s kind [] = (λ _. tt, λ _. refl)
  check_names_iff s kind (name ∷ names) =
      let found = find_group_kind_name kind name observed in
      let here =
        check_child acc content access codec print deep_equal strategies observed desired s kind
          name found in
      let later =
        check_names acc content access codec print deep_equal strategies observed desired s kind
          names in
      (
        λ h.
            let (e, rest) = (first_iff here later).0 h in
            ((check_child_iff s kind name found).0 e, (check_names_iff s kind names).0 rest),
        λ (e, rest).
            (first_iff here later).1
              ((check_child_iff s kind name found).1 e, (check_names_iff s kind names).1 rest),
      )

  -- Under a rolling strategy every child of the kind is happy.
  abbrev pub HappyKind : Option Strategy → KindChildren GroupKind → Type 0
  HappyKind none ck = Unit
  HappyKind (some s) ck = RollsOut s → All (Happy s ck.kind) ck.names

  pub check_kind_iff :
      (ck : KindChildren GroupKind) (found : Option Strategy)
      → (check_kind acc content access codec print deep_equal strategies observed desired ck.kind
            ck.names found
          ≡ none)
        ↔ HappyKind found ck
  unfolding check_kind
  check_kind_iff ck none = (λ _. tt, λ _. refl)
  check_kind_iff ck (some s) = (
    λ h rolling.
        (check_names_iff s ck.kind ck.names).0
          (rw ((is_rolling_strategy_iff s).1 rolling, check_kind) at h),
    λ f. elim (Bool-cases (is_rolling_strategy (some s))) [
      | inl t ↦
          rw (check_kind, t)
            ((check_names_iff s ck.kind ck.names).1 (f ((is_rolling_strategy_iff s).0 t)))
      | inr n ↦ rw (check_kind, n) refl
    ],
  )

  -- A rollout goes on where every kind that is claimed is happy.
  pub goes_on_iff :
      (children : Children GroupKind)
      → (should_continue_rolling acc content access codec print deep_equal strategies observed
            desired children
          ≡ none)
        ↔ All (λ ck. HappyKind (get_strategy ck.kind strategies) ck) children
  unfolding should_continue_rolling
  goes_on_iff [] = (λ _. tt, λ _. refl)
  goes_on_iff (ck ∷ children) =
      let found = get_strategy ck.kind strategies in
      let here =
        check_kind acc content access codec print deep_equal strategies observed desired ck.kind
          ck.names found in
      let later =
        should_continue_rolling acc content access codec print deep_equal strategies observed
          desired children in
      (
        λ h.
            let (e, rest) = (first_iff here later).0 h in
            ((check_kind_iff ck found).0 e, (goes_on_iff children).0 rest),
        λ (e, rest).
            (first_iff here later).1 ((check_kind_iff ck found).1 e, (goes_on_iff children).1 rest),
      )
