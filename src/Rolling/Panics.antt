-- ===== src/Rolling/Panics.antt =====
-- How `shouldContinueRolling` ends.
use metacontroller.Prelude.{
  String, Bool, Option, none, some, List, [], ◌∷◌, string_eq, All, ◌⊎◌, ◌≡◌, ◌↔◌, inl, inr,
  Bool-cases,
}
use metacontroller.Json.{Object}
use metacontroller.Names.{GroupKind}
use metacontroller.Objects.{Accessors}
use metacontroller.ObjectMap.{ObjectMap, find_group_kind_name}
use metacontroller.Apply.{Printer}
use metacontroller.Apply.Annotation.{Codec}
use metacontroller.Update.{Content}
use metacontroller.Status.{FieldAccess}
use metacontroller.Revision.{Children, KindChildren}
use metacontroller.Rolling.{
  Strategy, Strategies, get_strategy, panics, is_rolling_strategy, check_child, check_names,
  check_kind, should_continue_rolling,
}
use metacontroller.Rolling.Reached.{RollsOut, is_rolling_strategy_iff}
use metacontroller.Rolling.Happy.{Happy, HappyKind, check_child_iff, check_kind_iff, goes_on_iff}
use metacontroller.Rolling.Undesired.{panic, first-panics, Undesired, check_child-panics}

module _ {Obj : Type 0} (acc : Accessors Obj) (content : Content) (access : FieldAccess)
    (codec : Codec) (print : Printer) (deep_equal : Object → Object → Bool)
    (strategies : Strategies) (observed desired : ObjectMap Obj) where
  -- Such a child comes after happy ones only.
  abbrev pub NamesPanic : Strategy → GroupKind → List String → Type 0
  NamesPanic s kind [] = ⊥
  NamesPanic s kind (name ∷ names) =
      Undesired acc content access codec print deep_equal strategies observed desired kind name
      ⊎ (Happy acc content access codec print deep_equal strategies observed desired s kind name
          × NamesPanic s kind names)

  abbrev pub KindPanics : Option Strategy → KindChildren GroupKind → Type 0
  KindPanics none ck = ⊥
  KindPanics (some s) ck = RollsOut s × NamesPanic s ck.kind ck.names

  abbrev pub Panics : Children GroupKind → Type 0
  Panics [] = ⊥
  Panics (ck ∷ children) =
      KindPanics (get_strategy ck.kind strategies) ck
      ⊎ (HappyKind acc content access codec print deep_equal strategies observed desired
            (get_strategy ck.kind strategies) ck
          × Panics children)

  check_names-panics :
      (s : Strategy) (kind : GroupKind) (names : List String)
      → (check_names acc content access codec print deep_equal strategies observed desired s kind
            names
          ≡ panic)
        ↔ NamesPanic s kind names
  unfolding check_names
  check_names-panics s kind [] = (λ h. cc h, λ h. absurd h)
  check_names-panics s kind (name ∷ names) =
      let found = find_group_kind_name kind name observed in
      let here =
        check_child acc content access codec print deep_equal strategies observed desired s kind
          name found in
      let later =
        check_names acc content access codec print deep_equal strategies observed desired s kind
          names in
      (
        λ h. elim ((first-panics here later).0 h) [
          | inl e ↦ inl (
              (check_child-panics acc content access codec print deep_equal strategies observed
                  desired s kind name found).0
                e)
          | inr (n, e) ↦ inr (
            (check_child_iff acc content access codec print deep_equal strategies observed desired s
                  kind name found).0
                n,
            (check_names-panics s kind names).0 e,
          )
        ],
        λ c. (first-panics here later).1 (elim c [
          | inl u ↦ inl (
              (check_child-panics acc content access codec print deep_equal strategies observed
                  desired s kind name found).1
                u)
          | inr (h, p) ↦ inr (
            (check_child_iff acc content access codec print deep_equal strategies observed desired s
                  kind name found).1
                h,
            (check_names-panics s kind names).1 p,
          )
        ]),
      )

  check_kind-panics :
      (ck : KindChildren GroupKind) (found : Option Strategy)
      → (check_kind acc content access codec print deep_equal strategies observed desired ck.kind
            ck.names found
          ≡ panic)
        ↔ KindPanics found ck
  unfolding check_kind
  check_kind-panics ck none = (λ h. cc h, λ h. absurd h)
  check_kind-panics ck (some s) = (
    λ h. elim (Bool-cases (is_rolling_strategy (some s))) [
      | inl t ↦ (
        (is_rolling_strategy_iff s).0 t,
        (check_names-panics s ck.kind ck.names).0 (rw (t, check_kind) at h),
      )
      | inr n ↦ cc (rw (n, check_kind) at h)
    ],
    λ (rolls, p).
        rw (check_kind, (is_rolling_strategy_iff s).1 rolls)
          ((check_names-panics s ck.kind ck.names).1 p),
  )

  should_continue_rolling-Panics :
      (children : Children GroupKind)
      → (should_continue_rolling acc content access codec print deep_equal strategies observed
            desired children
          ≡ panic)
        ↔ Panics children
  unfolding should_continue_rolling
  should_continue_rolling-Panics [] = (λ h. cc h, λ h. absurd h)
  should_continue_rolling-Panics (ck ∷ children) =
      let found = get_strategy ck.kind strategies in
      let here =
        check_kind acc content access codec print deep_equal strategies observed desired ck.kind
          ck.names found in
      let later =
        should_continue_rolling acc content access codec print deep_equal strategies observed
          desired children in
      (
        λ h. elim ((first-panics here later).0 h) [
          | inl e ↦ inl ((check_kind-panics ck found).0 e)
          | inr (n, e) ↦ inr (
            (check_kind_iff acc content access codec print deep_equal strategies observed desired ck
                  found).0
                n,
            (should_continue_rolling-Panics children).0 e,
          )
        ],
        λ c. (first-panics here later).1 (elim c [
          | inl u ↦ inl ((check_kind-panics ck found).1 u)
          | inr (h, p) ↦ inr (
            (check_kind_iff acc content access codec print deep_equal strategies observed desired ck
                  found).1
                h,
            (should_continue_rolling-Panics children).1 p,
          )
        ]),
      )

  -- A rollout goes on where, for each kind that the latest revision claims and that has a rolling
  -- strategy, every claimed child is happy: observed and desired, unchanged by the update that is
  -- computed for it, not behind its latest spec if it is updated in place, and past its status
  -- checks. The check panics where, after happy ones only, it comes to a claimed child that is observed
  -- and not desired, and what was last applied to that child can be read. Everywhere else it waits.
  pub should_continue_rolling_iff :
      (children : Children GroupKind)
      → ((should_continue_rolling acc content access codec print deep_equal strategies observed
              desired children
            ≡ none)
          ↔ All
              (λ ck.
                HappyKind acc content access codec print deep_equal strategies observed desired
                  (get_strategy ck.kind strategies)
                  ck)
              children)
        × ((should_continue_rolling acc content access codec print deep_equal strategies observed
                desired children
              ≡ some panics)
            ↔ Panics children)
  should_continue_rolling_iff children = (
    goes_on_iff acc content access codec print deep_equal strategies observed desired children,
    should_continue_rolling-Panics children,
  )
