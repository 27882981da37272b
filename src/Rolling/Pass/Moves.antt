-- ===== src/Rolling/Pass/Moves.antt =====
-- What one pass of a rollout gives to the latest revision.
use metacontroller.Prelude.{
  ℕ, zero, suc, String, Bool, true, false, not, ◌&&◌, Option, none, some, List, [], ◌∷◌, ◌==◌,
  string_eq, if◌then◌else◌, ◌≡◌, refl, In, inl, inr, ◌⊎◌, arith, Bool-cases, lookup_nested-insert,
  lookup-get_or_empty, get_or, if-elim,
}
use mathlib.Core.List.{map}
use metacontroller.Json.{Object}
use metacontroller.Names.{Gvk, GroupKind, group_kind, group_kind_eq}
use metacontroller.Objects.{Accessors}
use metacontroller.ObjectMap.{Named, ObjectMap, find_group_kind_name}
use metacontroller.Apply.{Printer}
use metacontroller.Apply.Annotation.{Codec}
use metacontroller.Update.{Content}
use metacontroller.Status.{FieldAccess}
use metacontroller.Revision.{ClaimMap, add_child, remove_child}
use metacontroller.Revision.Children.{claims, claims-add_child}
use metacontroller.Rolling.{Strategies, is_rolling, Stop, waits, panics, should_continue_rolling}
use metacontroller.Rolling.Pass.{
  Rollout, key_of, claimer, set_parent_revision, Verdict, rollout_progressing, already_updated,
  settle_claimed, settle_group, settle_desired, kind_of, is_latest, move_child, advance, roll,
}

set_parent_revision-claimer :
    (gk other : GroupKind) (name n : String) (pr : ℕ) (claimed : ClaimMap)
    → claimer other n (set_parent_revision gk name pr claimed)
      ≡ (if key_of gk == key_of other && name == n then some pr else claimer other n claimed)
unfolding set_parent_revision
set_parent_revision-claimer gk other name n pr claimed =
    lookup_nested-insert (key_of gk) (key_of other) name n pr (get_or [] (key_of gk) claimed)
      claimed (lookup-get_or_empty (key_of gk) n claimed)

module _ {Obj : Type 0} (acc : Accessors Obj) (content : Content) (access : FieldAccess)
    (codec : Codec) (print : Printer) (deep_equal : Object → Object → Bool)
    (strategies : Strategies) (observed desired : ObjectMap Obj) (before : Rollout) where
  -- The latest revision desires the child, under some version of its kind.
  abbrev pub Desires : GroupKind → String → Obj → Type 0
  Desires gk name wanted =
      (gvk : Gvk) × (group : Named Obj) × In (gvk, group) desired
      × (group_kind gvk ≡ gk)
      × In (name, wanted) group

  abbrev pub updated : Obj → Option Obj → Bool
  updated wanted child =
      already_updated acc content access codec print deep_equal strategies observed desired wanted
        child

  -- A child that the latest revision may have without waiting: its own before, one that no revision
  -- claimed, or a desired one that is observed as the latest revision wants it.
  abbrev pub Free : GroupKind → String → Type 0
  Free gk name =
      (claims gk name before.latest ≡ true)
      ⊎ ((claimer gk name before.claimed ≡ none)
          ⊎ ((wanted : Obj) × Desires gk name wanted
              × (updated wanted (find_group_kind_name gk name observed) ≡ true)))

  pub record IsSettled (r : Rollout) : Type 0 where
    pub gained : (gk : GroupKind) (name : String) → claims gk name r.latest ≡ true → Free gk name
    pub unclaimed :
        (gk : GroupKind) (name : String)
        → claimer gk name r.claimed ≡ none
        → claimer gk name before.claimed ≡ none

  added-Free :
      (gk : GroupKind) (name : String) (r : Rollout)
      → Free gk name
      → IsSettled r
      → (other : GroupKind) (n : String) → claims other n (add_child gk name r.latest) ≡ true
      → Free other n
  added-Free gk name r free h other n c = elim (Bool-cases (claims other n r.latest)) [
    | inl t ↦ h.gained other n t
    | inr f ↦
        let here : (gk == other && name == n) ≡ true =
          ground (arith, c, f, claims-add_child gk other name n r.latest) in
        let same : gk ≡ other = (group_kind_eq.same_iff gk other).0 (ground (arith, here)) in
        let named : name ≡ n = (string_eq.same_iff name n).0 (ground (arith, here)) in
        rw (← same, ← named) free
  ]

  added-unclaimed :
      (gk : GroupKind) (name : String) (r : Rollout)
      → IsSettled r
      → (other : GroupKind) (n : String)
      → claimer other n (set_parent_revision gk name 0 r.claimed) ≡ none
      → claimer other n before.claimed ≡ none
  added-unclaimed gk name r h other n e =
      h.unclaimed other n
        (ground (arith, e, set_parent_revision-claimer gk other name n 0 r.claimed))

  settle_claimed-IsSettled :
      (gk : GroupKind) (name : String) (wanted : Obj) (c : Option ℕ) (r : Rollout)
      → claimer gk name r.claimed ≡ c
      → Desires gk name wanted
      → IsSettled r
      → IsSettled (
          settle_claimed acc content access codec print deep_equal strategies observed desired gk
            name wanted c r)
  unfolding settle_claimed
  settle_claimed-IsSettled gk name wanted none r e d h = record {
    gained = added-Free gk name r (inr (inl (h.unclaimed gk name e))) h;
    unclaimed = added-unclaimed gk name r h;
  }
  settle_claimed-IsSettled gk name wanted (some zero) r e d h = h
  settle_claimed-IsSettled gk name wanted (some (suc n)) r e d h =
      if-elim IsSettled (updated wanted (find_group_kind_name gk name observed))
        (λ t. record {
          gained = added-Free gk name r (inr (inr (wanted, d, t))) h;
          unclaimed = added-unclaimed gk name r h;
        })
        (λ f. h)

  settle_group-IsSettled :
      (gk : GroupKind) (group : Named Obj) (r : Rollout)
      → ((name : String) (wanted : Obj) → In (name, wanted) group → Desires gk name wanted)
      → IsSettled r
      → IsSettled (
          settle_group acc content access codec print deep_equal strategies observed desired gk
            group r)
  unfolding settle_group
  settle_group-IsSettled gk [] r d h = h
  settle_group-IsSettled gk ((name, wanted) ∷ group) r d h =
      settle_group-IsSettled gk group _ (λ n w m. d n w (inr m))
        (settle_claimed-IsSettled gk name wanted (claimer gk name r.claimed) r refl
          (d name wanted (inl refl)) h)

  settle_desired-IsSettled :
      (m : ObjectMap Obj) (r : Rollout)
      → ((gvk : Gvk) (group : Named Obj) → In (gvk, group) m → In (gvk, group) desired)
      → IsSettled r
      → IsSettled
          (settle_desired acc content access codec print deep_equal strategies observed desired m r)
  unfolding settle_desired
  settle_desired-IsSettled [] r d h = h
  settle_desired-IsSettled ((gvk, group) ∷ m) r d h =
      settle_desired-IsSettled m _ (λ g o n. d g o (inr n))
        (if-elim IsSettled (is_rolling (group_kind gvk) strategies)
          (λ t.
            settle_group-IsSettled (group_kind gvk) group r
              (λ name wanted n. (gvk, group, d gvk group (inl refl), refl, n)) h)
          (λ f. h))

  before-IsSettled : IsSettled before
  before-IsSettled = record { gained = λ gk name t. inl t; unclaimed = λ gk name e. e }

  -- A verdict with what it leaves of the settled rollout: nothing is moved, or one child of a rolling
  -- kind is, which the latest revision did not claim, once nothing is to be waited for.
  abbrev pub MovesOne : Rollout → Verdict × Rollout → Type 0
  MovesOne r result =
      (result.1 ≡ r)
      ⊎ ((gk : GroupKind) × (name : String) × (is_rolling gk strategies ≡ true)
          × (should_continue_rolling acc content access codec print deep_equal strategies observed
                desired r.latest
              ≡ none)
          × (is_latest (claimer gk name r.claimed) ≡ false)
          × (result.0 ≡ rollout_progressing gk.kind name)
          × (result.1.latest ≡ add_child gk name r.latest)
          × (result.1.others ≡ map (λ pr. remove_child gk name pr) r.others))

  move_child-MovesOne :
      (gk : GroupKind) (name : String) (stop : Option Stop) (r : Rollout)
      → is_rolling gk strategies ≡ true
      → is_latest (claimer gk name r.claimed) ≡ false
      → should_continue_rolling acc content access codec print deep_equal strategies observed
          desired r.latest
        ≡ stop
      → MovesOne r (
          move_child acc content access codec print deep_equal strategies observed desired gk name
            stop r)
  unfolding move_child
  move_child-MovesOne gk name (some (waits wait)) r t f e = inl refl
  move_child-MovesOne gk name (some panics) r t f e = inl refl
  move_child-MovesOne gk name none r t f e = inr (gk, name, t, e, f, refl, refl, refl)

  advance-MovesOne :
      (children : List Obj) (r : Rollout)
      → MovesOne r
          (advance acc content access codec print deep_equal strategies observed desired children r)
  unfolding advance
  advance-MovesOne [] r = inl refl
  advance-MovesOne (child ∷ children) r =
      let rest = advance-MovesOne children r in
      if-elim (MovesOne r) (not (is_rolling (kind_of acc child) strategies)) (λ t. rest)
        (λ rolling.
          if-elim (MovesOne r) (is_latest (claimer (kind_of acc child) (acc.name child) r.claimed))
            (λ t. rest)
            (λ f.
              move_child-MovesOne (kind_of acc child) (acc.name child) _ r (ground (arith, rolling))
                f refl))

  -- A pass first settles the claims, by which the latest revision gets only children that no revision
  -- claimed or that are observed as it wants them; then it moves one more child at most, of a rolling
  -- kind, away from all other revisions, and that only where `shouldContinueRolling` finds nothing to
  -- wait for.
  pub roll-MovesOne :
      (children : List Obj)
      → (settled : Rollout) × IsSettled settled
        × MovesOne settled (
            roll acc content access codec print deep_equal strategies observed desired children
              before)
  unfolding roll
  roll-MovesOne children = (
    settle_desired acc content access codec print deep_equal strategies observed desired desired
        before,
    settle_desired-IsSettled desired before (λ gvk group m. m) before-IsSettled,
    advance-MovesOne children (
        settle_desired acc content access codec print deep_equal strategies observed desired desired
          before),
  )
