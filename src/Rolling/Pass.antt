-- ===== src/Rolling/Pass.antt =====
-- One pass of a rollout: `syncRollingUpdate` of pkg/controller/composite/rolling_update.go, after
-- `syncRevisionClaims`, with the claim map of controller_revision.go. What the pass concludes is the
-- condition that it writes into the latest status.
pub mod Moves
mod Tests
use metacontroller.Prelude.{
  is_some, ℕ, zero, suc, ◌-◌, String, Bool, true, false, not, ◌&&◌, ◌||◌, Option, none, some, List,
  [], ◌∷◌, ◌==◌, string_eq, nat_eq, if◌then◌else◌, Dict, lookup_nested, insert, get_or, Result, ok,
  err,
}
use mathlib.Core.List.{map}
use metacontroller.Json.{Object}
use metacontroller.Names.{
  Gvk, GroupKind, group_kind, group_kind_eq, claim_map_key, parse_api_version,
}
use metacontroller.Objects.{Accessors}
use metacontroller.ObjectMap.{Named, ObjectMap, find_group_kind_name}
use metacontroller.Apply.{Printer}
use metacontroller.Apply.Annotation.{Codec}
use metacontroller.Update.{Content, UpdateError, apply_update}
use metacontroller.Status.{FieldAccess, StatusCondition, set_condition}
use metacontroller.Revision.{
  Children, ClaimMap, ClaimContext, sync_revision_claims, add_child, remove_child,
}
use metacontroller.Rolling.{
  Strategies, is_rolling, Wait, Stop, waits, panics, should_continue_rolling,
}

-- The children of the latest revision, those of the others, which are numbered from 1, and the claims.
pub record Rollout : Type 0 where
  pub latest : Children GroupKind
  pub others : List (Children GroupKind)
  pub claimed : ClaimMap

abbrev pub key_of : GroupKind → String
key_of gk = claim_map_key gk.group gk.kind

-- `getKind` and the lookup of a name in it.
abbrev pub claimer : GroupKind → String → ClaimMap → Option ℕ
claimer gk name claimed = lookup_nested (key_of gk) name claimed

-- `setParentRevision`
unfoldable pub set_parent_revision : GroupKind → String → ℕ → ClaimMap → ClaimMap
set_parent_revision gk name pr claimed =
    insert (key_of gk) (insert name pr (get_or [] (key_of gk) claimed)) claimed

-- Removes a child of the revision with a number, counted from the first of the others.
unfoldable pub remove_at :
    ℕ → GroupKind → String → List (Children GroupKind) → List (Children GroupKind)
remove_at n gk name [] = []
remove_at zero gk name (pr ∷ others) = remove_child gk name pr ∷ others
remove_at (suc n) gk name (pr ∷ others) = pr ∷ remove_at n gk name others

-- How a pass ends: the rollout waits, goes on with a child, or is done, which the condition `Updated`
-- says, or the pass has panicked.
pub data Verdict : Type 0 where
  rollout_waiting : Wait → Verdict
  rollout_progressing : String → String → Verdict
  on_latest_revision panicked : Verdict

abbrev pub is_latest : Option ℕ → Bool
is_latest none = false
is_latest (some pr) = pr == 0

module _ {Obj : Type 0} (acc : Accessors Obj) where
  abbrev pub kind_of : Obj → GroupKind
  kind_of child = record {
    group = (parse_api_version (acc.api_version child)).0;
    kind = acc.kind child;
  }

module _ {Obj : Type 0} (acc : Accessors Obj) (content : Content) (access : FieldAccess)
    (codec : Codec) (print : Printer) (deep_equal : Object → Object → Bool)
    (strategies : Strategies) (observed desired : ObjectMap Obj) where
  equal_update : Object → Result UpdateError Object → Bool
  equal_update child (err e) = false
  equal_update child (ok updated) = deep_equal child updated

  -- The child is observed and already as the latest revision wants it.
  unfoldable pub already_updated : Obj → Option Obj → Bool
  unfolding equal_update
  already_updated wanted none = false
  already_updated wanted (some child) =
      equal_update (acc.content child)
        (apply_update content codec print (acc.content child) (acc.content wanted))

  unfoldable pub settle_claimed : GroupKind → String → Obj → Option ℕ → Rollout → Rollout
  unfolding already_updated set_parent_revision
  settle_claimed gk name wanted none r = record r {
    latest = add_child gk name r.latest;
    claimed = set_parent_revision gk name 0 r.claimed;
  }
  settle_claimed gk name wanted (some zero) r = r
  settle_claimed gk name wanted (some (suc n)) r =
      if already_updated wanted (find_group_kind_name gk name observed)
      then record {
        latest = add_child gk name r.latest;
        others = remove_at n gk name r.others;
        claimed = set_parent_revision gk name 0 r.claimed;
      }
      else r

  -- The inner loop. The names of a group are distinct, so a claim that it makes concerns no later one.
  unfoldable pub settle_group : GroupKind → Named Obj → Rollout → Rollout
  unfolding settle_claimed
  settle_group gk [] r = r
  settle_group gk ((name, wanted) ∷ group) r =
      settle_group gk group (settle_claimed gk name wanted (claimer gk name r.claimed) r)

  -- The loop over the desired children of the latest revision.
  unfoldable pub settle_desired : ObjectMap Obj → Rollout → Rollout
  unfolding settle_group
  settle_desired [] r = r
  settle_desired ((gvk, group) ∷ m) r =
      settle_desired m (
        if is_rolling (group_kind gvk) strategies then settle_group (group_kind gvk) group r else r)

  unfoldable pub move_child : GroupKind → String → Option Stop → Rollout → Verdict × Rollout
  move_child gk name (some (waits wait)) r = (rollout_waiting wait, r)
  move_child gk name (some panics) r = (panicked, r)
  move_child gk name none r = (
    rollout_progressing gk.kind name,
    record r {
      latest = add_child gk name r.latest;
      others = map (λ pr. remove_child gk name pr) r.others;
    },
  )

  -- The loop over the children in the order of the hook.
  unfoldable pub advance : List Obj → Rollout → Verdict × Rollout
  unfolding move_child
  advance [] r = (on_latest_revision, r)
  advance (child ∷ children) r =
      let rest = advance children r in
      if not (is_rolling (kind_of acc child) strategies)
      then rest
      else if is_latest (claimer (kind_of acc child) (acc.name child) r.claimed)
      then rest
      else move_child (kind_of acc child) (acc.name child)
          (should_continue_rolling acc content access codec print deep_equal strategies observed
            desired r.latest)
          r

  -- The pass, from the claims that syncRevisionClaims leaves.
  unfoldable pub roll : List Obj → Rollout → Verdict × Rollout
  unfolding settle_desired advance
  roll children r = advance children (settle_desired desired r)

  -- The condition of a verdict, with its message by a parameter; a panic writes none.
  unfoldable pub updated_condition : (Verdict → String) → Verdict → Option StatusCondition
  updated_condition message (rollout_waiting wait) = some (record {
    type = "Updated";
    status = "False";
    reason = "RolloutWaiting";
    message = message (rollout_waiting wait);
  })
  updated_condition message (rollout_progressing kind name) = some (record {
    type = "Updated";
    status = "False";
    reason = "RolloutProgressing";
    message = message (rollout_progressing kind name);
  })
  updated_condition message on_latest_revision = some (record {
    type = "Updated";
    status = "True";
    reason = "OnLatestRevision";
    message = message on_latest_revision;
  })
  updated_condition message panicked = none

  claim_context : ClaimContext GroupKind
  claim_context = record {
    key = key_of;
    is_rolling = λ gk. is_rolling gk strategies;
    desires = λ gk name. is_some (find_group_kind_name gk name desired);
  }

  roll_claimed : List Obj → List (Children GroupKind) × ClaimMap → Option (Verdict × Rollout)
  unfolding roll
  roll_claimed children ([], claimed) = none
  roll_claimed children (latest ∷ others, claimed) =
      some (roll children (record { latest = latest; others = others; claimed = claimed }))

  -- `syncRollingUpdate`: what it leaves of the revisions, and the status of the latest one. There is
  -- always a latest revision; `none` is a panic, where there is none or in the check.
  unfoldable pub sync_rolling_update :
      (Verdict → String)
      → List (Children GroupKind)
      → List Obj
      → Object
      → Option (Rollout × Result access.Error Object)
  unfolding claim_context roll_claimed updated_condition
  sync_rolling_update message revisions children status =
      elim (roll_claimed children (sync_revision_claims claim_context revisions)) [
        | none ↦ none
        | some (verdict, r) ↦ elim (updated_condition message verdict) [
          | none ↦ none
          | some condition ↦ some (r, set_condition access status condition)
        ]
      ]
