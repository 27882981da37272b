-- ===== src/Rolling.antt =====
-- When a rolling update may go on: the update strategies and `shouldContinueRolling` of
-- pkg/controller/composite/rolling_update.go. `reflect.DeepEqual` is a parameter.
pub mod Reached
pub mod Happy
pub mod Undesired
pub mod Panics
pub mod Names
pub mod Pass
mod Tests
use metacontroller.Prelude.{
  ℕ, zero, suc, String, Bool, true, false, not, ◌&&◌, ◌||◌, Option, none, some, List, [], ◌∷◌, ◌==◌,
  string_eq, if◌then◌else◌, Dict, lookup, Result, ok, err, ltb,
}
use metacontroller.Json.{ℤ, pos, negsuc, Object}
use metacontroller.Names.{GroupKind, claim_map_key}
use metacontroller.Objects.{Accessors}
use metacontroller.ObjectMap.{ObjectMap, find_group_kind_name}
use metacontroller.Apply.{Printer}
use metacontroller.Apply.Annotation.{Codec, CodecError, get_last_applied}
use metacontroller.Update.{Content, UpdateError, bad_last_applied, apply_update}
use metacontroller.Status.{
  FieldAccess, StatusConditionCheck, CheckError, child_status_check, get_observed_generation,
}
use metacontroller.Revision.{Children}

-- `CompositeControllerChildUpdateStrategy`
pub record Strategy : Type 0 where
  pub method : String
  pub status_checks : List StatusConditionCheck

-- `updateStrategyMap`
abbrev pub Strategies : Type 0
Strategies = Dict String Strategy

unfoldable pub get_strategy : GroupKind → Strategies → Option Strategy
get_strategy kind strategies = lookup (claim_map_key kind.group kind.kind) strategies

unfoldable pub is_rolling_strategy : Option Strategy → Bool
is_rolling_strategy none = false
is_rolling_strategy (some s) = s.method == "RollingInPlace" || s.method == "RollingRecreate"

unfoldable pub is_rolling : GroupKind → Strategies → Bool
unfolding get_strategy is_rolling_strategy
is_rolling kind strategies = is_rolling_strategy (get_strategy kind strategies)

-- Why a rollout waits: the errors of `shouldContinueRolling`.
pub data Wait : Type 0 where
  missing_child not_updated not_observed : Wait
  cannot_check : UpdateError → Wait
  failed_check : CheckError → Wait

-- How the check ends where it does not return nil: with an error, or with the panic of `ApplyUpdate`,
-- which reads the annotations of a nil update.
pub data Stop : Type 0 where
  waits : Wait → Stop
  panics : Stop

abbrev pub less : ℤ → ℤ → Bool
less (pos a) (pos b) = ltb a b
less (pos a) (negsuc b) = false
less (negsuc a) (pos b) = true
less (negsuc a) (negsuc b) = ltb b a

-- The latest spec has not been observed yet, by an observed generation that is there and positive.
abbrev pub behind : {Error : Type 0} → ℤ → Result Error (Option ℤ) → Bool
behind generation (ok (some seen)) = less (pos 0) seen && less seen generation
behind generation _ = false

unfoldable pub compare_update :
    (Object → Object → Bool) → Object → Result UpdateError Object → Option Stop
compare_update deep_equal child (err e) = some (waits (cannot_check e))
compare_update deep_equal child (ok updated) =
    if deep_equal child updated then none else some (waits not_updated)

abbrev pub as_wait : Option CheckError → Option Stop
as_wait none = none
as_wait (some e) = some (waits (failed_check e))

-- `ApplyUpdate` of a nil update: the last applied object is read first, and its error is returned.
unfoldable pub nil_update : Result CodecError (Option Object) → Stop
nil_update (err e) = waits (cannot_check (bad_last_applied e))
nil_update (ok last) = panics

-- The first stop.
abbrev pub first : Option Stop → Option Stop → Option Stop
first (some w) later = some w
first none later = later

module _ {Obj : Type 0} (acc : Accessors Obj) (content : Content) (access : FieldAccess)
    (codec : Codec) (print : Printer) (deep_equal : Object → Object → Bool)
    (strategies : Strategies) (observed desired : ObjectMap Obj) where
  pub check_update : Obj → Option Obj → Option Stop
  unfolding compare_update nil_update
  check_update child none =
      some (nil_update (get_last_applied codec (content.annotations (acc.content child))))
  check_update child (some update) =
      compare_update deep_equal (acc.content child)
        (apply_update content codec print (acc.content child) (acc.content update))

  pub check_generation : Strategy → Obj → Option Stop
  check_generation s child =
      if s.method == "RollingInPlace"
        && behind (acc.generation child) (get_observed_generation access (acc.content child))
      then some (waits not_observed)
      else none

  -- The body of the loop over the names.
  pub check_child : Strategy → GroupKind → String → Option Obj → Option Stop
  unfolding check_update check_generation
  check_child s kind name none = some (waits missing_child)
  check_child s kind name (some child) =
      first (check_update child (find_group_kind_name kind name desired)) (
        first (check_generation s child)
          (as_wait (child_status_check access (some s.status_checks) (acc.content child))))

  pub check_names : Strategy → GroupKind → List String → Option Stop
  unfolding check_child
  check_names s kind [] = none
  check_names s kind (name ∷ names) =
      let later = check_names s kind names in
      first (check_child s kind name (find_group_kind_name kind name observed)) later

  pub check_kind : GroupKind → List String → Option Strategy → Option Stop
  unfolding check_names
  check_kind kind names none = none
  check_kind kind names (some s) =
      if is_rolling_strategy (some s) then check_names s kind names else none

  -- `shouldContinueRolling`, of the children of the latest revision; `none` is a nil error.
  unfoldable pub should_continue_rolling : Children GroupKind → Option Stop
  unfolding check_kind
  should_continue_rolling [] = none
  should_continue_rolling (ck ∷ children) =
      let later = should_continue_rolling children in
      first (check_kind ck.kind ck.names (get_strategy ck.kind strategies)) later
