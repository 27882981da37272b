-- ===== src/Rolling/Tests.antt =====
-- The theorem on rollouts at a concrete child.
use metacontroller.Prelude.{
  ◌≢◌, refl, inl, lookup, arith, Bool, false, none, some, [], ◌∷◌, All, ◌≡◌, ◌↔◌,
}
use metacontroller.Json.{Object}
use metacontroller.Names.{Gvk, GroupKind, claim_map_key}
use metacontroller.Objects.{PlainObject, plain_accessors, plain_object}
use metacontroller.ObjectMap.{ObjectMap, make_object_map, qualified_name}
use metacontroller.Apply.{Printer}
use metacontroller.Apply.Annotation.{Codec}
use metacontroller.Update.Samples.{content}
use metacontroller.Status.Samples.{access}
use metacontroller.Revision.{Children}
use metacontroller.Rolling.Names.{should_continue_rolling-Namespaced}
use metacontroller.Rolling.{
  panics, Strategies, is_rolling_strategy, get_strategy, should_continue_rolling,
}
use metacontroller.Rolling.Happy.{HappyKind}
use metacontroller.Rolling.Panics.{Panics, should_continue_rolling_iff}

abbrev codec : Codec
codec = record { marshal = λ o. some "{}"; unmarshal = λ s. some [] }

abbrev print : Printer
print v = ""

-- Takes every update for a change.
abbrev never_equal : Object → Object → Bool
never_equal a b = false

abbrev pod : Gvk
pod = record { group = "core"; version = "v1"; kind = "Pod" }

abbrev pods : GroupKind
pods = record { group = "core"; kind = "Pod" }

abbrev strategies : Strategies
strategies = ("Pod.core", record { method = "RollingInPlace"; status_checks = [] }) ∷ []

abbrev observed : ObjectMap PlainObject
observed = (pod, ("a", plain_object pod "ns" "a" "1") ∷ []) ∷ []

abbrev claimed : Children GroupKind
claimed = record { kind = pods; names = "a" ∷ "b" ∷ [] } ∷ []

should_continue_rolling_iff_example :
    ((should_continue_rolling plain_accessors content access codec print never_equal strategies
          observed [] claimed
        ≡ none)
      ↔ All
          (λ ck.
            HappyKind plain_accessors content access codec print never_equal strategies observed []
              (get_strategy ck.kind strategies)
              ck)
          claimed)
    × ((should_continue_rolling plain_accessors content access codec print never_equal strategies
            observed [] claimed
          ≡ some panics)
        ↔ Panics plain_accessors content access codec print never_equal strategies observed []
            claimed)
should_continue_rolling_iff_example =
    should_continue_rolling_iff plain_accessors content access codec print never_equal strategies
      observed [] claimed

abbrev parent : PlainObject
parent = plain_object (record { group = ""; version = "v1"; kind = "Parent" }) "ns" "parent" "p"

should_continue_rolling-Namespaced_example :
    should_continue_rolling plain_accessors content access codec print never_equal strategies
      (make_object_map plain_accessors
        (qualified_name plain_accessors)
        parent
        (plain_object pod "ns" "a" "1" ∷ []))
      observed
      claimed
    ≢ none
unfolding get_strategy lookup is_rolling_strategy claim_map_key
should_continue_rolling-Namespaced_example =
    should_continue_rolling-Namespaced plain_accessors content access codec print never_equal
      strategies observed parent (plain_object pod "ns" "a" "1" ∷ []) claimed
      (record { kind = pods; names = "a" ∷ "b" ∷ [] })
      (record { method = "RollingInPlace"; status_checks = [] }) "a" ((refl, omega arith), tt)
      (inl refl) refl refl (inl refl) (omega arith)
