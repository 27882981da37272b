-- ===== src/Rolling/Pass/Tests.antt =====
-- The theorem on a pass for one child that an older revision claims.
use metacontroller.Prelude.{Bool, false, some, [], ◌∷◌}
use metacontroller.Json.{Object}
use metacontroller.Names.{Gvk}
use metacontroller.Objects.{PlainObject, plain_accessors, plain_object}
use metacontroller.ObjectMap.{ObjectMap}
use metacontroller.Apply.{Printer}
use metacontroller.Apply.Annotation.{Codec}
use metacontroller.Update.Samples.{content}
use metacontroller.Status.Samples.{access}
use metacontroller.Rolling.{Strategies}
use metacontroller.Rolling.Pass.{Rollout, roll}
use metacontroller.Rolling.Pass.Moves.{IsSettled, MovesOne, roll-MovesOne}

abbrev codec : Codec
codec = record { marshal = λ o. some "{}"; unmarshal = λ s. some [] }

abbrev print : Printer
print v = ""

-- Takes every update for a change.
abbrev never_equal : Object → Object → Bool
never_equal a b = false

abbrev pod : Gvk
pod = record { group = ""; version = "v1"; kind = "Pod" }

abbrev strategies : Strategies
strategies = ("Pod.", record { method = "RollingInPlace"; status_checks = [] }) ∷ []

abbrev child : PlainObject
child = plain_object pod "" "a" "1"

abbrev observed : ObjectMap PlainObject
observed = (pod, ("a", child) ∷ []) ∷ []

abbrev rollout : Rollout
rollout = record {
  latest = [];
  others = (record { kind = record { group = ""; kind = "Pod" }; names = "a" ∷ [] } ∷ []) ∷ [];
  claimed = ("Pod.", ("a", 1) ∷ []) ∷ [];
}

roll-MovesOne_example :
    (settled : Rollout) × IsSettled plain_accessors content access codec print never_equal
      strategies observed observed rollout settled
    × MovesOne plain_accessors content access codec print never_equal strategies observed observed
        rollout settled
        (roll plain_accessors content access codec print never_equal strategies observed observed
          (child ∷ [])
          rollout)
roll-MovesOne_example =
    roll-MovesOne plain_accessors content access codec print never_equal strategies observed
      observed rollout (child ∷ [])
