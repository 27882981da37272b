-- ===== src/Appliers.antt =====
-- The appliers of pkg/controller/common/manage_children.go, which bring one child to its desired state:
-- `DynamicApply` in Appliers.Dynamic and `ServerSideApply` in Appliers.ServerSide, over what they share.
-- A request of the API server is recorded with its kind; its answer is a parameter.
pub mod Sends
pub mod Dynamic
pub mod ServerSide
pub mod Children
pub mod Samples
use metacontroller.Prelude.{
  ℕ, String, Bool, true, false, not, ◌||◌, ◌&&◌, Option, none, some, List, [], ◌∷◌, ◌++◌, ◌==◌,
  string_eq, if◌then◌else◌, Result, ok, err,
}
use metacontroller.Json.{Object}
use metacontroller.Objects.{OwnerReference, Accessors}
use metacontroller.ControllerRef.{Reason, is_not_found}
use metacontroller.Apply.{Printer}
use metacontroller.Apply.Annotation.{Codec, CodecError}
use metacontroller.Update.{Content, UpdateError}
use metacontroller.Manage.{Cache, Client, Deletion}

-- A call of the API server. A server-side apply says whether it is a dry run.
pub data Request : Type 0 where
  deleting : Client → Deletion → Request
  updating : Client → String → Object → Request
  creating : Client → String → Object → Request
  applying : Client → String → String → String → Bool → Request
  removing_annotation : Client → String → String → Request

-- What is outside: the metadata and the content of an object, the JSON codec, `reflect.DeepEqual`,
-- `xxhash.Sum64`, and the API server.
pub record Outside : Type 0 where
  pub acc : Accessors Object
  pub content : Content
  pub set_owner_references : Object → List OwnerReference → Object
  pub codec : Codec
  pub print : Printer
  pub deep_equal : Object → Object → Bool
  pub hash : String → ℕ
  pub api : Request → Result Reason Object

pub record World : Type 0 where
  pub requests : List Request
  pub cache : Cache

pub data ApplyError : Type 0 where
  cannot_update : UpdateError → ApplyError
  cannot_record : CodecError → ApplyError
  refused : Reason → ApplyError
  invalid_method invalid_strategy : String → ApplyError
  cannot_marshal changed_meanwhile no_client : ApplyError

-- The error that a call returns, and what it changed.
abbrev pub Outcome : Type 0
Outcome = Option ApplyError × World

abbrev pub is_conflict : Reason → Bool
is_conflict Reason.conflict = true
is_conflict _ = false

abbrev pub is_already_exists : Reason → Bool
is_already_exists Reason.already_exists = true
is_already_exists _ = false

abbrev pub is_bad_request : Reason → Bool
is_bad_request Reason.bad_request = true
is_bad_request _ = false

abbrev pub is_forbidden : Reason → Bool
is_forbidden Reason.forbidden = true
is_forbidden _ = false

-- The cases of the switch over the update method.
pub data Method : Type 0 where
  on_delete recreate in_place : Method
  unknown : String → Method

unfoldable pub to_method : String → Method
to_method method =
    if method == "OnDelete" || method == ""
    then on_delete
    else if method == "Recreate" || method == "RollingRecreate"
    then recreate
    else if method == "InPlace" || method == "RollingInPlace"
    then in_place
    else unknown method

abbrev pub record_request : Request → World → World
record_request r w = record w { requests = w.requests ++ (r ∷ []) }

module _ (out : Outside) where
  -- `MakeControllerRef`
  unfoldable pub make_controller_ref : Object → OwnerReference
  make_controller_ref parent = record {
    api_version = out.acc.api_version parent;
    kind = out.acc.kind parent;
    name = out.acc.name parent;
    uid = out.acc.uid parent;
    controller = some true;
    block_owner_deletion = some true;
  }

  unfoldable pub already_owned : String → List OwnerReference → Bool
  already_owned uid [] = false
  already_owned uid (ref ∷ refs) = ref.uid == uid || already_owned uid refs

  -- `claimOwnership`, of the desired object.
  unfoldable pub claim_ownership : Object → Object → Object
  unfolding make_controller_ref already_owned
  claim_ownership parent desired =
      let refs = out.acc.owner_references desired in
      if already_owned (out.acc.uid parent) refs
      then desired
      else out.set_owner_references desired (refs ++ (make_controller_ref parent ∷ []))

  -- The deletion that `childUpdateRecreate` asks for.
  abbrev pub replaced : Object → Object → Deletion
  replaced observed desired = record {
    namespace = out.acc.namespace desired;
    name = out.acc.name desired;
    uid = out.acc.uid observed;
  }

  -- An error of a deletion, but for one that says that the object is gone.
  abbrev pub unless_gone : Result Reason Object → Option ApplyError
  unless_gone (ok o) = none
  unless_gone (err e) = if is_not_found e then none else some (refused e)

  -- `childUpdateRecreate`
  unfoldable pub child_update_recreate : Client → Object → Object → World → Outcome
  child_update_recreate client observed desired w =
      let request = deleting client (replaced observed desired) in
      (unless_gone (out.api request), record_request request w)
