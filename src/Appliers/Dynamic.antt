-- ===== src/Appliers/Dynamic.antt =====
-- `DynamicApply.Apply`: a three-way merge, sent according to the update method of the kind.
pub mod Permitted
use metacontroller.Prelude.{
  String, Bool, true, false, Option, none, some, ◌||◌, if◌then◌else◌, is_some, Result, ok, err,
  ◌++◌, [], ◌∷◌,
}
use metacontroller.Json.{Object}
use metacontroller.ControllerRef.{Reason, is_not_found}
use metacontroller.Apply.Annotation.{CodecError, Annotations, set_last_applied}
use metacontroller.Update.{UpdateError, apply_update}
use metacontroller.Manage.{Client}
use metacontroller.Appliers.{
  Outside, World, Outcome, ApplyError, cannot_update, cannot_record, refused, invalid_method,
  Method, on_delete, recreate, in_place, unknown, updating, creating, claim_ownership,
  child_update_recreate, record_request, is_conflict, is_already_exists,
}

module _ (out : Outside) (client : Client) (method : Method) (parent : Object) where
  -- The errors of an update that are swallowed: the child is gone, or has changed since.
  abbrev pub after_update : Result Reason Object → Option ApplyError
  after_update (ok o) = none
  after_update (err e) = if is_not_found e || is_conflict e then none else some (refused e)

  update_in_place : Object → Object → World → Outcome
  update_in_place desired new_obj w =
      let request = updating client (out.acc.namespace desired) new_obj in
      (after_update (out.api request), record_request request w)

  -- The switch over the update method.
  send_update : Method → Object → Object → Object → World → Outcome
  unfolding update_in_place child_update_recreate
  send_update on_delete observed desired new_obj w = (none, w)
  send_update recreate observed desired new_obj w =
      child_update_recreate out client observed desired w
  send_update in_place observed desired new_obj w = update_in_place desired new_obj w
  send_update (unknown m) observed desired new_obj w = (some (invalid_method m), w)

  -- The update of an observed child, once it is computed.
  update_child : Object → Object → Result UpdateError Object → World → Outcome
  unfolding send_update
  update_child observed desired (err e) w = (some (cannot_update e), w)
  update_child observed desired (ok new_obj) w =
      if out.deep_equal new_obj observed
      then (none, w)
      else if is_some (out.acc.deletion_timestamp observed)
      then (none, w)
      else send_update method observed desired new_obj w

  abbrev pub after_create : Result Reason Object → Option ApplyError
  after_create (ok o) = none
  after_create (err e) = if is_already_exists e then none else some (refused e)

  create_child : Object → Result CodecError Annotations → World → Outcome
  unfolding claim_ownership
  create_child desired (err e) w = (some (cannot_record e), w)
  create_child desired (ok annotations) w =
      let claimed = claim_ownership out parent (out.content.set_annotations desired annotations) in
      let request = creating client (out.acc.namespace claimed) claimed in
      (after_create (out.api request), record_request request w)

  -- `DynamicApply.Apply`
  unfoldable pub dynamic_apply : Option Object → Object → World → Outcome
  unfolding update_child create_child
  dynamic_apply (some observed) desired w =
      update_child observed desired (apply_update out.content out.codec out.print observed desired)
        w
  dynamic_apply none desired w =
      create_child desired (set_last_applied out.codec (out.content.annotations desired) desired) w
