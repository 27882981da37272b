-- ===== src/Appliers/Children.antt =====
-- `ManageChildren` of pkg/controller/common/manage_children.go: first the observed children that are not
-- desired are deleted, then the desired ones are applied, kind by kind, and errors stop nothing.
pub mod Kinds
pub mod Justified
mod Tests
use mathlib.Core.List.{map}
use metacontroller.Prelude.{
  String, Bool, true, false, not, Option, none, some, List, [], ◌∷◌, ◌++◌, ◌==◌, string_eq,
  if◌then◌else◌, ◌||◌, is_some, or_default, Dict, lookup, keys, Result, ok, err,
}
use metacontroller.Json.{Object}
use metacontroller.Names.{Gvk, GroupKind, group_kind, gvk_eq}
use metacontroller.ControllerRef.{Reason}
use metacontroller.ObjectMap.{Named, ObjectMap, get_objects_by_gvk}
use metacontroller.Manage.{Client, Deletion, Progress, delete_children}
use metacontroller.Appliers.{
  Outside, World, Outcome, ApplyError, refused, invalid_strategy, no_client, Request, deleting,
  Method, to_method,
}
use metacontroller.Appliers.Dynamic.{dynamic_apply}
use metacontroller.Appliers.ServerSide.{server_side_apply}

-- `ApplyStrategy`
pub data Applier : Type 0 where
  dynamic server_side : Applier

-- `NewApplier`, on the strategy's name.
unfoldable pub new_applier : String → Option Applier
new_applier strategy =
    if strategy == "dynamic-apply" || strategy == ""
    then some dynamic
    else if strategy == "server-side-apply"
    then some server_side
    else none

-- The errors so far, and the world.
abbrev pub Run : Type 0
Run = List ApplyError × World

-- What the controller gives: whether a client exists for a kind, the update method of a kind,
-- `sort.Slice` by group, version and kind, and the apply strategy.
pub record Settings : Type 0 where
  pub has_client : Gvk → Bool
  pub get_method : GroupKind → String
  pub sort : List Gvk → List Gvk
  pub strategy : String

abbrev pub client_of : Gvk → Client
client_of gvk = record { group = gvk.group; kind = gvk.kind }

-- `GetAllGVKs`
unfoldable pub get_all_gvks : {A : Type 0} → (List Gvk → List Gvk) → ObjectMap A → List Gvk
get_all_gvks sort m = sort (keys m)

abbrev pub add_error : Run → Outcome → Run
add_error (errors, w) (none, w') = (errors, w')
add_error (errors, w) (some e, w') = (errors ++ (e ∷ []), w')

module _ (out : Outside) (settings : Settings) (parent : Object) where
  unfoldable pub apply_one : Applier → Gvk → Option Object → Object → World → Outcome
  unfolding dynamic_apply server_side_apply
  apply_one dynamic gvk observed desired w =
      dynamic_apply out (client_of gvk) (to_method (settings.get_method (group_kind gvk))) parent
        observed desired w
  apply_one server_side gvk observed desired w =
      server_side_apply out (client_of gvk) (to_method (settings.get_method (group_kind gvk)))
        parent observed desired w

  -- The loop of `updateChildren`.
  unfoldable pub update_all : Applier → Gvk → Named Object → Named Object → Run → Run
  unfolding apply_one
  update_all applier gvk observed [] r = r
  update_all applier gvk observed ((name, o) ∷ desired) r =
      update_all applier gvk observed desired
        (add_error r (apply_one applier gvk (lookup name observed) o r.1))

  -- `updateChildren`
  update_with : Option Applier → Gvk → Named Object → Named Object → Run → Run
  unfolding update_all
  update_with none gvk observed desired r = (r.0 ++ (invalid_strategy settings.strategy ∷ []), r.1)
  update_with (some applier) gvk observed desired r = update_all applier gvk observed desired r

  refusal : Result Reason Object → Option Reason
  refusal (ok o) = none
  refusal (err e) = some e

  abbrev pub deletion_answer : Client → Deletion → Option Reason
  unfolding refusal
  deletion_answer client d = refusal (out.api (deleting client d))

  -- What `deleteChildren` has done, as part of the run.
  after_deletions : Client → Run → Progress → Run
  after_deletions client (errors, w) p = (
    errors ++ map refused p.errors,
    record { requests = w.requests ++ map (deleting client) p.requests; cache = p.cache },
  )

  unfoldable pub delete_kind : Gvk → Named Object → Option (Named Object) → Run → Run
  unfolding refusal delete_children after_deletions
  delete_kind gvk observed desired r = after_deletions (client_of gvk) r (
      delete_children out.acc (client_of gvk) (deletion_answer (client_of gvk)) desired observed
        (record { requests = []; errors = []; cache = r.1.cache }))

  abbrev pub objects_at : Gvk → Option (ObjectMap Object) → Option (Named Object)
  objects_at gvk none = none
  objects_at gvk (some m) = get_objects_by_gvk gvk m

  -- The body of the first loop.
  delete_gvk : Option (ObjectMap Object) → Gvk → Option (Named Object) → Run → Run
  unfolding delete_kind
  delete_gvk desired gvk none r = r
  delete_gvk desired gvk (some objects) r =
      if settings.has_client gvk
      then delete_kind gvk objects (objects_at gvk desired) r
      else (r.0 ++ (no_client ∷ []), r.1)

  unfoldable pub delete_gvks : ObjectMap Object → Option (ObjectMap Object) → List Gvk → Run → Run
  unfolding delete_gvk
  delete_gvks observed desired [] r = r
  delete_gvks observed desired (gvk ∷ gvks) r =
      delete_gvks observed desired gvks (delete_gvk desired gvk (get_objects_by_gvk gvk observed) r)

  -- The body of the second loop.
  update_gvk : Option (ObjectMap Object) → Gvk → Option (Named Object) → Run → Run
  unfolding update_with new_applier
  update_gvk observed gvk none r = r
  update_gvk observed gvk (some objects) r =
      if settings.has_client gvk
      then update_with (new_applier settings.strategy) gvk (or_default [] (objects_at gvk observed))
          objects r
      else (r.0 ++ (no_client ∷ []), r.1)

  unfoldable pub update_gvks : Option (ObjectMap Object) → ObjectMap Object → List Gvk → Run → Run
  unfolding update_gvk
  update_gvks observed desired [] r = r
  update_gvks observed desired (gvk ∷ gvks) r =
      update_gvks observed desired gvks (update_gvk observed gvk (get_objects_by_gvk gvk desired) r)

  delete_undesired : Option (ObjectMap Object) → Option (ObjectMap Object) → Run → Run
  unfolding delete_gvks get_all_gvks
  delete_undesired none desired r = r
  delete_undesired (some observed) desired r =
      delete_gvks observed desired (get_all_gvks settings.sort observed) r

  apply_desired : Option (ObjectMap Object) → Option (ObjectMap Object) → Run → Run
  unfolding update_gvks get_all_gvks
  apply_desired observed none r = r
  apply_desired observed (some desired) r =
      update_gvks observed desired (get_all_gvks settings.sort desired) r

  -- `ManageChildren`; an absent map is a nil one.
  unfoldable pub manage_children :
      Option (ObjectMap Object) → Option (ObjectMap Object) → World → Run
  unfolding delete_undesired apply_desired
  manage_children observed desired w =
      apply_desired observed desired (delete_undesired observed desired ([], w))
