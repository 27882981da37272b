-- ===== src/Appliers/ServerSide.antt =====
-- `ServerSideApply.Apply`: the desired object is sent whole, and not at all while the cache says that
-- nothing has changed.
pub mod Permitted
pub mod Quiet
use metacontroller.Prelude.{
  ℕ, String, Bool, true, false, not, Option, none, some, List, ◌||◌, if◌then◌else◌, is_some,
  or_default, Result, ok, err, ◌++◌, [], ◌∷◌, ◌==◌, string_eq, has, delete,
}
use metacontroller.Json.{Object}
use metacontroller.ControllerRef.{Reason, is_not_found}
use metacontroller.Apply.Annotation.{last_applied_annotation}
use metacontroller.Update.{nullify_last_applied_annotation, object_meta_system_fields}
use metacontroller.Manage.{
  Client, Cache, int_eq, last_update_cache_key, set_last_update, is_cache_invalid,
}
use metacontroller.Appliers.{
  Outside, World, Outcome, ApplyError, cannot_marshal, changed_meanwhile, refused, invalid_method,
  Method, on_delete, recreate, in_place, unknown, applying, removing_annotation, claim_ownership,
  child_update_recreate, record_request, is_conflict, is_bad_request, is_forbidden,
}

module _ (out : Outside) where
  remove_meta_fields : List String → Object → Object
  remove_meta_fields [] o = o
  remove_meta_fields (name ∷ names) o =
      remove_meta_fields names (out.content.remove_field o ("metadata" ∷ name ∷ []))

  -- `sanitizeForSSACompare`
  unfoldable pub sanitize_for_ssa_compare : Object → Object
  unfolding remove_meta_fields nullify_last_applied_annotation
  sanitize_for_ssa_compare o =
      nullify_last_applied_annotation out.content
        (out.content.remove_field (remove_meta_fields object_meta_system_fields o) ("status" ∷ []))

  module _ (client : Client) (desired : Object) (text : String) where
    -- `cacheKeyName`
    abbrev pub cache_key : String
    cache_key = last_update_cache_key out.acc client desired

    -- `storeState`
    store_state : Object → World → World
    unfolding last_update_cache_key set_last_update
    store_state o w = record w {
      cache = set_last_update out.acc client cache_key (out.hash text) o w.cache;
    }

    after_patch : Result Reason Object → World → Outcome
    unfolding store_state
    after_patch (ok patched) w = (none, store_state patched w)
    after_patch (err e) w = (if is_conflict e then none else some (refused e), w)

    -- The server-side apply at the end.
    send_patch : World → Outcome
    unfolding after_patch
    send_patch w =
        let request =
          applying client (out.acc.namespace desired) (out.acc.name desired) text false in
        after_patch (out.api request) (record_request request w)

    -- A deletion that is done with makes the cache forget the object.
    forget : Outcome → Outcome
    forget (some e, w) = (some e, w)
    forget (none, w) = (none, record w { cache = delete cache_key w.cache })

    after_dry_run : Object → Result Reason Object → World → Outcome
    unfolding store_state sanitize_for_ssa_compare forget child_update_recreate
    after_dry_run observed (err e) w =
        if is_bad_request e || is_forbidden e
        then (none, store_state observed w)
        else (some (refused e), w)
    after_dry_run observed (ok patched) w =
        if not (out.acc.generation observed == out.acc.generation patched)
          || not (out.acc.uid observed == out.acc.uid patched)
        then (some changed_meanwhile, w)
        else if out.deep_equal (sanitize_for_ssa_compare patched)
            (sanitize_for_ssa_compare observed)
        then (none, store_state observed w)
        else forget (child_update_recreate out client observed desired w)

    dry_run : Object → World → Outcome
    unfolding after_dry_run
    dry_run observed w =
        let request =
          applying client (out.acc.namespace desired) (out.acc.name desired) text true in
        after_dry_run observed (out.api request) (record_request request w)

    after_removal : Result Reason Object → World → Outcome
    unfolding send_patch
    after_removal (ok o) w = send_patch w
    after_removal (err e) w = (if is_not_found e then none else some (refused e), w)

    -- The annotation of the other applier is removed first.
    patch_in_place : Object → World → Outcome
    unfolding after_removal send_patch
    patch_in_place observed w =
        let request =
          removing_annotation client (out.acc.namespace desired) (out.acc.name desired) in
        if has last_applied_annotation (or_default [] (out.content.annotations observed))
        then after_removal (out.api request) (record_request request w)
        else send_patch w

    -- The switch over the update method.
    patch_observed : Method → Object → World → Outcome
    unfolding store_state dry_run patch_in_place
    patch_observed on_delete observed w = (none, store_state observed w)
    patch_observed recreate observed w = dry_run observed w
    patch_observed in_place observed w = patch_in_place observed w
    patch_observed (unknown m) observed w = (some (invalid_method m), w)

    patch_child : Method → Option Object → World → Outcome
    unfolding patch_observed send_patch is_cache_invalid
    patch_child method none w = send_patch w
    patch_child method (some observed) w =
        if is_some (out.acc.deletion_timestamp observed)
        then (none, w)
        else if not (is_cache_invalid out.acc client w.cache cache_key observed (out.hash text))
        then (none, w)
        else patch_observed method observed w

  module _ (client : Client) (method : Method) (parent : Object) where
    abbrev pub prepared : Object → Object
    prepared desired = sanitize_for_ssa_compare (claim_ownership out parent desired)

    abbrev pub being_deleted : Option Object → Bool
    being_deleted none = false
    being_deleted (some o) = is_some (out.acc.deletion_timestamp o)

    patch_marshalled : Option Object → Object → Option String → World → Outcome
    unfolding patch_child
    patch_marshalled observed desired none w = (some cannot_marshal, w)
    patch_marshalled observed desired (some text) w =
        patch_child client desired text method observed w

    -- `ServerSideApply.Apply`
    unfoldable pub server_side_apply : Option Object → Object → World → Outcome
    unfolding sanitize_for_ssa_compare claim_ownership patch_marshalled
    server_side_apply observed desired w =
        if being_deleted observed
        then (none, w)
        else patch_marshalled observed (prepared desired) (out.codec.marshal (prepared desired)) w
