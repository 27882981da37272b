-- ===== src/Appliers/ServerSide/Quiet.antt =====
-- A server-side apply is not repeated.
use metacontroller.Prelude.{
  String, false, not, Option, none, some, if-elim, is_some, nat_eq, string_eq, ◌≡◌, refl, ap, ◌∙◌,
  [], ◌∷◌, ◌++◌, ok, arith,
}
use metacontroller.Json.{Object}
use metacontroller.Manage.{Client, is_cache_invalid, set_last_update}
use metacontroller.Manage.Cache.{is_cache_invalid-set_last_update}
use metacontroller.Appliers.{Outside, World, Outcome, Method, record_request}
use metacontroller.Appliers.ServerSide.{
  cache_key, store_state, after_patch, send_patch, patch_child, prepared, being_deleted,
  patch_marshalled, server_side_apply,
}
use metacontroller.Appliers.ServerSide.Permitted.{patch}

module _ (out : Outside) (client : Client) (method : Method) (parent : Object) (desired : Object)
    (text : String)
    (marshalled : out.codec.marshal (prepared out client method parent desired) ≡ some text) where
  abbrev d : Object
  d = prepared out client method parent desired

  abbrev stored : Object → World → World
  stored o w = store_state out client d text o w

  patch_child-stored :
      (o : Object) (w : World)
      → patch_child out client d text method (some o) (stored o w) ≡ (none, stored o w)
  unfolding patch_child store_state
  patch_child-stored o w =
      let key = cache_key out client d text in
      let fresh =
        is_cache_invalid-set_last_update out.acc client w.cache key o (out.hash text)
          (out.hash text) in
      if-elim (λ (r : Outcome). r ≡ (none, stored o w)) (is_some (out.acc.deletion_timestamp o))
        (λ _. refl)
        (λ _.
          if-elim (λ (r : Outcome). r ≡ (none, stored o w))
            (not (
              is_cache_invalid out.acc client
                (set_last_update out.acc client key (out.hash text) o w.cache) key o
                (out.hash text)))
            (λ _. refl)
            (λ stale.
              ground (arith, stale, fresh, nat_eq.same_iff (out.hash text) (out.hash text))))

  marshalled-as :
      (observed : Option Object) (w : World)
      → patch_marshalled out client method parent observed d (out.codec.marshal d) w
        ≡ patch_child out client d text method observed w
  unfolding patch_marshalled
  marshalled-as observed w = rw marshalled refl

  -- Where the state of an object was stored last for the same desired object, the object is left
  -- alone: nothing is asked for, and nothing changes.
  server_side_apply-stored :
      (o : Object) (w : World)
      → server_side_apply out client method parent (some o) desired (stored o w)
        ≡ (none, stored o w)
  unfolding server_side_apply
  server_side_apply-stored o w =
      if-elim (λ (r : Outcome). r ≡ (none, stored o w))
        (being_deleted out client method parent (some o)) (λ _. refl)
        (λ _. marshalled-as (some o) (stored o w) ∙ patch_child-stored o w)

  -- A child that is not observed is patched once, where the API server accepts the patch: the apply
  -- has no error and asks for exactly that patch, and the same apply on the object that was answered
  -- has no error, asks for nothing more and leaves the cache as it is.
  pub server_side_apply-settles :
      (patched : Object) (w : World)
      → out.api (patch out client d text method false) ≡ ok patched
      → ((server_side_apply out client method parent none desired w).0 ≡ none)
        × ((server_side_apply out client method parent none desired w).1.requests
            ≡ w.requests ++ (patch out client d text method false ∷ []))
        × (server_side_apply out client method parent
              (some patched)
              desired
              (server_side_apply out client method parent none desired w).1
            ≡ (none, (server_side_apply out client method parent none desired w).1))
  unfolding store_state
  server_side_apply-settles patched w answer =
      let first : server_side_apply out client method parent none desired w
          ≡ (none, stored patched (record_request (patch out client d text method false) w)) =
        unfold server_side_apply in
        (marshalled-as none w ∙ unfold patch_child send_patch after_patch in rw answer refl) in
      (
        ap (λ (r : Outcome). r.0) first,
        ap (λ (r : Outcome). r.1.requests) first,
        rw first (
            server_side_apply-stored patched
              (record_request (patch out client d text method false) w)),
      )
