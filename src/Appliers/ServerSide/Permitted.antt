-- ===== src/Appliers/ServerSide/Permitted.antt =====
-- What a server-side apply may ask for.
use metacontroller.Prelude.{
  String, Bool, true, false, not, ◌||◌, Option, none, some, [], if-elim, is_some, none-is_some,
  or_default, has, ◌==◌, string_eq, ◌≡◌, refl, Result, ok, err, arith,
}
use metacontroller.Json.{Object}
use metacontroller.ControllerRef.{Reason}
use metacontroller.Apply.Annotation.{last_applied_annotation}
use metacontroller.Manage.{Client, int_eq, is_cache_invalid}
use metacontroller.Appliers.{
  Outside, World, Outcome, Request, deleting, applying, removing_annotation, Method, on_delete,
  recreate, in_place, unknown, replaced, record_request, child_update_recreate, is_bad_request,
  is_forbidden,
}
use metacontroller.Appliers.Sends.{Sends, Sends-none, Sends-one, Sends-trans, Sends-map}
use metacontroller.Appliers.ServerSide.{
  sanitize_for_ssa_compare, cache_key, store_state, after_patch, send_patch, forget, after_dry_run,
  dry_run, after_removal, patch_in_place, patch_observed, patch_child, prepared, being_deleted,
  patch_marshalled, server_side_apply,
}

module _ (out : Outside) (client : Client) (desired : Object) (text : String)
    (method : Method) where
  abbrev pub patch : Bool → Request
  patch dry = applying client (out.acc.namespace desired) (out.acc.name desired) text dry

  abbrev pub unrecord : Request
  unrecord = removing_annotation client (out.acc.namespace desired) (out.acc.name desired)

  -- A dry run has shown that the observed object, at its generation, would change.
  abbrev pub DryRunChanges : Object → Type 0
  DryRunChanges observed =
      (patched : Object) × (out.api (patch true) ≡ ok patched)
      × (out.acc.generation observed ≡ out.acc.generation patched)
      × (out.acc.uid observed ≡ out.acc.uid patched)
      × (out.deep_equal (sanitize_for_ssa_compare out patched)
            (sanitize_for_ssa_compare out observed)
          ≡ false)

  -- An observed child is recreated after a dry run that changes it, and patched in place; a child
  -- that is not observed is patched. Every request goes through the client of the kind, and a patch
  -- or the removal of an annotation is of the namespace and the name of the desired object.
  abbrev pub Sendable : Option Object → Request → Type 0
  Sendable (some observed) (deleting c d) =
      (c ≡ client)
      × (method ≡ recreate)
      × (d ≡ replaced out observed desired)
      × DryRunChanges observed
  Sendable (some observed) (applying c ns n t true) =
      (method ≡ recreate) × (applying c ns n t true ≡ patch true)
  Sendable (some observed) (applying c ns n t false) =
      (method ≡ in_place) × (applying c ns n t false ≡ patch false)
  Sendable (some observed) (removing_annotation c ns n) =
      (method ≡ in_place)
      × (removing_annotation c ns n ≡ unrecord)
      × (has last_applied_annotation (or_default [] (out.content.annotations observed)) ≡ true)
  Sendable none (applying c ns n t false) = applying c ns n t false ≡ patch false
  Sendable _ _ = ⊥

  after_patch-Sends :
      (observed : Option Object) (v w : World) (answer : Result Reason Object)
      → Sends (Sendable observed) v w
      → Sends (Sendable observed) v (after_patch out client desired text answer w).1
  unfolding after_patch store_state
  after_patch-Sends observed v w (ok patched) s = s
  after_patch-Sends observed v w (err e) s = s

  send_patch-Sends :
      (observed : Option Object) (w : World)
      → Sendable observed (patch false)
      → Sends (Sendable observed) w (send_patch out client desired text w).1
  unfolding send_patch
  send_patch-Sends observed w p =
      after_patch-Sends observed w (record_request (patch false) w) (out.api (patch false))
        (Sends-one (patch false) w p)

  forget-Sends :
      (observed : Option Object) (v : World) (r : Outcome)
      → Sends (Sendable observed) v r.1
      → Sends (Sendable observed) v (forget out client desired text r).1
  unfolding forget
  forget-Sends observed v (none, w) s = s
  forget-Sends observed v (some e, w) s = s

  abbrev SendsAfter : Object → World → Outcome → Type 0
  SendsAfter observed v r = Sends (Sendable (some observed)) v r.1

  after_dry_run-Sends :
      (observed : Object) (v w : World) (answer : Result Reason Object)
      → method ≡ recreate
      → out.api (patch true) ≡ answer
      → Sends (Sendable (some observed)) v w
      → SendsAfter observed v (after_dry_run out client desired text observed answer w)
  unfolding after_dry_run store_state child_update_recreate
  after_dry_run-Sends observed v w (err e) m h s =
      if-elim (SendsAfter observed v) (is_bad_request e || is_forbidden e) (λ _. s) (λ _. s)
  after_dry_run-Sends observed v w (ok patched) m h s =
      let g = int_eq.same_iff (out.acc.generation observed) (out.acc.generation patched) in
      let u = string_eq.same_iff (out.acc.uid observed) (out.acc.uid patched) in
      if-elim (SendsAfter observed v)
        (not (out.acc.generation observed == out.acc.generation patched)
          || not (out.acc.uid observed == out.acc.uid patched))
        (λ _. s)
        (λ same.
          if-elim (SendsAfter observed v)
            (out.deep_equal (sanitize_for_ssa_compare out patched)
              (sanitize_for_ssa_compare out observed))
            (λ _. s)
            (λ changed.
              forget-Sends (some observed) v (child_update_recreate out client observed desired w) (
                Sends-trans v w (record_request (deleting client (replaced out observed desired)) w)
                  s
                  (Sends-one (deleting client (replaced out observed desired)) w (
                    refl,
                    m,
                    refl,
                    (patched, h, g.0 (ground (arith, same)), u.0 (ground (arith, same)), changed),
                  )))))

  dry_run-Sends :
      (observed : Object) (w : World)
      → method ≡ recreate
      → SendsAfter observed w (dry_run out client desired text observed w)
  unfolding dry_run
  dry_run-Sends observed w m =
      after_dry_run-Sends observed w (record_request (patch true) w) (out.api (patch true)) m refl
        (Sends-one (patch true) w (m, refl))

  after_removal-Sends :
      (observed : Object) (v w : World) (answer : Result Reason Object)
      → method ≡ in_place
      → Sends (Sendable (some observed)) v w
      → SendsAfter observed v (after_removal out client desired text answer w)
  unfolding after_removal
  after_removal-Sends observed v w (ok o) m s =
      Sends-trans v w (send_patch out client desired text w).1 s
        (send_patch-Sends (some observed) w (m, refl))
  after_removal-Sends observed v w (err e) m s = s

  patch_in_place-Sends :
      (observed : Object) (w : World)
      → method ≡ in_place
      → SendsAfter observed w (patch_in_place out client desired text observed w)
  unfolding patch_in_place
  patch_in_place-Sends observed w m =
      let request = removing_annotation client (out.acc.namespace desired) (out.acc.name desired) in
      if-elim (SendsAfter observed w)
        (has last_applied_annotation (or_default [] (out.content.annotations observed)))
        (λ there.
          after_removal-Sends observed w (record_request request w) (out.api request) m
            (Sends-one request w (m, refl, there)))
        (λ _. send_patch-Sends (some observed) w (m, refl))

  patch_observed-Sends :
      (m : Method) (observed : Object) (w : World)
      → method ≡ m
      → SendsAfter observed w (patch_observed out client desired text m observed w)
  unfolding patch_observed store_state
  patch_observed-Sends on_delete observed w e = Sends-none w
  patch_observed-Sends recreate observed w e = dry_run-Sends observed w e
  patch_observed-Sends in_place observed w e = patch_in_place-Sends observed w e
  patch_observed-Sends (unknown m) observed w e = Sends-none w

  -- A child is sent for only where it is not being deleted and the cache is not valid for it.
  abbrev pub Due : World → Option Object → Type 0
  Due w none = Unit
  Due w (some observed) =
      (out.acc.deletion_timestamp observed ≡ none)
      × (is_cache_invalid out.acc client w.cache (cache_key out client desired text) observed
            (out.hash text)
          ≡ true)

  abbrev pub Alive : Option Object → Type 0
  Alive none = Unit
  Alive (some observed) = out.acc.deletion_timestamp observed ≡ none

  pub Due-Alive : (w : World) (observed : Option Object) → Due w observed → Alive observed
  Due-Alive w none d = tt
  Due-Alive w (some observed) d = d.0

  abbrev pub Ordered : World → Option Object → Request → Type 0
  Ordered w observed r = Sendable observed r × Due w observed

  patch_child-Sends :
      (observed : Option Object) (w : World)
      → Sends (Ordered w observed) w (patch_child out client desired text method observed w).1
  unfolding patch_child
  patch_child-Sends none w =
      Sends-map (λ r p. (p, tt)) w (send_patch out client desired text w).1
        (send_patch-Sends none w refl)
  patch_child-Sends (some observed) w =
      if-elim (λ (r : Outcome). Sends (Ordered w (some observed)) w r.1)
        (is_some (out.acc.deletion_timestamp observed)) (λ _. Sends-none w)
        (λ there.
          if-elim (λ (r : Outcome). Sends (Ordered w (some observed)) w r.1)
            (not (
              is_cache_invalid out.acc client w.cache (cache_key out client desired text) observed
                (out.hash text)))
            (λ _. Sends-none w)
            (λ stale.
              Sends-map
                (λ r p. (
                  p,
                  (none-is_some (out.acc.deletion_timestamp observed) there, ground (arith, stale)),
                ))
                w (patch_observed out client desired text method observed w).1
                (patch_observed-Sends method observed w refl)))

module _ (out : Outside) (client : Client) (method : Method) (parent : Object) where
  -- The request is for the text of the prepared object.
  abbrev pub Allowed : World → Option Object → Object → Request → Type 0
  Allowed w observed desired r =
      (text : String) × (out.codec.marshal (prepared out client method parent desired) ≡ some text)
      × Ordered out client (prepared out client method parent desired) text method w observed r

  patch_marshalled-Sends :
      (observed : Option Object) (desired : Object) (w : World) (answer : Option String)
      → out.codec.marshal (prepared out client method parent desired) ≡ answer
      → Sends
          (Allowed w observed desired)
          w
          (patch_marshalled out client method parent observed
            (prepared out client method parent desired)
            answer
            w).1
  unfolding patch_marshalled
  patch_marshalled-Sends observed desired w none h = Sends-none w
  patch_marshalled-Sends observed desired w (some text) h =
      let d = prepared out client method parent desired in
      Sends-map (λ r p. (text, h, p)) w (patch_child out client d text method observed w).1
        (patch_child-Sends out client d text method observed w)

  -- Whatever the API server answers, a server-side apply asks only for what is allowed: nothing of a
  -- child that is being deleted or for which the cache is valid; the patch of a child that is not
  -- observed; for an observed one what its method says, and its deletion only after a dry run that
  -- changes it. Each request goes through the client of the kind, and what is patched has the
  -- namespace, the name and the text of the prepared desired object.
  pub server_side_apply-Sends :
      (observed : Option Object) (desired : Object) (w : World)
      → Sends
          (Allowed w observed desired)
          w
          (server_side_apply out client method parent observed desired w).1
  unfolding server_side_apply
  server_side_apply-Sends observed desired w =
      let d = prepared out client method parent desired in
      if-elim (λ (r : Outcome). Sends (Allowed w observed desired) w r.1)
        (being_deleted out client method parent observed) (λ _. Sends-none w)
        (λ _. patch_marshalled-Sends observed desired w (out.codec.marshal d) refl)
