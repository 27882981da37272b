-- ===== src/Appliers/Dynamic/Permitted.antt =====
-- What a dynamic apply may ask for.
use metacontroller.Prelude.{
  false, Option, none, some, if-elim, is_some, none-is_some, ◌≡◌, refl, sym, Result, ok, err,
}
use metacontroller.Json.{Object}
use metacontroller.Apply.Annotation.{CodecError, Annotations, set_last_applied}
use metacontroller.Update.{UpdateError, apply_update}
use metacontroller.Manage.{Client}
use metacontroller.Appliers.{
  Outside, World, Outcome, Request, deleting, updating, creating, Method, on_delete, recreate,
  in_place, unknown, replaced, claim_ownership, child_update_recreate,
}
use metacontroller.Appliers.Sends.{Sends, Sends-none, Sends-one}
use metacontroller.Appliers.Dynamic.{
  dynamic_apply, update_child, send_update, create_child, update_in_place,
}

module _ (out : Outside) (client : Client) (method : Method) (parent : Object) where
  -- The observed child is not being deleted, and the update that is computed for it changes it.
  abbrev pub Changes : Object → Object → Object → Type 0
  Changes observed desired new_obj =
      (apply_update out.content out.codec out.print observed desired ≡ ok new_obj)
      × (out.deep_equal new_obj observed ≡ false)
      × (out.acc.deletion_timestamp observed ≡ none)

  -- An update in place sends what was computed; a recreation deletes the observed object by its UID;
  -- a child that is not observed is created with what was applied on record, and with its owner.
  abbrev pub Permitted : Option Object → Object → Request → Type 0
  Permitted (some observed) desired (updating c namespace new_obj) =
      (c ≡ client)
      × (namespace ≡ out.acc.namespace desired)
      × (method ≡ in_place)
      × Changes observed desired new_obj
  Permitted (some observed) desired (deleting c d) =
      (c ≡ client)
      × (method ≡ recreate)
      × (d ≡ replaced out observed desired)
      × ((new_obj : Object) × Changes observed desired new_obj)
  Permitted none desired (creating c namespace o) =
      (c ≡ client)
      × ((annotations : Annotations) × (set_last_applied out.codec (out.content.annotations desired)
              desired
            ≡ ok annotations)
          × (o ≡ claim_ownership out parent (out.content.set_annotations desired annotations)))
      × (namespace ≡ out.acc.namespace o)
  Permitted _ desired _ = ⊥

  send_update-Sends :
      (observed desired new_obj : Object) (w : World) (m : Method)
      → m ≡ method
      → Changes observed desired new_obj
      → Sends
          (Permitted (some observed) desired)
          w
          (send_update out client method parent m observed desired new_obj w).1
  unfolding send_update update_in_place child_update_recreate
  send_update-Sends observed desired new_obj w on_delete e c = Sends-none w
  send_update-Sends observed desired new_obj w recreate e c =
      Sends-one (deleting client (replaced out observed desired)) w
        (refl, sym e, refl, (new_obj, c))
  send_update-Sends observed desired new_obj w in_place e c =
      Sends-one (updating client (out.acc.namespace desired) new_obj) w (refl, refl, sym e, c)
  send_update-Sends observed desired new_obj w (unknown m) e c = Sends-none w

  update_child-Sends :
      (observed desired : Object) (w : World) (result : Result UpdateError Object)
      → apply_update out.content out.codec out.print observed desired ≡ result
      → Sends
          (Permitted (some observed) desired)
          w
          (update_child out client method parent observed desired result w).1
  unfolding update_child
  update_child-Sends observed desired w (err e) h = Sends-none w
  update_child-Sends observed desired w (ok new_obj) h =
      if-elim (λ (r : Outcome). Sends (Permitted (some observed) desired) w r.1)
        (out.deep_equal new_obj observed) (λ _. Sends-none w)
        (λ changed.
          if-elim (λ (r : Outcome). Sends (Permitted (some observed) desired) w r.1)
            (is_some (out.acc.deletion_timestamp observed)) (λ _. Sends-none w)
            (λ there.
              send_update-Sends observed desired new_obj w method refl
                (h, changed, none-is_some (out.acc.deletion_timestamp observed) there)))

  create_child-Sends :
      (desired : Object) (w : World) (result : Result CodecError Annotations)
      → set_last_applied out.codec (out.content.annotations desired) desired ≡ result
      → Sends (Permitted none desired) w (create_child out client method parent desired result w).1
  unfolding create_child
  create_child-Sends desired w (err e) h = Sends-none w
  create_child-Sends desired w (ok annotations) h =
      let claimed = claim_ownership out parent (out.content.set_annotations desired annotations) in
      Sends-one (creating client (out.acc.namespace claimed) claimed) w
        (refl, (annotations, h, refl), refl)

  -- Whatever the API server answers, a dynamic apply asks only for what is permitted: an update that
  -- changes an observed child, by the method of its kind and never while it is being deleted, or the
  -- creation of a child that is not observed.
  pub dynamic_apply-Sends :
      (observed : Option Object) (desired : Object) (w : World)
      → Sends
          (Permitted observed desired)
          w
          (dynamic_apply out client method parent observed desired w).1
  unfolding dynamic_apply
  dynamic_apply-Sends (some observed) desired w =
      update_child-Sends observed desired w
        (apply_update out.content out.codec out.print observed desired) refl
  dynamic_apply-Sends none desired w =
      create_child-Sends desired w
        (set_last_applied out.codec (out.content.annotations desired) desired) refl
