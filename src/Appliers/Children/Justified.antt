-- ===== src/Appliers/Children/Justified.antt =====
-- What the management of children may ask for.
use metacontroller.Prelude.{
  Option, none, some, List, [], ◌∷◌, if-elim, or_default, string_eq, ◌≡◌, refl,
}
use metacontroller.Json.{Object}
use metacontroller.Names.{Gvk, gvk_eq}
use metacontroller.ObjectMap.{Named, ObjectMap, get_objects_by_gvk}
use metacontroller.Appliers.{Outside, World}
use metacontroller.Appliers.Sends.{Sends, Sends-none, Sends-trans}
use metacontroller.Appliers.Children.{
  Applier, new_applier, Run, Settings, get_all_gvks, update_with, objects_at, delete_gvk,
  delete_gvks, update_gvk, update_gvks, delete_undesired, apply_desired, manage_children,
}
use metacontroller.Appliers.Children.Kinds.{Justified, update_all-Sends, delete_kind-Sends}

module _ (out : Outside) (settings : Settings) (parent : Object) where
  module _ (observed desired : Option (ObjectMap Object)) where
    abbrev Proceeds : Run → Run → Type 0
    Proceeds r s = Sends (Justified out settings parent observed desired) r.1 s.1

    delete_gvk-Sends :
        (gvk : Gvk) (found : Option (Named Object)) (r : Run)
        → objects_at out settings parent gvk observed ≡ found
        → Proceeds r (delete_gvk out settings parent desired gvk found r)
    unfolding delete_gvk
    delete_gvk-Sends gvk none r e = Sends-none r.1
    delete_gvk-Sends gvk (some group) r e =
        if-elim (Proceeds r) (settings.has_client gvk)
          (λ _. delete_kind-Sends out settings parent observed desired gvk group r e)
          (λ _. Sends-none r.1)

    update_with-Sends :
        (gvk : Gvk) (group : Named Object) (applier : Option Applier) (r : Run)
        → objects_at out settings parent gvk desired ≡ some group
        → new_applier settings.strategy ≡ applier
        → Proceeds r (
            update_with out settings parent applier gvk
              (or_default [] (objects_at out settings parent gvk observed))
              group
              r)
    unfolding update_with
    update_with-Sends gvk group none r e a = Sends-none r.1
    update_with-Sends gvk group (some applier) r e a =
        update_all-Sends out settings parent observed desired gvk group applier e a group r
          (λ n x i. i)

    update_gvk-Sends :
        (gvk : Gvk) (found : Option (Named Object)) (r : Run)
        → objects_at out settings parent gvk desired ≡ found
        → Proceeds r (update_gvk out settings parent observed gvk found r)
    unfolding update_gvk
    update_gvk-Sends gvk none r e = Sends-none r.1
    update_gvk-Sends gvk (some group) r e =
        if-elim (Proceeds r) (settings.has_client gvk)
          (λ _. update_with-Sends gvk group (new_applier settings.strategy) r e refl)
          (λ _. Sends-none r.1)

  delete_gvks-Sends :
      (observed : ObjectMap Object) (desired : Option (ObjectMap Object)) (gvks : List Gvk)
      (r : Run)
      → Sends
          (Justified out settings parent (some observed) desired)
          r.1
          (delete_gvks out settings parent observed desired gvks r).1
  unfolding delete_gvks
  delete_gvks-Sends observed desired [] r = Sends-none r.1
  delete_gvks-Sends observed desired (gvk ∷ gvks) r =
      let step = delete_gvk out settings parent desired gvk (get_objects_by_gvk gvk observed) r in
      Sends-trans r.1 step.1 (delete_gvks out settings parent observed desired gvks step).1
        (delete_gvk-Sends (some observed) desired gvk (get_objects_by_gvk gvk observed) r refl)
        (delete_gvks-Sends observed desired gvks step)

  update_gvks-Sends :
      (observed : Option (ObjectMap Object)) (desired : ObjectMap Object) (gvks : List Gvk)
      (r : Run)
      → Sends
          (Justified out settings parent observed (some desired))
          r.1
          (update_gvks out settings parent observed desired gvks r).1
  unfolding update_gvks
  update_gvks-Sends observed desired [] r = Sends-none r.1
  update_gvks-Sends observed desired (gvk ∷ gvks) r =
      let step = update_gvk out settings parent observed gvk (get_objects_by_gvk gvk desired) r in
      Sends-trans r.1 step.1 (update_gvks out settings parent observed desired gvks step).1
        (update_gvk-Sends observed (some desired) gvk (get_objects_by_gvk gvk desired) r refl)
        (update_gvks-Sends observed desired gvks step)

  delete_undesired-Sends :
      (observed desired : Option (ObjectMap Object)) (r : Run)
      → Sends
          (Justified out settings parent observed desired)
          r.1
          (delete_undesired out settings parent observed desired r).1
  unfolding delete_undesired
  delete_undesired-Sends none desired r = Sends-none r.1
  delete_undesired-Sends (some observed) desired r =
      delete_gvks-Sends observed desired (get_all_gvks settings.sort observed) r

  apply_desired-Sends :
      (observed desired : Option (ObjectMap Object)) (r : Run)
      → Sends
          (Justified out settings parent observed desired)
          r.1
          (apply_desired out settings parent observed desired r).1
  unfolding apply_desired
  apply_desired-Sends observed none r = Sends-none r.1
  apply_desired-Sends observed (some desired) r =
      update_gvks-Sends observed desired (get_all_gvks settings.sort desired) r

  -- Whatever the API server answers and whatever errors are met, managing children asks only for
  -- what is justified by the observed and the desired ones: the deletion of an observed child that
  -- is neither being deleted nor desired, or what the applier of the strategy may ask for a desired
  -- child, given the observed child of its kind and name: always through the client of that kind, and
  -- at the desired child's own namespace and name.
  pub manage_children-Sends :
      (observed desired : Option (ObjectMap Object)) (w : World)
      → Sends
          (Justified out settings parent observed desired)
          w
          (manage_children out settings parent observed desired w).1
  unfolding manage_children
  manage_children-Sends observed desired w =
      let step = delete_undesired out settings parent observed desired ([], w) in
      Sends-trans w step.1 (apply_desired out settings parent observed desired step).1
        (delete_undesired-Sends observed desired ([], w))
        (apply_desired-Sends observed desired step)
