-- ===== src/Appliers/Children/Kinds.antt =====
-- What the management of one kind of children may ask for.
use mathlib.Core.List.{map}
use metacontroller.Prelude.{
  String, false, Option, none, some, List, [], ◌∷◌, ◌++◌, All, All-map, if-elim, none-is_some,
  or_default, lookup, has, In, string_eq, ◌≡◌, refl, ap, arith, inl, inr,
}
use metacontroller.Json.{Object}
use metacontroller.Names.{Gvk, group_kind, gvk_eq}
use metacontroller.ObjectMap.{Named, ObjectMap}
use metacontroller.Manage.{Deletion, deletion_of}
use metacontroller.Manage.Deletions.{doomed, deletions, delete_children-requests}
use metacontroller.Appliers.{Outside, World, Outcome, Request, deleting, to_method}
use metacontroller.Appliers.Sends.{Sends, Sends-none, Sends-trans, Sends-map}
use metacontroller.Appliers.Dynamic.Permitted.{Permitted, dynamic_apply-Sends}
use metacontroller.Appliers.ServerSide.{prepared}
use metacontroller.Appliers.ServerSide.Permitted.{
  Alive, Sendable, Due-Alive, server_side_apply-Sends,
}
use metacontroller.Appliers.Children.{
  Applier, dynamic, server_side, new_applier, Run, Settings, client_of, add_error, apply_one,
  update_all, deletion_answer, after_deletions, delete_kind, objects_at,
}

module _ (out : Outside) (settings : Settings) (parent : Object) where
  -- What an applier may ask for one child: the server-side one sends the text of the prepared object
  -- for an observed child that is not being deleted, or for one that is not observed.
  abbrev pub Fits : Applier → Gvk → Option Object → Object → Request → Type 0
  Fits dynamic gvk observed desired r =
      Permitted out (client_of gvk) (to_method (settings.get_method (group_kind gvk))) parent
        observed desired r
  Fits server_side gvk observed desired r =
      let client = client_of gvk in
      let method = to_method (settings.get_method (group_kind gvk)) in
      let sent = prepared out client method parent desired in
      (text : String) × (out.codec.marshal sent ≡ some text)
      × Alive out client sent text method observed
      × Sendable out client sent text method observed r

  module _ (observed desired : Option (ObjectMap Object)) where
    -- A deletion is of an observed child that is not being deleted and not desired; anything else is
    -- what the applier may ask for one desired child, given the observed one of its name.
    pub data Justified (r : Request) : Type 0 where
      by_deletion :
          (gvk : Gvk) (group : Named Object) (name : String) (o : Object)
          → objects_at out settings parent gvk observed ≡ some group
          → In (name, o) group
          → out.acc.deletion_timestamp o ≡ none
          → has name (or_default [] (objects_at out settings parent gvk desired)) ≡ false
          → r ≡ deleting (client_of gvk) (deletion_of out.acc (client_of gvk) o)
          → Justified r
      by_apply :
          (gvk : Gvk) (group : Named Object) (name : String) (o : Object) (applier : Applier)
          → objects_at out settings parent gvk desired ≡ some group
          → In (name, o) group
          → new_applier settings.strategy ≡ some applier
          → Fits applier gvk
              (lookup name (or_default [] (objects_at out settings parent gvk observed)))
              o
              r
          → Justified r

    apply_one-Sends :
        (applier : Applier) (gvk : Gvk) (seen : Option Object) (o : Object) (w : World)
        → Sends (Fits applier gvk seen o) w (apply_one out settings parent applier gvk seen o w).1
    unfolding apply_one
    apply_one-Sends dynamic gvk seen o w =
        dynamic_apply-Sends out (client_of gvk) (to_method (settings.get_method (group_kind gvk)))
          parent seen o w
    apply_one-Sends server_side gvk seen o w =
        let m = to_method (settings.get_method (group_kind gvk)) in
        let s = server_side_apply-Sends out (client_of gvk) m parent seen o w in
        (
          s.0,
          s.1,
          All-map s.0
              (λ r p. (
                p.0,
                p.1,
                Due-Alive out (client_of gvk) (prepared out (client_of gvk) m parent o) p.0 m w seen
                    p.2.1,
                p.2.0,
              ))
              s.2,
        )

    add_error-Sends :
        (r : Run) (o : Outcome) → Sends Justified r.1 o.1 → Sends Justified r.1 (add_error r o).1
    add_error-Sends (errors, w) (none, w') s = s
    add_error-Sends (errors, w) (some e, w') s = s

    module _ (gvk : Gvk) (group : Named Object) where
      abbrev Within : Named Object → Type 0
      Within suffix = (name : String) (o : Object) → In (name, o) suffix → In (name, o) group

      pub update_all-Sends :
          (applier : Applier)
          → objects_at out settings parent gvk desired ≡ some group
          → new_applier settings.strategy ≡ some applier
          → (suffix : Named Object) (r : Run) → Within suffix
          → Sends Justified r.1
              (update_all out settings parent applier gvk
                (or_default [] (objects_at out settings parent gvk observed))
                suffix
                r).1
      unfolding update_all
      update_all-Sends applier e a [] r within = Sends-none r.1
      update_all-Sends applier e a ((name, o) ∷ suffix) r within =
          let seen = lookup name (or_default [] (objects_at out settings parent gvk observed)) in
          let done = apply_one out settings parent applier gvk seen o r.1 in
          let later =
            update_all out settings parent applier gvk
              (or_default [] (objects_at out settings parent gvk observed)) suffix
              (add_error r done) in
          Sends-trans r.1 (add_error r done).1 later.1
            (add_error-Sends r done (
              Sends-map (λ q p. by_apply gvk group name o applier e (within name o (inl refl)) a p)
                r.1 done.1 (apply_one-Sends applier gvk seen o r.1)))
            (update_all-Sends applier e a suffix (add_error r done) (λ n x i. within n x (inr i)))

      deletions-Justified :
          (suffix : Named Object)
          → objects_at out settings parent gvk observed ≡ some group
          → Within suffix
          → All Justified (
              map (deleting (client_of gvk)) (
                deletions out.acc
                  (client_of gvk)
                  (deletion_answer out settings parent (client_of gvk))
                  (objects_at out settings parent gvk desired)
                  suffix))
      unfolding deletions
      deletions-Justified [] e within = tt
      deletions-Justified ((name, o) ∷ suffix) e within =
          let rest = deletions-Justified suffix e (λ n x i. within n x (inr i)) in
          let later =
            deletions out.acc (client_of gvk) (deletion_answer out settings parent (client_of gvk))
              (objects_at out settings parent gvk desired) suffix in
          if-elim (λ (ds : List Deletion). All Justified (map (deleting (client_of gvk)) ds))
            (doomed out.acc (client_of gvk) (deletion_answer out settings parent (client_of gvk))
              (objects_at out settings parent gvk desired) (name, o))
            (λ d. (
              by_deletion gvk group name o e (within name o (inl refl))
                  (none-is_some (out.acc.deletion_timestamp o) (ground (arith, d)))
                  (ground (arith, d)) refl,
              rest,
            ))
            (λ _. rest)

      pub delete_kind-Sends :
          (r : Run)
          → objects_at out settings parent gvk observed ≡ some group
          → Sends Justified r.1
              (delete_kind out settings parent gvk group
                (objects_at out settings parent gvk desired)
                r).1
      unfolding delete_kind after_deletions
      delete_kind-Sends r e =
          let ds =
            deletions out.acc (client_of gvk) (deletion_answer out settings parent (client_of gvk))
              (objects_at out settings parent gvk desired) group in
          (
            map (deleting (client_of gvk)) ds,
            ap (λ (q : List Deletion). r.1.requests ++ map (deleting (client_of gvk)) q)
                (delete_children-requests out.acc (client_of gvk)
                  (deletion_answer out settings parent (client_of gvk))
                  (objects_at out settings parent gvk desired) group
                  (record { requests = []; errors = []; cache = r.1.cache })),
            deletions-Justified group e (λ n x i. i),
          )
