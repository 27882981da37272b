-- ===== src/Composite/Sync/Managed.antt =====
-- The labels of the desired children that reach the API server.
use metacontroller.Prelude.{
  String, Bool, true, not, ◌&&◌, some, [], ◌∷◌, string_eq, has, Result, ok, err, ◌≡◌, refl,
  Option-cases, Bool-cases, inl, inr, All,
}
use metacontroller.Names.{Gvk}
use metacontroller.ObjectMap.{Named, ObjectMap}
use metacontroller.Composite.Queue.{SyncError}
use metacontroller.Composite.Sync.{
  Labels, Parts, with_controller_uid, label_child, enforce_child, and_child, enforce_group,
  and_group, enforce_labels,
}

module _ {Obj Related Status : Type 0} (p : Parts Obj Related Status) where
  -- The labels that an object is read back with.
  abbrev pub KeepsLabels : Type 0
  KeepsLabels = (o : Obj) (labels : Labels) → p.labels_of (p.set_labels o labels) ≡ some labels

  abbrev pub Matches : (Labels → Bool) → Obj → Type 0
  Matches selector o = (labels : Labels) × (p.labels_of o ≡ some labels) × (selector labels ≡ true)

  abbrev pub MatchesGroup : (Labels → Bool) → Named Obj → Type 0
  MatchesGroup selector group = All (λ (entry : String × Obj). Matches selector entry.1) group

  abbrev pub MatchesAll : (Labels → Bool) → ObjectMap Obj → Type 0
  MatchesAll selector m = All (λ (entry : Gvk × Named Obj). MatchesGroup selector entry.1) m

  label_child-labels :
      (parent o : Obj) (labels : Labels)
      → KeepsLabels
      → p.labels_of o ≡ some labels
      → p.labels_of (label_child p parent o labels).1 ≡ some (label_child p parent o labels).0
  unfolding label_child
  label_child-labels parent o labels keeps e =
      elim (Bool-cases (p.generate_selector && not (has "controller-uid" labels))) [
        | inl t ↦ rw (label_child, t) (keeps o (with_controller_uid p parent labels))
        | inr f ↦ rw (label_child, f) e
      ]

  enforce_child-Matches :
      (parent : Obj) (selector : Labels → Bool) (o checked : Obj)
      → KeepsLabels
      → enforce_child p parent selector o ≡ ok checked
      → Matches selector checked
  unfolding enforce_child
  enforce_child-Matches parent selector o checked keeps h = elim (Option-cases (p.labels_of o)) [
    | inl e ↦ cc (rw (enforce_child, e) at h)
    | inr (labels, e) ↦ elim (Bool-cases (selector (label_child p parent o labels).0)) [
      | inr f ↦ cc (rw (enforce_child, e, f) at h)
      | inl t ↦
          let same : (label_child p parent o labels).1 ≡ checked =
            cc (rw (enforce_child, e, t) at h) in
          (
            (label_child p parent o labels).0,
            rw (← same) (label_child-labels parent o labels keeps e),
            t,
          )
    ]
  ]

  and_child-ok :
      (name : String) (r : Result SyncError Obj) (rest : Result SyncError (Named Obj))
      (group : Named Obj)
      → and_child p name r rest ≡ ok group
      → (o : Obj) × (others : Named Obj) × (r ≡ ok o)
        × (rest ≡ ok others)
        × (group ≡ (name, o) ∷ others)
  unfolding and_child
  and_child-ok name (err e) rest group h = cc
  and_child-ok name (ok o) (err e) group h = cc
  and_child-ok name (ok o) (ok others) group h = (o, others, refl, refl, cc h)

  enforce_group-Matches :
      (parent : Obj) (selector : Labels → Bool) (group checked : Named Obj)
      → KeepsLabels
      → enforce_group p parent selector group ≡ ok checked
      → MatchesGroup selector checked
  unfolding enforce_group
  enforce_group-Matches parent selector [] checked keeps h =
      let same : [] ≡ checked = cc h in rw (← same) tt
  enforce_group-Matches parent selector ((name, o) ∷ group) checked keeps h =
      let (o', others, e, f, same) =
        and_child-ok name (enforce_child p parent selector o)
          (enforce_group p parent selector group) checked h in
      rw same (
        enforce_child-Matches parent selector o o' keeps e,
        enforce_group-Matches parent selector group others keeps f,
      )

  and_group-ok :
      (gvk : Gvk) (r : Result SyncError (Named Obj)) (rest : Result SyncError (ObjectMap Obj))
      (m : ObjectMap Obj)
      → and_group p gvk r rest ≡ ok m
      → (group : Named Obj) × (others : ObjectMap Obj) × (r ≡ ok group)
        × (rest ≡ ok others)
        × (m ≡ (gvk, group) ∷ others)
  unfolding and_group
  and_group-ok gvk (err e) rest m h = cc
  and_group-ok gvk (ok group) (err e) m h = cc
  and_group-ok gvk (ok group) (ok others) m h = (group, others, refl, refl, cc h)

  -- Desired children that pass the check, with the label that a generated selector wants, all match the
  -- selector by the labels that they are then read with.
  pub enforce_labels-Matches :
      (parent : Obj) (selector : Labels → Bool) (m checked : ObjectMap Obj)
      → KeepsLabels
      → enforce_labels p parent selector m ≡ ok checked
      → MatchesAll selector checked
  unfolding enforce_labels
  enforce_labels-Matches parent selector [] checked keeps h =
      let same : [] ≡ checked = cc h in rw (← same) tt
  enforce_labels-Matches parent selector ((gvk, group) ∷ m) checked keeps h =
      let (group', others, e, f, same) =
        and_group-ok gvk (enforce_group p parent selector group)
          (enforce_labels p parent selector m) checked h in
      rw same (
        enforce_group-Matches parent selector group group' keeps e,
        enforce_labels-Matches parent selector m others keeps f,
      )
