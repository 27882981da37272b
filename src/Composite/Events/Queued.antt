-- ===== src/Composite/Events/Queued.antt =====
-- Which parents the events of children queue.
use metacontroller.Prelude.{
  String, Bool, true, false, not, ◌||◌, ◌&&◌, Option, none, some, List, [], ◌∷◌, ◌==◌, string_eq,
  if◌then◌else◌, is_some, ◌≡◌, refl, In, In-append_left, In-append_right, All, All-append, select,
  select_iff, if-elim, Option-cases, Bool-cases, inl, inr, ◌⊎◌, arith, none-is_some,
}
use metacontroller.Names.{parse_api_version}
use metacontroller.Objects.{OwnerReference}
use metacontroller.Composite.Queue.{QueueCall, add, Log, enqueue_parent_object}
use metacontroller.Composite.Events.{
  Watch, object, tombstone, enqueue, enqueue_all, accept_parent, resolve_controller_ref, may_adopt,
  matching_parents, listed_for, find_potential_parents, enqueue_resolved, on_object_deleted,
  on_child_delete, on_child_add, on_child_update,
}

module _ {Obj : Type 0} (w : Watch Obj) where
  -- A parent that a controller cares about: it is selected, or has the controller's finalizer.
  abbrev pub ours : Obj → Bool
  ours parent = w.has_finalizer parent || w.selected parent

  -- What makes a parent one for a child: it controls the child by its UID, or may adopt it.
  abbrev pub Because : Obj → Obj → Type 0
  Because child parent =
      ((ref : OwnerReference) × (w.controller_of child ≡ some ref) × (w.acc.uid parent ≡ ref.uid))
      ⊎ ((w.controller_of child ≡ none)
          × (w.acc.deletion_timestamp child ≡ none)
          × (may_adopt w (w.labels child) parent ≡ true))

  -- Why a call of the queue is made for a child: it adds the key of a parent of ours that controls the
  -- child by its UID, or that may adopt it.
  abbrev pub Wanted : Obj → QueueCall → Type 0
  Wanted child call =
      (parent : Obj) × (key : String) × (call ≡ add key)
      × (w.out.key_func parent ≡ some key)
      × (ours parent ≡ true)
      × Because child parent

  accept_parent-uid :
      (ref : OwnerReference) (found : Option Obj) (parent : Obj)
      → accept_parent w ref found ≡ some parent
      → w.acc.uid parent ≡ ref.uid
  unfolding accept_parent
  accept_parent-uid ref none parent h = cc
  accept_parent-uid ref (some q) parent h = elim (Bool-cases (w.acc.uid q == ref.uid)) [
    | inr f ↦ cc (rw (accept_parent, f) at h)
    | inl t ↦ elim (Bool-cases (not (w.has_finalizer q) && not (w.selected q))) [
      | inl g ↦ cc (rw (accept_parent, t, g) at h)
      | inr g ↦
          let same : q ≡ parent = cc (rw (accept_parent, t, g) at h) in
          rw (← same) ((string_eq.same_iff (w.acc.uid q) ref.uid).0 t)
    ]
  ]

  resolve_controller_ref-uid :
      (namespace : String) (ref : OwnerReference) (parent : Obj)
      → resolve_controller_ref w namespace ref ≡ some parent
      → w.acc.uid parent ≡ ref.uid
  unfolding resolve_controller_ref
  resolve_controller_ref-uid namespace ref parent h =
      elim (Bool-cases ((parse_api_version ref.api_version).0 == w.group)) [
        | inr f ↦ cc (rw (resolve_controller_ref, f) at h)
        | inl t ↦ elim (Bool-cases (ref.kind == w.kind)) [
          | inr f ↦ cc (rw (resolve_controller_ref, t, f) at h)
          | inl u ↦
              accept_parent-uid ref (w.get_parent (if w.namespaced then namespace else "") ref.name)
                parent (rw (resolve_controller_ref, t, u) at h)
        ]
      ]

  find_potential_parents-adopts :
      (child parent : Obj)
      → In parent (find_potential_parents w child)
      → may_adopt w (w.labels child) parent ≡ true
  unfolding find_potential_parents matching_parents
  find_potential_parents-adopts child parent m = elim (Option-cases (listed_for w child)) [
    | inl e ↦ absurd (rw (find_potential_parents, e) at m)
    | inr (parents, e) ↦
        ((select_iff (may_adopt w (w.labels child)) parent parents).0
          (rw (find_potential_parents, e) at m)).1
  ]

module _ {Obj Act : Type 0} (w : Watch Obj) where
  enqueue-kept :
      (parent : Obj) (call : QueueCall) (log : Log Obj Act)
      → In call log.calls
      → In call (enqueue w parent log).calls
  unfolding enqueue_parent_object
  enqueue-kept parent call log m =
      if-elim (λ (l : Log Obj Act). In call l.calls)
        (not (w.has_finalizer parent) && not (w.selected parent)) (λ t. m)
        (λ f. elim (Option-cases (w.out.key_func parent)) [
          | inl e ↦ rw e m
          | inr (key, e) ↦ rw e (In-append_left call log.calls (add key ∷ []) m)
        ])

  enqueue-In :
      (parent : Obj) (key : String) (log : Log Obj Act)
      → ours w parent ≡ true
      → w.out.key_func parent ≡ some key
      → In (add key) (enqueue w parent log).calls
  unfolding enqueue_parent_object
  enqueue-In parent key log own e =
      if-elim (λ (l : Log Obj Act). In (add key) l.calls)
        (not (w.has_finalizer parent) && not (w.selected parent))
        (λ t. absurd (ground (arith, t, own)))
        (λ f. rw e (In-append_right (add key) log.calls (add key ∷ []) (inl refl)))

  enqueue_all-kept :
      (parents : List Obj) (call : QueueCall) (log : Log Obj Act)
      → In call log.calls
      → In call (enqueue_all w parents log).calls
  unfolding enqueue_all
  enqueue_all-kept [] call log m = m
  enqueue_all-kept (p ∷ parents) call log m =
      enqueue_all-kept parents call (enqueue w p log) (enqueue-kept p call log m)

  enqueue_all-In :
      (parents : List Obj) (parent : Obj) (key : String) (log : Log Obj Act)
      → In parent parents
      → ours w parent ≡ true
      → w.out.key_func parent ≡ some key
      → In (add key) (enqueue_all w parents log).calls
  unfolding enqueue_all
  enqueue_all-In [] parent key log m own e = absurd m
  enqueue_all-In (p ∷ parents) parent key log (inl same) own e =
      enqueue_all-kept parents (add key) (enqueue w p log)
        (enqueue-In p key log (rw same own) (rw same e))
  enqueue_all-In (p ∷ parents) parent key log (inr m) own e =
      enqueue_all-In parents parent key (enqueue w p log) m own e

  -- When a child without a controller is seen that is not being deleted, every listed parent of ours
  -- that may adopt it, and that has a key, is queued.
  pub on_child_add-orphan :
      (child parent : Obj) (parents : List Obj) (key : String) (log : Log Obj Act)
      → w.acc.deletion_timestamp child ≡ none
      → w.controller_of child ≡ none
      → listed_for w child ≡ some parents
      → In parent parents
      → may_adopt w (w.labels child) parent ≡ true
      → ours w parent ≡ true
      → w.out.key_func parent ≡ some key
      → In (add key) (on_child_add w child log).calls
  unfolding on_child_add find_potential_parents matching_parents
  on_child_add-orphan child parent parents key log there orphan listed m adopts own e =
      rw (on_child_add, there, orphan, find_potential_parents, listed)
        (enqueue_all-In (select (may_adopt w (w.labels child)) parents) parent key log
          ((select_iff (may_adopt w (w.labels child)) parent parents).1 (m, adopts)) own e)

  abbrev AllWanted : Obj → Log Obj Act → Type 0
  AllWanted child log = All (Wanted w child) log.calls

  enqueue-Wanted :
      (child parent : Obj) (log : Log Obj Act)
      → Because w child parent
      → AllWanted child log
      → AllWanted child (enqueue w parent log)
  unfolding enqueue_parent_object
  enqueue-Wanted child parent log reason h =
      if-elim (AllWanted child) (not (w.has_finalizer parent) && not (w.selected parent)) (λ t. h)
        (λ f. elim (Option-cases (w.out.key_func parent)) [
          | inl e ↦ rw e h
          | inr (key, e) ↦ rw e (
              All-append (Wanted w child) log.calls (add key ∷ []) h
                ((parent, key, refl, e, ground (arith, f), reason), tt))
        ])

  enqueue_all-Wanted :
      (child : Obj) (parents : List Obj) (log : Log Obj Act)
      → ((parent : Obj) → In parent parents → Because w child parent)
      → AllWanted child log
      → AllWanted child (enqueue_all w parents log)
  unfolding enqueue_all
  enqueue_all-Wanted child [] log reason h = h
  enqueue_all-Wanted child (p ∷ parents) log reason h =
      enqueue_all-Wanted child parents (enqueue w p log) (λ q m. reason q (inr m))
        (enqueue-Wanted child p log (reason p (inl refl)) h)

  enqueue_resolved-Wanted :
      (child : Obj) (ref : OwnerReference) (log : Log Obj Act) (found : Option Obj)
      → w.controller_of child ≡ some ref
      → resolve_controller_ref w (w.acc.namespace child) ref ≡ found
      → AllWanted child log
      → AllWanted child (enqueue_resolved w found log)
  unfolding enqueue_resolved
  enqueue_resolved-Wanted child ref log none c e h = h
  enqueue_resolved-Wanted child ref log (some parent) c e h =
      enqueue-Wanted child parent log
        (inl (ref, c, resolve_controller_ref-uid w (w.acc.namespace child) ref parent e)) h

  on_object_deleted-Wanted :
      (child : Obj) (log : Log Obj Act)
      → AllWanted child log
      → AllWanted child (on_object_deleted w child log)
  unfolding on_object_deleted
  on_object_deleted-Wanted child log h = elim (Option-cases (w.controller_of child)) [
    | inl e ↦ rw (on_object_deleted, e) h
    | inr (ref, e) ↦ rw (on_object_deleted, e) (enqueue_resolved-Wanted child ref log _ e refl h)
  ]

  -- Whatever is cached: when a child is added, or is seen as being deleted, the queue is given only keys
  -- of parents of ours that control the child by its UID or, where it has no controller and is not being
  -- deleted, that may adopt it.
  pub on_child_add-Wanted :
      (child : Obj) (log : Log Obj Act)
      → AllWanted child log
      → AllWanted child (on_child_add w child log)
  unfolding on_child_add on_child_delete
  on_child_add-Wanted child log h =
      if-elim (AllWanted child) (is_some (w.acc.deletion_timestamp child))
        (λ pending. on_object_deleted-Wanted child log h)
        (λ there. elim (Option-cases (w.controller_of child)) [
          | inr (ref, e) ↦ rw e (enqueue_resolved-Wanted child ref log _ e refl h)
          | inl e ↦ rw e (
              enqueue_all-Wanted child (find_potential_parents w child) log
                (λ parent m. inr (
                  e,
                  none-is_some (w.acc.deletion_timestamp child) there,
                  find_potential_parents-adopts w child parent m,
                ))
                h)
        ])

  -- When a controlled child changes, is added or goes away, the parent that its controller reference
  -- resolves to is queued, if it is ours and has a key; an update does so if the resource version has
  -- changed.
  pub child-controlled :
      (old child parent : Obj) (ref : OwnerReference) (key : String) (log : Log Obj Act)
      → w.controller_of child ≡ some ref
      → resolve_controller_ref w (w.acc.namespace child) ref ≡ some parent
      → ours w parent ≡ true
      → w.out.key_func parent ≡ some key
      → (w.acc.resource_version old == w.acc.resource_version child) ≡ false
      → In (add key) (on_child_add w child log).calls
        × In (add key) (on_child_update w old child log).calls
        × In (add key) (on_child_delete w (object child) log).calls
        × In (add key) (on_child_delete w (tombstone (some child)) log).calls
  unfolding on_child_add on_child_update on_child_delete on_object_deleted enqueue_resolved
  child-controlled old child parent ref key log c r own e changed =
      let queued = enqueue-In parent key log own e in
      let deleted : In (add key) (on_object_deleted w child log).calls =
        rw (on_object_deleted, c, r, enqueue_resolved) queued in
      let added : In (add key) (on_child_add w child log).calls =
        if-elim (λ (l : Log Obj Act). In (add key) l.calls)
          (is_some (w.acc.deletion_timestamp child)) (λ pending. deleted)
          (λ there. rw (c, r, enqueue_resolved) queued) in
      (added, rw (on_child_update, changed) added, deleted, deleted)
