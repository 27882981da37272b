-- ===== src/Decorator/Sync/Stages.antt =====
-- The order of what a decorator's sync does, and what justifies each act.
use metacontroller.Prelude.{
  ℕ, ◌≤◌, ◌<◌, String, true, false, not, Option, some, or_default, if◌then◌else◌, ◌||◌, [], ◌∷◌,
  ◌++◌, ok, ◌≡◌, ◌⊎◌, arith, if-elim, is_some, All,
}
use metacontroller.Names.{Gvk}
use metacontroller.ObjectMap.{Named, ObjectMap}
use metacontroller.Decorator.Strings.{update_string_map}
use metacontroller.Decorator.Sync.{
  Act, syncs_finalizer, asks_related, calls_hook, resyncs_after, updates_status, updates_parent,
  manages, SyncResult, Parts, Acts, ignored, mark_child, mark_group, mark_all,
}

-- The place of an act.
abbrev pub stage : {Obj Related : Type 0} → Act Obj Related → ℕ
stage (syncs_finalizer parent) = 0
stage (asks_related parent) = 1
stage (calls_hook parent observed related) = 2
stage (resyncs_after parent delay) = 3
stage (updates_status o) = 4
stage (updates_parent o) = 5
stage (manages parent observed desired) = 6

module _ {Obj Related Status : Type 0} (p : Parts Obj Related Status) (start : Obj) where
  abbrev pub AllMarked : ObjectMap Obj → Type 0
  AllMarked m =
      All
        (λ (entry : Gvk × Named Obj).
          All (λ (named : String × Obj). p.marked named.1 ≡ true) entry.1)
        m

  -- The parent with its finalizer synced, and its children as they are listed.
  abbrev pub Synced : Obj → ObjectMap Obj → Type 0
  Synced parent observed =
      (p.sync_finalizer start ≡ ok parent) × (p.get_children parent ≡ ok observed)

  -- What the hook has answered for the parent, its listed children and its related objects.
  abbrev pub Answered : Obj → SyncResult Obj Status → Type 0
  Answered parent result =
      (observed : ObjectMap Obj) × (related : Related) × Synced parent observed
      × (p.related parent ≡ ok related)
      × (p.call_hook parent observed related ≡ ok result)

  -- The answer changes a label, an annotation or the status, or it ends the finalization.
  abbrev pub Changing : Obj → SyncResult Obj Status → Status → Type 0
  Changing parent result status =
      ((update_string_map (p.labels parent) result.labels).1 ≡ true)
      ⊎ (((update_string_map (p.annotations parent) result.annotations).1 ≡ true)
          ⊎ ((p.same_status status (or_default status result.status) ≡ false)
              ⊎ ((result.finalized ≡ true) × (p.has_finalizer parent ≡ true))))

  -- The parent with the labels, annotations and status of the answer.
  abbrev pub decorated : Obj → SyncResult Obj Status → Status → Option Obj
  decorated parent result status =
      p.set_status
        (p.set_annotations
          (p.set_labels parent (update_string_map (p.labels parent) result.labels).0)
          (update_string_map (p.annotations parent) result.annotations).0)
        (or_default status result.status)

  -- What an update of the parent rests on: the parent, the answer that changes it, and its status so far.
  abbrev pub Basis : Obj → SyncResult Obj Status → Status → Type 0
  Basis parent result status =
      Answered parent result × (p.status_of parent ≡ some status) × Changing parent result status

  -- The decorated parent, at the version that the API server has answered for its status.
  abbrev pub IsSent : Obj → SyncResult Obj Status → Status → Obj → Type 0
  IsSent parent result status o =
      (decorated parent result status ≡ some o)
      ⊎ ((updated stored : Obj) × (decorated parent result status ≡ some updated)
          × (p.update_status updated ≡ ok stored)
          × (o ≡ p.set_resource_version updated (p.acc.resource_version stored)))

  -- What an act rests on: the parent is one that the decorator selects or has its finalizer on; the
  -- delay is the one that was answered; the parent and its status are written only where the answer for
  -- it changes something, with what is answered; and children are managed only for a parent that is
  -- alive or is to be finalized, with the observed ones as listed and the desired ones all marked.
  abbrev pub Justified : Act Obj Related → Type 0
  Justified (syncs_finalizer parent) = (parent ≡ start) × (ignored p parent ≡ false)
  Justified (asks_related parent) =
      (p.sync_finalizer start ≡ ok parent) × (ignored p parent ≡ false)
  Justified (calls_hook parent observed related) =
      Synced parent observed × (p.related parent ≡ ok related)
  Justified (resyncs_after parent delay) =
      (0 < delay)
      × ((result : SyncResult Obj Status) × Answered parent result × (delay ≡ result.resync_after))
  Justified (updates_status o) =
      (parent : Obj) × (result : SyncResult Obj Status) × (status : Status) × Basis parent result
        status
      × (decorated parent result status ≡ some o)
      × (p.same_status status (or_default status result.status) ≡ false)
      × (p.has_status_subresource ≡ true)
  Justified (updates_parent o) =
      (parent : Obj) × (result : SyncResult Obj Status) × (status : Status) × (sent : Obj) × Basis
        parent result status
      × IsSent parent result status sent
      × (o ≡ (if result.finalized then p.remove_finalizer sent else sent))
  Justified (manages parent observed desired) =
      (not (is_some (p.acc.deletion_timestamp parent)) || p.should_finalize parent ≡ true)
      × Synced parent observed
      × AllMarked desired

  -- The API server has accepted an update.
  abbrev pub Accepted : Act Obj Related → Type 0
  Accepted (updates_status o) = (stored : Obj) × (p.update_status o ≡ ok stored)
  Accepted (updates_parent o) = (stored : Obj) × (p.update o ≡ ok stored)
  Accepted _ = Unit

  -- Justified acts of increasing stages, all below a bound.
  pub data Orderly : ℕ → Acts p → Type 0 where
    nothing : (n : ℕ) → Orderly n []
    and_then :
        (n m : ℕ) (acts : Acts p) (a : Act Obj Related)
        → Orderly n acts
        → n ≤ stage a
        → stage a < m
        → Justified a
        → Orderly m (acts ++ (a ∷ []))

  pub widen : (n m : ℕ) (acts : Acts p) → n ≤ m → Orderly n acts → Orderly m acts
  widen n m _ le (nothing _) = nothing m
  widen n m _ le (and_then k _ acts a o lower upper j) =
      and_then k m acts a o lower (omega (arith, le, upper)) j

  -- How a sync ends: before any child is managed, or with that as its last act, after all updates of the
  -- parent have been accepted.
  abbrev pub Ends : Acts p → Type 0
  Ends acts =
      Orderly 6 acts
      ⊎ ((before : Acts p) × (parent : Obj) × (observed desired : ObjectMap Obj) × (acts
            ≡ before ++ (manages parent observed desired ∷ []))
          × Orderly 7 acts
          × All Accepted before)

  mark_child-marked :
      (o : Obj) → ((x : Obj) → p.marked (p.mark x) ≡ true) → p.marked (mark_child p o) ≡ true
  unfolding mark_child
  mark_child-marked o law =
      if-elim (λ (x : Obj). p.marked x ≡ true) (p.marked o) (λ t. t) (λ f. law o)

  mark_group-marked :
      (group : Named Obj)
      → ((x : Obj) → p.marked (p.mark x) ≡ true)
      → All (λ (named : String × Obj). p.marked named.1 ≡ true) (mark_group p group)
  unfolding mark_group
  mark_group-marked [] law = tt
  mark_group-marked ((name, o) ∷ group) law = (mark_child-marked o law, mark_group-marked group law)

  pub mark_all-AllMarked :
      (m : ObjectMap Obj) → ((x : Obj) → p.marked (p.mark x) ≡ true) → AllMarked (mark_all p m)
  unfolding mark_all
  mark_all-AllMarked [] law = tt
  mark_all-AllMarked ((gvk, group) ∷ m) law =
      (mark_group-marked group law, mark_all-AllMarked m law)
