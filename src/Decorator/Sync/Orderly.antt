-- ===== src/Decorator/Sync/Orderly.antt =====
-- Every sync of a decorated parent is orderly.
use metacontroller.Prelude.{
  true, false, not, Option, none, some, [], ◌∷◌, Result, ok, err, ◌≡◌, refl, Bool-cases, inl, inr,
  arith, if-elim, ltb, All, All-append,
}
use metacontroller.ObjectMap.{ObjectMap, make_object_map, qualified_name}
use metacontroller.Composite.Queue.{SyncError}
use metacontroller.Decorator.Sync.{
  syncs_finalizer, asks_related, calls_hook, resyncs_after, SyncResult, Parts, Acts, act, ignored,
  after_delay, after_hook, after_related, after_children, after_finalizer, sync_parent_object,
}
use metacontroller.Decorator.Sync.Stages.{
  Synced, Answered, Accepted, Orderly, nothing, and_then, widen, Ends,
}
use metacontroller.Decorator.Sync.Updating.{RunEnds, MarksRead, decorate-Ends}

module _ {Obj Related Status : Type 0} (p : Parts Obj Related Status) (start : Obj) where
  after_delay-Ends :
      (parent : Obj) (observed : ObjectMap Obj) (result : SyncResult Obj Status)
      (status : Option Status) (acts : Acts p)
      → MarksRead p start
      → Synced p start parent observed
      → Answered p start parent result
      → p.status_of parent ≡ status
      → Orderly p start 4 acts
      → All (Accepted p start) acts
      → RunEnds p start (after_delay p parent observed result status acts)
  unfolding after_delay
  after_delay-Ends parent observed result none acts law listed answered h o a =
      inl (widen p start 4 6 acts (omega arith) o)
  after_delay-Ends parent observed result (some status) acts law listed answered h o a =
      decorate-Ends p start parent observed
        (make_object_map p.acc (qualified_name p.acc) parent result.attachments) result status acts
        law listed answered h o a

  after_hook-Ends :
      (parent : Obj) (observed : ObjectMap Obj) (related : Related)
      (result : Result SyncError (SyncResult Obj Status)) (acts : Acts p)
      → MarksRead p start
      → Synced p start parent observed
      → p.related parent ≡ ok related
      → p.call_hook parent observed related ≡ result
      → Orderly p start 3 acts
      → All (Accepted p start) acts
      → RunEnds p start (after_hook p parent observed result acts)
  unfolding after_hook
  after_hook-Ends parent observed related (err e) acts law listed r h o a =
      inl (widen p start 3 6 acts (omega arith) o)
  after_hook-Ends parent observed related (ok result) acts law listed r h o a =
      let answered : Answered p start parent result = (observed, related, listed, r, h) in
      elim (Bool-cases (ltb 0 result.resync_after)) [
        | inl t ↦ rw t (
            after_delay-Ends parent observed result (p.status_of parent)
              (act p (resyncs_after parent result.resync_after) acts) law listed answered refl
              (and_then 3 4 acts (resyncs_after parent result.resync_after) o (omega arith)
                (omega arith) (ground (arith, t), (result, answered, refl)))
              (All-append (Accepted p start) acts (resyncs_after parent result.resync_after ∷ []) a
                (tt, tt)))
        | inr f ↦ rw f (
            after_delay-Ends parent observed result (p.status_of parent) acts law listed answered
              refl (widen p start 3 4 acts (omega arith) o) a)
      ]

  after_related-Ends :
      (parent : Obj) (observed : ObjectMap Obj) (related : Result SyncError Related) (acts : Acts p)
      → MarksRead p start
      → Synced p start parent observed
      → p.related parent ≡ related
      → Orderly p start 2 acts
      → All (Accepted p start) acts
      → RunEnds p start (after_related p parent observed related acts)
  unfolding after_related
  after_related-Ends parent observed (err e) acts law listed r o a =
      inl (widen p start 2 6 acts (omega arith) o)
  after_related-Ends parent observed (ok related) acts law listed r o a =
      after_hook-Ends parent observed related (p.call_hook parent observed related)
        (act p (calls_hook parent observed related) acts) law listed r refl
        (and_then 2 3 acts (calls_hook parent observed related) o (omega arith) (omega arith)
          (listed, r))
        (All-append (Accepted p start) acts (calls_hook parent observed related ∷ []) a (tt, tt))

  after_children-Ends :
      (parent : Obj) (listed : Result SyncError (ObjectMap Obj)) (acts : Acts p)
      → MarksRead p start
      → ignored p parent ≡ false
      → p.sync_finalizer start ≡ ok parent
      → p.get_children parent ≡ listed
      → Orderly p start 1 acts
      → All (Accepted p start) acts
      → RunEnds p start (after_children p parent listed acts)
  unfolding after_children
  after_children-Ends parent (err e) acts law ours synced c o a =
      inl (widen p start 1 6 acts (omega arith) o)
  after_children-Ends parent (ok observed) acts law ours synced c o a =
      after_related-Ends parent observed (p.related parent) (act p (asks_related parent) acts) law
        (synced, c) refl
        (and_then 1 2 acts (asks_related parent) o (omega arith) (omega arith) (synced, ours))
        (All-append (Accepted p start) acts (asks_related parent ∷ []) a (tt, tt))

  after_finalizer-Ends :
      (updated : Result SyncError Obj) (acts : Acts p)
      → MarksRead p start
      → p.sync_finalizer start ≡ updated
      → Orderly p start 1 acts
      → All (Accepted p start) acts
      → RunEnds p start (after_finalizer p updated acts)
  unfolding after_finalizer
  after_finalizer-Ends (err e) acts law synced o a = inl (widen p start 1 6 acts (omega arith) o)
  after_finalizer-Ends (ok parent) acts law synced o a =
      if-elim (RunEnds p start) (ignored p parent)
        (λ none_of_ours. inl (widen p start 1 6 acts (omega arith) o))
        (λ ours. after_children-Ends parent (p.get_children parent) acts law ours synced refl o a)

  -- Whatever the components answer, a decorator's sync goes through its stages in order, each at most
  -- once. The parent's status and the parent are updated only where the hook's answer for that parent
  -- changes a label, an annotation or the status, or ends its finalization, and what is sent is the
  -- parent with just what was answered. The sync ends before any child is managed, or with that as its
  -- last act once every update of the parent was accepted: for a parent that is alive or to be
  -- finalized, with the observed children as listed, and with all desired ones marked as the
  -- decorator's. A mark that is set is read back.
  pub decorator_sync-Ends :
      ((x : Obj) → p.marked (p.mark x) ≡ true) → Ends p start (sync_parent_object p start).1
  unfolding sync_parent_object
  decorator_sync-Ends law =
      if-elim (RunEnds p start) p.cancelled (λ stop. inl (nothing 6))
        (λ going.
          if-elim (RunEnds p start) (ignored p start) (λ none_of_ours. inl (nothing 6))
            (λ ours.
              if-elim (RunEnds p start) (not (p.has_client start)) (λ none_there. inl (nothing 6))
                (λ there.
                  after_finalizer-Ends (p.sync_finalizer start) (syncs_finalizer start ∷ []) law
                    refl
                    (and_then 0 1 [] (syncs_finalizer start) (nothing 0) (omega arith) (omega arith)
                      (refl, ours))
                    (tt, tt))))
