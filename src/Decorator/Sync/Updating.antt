-- ===== src/Decorator/Sync/Updating.antt =====
-- How the updates of a decorated parent end a sync.
use metacontroller.Prelude.{
  true, not, ◌||◌, ◌&&◌, Option, none, some, [], ◌∷◌, Result, ok, err, ◌≡◌, refl, inl, inr, arith,
  if-elim, is_some, All, All-append,
}
use metacontroller.ControllerRef.{
  Reason, not_found, gone, conflict, already_exists, bad_request, forbidden, other,
}
use metacontroller.ObjectMap.{ObjectMap}
use metacontroller.Decorator.Sync.{
  updates_status, updates_parent, manages, SyncResult, Parts, Changes, Acts, Run, act, changed,
  mark_all, reconcile, refused, after_update, finalized_parent, send_update, after_status,
  update_parent, decorate, changes,
}
use metacontroller.Decorator.Sync.Stages.{
  Synced, Answered, Changing, decorated, IsSent, Justified, Accepted, Orderly, and_then, widen,
  Ends, mark_all-AllMarked,
}

module _ {Obj Related Status : Type 0} (p : Parts Obj Related Status) (start : Obj) where
  abbrev pub RunEnds : Run p → Type 0
  RunEnds r = Ends p start r.1

  -- A mark that is set is read back.
  abbrev pub MarksRead : Type 0
  MarksRead = (x : Obj) → p.marked (p.mark x) ≡ true

  -- The flags of the changes say what is changed.
  changed-Changing :
      (parent : Obj) (result : SyncResult Obj Status) (status : Status)
      → changed p parent (changes p parent result status) ≡ true
      → Changing p start parent result status
  unfolding changes
  changed-Changing parent result status h = ground (arith, h)

  reconcile-Ends :
      (parent : Obj) (observed desired : ObjectMap Obj) (acts : Acts p)
      → MarksRead
      → Synced p start parent observed
      → Orderly p start 6 acts
      → All (Accepted p start) acts
      → RunEnds (reconcile p parent observed desired acts)
  unfolding reconcile
  reconcile-Ends parent observed desired acts law c o a =
      if-elim RunEnds (not (is_some (p.acc.deletion_timestamp parent)) || p.should_finalize parent)
        (λ alive. inr (
          acts,
          parent,
          observed,
          mark_all p desired,
          refl,
          and_then 6 7 acts (manages parent observed (mark_all p desired)) o (omega arith)
              (omega arith) (alive, c, mark_all-AllMarked p start desired law),
          a,
        ))
        (λ dead. inl o)

  refused-Ends : (e : Reason) (acts : Acts p) → Orderly p start 6 acts → RunEnds (refused p e acts)
  unfolding refused
  refused-Ends not_found acts o = inl o
  refused-Ends conflict acts o = inl o
  refused-Ends gone acts o = inl o
  refused-Ends already_exists acts o = inl o
  refused-Ends bad_request acts o = inl o
  refused-Ends forbidden acts o = inl o
  refused-Ends other acts o = inl o

  after_update-Ends :
      (parent : Obj) (observed desired : ObjectMap Obj) (answer : Result Reason Obj) (acts : Acts p)
      → MarksRead
      → Synced p start parent observed
      → Orderly p start 6 acts
      → ((o : Obj) → answer ≡ ok o → All (Accepted p start) acts)
      → RunEnds (after_update p parent observed desired answer acts)
  unfolding after_update
  after_update-Ends parent observed desired (err e) acts law c o a = refused-Ends e acts o
  after_update-Ends parent observed desired (ok stored) acts law c o a =
      reconcile-Ends parent observed desired acts law c o (a stored refl)

  send_update-Ends :
      (parent : Obj) (observed desired : ObjectMap Obj) (c : Changes Status) (updated : Obj)
      (acts : Acts p)
      → MarksRead
      → Synced p start parent observed
      → Justified p start (updates_parent (finalized_parent p c updated))
      → Orderly p start 5 acts
      → All (Accepted p start) acts
      → RunEnds (send_update p parent observed desired c updated acts)
  unfolding send_update
  send_update-Ends parent observed desired c updated acts law listed j o a =
      let sent = finalized_parent p c updated in
      after_update-Ends parent observed desired (p.update sent) (act p (updates_parent sent) acts)
        law listed (and_then 5 6 acts (updates_parent sent) o (omega arith) (omega arith) j)
        (λ stored e.
          All-append (Accepted p start) acts (updates_parent sent ∷ []) a ((stored, e), tt))

  -- What an update is sent for: the answer, and the flags of what it changes.
  abbrev Due : Obj → SyncResult Obj Status → Status → Type 0
  Due parent result status =
      Answered p start parent result
      × (p.status_of parent ≡ some status)
      × (changed p parent (changes p parent result status) ≡ true)

  sent-Justified :
      (parent : Obj) (result : SyncResult Obj Status) (status : Status) (sent : Obj)
      → Due parent result status
      → IsSent p start parent result status sent
      → Justified p start
          (updates_parent (finalized_parent p (changes p parent result status) sent))
  unfolding changes
  sent-Justified parent result status sent due s = (
    parent,
    result,
    status,
    sent,
    (due.0, due.1, changed-Changing parent result status due.2),
    s,
    refl,
  )

  after_status-Ends :
      (parent : Obj) (observed desired : ObjectMap Obj) (result : SyncResult Obj Status)
      (status : Status) (updated : Obj) (answer : Result Reason Obj) (acts : Acts p)
      → MarksRead
      → Synced p start parent observed
      → Due parent result status
      → decorated p start parent result status ≡ some updated
      → p.update_status updated ≡ answer
      → Orderly p start 5 acts
      → ((o : Obj) → answer ≡ ok o → All (Accepted p start) acts)
      → RunEnds (
          after_status p parent observed desired
            (changes p parent result status)
            updated
            answer
            acts)
  unfolding after_status
  after_status-Ends parent observed desired result status updated (err e) acts law listed due d h o
        a =
      refused-Ends e acts (widen p start 5 6 acts (omega arith) o)
  after_status-Ends parent observed desired result status updated (ok stored) acts law listed due d
        h o a =
      let sent = p.set_resource_version updated (p.acc.resource_version stored) in
      send_update-Ends parent observed desired (changes p parent result status) sent acts law listed
        (sent-Justified parent result status sent due (inr (updated, stored, d, h, refl))) o
        (a stored refl)

  status-Justified :
      (parent : Obj) (result : SyncResult Obj Status) (status : Status) (updated : Obj)
      → Due parent result status
      → decorated p start parent result status ≡ some updated
      → (changes p parent result status).status_changed && p.has_status_subresource ≡ true
      → Justified p start (updates_status updated)
  unfolding changes
  status-Justified parent result status updated due d t = (
    parent,
    result,
    status,
    (due.0, due.1, changed-Changing parent result status due.2),
    d,
    ground (arith, t),
    ground (arith, t),
  )

  update_parent-Ends :
      (parent : Obj) (observed desired : ObjectMap Obj) (result : SyncResult Obj Status)
      (status : Status) (updated : Option Obj) (acts : Acts p)
      → MarksRead
      → Synced p start parent observed
      → Due parent result status
      → decorated p start parent result status ≡ updated
      → Orderly p start 4 acts
      → All (Accepted p start) acts
      → RunEnds
          (update_parent p parent observed desired (changes p parent result status) updated acts)
  unfolding update_parent
  update_parent-Ends parent observed desired result status none acts law listed due d o a =
      inl (widen p start 4 6 acts (omega arith) o)
  update_parent-Ends parent observed desired result status (some updated) acts law listed due d o
        a =
      let c = changes p parent result status in
      if-elim RunEnds (c.status_changed && p.has_status_subresource)
        (λ t.
          after_status-Ends parent observed desired result status updated (p.update_status updated)
            (act p (updates_status updated) acts) law listed due d refl
            (and_then 4 5 acts (updates_status updated) o (omega arith) (omega arith)
              (status-Justified parent result status updated due d t))
            (λ stored e.
              All-append (Accepted p start) acts (updates_status updated ∷ []) a ((stored, e), tt)))
        (λ f.
          send_update-Ends parent observed desired c updated acts law listed
            (sent-Justified parent result status updated due (inl d))
            (widen p start 4 5 acts (omega arith) o) a)

  pub decorate-Ends :
      (parent : Obj) (observed desired : ObjectMap Obj) (result : SyncResult Obj Status)
      (status : Status) (acts : Acts p)
      → MarksRead
      → Synced p start parent observed
      → Answered p start parent result
      → p.status_of parent ≡ some status
      → Orderly p start 4 acts
      → All (Accepted p start) acts
      → RunEnds (decorate p parent observed desired (changes p parent result status) acts)
  unfolding decorate changes
  decorate-Ends parent observed desired result status acts law listed answered h o a =
      if-elim RunEnds (changed p parent (changes p parent result status))
        (λ change.
          update_parent-Ends parent observed desired result status
            (decorated p start parent result status) acts law listed (answered, h, change) refl o a)
        (λ same.
          reconcile-Ends parent observed desired acts law listed
            (widen p start 4 6 acts (omega arith) o) a)
