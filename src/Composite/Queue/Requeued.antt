-- ===== src/Composite/Queue/Requeued.antt =====
-- What becomes of a key that is taken from the queue.
use metacontroller.Json.{ℤ}
use metacontroller.Prelude.{
  String, Option, none, some, [], ◌∷◌, ◌++◌, ok, err, ◌≡◌, refl, inl, inr, ◌⊎◌, append_assoc, ◌≢◌,
}
use metacontroller.Composite.Queue.{
  QueueCall, add_rate_limited, forget, done, add_after, duration_of, SyncError, too_many_requests,
  related_not_synced, missing, failed, Outside, Log, report, sync_found, sync, settle_key,
  process_next_work_item,
}

-- A call that brings the key back.
pub data Requeues (key : String) : QueueCall → Type 0 where
  limited : Requeues key (add_rate_limited key)
  delayed : (delay : ℤ) → Requeues key (add_after key delay)

settle_key-cases :
    (key : String) (result : Option SyncError)
    → ((settle_key key result ≡ forget key) × (result ≡ none))
      ⊎ (Requeues key (settle_key key result) × (result ≢ none))
unfolding settle_key
settle_key-cases key none = inl (refl, refl)
settle_key-cases key (some (too_many_requests seconds)) =
    inr (delayed (duration_of seconds), λ e. cc)
settle_key-cases key (some related_not_synced) = inr (limited, λ e. cc)
settle_key-cases key (some missing) = inr (limited, λ e. cc)
settle_key-cases key (some failed) = inr (limited, λ e. cc)

module _ {Obj Act : Type 0} (out : Outside Obj) where
  report-calls :
      (parent : Obj) (result : Option SyncError) (log : Log Obj Act)
      → ((report out parent result log).1.calls ≡ log.calls)
        × ((report out parent result log).1.acts ≡ log.acts)
        × ((report out parent result log).0 ≡ result)
  unfolding report
  report-calls parent none log = (refl, refl, refl)
  report-calls parent (some (too_many_requests seconds)) log = (refl, refl, refl)
  report-calls parent (some related_not_synced) log = (refl, refl, refl)
  report-calls parent (some missing) log = (refl, refl, refl)
  report-calls parent (some failed) log = (refl, refl, refl)

  -- A key that is taken from the queue is marked as done, and before that exactly one of two things
  -- happens: it is forgotten, where `sync` succeeds, or it is brought back, at a limited rate or after
  -- a delay, where `sync` fails. What `sync` itself queues stands before.
  pub process_next_work_item-settles :
      (sync_parent : Obj → Log Obj Act → Option SyncError × Log Obj Act) (key : String)
      (log : Log Obj Act)
      → (call : QueueCall) × ((process_next_work_item out sync_parent (some key) log).1.calls
          ≡ (sync out sync_parent key log).1.calls ++ (call ∷ done key ∷ []))
        × (((call ≡ forget key) × ((sync out sync_parent key log).0 ≡ none))
            ⊎ (Requeues key call × ((sync out sync_parent key log).0 ≢ none)))
  unfolding process_next_work_item
  process_next_work_item-settles sync_parent key log =
      let (result, log') = sync out sync_parent key log in
      (
        settle_key key result,
        append_assoc log'.calls (settle_key key result ∷ []) (done key ∷ []),
        settle_key-cases key result,
      )

  -- A parent that is found is synced, and its error is passed on.
  pub sync-found :
      (sync_parent : Obj → Log Obj Act → Option SyncError × Log Obj Act)
      (key namespace name : String) (parent : Obj) (log : Log Obj Act)
      → out.split_key key ≡ some (namespace, name)
      → out.get_object namespace name ≡ ok parent
      → ((sync out sync_parent key log).0 ≡ (sync_parent parent log).0)
        × ((sync out sync_parent key log).1.calls ≡ (sync_parent parent log).1.calls)
        × ((sync out sync_parent key log).1.acts ≡ (sync_parent parent log).1.acts)
  unfolding sync sync_found
  sync-found sync_parent key namespace name parent log e f =
      let (result, log') = sync_parent parent log in
      let (calls, acts, same) = report-calls parent result log' in
      rw (sync, e, f, sync_found) (same, calls, acts)

  -- A parent that is gone is no error, and nothing is done.
  pub sync-gone :
      (sync_parent : Obj → Log Obj Act → Option SyncError × Log Obj Act)
      (key namespace name : String) (log : Log Obj Act)
      → out.split_key key ≡ some (namespace, name)
      → out.get_object namespace name ≡ err missing
      → sync out sync_parent key log ≡ (none, log)
  unfolding sync sync_found
  sync-gone sync_parent key namespace name log e f = rw (sync, e, f, sync_found) refl
