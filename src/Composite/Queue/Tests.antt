-- ===== src/Composite/Queue/Tests.antt =====
-- The theorem on the queue for a key whose parent cannot be read.
use metacontroller.Prelude.{String, Option, none, some, [], ◌∷◌, ◌++◌, ◌≡◌, ◌≢◌, ◌⊎◌, err}
use metacontroller.Objects.{PlainObject}
use metacontroller.Composite.Queue.{
  QueueCall, forget, done, SyncError, related_not_synced, failed, Outside, Log, empty_log, sync,
  process_next_work_item,
}
use metacontroller.Composite.Queue.Requeued.{Requeues, process_next_work_item-settles}

abbrev out : Outside PlainObject
out = record {
  split_key = λ key. some ("ns", key);
  get_object = λ namespace name. err failed;
  key_func = λ o. some o.name;
}

abbrev sync_parent :
    PlainObject → Log PlainObject String → Option SyncError × Log PlainObject String
sync_parent parent log = (some related_not_synced, log)

process_next_work_item-settles_example :
    (call : QueueCall) × ((process_next_work_item out sync_parent (some "a") empty_log).1.calls
      ≡ (sync out sync_parent "a" empty_log).1.calls ++ (call ∷ done "a" ∷ []))
    × (((call ≡ forget "a") × ((sync out sync_parent "a" empty_log).0 ≡ none))
        ⊎ (Requeues "a" call × ((sync out sync_parent "a" empty_log).0 ≢ none)))
process_next_work_item-settles_example =
    process_next_work_item-settles out sync_parent "a" empty_log
