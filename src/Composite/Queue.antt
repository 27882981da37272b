-- ===== src/Composite/Queue.antt =====
-- The work queue of a composite controller: `enqueueParentObject`, `enqueueParentObjectAfter`,
-- `processNextWorkItem` and `sync` of pkg/controller/composite/controller.go. The queue of client-go is
-- seen by the calls that it gets.
pub mod Requeued
mod Tests
use Prim.Native.Nat.{◌*◌, ◌%◌, ◌^◌}
use metacontroller.Json.{ℤ, pos, negsuc}
use metacontroller.Prelude.{
  ℕ, suc, ◌-◌, ltb, String, Bool, true, false, not, ◌&&◌, Option, none, some, List, [], ◌∷◌, ◌++◌,
  Result, ok, err, if◌then◌else◌,
}

-- A call of the queue: `Get` is left out, since it starts what is modelled. Delays are in nanoseconds.
pub data QueueCall : Type 0 where
  add add_rate_limited forget done : String → QueueCall
  add_after : String → ℤ → QueueCall

-- The error of a sync, by what it wraps: a `TooManyRequestError`, `ErrRelatedInformerNotSynced`, an API
-- error that means that the object is gone, or anything else.
pub data SyncError : Type 0 where
  too_many_requests : ℤ → SyncError
  related_not_synced missing failed : SyncError

-- The key of the parent is read from the cache by `GetObject`; `none` where the key cannot be split.
pub record Outside (Obj : Type 0) : Type 0 where
  pub split_key : String → Option (String × String)
  pub get_object : String → String → Result SyncError Obj
  pub key_func : Obj → Option String

-- A warning event of the recorder, for a parent.
pub data Event (Obj : Type 0) : Type 0 where
  sync_error : Obj → Event Obj

-- What a sync leaves behind: the calls of the queue, the events, and what it did to parent and children.
pub record Log (Obj Act : Type 0) : Type 0 where
  pub calls : List QueueCall
  pub events : List (Event Obj)
  pub acts : List Act

abbrev pub empty_log : {Obj Act : Type 0} → Log Obj Act
empty_log = record { calls = []; events = []; acts = [] }

abbrev pub queue_call : {Obj Act : Type 0} → QueueCall → Log Obj Act → Log Obj Act
queue_call call log = record log { calls = log.calls ++ (call ∷ []) }

abbrev is_missing : SyncError → Bool
is_missing missing = true
is_missing _ = false

-- A 64-bit word as a signed number, by two's complement.
abbrev pub as_int64 : ℕ → ℤ
as_int64 word = if ltb word (2 ^ 63) then pos word else negsuc (2 ^ 64 - 1 - word)

-- `time.Duration(seconds) * time.Second`, which wraps around.
unfoldable pub duration_of : ℤ → ℤ
duration_of (pos n) = as_int64 (n * 1000000000 % 2 ^ 64)
duration_of (negsuc n) = as_int64 ((2 ^ 64 - suc n * 1000000000 % 2 ^ 64) % 2 ^ 64)

-- The queue's call for the result of a sync.
unfoldable pub settle_key : String → Option SyncError → QueueCall
settle_key key none = forget key
settle_key key (some (too_many_requests seconds)) = add_after key (duration_of seconds)
settle_key key (some related_not_synced) = add_rate_limited key
settle_key key (some missing) = add_rate_limited key
settle_key key (some failed) = add_rate_limited key

module _ {Obj Act : Type 0} (out : Outside Obj) where
  -- What `sync` does with the error of `syncParentObject`.
  unfoldable pub report : Obj → Option SyncError → Log Obj Act → Option SyncError × Log Obj Act
  report parent none log = (none, log)
  report parent (some (too_many_requests seconds)) log = (some (too_many_requests seconds), log)
  report parent (some related_not_synced) log = (some related_not_synced, log)
  report parent (some missing) log =
      (some missing, record log { events = log.events ++ (sync_error parent ∷ []) })
  report parent (some failed) log =
      (some failed, record log { events = log.events ++ (sync_error parent ∷ []) })

  sync_found :
      (Obj → Log Obj Act → Option SyncError × Log Obj Act)
      → Result SyncError Obj
      → Log Obj Act
      → Option SyncError × Log Obj Act
  unfolding report
  sync_found sync_parent (err e) log = if is_missing e then (none, log) else (some e, log)
  sync_found sync_parent (ok parent) log =
      let (result, log') = sync_parent parent log in report parent result log'

  -- `sync`, over `syncParentObject`.
  unfoldable pub sync :
      (Obj → Log Obj Act → Option SyncError × Log Obj Act)
      → String
      → Log Obj Act
      → Option SyncError × Log Obj Act
  unfolding sync_found
  sync sync_parent key log = elim (out.split_key key) [
    | none ↦ (some failed, log)
    | some (namespace, name) ↦ sync_found sync_parent (out.get_object namespace name) log
  ]

  -- `processNextWorkItem`; `none` is `Get` after a shutdown.
  unfoldable pub process_next_work_item :
      (Obj → Log Obj Act → Option SyncError × Log Obj Act)
      → Option String
      → Log Obj Act
      → Bool × Log Obj Act
  unfolding sync settle_key
  process_next_work_item sync_parent none log = (false, log)
  process_next_work_item sync_parent (some key) log =
      let (result, log') = sync sync_parent key log in
      (true, queue_call (done key) (queue_call (settle_key key result) log'))

  -- `enqueueParentObject`, for an object that is a parent: one that is neither selected nor has the
  -- finalizer is ignored. A key that cannot be made is only reported.
  unfoldable pub enqueue_parent_object :
      (Obj → Bool) → (Obj → Bool) → Obj → Log Obj Act → Log Obj Act
  enqueue_parent_object has_finalizer selected parent log =
      if not (has_finalizer parent) && not (selected parent)
      then log
      else elim (out.key_func parent) [ none ↦ log | some key ↦ queue_call (add key) log ]

  -- `enqueueParentObjectAfter`, with the delay in nanoseconds.
  unfoldable pub enqueue_parent_object_after : Obj → ℕ → Log Obj Act → Log Obj Act
  enqueue_parent_object_after parent delay log = elim (out.key_func parent) [
    | none ↦ log
    | some key ↦ queue_call (add_after key (pos delay)) log
  ]
