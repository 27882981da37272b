-- ===== src/Informers/Handlers.antt =====
-- The event handlers of a shared informer: sharedEventHandler and eventHandler of
-- pkg/dynamic/informer/informer.go. A subscription and a handler are named by a number, and what a
-- handler is called with is recorded; the lister is a parameter.
pub mod Removed
use metacontroller.Prelude.{
  ℕ, suc, Bool, true, false, not, Option, none, some, List, [], ◌∷◌, ◌++◌, ◌==◌, nat_eq,
  if◌then◌else◌, Dict, lookup, insert, delete, get_or, select, ltb, Result, ok, err, String, map,
}

pub data Event (Obj : Type 0) : Type 0 where
  on_add : Obj → Bool → Event Obj
  on_update : Obj → Obj → Event Obj
  on_delete : Obj → Event Obj

-- `eventHandler`: what it is called by here, and the handler that it wraps.
pub record EventHandler : Type 0 where
  pub id : ℕ
  pub target : ℕ

-- `sharedEventHandler`: the handlers by the subscription through which they were added, with those whose
-- own resync timer runs, and the calls of handlers.
pub record SharedEventHandler (Obj : Type 0) : Type 0 where
  pub relist_period : ℕ
  pub handlers : Dict ℕ (List EventHandler)
  pub ticking : List ℕ
  pub next : ℕ
  pub delivered : List (ℕ × Event Obj)

-- `newSharedEventHandler`
abbrev pub new_shared_event_handler : {Obj : Type 0} → ℕ → SharedEventHandler Obj
new_shared_event_handler period = record {
  relist_period = period;
  handlers = [];
  ticking = [];
  next = 0;
  delivered = [];
}

module _ {Obj : Type 0} where
  -- The loop of `resync` over what is listed.
  unfoldable pub resync_events : ℕ → List Obj → List (ℕ × Event Obj)
  resync_events target [] = []
  resync_events target (o ∷ objects) = (target, on_update o o) ∷ resync_events target objects

  -- `resync`: a failure to list is reported only.
  unfoldable pub resync :
      Result String (List Obj) → EventHandler → SharedEventHandler Obj → SharedEventHandler Obj
  unfolding resync_events
  resync (err e) eh seh = seh
  resync (ok objects) eh seh = record seh {
    delivered = seh.delivered ++ resync_events eh.target objects;
  }

  -- `start` and `stop`
  abbrev pub start_timer : EventHandler → SharedEventHandler Obj → SharedEventHandler Obj
  start_timer eh seh = record seh { ticking = eh.id ∷ seh.ticking }

  abbrev pub stop_timer : EventHandler → SharedEventHandler Obj → SharedEventHandler Obj
  stop_timer eh seh = record seh { ticking = select (λ id. not (id == eh.id)) seh.ticking }

  -- `addHandler`
  unfoldable pub add_handler :
      Result String (List Obj) → ℕ → ℕ → ℕ → SharedEventHandler Obj → SharedEventHandler Obj
  unfolding resync
  add_handler listed wrapper target resync_period seh =
      let eh : EventHandler = record { id = seh.next; target = target } in
      let added = record seh {
        handlers = insert wrapper (get_or [] wrapper seh.handlers ++ (eh ∷ [])) seh.handlers;
        next = suc seh.next;
      } in
      let resynced = resync listed eh added in
      if ltb resync_period seh.relist_period then start_timer eh resynced else resynced

  unfoldable pub stop_all : List EventHandler → SharedEventHandler Obj → SharedEventHandler Obj
  stop_all [] seh = seh
  stop_all (eh ∷ handlers) seh = stop_all handlers (stop_timer eh seh)

  -- `removeHandlers`
  unfoldable pub remove_handlers : ℕ → SharedEventHandler Obj → SharedEventHandler Obj
  unfolding stop_all
  remove_handlers wrapper seh =
      let stopped = stop_all (get_or [] wrapper seh.handlers) seh in
      record stopped { handlers = delete wrapper stopped.handlers }

  -- The inner and the outer loop of `OnAdd`, `OnUpdate` and `OnDelete`.
  unfoldable pub deliver : Event Obj → List EventHandler → List (ℕ × Event Obj)
  deliver event [] = []
  deliver event (eh ∷ handlers) = (eh.target, event) ∷ deliver event handlers

  unfoldable pub broadcast : Event Obj → Dict ℕ (List EventHandler) → List (ℕ × Event Obj)
  unfolding deliver
  broadcast event [] = []
  broadcast event ((wrapper, handlers) ∷ rest) = deliver event handlers ++ broadcast event rest

  -- `OnAdd`, `OnUpdate` and `OnDelete`
  unfoldable pub on_event : Event Obj → SharedEventHandler Obj → SharedEventHandler Obj
  unfolding broadcast
  on_event event seh = record seh { delivered = seh.delivered ++ broadcast event seh.handlers }
