-- ===== src/Informers/Tests.antt =====
-- The theorems on the shared informers for two users of one resource.
use metacontroller.Prelude.{
  In, ◌==◌, nat_eq, false, ℕ, String, none, some, [], ◌∷◌, ◌≡◌, refl, ◌↔◌, lookup, insert, inl, inr,
  string_eq, Lacks, arith,
}
use metacontroller.Informers.{
  Clients, Factory, new_factory, ResourceInformer, start_informer, subscribe, close_informer, Users,
  subscribes, Reach, start, next,
}
use metacontroller.Informers.Subscribers.{subscribers}
use metacontroller.Informers.Counted.{IsCounted}
use metacontroller.Informers.Handlers.{
  SharedEventHandler, new_shared_event_handler, on_delete, broadcast, remove_handlers,
}
use metacontroller.Informers.Handlers.Removed.{Registered, broadcast-remove_handlers}
use metacontroller.Informers.Reached.{reach-IsCounted, close_informer-keeps, shared-resource}

abbrev clients : Clients
clients = record { client_error = λ v r. none; informer_error = λ v r. none }

abbrev pods : ResourceInformer
pods = record { key = "pods.v1"; shared = 0 }

abbrev factory : ℕ → Factory
factory count = record {
  ref_count = ("pods.v1", count) ∷ [];
  shared_informers = ("pods.v1", 0) ∷ [];
  next = 1;
  stopped = [];
}

abbrev two_users : Users
two_users = record { factory = factory 2; held = pods ∷ pods ∷ [] }

two_users-Reach : Reach clients two_users
unfolding subscribe start_informer lookup insert
two_users-Reach =
    next (record { factory = factory 1; held = pods ∷ [] }) two_users
      (next (record { factory = new_factory; held = [] })
        (record { factory = factory 1; held = pods ∷ [] }) start
        (subscribes "v1" "pods" pods new_factory (factory 1) [] refl))
      (subscribes "v1" "pods" pods (factory 1) (factory 2) (pods ∷ []) refl)

reach-IsCounted_example : IsCounted (factory 2) (pods ∷ pods ∷ [])
reach-IsCounted_example = reach-IsCounted clients two_users two_users-Reach

close_informer-keeps_example :
    (f : Factory) × (close_informer pods (factory 2) ≡ some f)
    × ((lookup "pods.v1" f.shared_informers ≡ none) ↔ (subscribers "pods.v1" (pods ∷ []) ≡ 0))
close_informer-keeps_example =
    close_informer-keeps clients two_users pods [] (pods ∷ []) two_users-Reach refl

lacks : Lacks b'.' "pods"
lacks = omega arith

shared-resource_example :
    (pods.shared ≡ pods.shared) ↔ (◌≡◌ {A = String} "v1" "v1" × ◌≡◌ {A = String} "pods" "pods")
shared-resource_example =
    shared-resource clients two_users pods pods "v1" "pods" "v1" "pods" two_users-Reach (inl refl)
      (inr (inl refl)) refl refl lacks lacks

-- Two subscriptions with one handler each.
abbrev handlers : SharedEventHandler String
handlers = record (new_shared_event_handler 60) {
  handlers = (1, record { id = 0; target = 7 } ∷ []) ∷ (2, record { id = 1; target = 8 } ∷ []) ∷ [];
  next = 2;
}

broadcast-remove_handlers_example :
    In
      (8, on_delete "pod")
      (broadcast {Obj = String} (on_delete "pod") (remove_handlers 1 handlers).handlers)
    ↔ ((other : ℕ) × ((1 == other) ≡ false) × Registered other 8 handlers)
unfolding lookup
broadcast-remove_handlers_example =
    broadcast-remove_handlers (on_delete "pod") 1 8 handlers (refl, (refl, tt))
