-- ===== src/Clientset.antt =====
-- The read-modify-write loops of pkg/dynamic/clientset/clientset.go, over the API server and client-go's
-- `retry.RetryOnConflict`, which are parameters: the server's answers by the number of the attempt.
pub mod Atomic
mod Tests
use metacontroller.Prelude.{
  ℕ, zero, suc, ◌<◌, String, Bool, true, false, not, Option, none, some, List, [], ◌∷◌, ◌++◌, ◌==◌,
  string_eq, if◌then◌else◌, Result, ok, err, ◌≡◌,
}
use metacontroller.Objects.{Accessors}
use metacontroller.ControllerRef.{Reason, not_found, conflict}

-- `ctx.Err()`, `Get` by the name of the original, and `Update` or `UpdateStatus`, for each attempt;
-- `retry` gives the number of the last attempt for the errors that the attempts end with.
pub record Server (Obj : Type 0) : Type 0 where
  pub ctx_err : ℕ → Option Reason
  pub get : ℕ → Result Reason Obj
  pub update : ℕ → Obj → Result Reason Obj
  pub update_status : ℕ → Obj → Result Reason Obj
  pub has_status : Bool
  pub retry : (ℕ → Option Reason) → ℕ

-- `RetryOnConflict` tries again after a conflict only.
abbrev pub IsRetry : ((ℕ → Option Reason) → ℕ) → Type 0
IsRetry retry = (errors : ℕ → Option Reason) (n : ℕ) → n < retry errors → errors n ≡ some conflict

-- An attempt's result, and the object that it has sent.
abbrev pub Attempt : Type 0 → Type 0
Attempt Obj = Result Reason Obj × Option Obj

abbrev pub error_of : {Obj : Type 0} → Attempt Obj → Option Reason
error_of (ok o, sent) = none
error_of (err e, sent) = some e

module _ {Obj : Type 0} (acc : Accessors Obj) (server : Server Obj) where
  -- The end of an attempt: `change` is the object that `update` leaves, `none` where it returns false.
  unfoldable pub write_change : (Obj → Result Reason Obj) → Obj → Option Obj → Attempt Obj
  write_change put current none = (ok current, none)
  write_change put current (some changed) = (put changed, some changed)

  -- The function that is retried.
  unfoldable pub attempt :
      (ℕ → Obj → Result Reason Obj) → Obj → (Obj → Option Obj) → ℕ → Attempt Obj
  unfolding write_change
  attempt put orig change n = elim (server.ctx_err n) [
    | some e ↦ (err e, none)
    | none ↦ elim (server.get n) [
      | err e ↦ (err e, none)
      | ok current ↦
          if not (acc.uid current == acc.uid orig)
          then (err not_found, none)
          else write_change (put n) current (change current)
    ]
  ]

  -- What the attempts up to a number have sent.
  unfoldable pub sent_until :
      (ℕ → Obj → Result Reason Obj) → Obj → (Obj → Option Obj) → ℕ → List (Option Obj)
  unfolding attempt
  sent_until put orig change zero = (attempt put orig change 0).1 ∷ []
  sent_until put orig change (suc n) =
      sent_until put orig change n ++ ((attempt put orig change (suc n)).1 ∷ [])

  abbrev pub last_attempt : (ℕ → Obj → Result Reason Obj) → Obj → (Obj → Option Obj) → ℕ
  last_attempt put orig change = server.retry (λ n. error_of (attempt put orig change n))

  -- The loop: the last attempt's result.
  unfoldable pub retried :
      (ℕ → Obj → Result Reason Obj) → Obj → (Obj → Option Obj) → Result Reason Obj
  unfolding attempt
  retried put orig change = (attempt put orig change (last_attempt put orig change)).0

  -- `AtomicUpdate`
  unfoldable pub atomic_update : Obj → (Obj → Option Obj) → Result Reason Obj
  unfolding retried
  atomic_update orig change = retried server.update orig change

  -- `UpdateStatus` where the resource has the subresource, and `Update` where it has not.
  abbrev pub put_status : ℕ → Obj → Result Reason Obj
  put_status n o = if server.has_status then server.update_status n o else server.update n o

  -- `AtomicStatusUpdate`
  unfoldable pub atomic_status_update : Obj → (Obj → Option Obj) → Result Reason Obj
  unfolding retried
  atomic_status_update orig change = retried put_status orig change

-- The helpers of controller-runtime's controllerutil.
pub record FinalizerUtil (Obj : Type 0) : Type 0 where
  pub contains_finalizer : Obj → String → Bool
  pub add_finalizer : Obj → String → Obj
  pub remove_finalizer : Obj → String → Obj

pub record IsFinalizerUtil {Obj : Type 0} (util : FinalizerUtil Obj) : Type 0 where
  pub added :
      (o : Obj) (name : String) → util.contains_finalizer (util.add_finalizer o name) name ≡ true
  pub removed :
      (o : Obj) (name : String)
      → util.contains_finalizer (util.remove_finalizer o name) name ≡ false

module _ {Obj : Type 0} (acc : Accessors Obj) (util : FinalizerUtil Obj) (server : Server Obj) where
  abbrev pub adding : String → Obj → Option Obj
  adding name o = if util.contains_finalizer o name then none else some (util.add_finalizer o name)

  abbrev pub removing : String → Obj → Option Obj
  removing name o =
      if not (util.contains_finalizer o name) then none else some (util.remove_finalizer o name)

  -- `AddFinalizer` and `RemoveFinalizer` of a client.
  unfoldable pub client_add_finalizer : Obj → String → Result Reason Obj
  unfolding atomic_update
  client_add_finalizer orig name = atomic_update acc server orig (adding name)

  unfoldable pub client_remove_finalizer : Obj → String → Result Reason Obj
  unfolding atomic_update
  client_remove_finalizer orig name = atomic_update acc server orig (removing name)
