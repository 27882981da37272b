-- ===== src/Clientset/Tests.antt =====
-- The read-modify-write loop on an object that changes between two attempts.
use metacontroller.Prelude.{
  ℕ, ◌<◌, none, some, [], ◌∷◌, Option, Result, ok, err, ◌≡◌, refl, arith, Bool-cases, inl, inr,
  nat_beq, if◌then◌else◌, Bool, true, false,
}
use metacontroller.Objects.{PlainObject, plain_accessors, plain_object}
use metacontroller.ControllerRef.{Reason, conflict}
use metacontroller.Clientset.{Server, IsRetry, attempt, error_of, retried}
use metacontroller.Clientset.Atomic.{Tried, retried_lem}

abbrev parent : PlainObject
parent = plain_object (record { group = ""; version = "v1"; kind = "Pod" }) "ns" "a" "1"

abbrev answer : ℕ → PlainObject → Result Reason PlainObject
answer n o = if nat_beq n 0 then err conflict else ok o

-- Tries once more after a conflict.
abbrev is_conflict : Option Reason → Bool
is_conflict (some conflict) = true
is_conflict _ = false

abbrev once_more : (ℕ → Option Reason) → ℕ
once_more errors = if is_conflict (errors 0) then 1 else 0

abbrev server : Server PlainObject
server = record {
  ctx_err = λ n. none;
  get = λ n. ok parent;
  update = answer;
  update_status = answer;
  has_status = true;
  retry = once_more;
}

is_conflict-eq : (e : Option Reason) → is_conflict e ≡ true → e ≡ some conflict
is_conflict-eq none h = cc
is_conflict-eq (some conflict) h = refl
is_conflict-eq (some Reason.not_found) h = cc
is_conflict-eq (some Reason.gone) h = cc
is_conflict-eq (some Reason.already_exists) h = cc
is_conflict-eq (some Reason.bad_request) h = cc
is_conflict-eq (some Reason.forbidden) h = cc
is_conflict-eq (some Reason.other) h = cc

once_more-IsRetry : IsRetry once_more
once_more-IsRetry errors n h = elim (Bool-cases (is_conflict (errors 0))) [
  | inl t ↦ let first : n ≡ 0 = omega (arith, rw t at h) in rw first (is_conflict-eq (errors 0) t)
  | inr f ↦ absurd (omega (arith, rw f at h))
]

abbrev mark : PlainObject → Option PlainObject
mark o = some (record o { finalizers = "marked" ∷ [] })

retried_lem_example :
    (last : ℕ) × (retried plain_accessors server answer parent mark
      ≡ (attempt plain_accessors server answer parent mark last).0)
    × ((n : ℕ)
        → Tried plain_accessors server answer parent mark n
            (attempt plain_accessors server answer parent mark n))
    × ((n : ℕ)
        → n < last
        → error_of (attempt plain_accessors server answer parent mark n) ≡ some conflict)
retried_lem_example = retried_lem plain_accessors server answer parent mark once_more-IsRetry
