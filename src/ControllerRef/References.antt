-- ===== src/ControllerRef/References.antt =====
-- Owner references after an owner is added or removed.
use metacontroller.Prelude.{
  String, Bool, true, false, not, ◌||◌, ◌&&◌, List, [], ◌∷◌, ◌++◌, ◌==◌, string_eq, ◌≡◌, refl,
  arith,
}
use metacontroller.Objects.{OwnerReference}
use metacontroller.ControllerRef.{add_loop, add_owner_reference, remove_owner_reference}

-- Some reference has the owner's UID.
pub owned : String → List OwnerReference → Bool
owned uid [] = false
owned uid (ref ∷ refs) = ref.uid == uid || owned uid refs

add_loop-found :
    (refs : List OwnerReference) (add : OwnerReference) → (add_loop refs add).1 ≡ owned add.uid refs
unfolding add_loop owned
add_loop-found [] add = refl
add_loop-found (ref ∷ refs) add = ground (arith, add_loop-found refs add)

owned-snoc :
    (uid : String) (refs : List OwnerReference) (add : OwnerReference)
    → owned uid (refs ++ (add ∷ [])) ≡ (owned uid refs || add.uid == uid)
unfolding owned
owned-snoc uid [] add = ground arith
owned-snoc uid (ref ∷ refs) add = ground (arith, owned-snoc uid refs add)

owned-add_loop :
    (uid : String) (refs : List OwnerReference) (add : OwnerReference)
    → owned uid (add_loop refs add).0 ≡ owned uid refs
unfolding add_loop owned
owned-add_loop uid [] add = refl
owned-add_loop uid (ref ∷ refs) add =
    ground (arith, owned-add_loop uid refs add, string_eq.same_iff ref.uid add.uid)

remove-snoc :
    (uid : String) (refs : List OwnerReference) (add : OwnerReference)
    → (add.uid == uid) ≡ true
    → remove_owner_reference (refs ++ (add ∷ [])) uid ≡ remove_owner_reference refs uid
unfolding remove_owner_reference
remove-snoc uid [] add h = ground arith
remove-snoc uid (ref ∷ refs) add h = ground (arith, remove-snoc uid refs add)

remove-add_loop :
    (refs : List OwnerReference) (add : OwnerReference)
    → remove_owner_reference (add_loop refs add).0 add.uid ≡ remove_owner_reference refs add.uid
unfolding remove_owner_reference add_loop
remove-add_loop [] add = refl
remove-add_loop (ref ∷ refs) add =
    ground (arith, remove-add_loop refs add, string_eq.same_iff add.uid add.uid)

-- Adding an owner makes it one and changes neither who else owns the object nor the references of
-- the others or their order.
pub add_owner_reference_lem :
    (refs : List OwnerReference) (add : OwnerReference) (uid : String)
    → (owned uid (add_owner_reference refs add) ≡ (owned uid refs || add.uid == uid))
      × (remove_owner_reference (add_owner_reference refs add) add.uid
          ≡ remove_owner_reference refs add.uid)
unfolding add_owner_reference
add_owner_reference_lem refs add uid = (
  ground (
    arith,
    add_loop-found refs add,
    owned-add_loop uid refs add,
    owned-snoc uid (add_loop refs add).0 add,
    string_eq.same_iff add.uid uid,
  ),
  ground (
    arith,
    remove-add_loop refs add,
    remove-snoc add.uid (add_loop refs add).0 add,
    string_eq.same_iff add.uid add.uid,
  ),
)

-- Removing an owner removes that one and no other.
pub owned-remove_owner_reference :
    (refs : List OwnerReference) (uid u : String)
    → owned u (remove_owner_reference refs uid) ≡ (owned u refs && not (u == uid))
unfolding remove_owner_reference owned
owned-remove_owner_reference [] uid u = refl
owned-remove_owner_reference (ref ∷ refs) uid u = ground (
  arith,
  owned-remove_owner_reference refs uid u,
  string_eq.same_iff ref.uid uid,
  string_eq.same_iff ref.uid u,
  string_eq.same_iff u uid,
)
