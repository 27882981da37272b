-- ===== src/ControllerRef/Tests.antt =====
-- The theorems on ownership at concrete children.
use metacontroller.Prelude.{
  String, true, not, ◌&&◌, ◌||◌, Option, none, some, List, [], ◌∷◌, ◌≡◌, refl, ◌==◌, string_eq,
  select,
}
use metacontroller.Objects.{OwnerReference, PlainObject, plain_accessors, plain_object}
use metacontroller.ControllerRef.{
  Reason, not_found, Call, adopting, releasing, Manager, initial, claim_children, claim_object,
  adopt_child, release_child, add_owner_reference, remove_owner_reference,
}
use metacontroller.ControllerRef.References.{
  owned, add_owner_reference_lem, owned-remove_owner_reference,
}
use metacontroller.ControllerRef.Claims.{IsSafe, initial-IsSafe, claim_children-IsSafe}
use metacontroller.ControllerRef.Claimed.{claimable, claim_children-select}

abbrev pod : String → String → List OwnerReference → PlainObject
pod name uid owners =
    record (plain_object (record { group = ""; version = "v1"; kind = "Pod" }) "ns" name uid) {
      owner_references = owners;
    }

abbrev owner : String → OwnerReference
owner uid = record {
  api_version = "v1";
  kind = "Parent";
  name = "parent";
  uid = uid;
  controller = some true;
  block_owner_deletion = some true;
}

-- metav1.GetControllerOf for objects with one reference at most.
abbrev first_owner : List OwnerReference → Option OwnerReference
first_owner [] = none
first_owner (ref ∷ refs) = some ref

abbrev answer : Call PlainObject → Option Reason
answer (adopting o) = none
answer (releasing o) = some not_found

abbrev manager : Manager PlainObject
manager = record {
  uid = "p";
  deletion_timestamp = none;
  matches = λ o. not (o.name == "other");
  controller_of = λ o. first_owner o.owner_references;
  update = answer;
  can_adopt_func = some none;
}

abbrev orphan : PlainObject
orphan = pod "orphan" "1" []

abbrev owned_pod : PlainObject
owned_pod = pod "mine" "2" (owner "p" ∷ [])

abbrev unselected : PlainObject
unselected = pod "other" "3" (owner "p" ∷ [])

abbrev foreign : PlainObject
foreign = pod "foreign" "4" (owner "q" ∷ [])

abbrev children : List PlainObject
children = orphan ∷ owned_pod ∷ unselected ∷ foreign ∷ []

claimed_names :
    (claim_children plain_accessors manager children initial).0.0 ≡ orphan ∷ owned_pod ∷ []
unfolding claim_children claim_object adopt_child release_child
claimed_names = refl

calls_made :
    (claim_children plain_accessors manager children initial).1.calls
    ≡ adopting orphan ∷ releasing unselected ∷ []
unfolding claim_children claim_object adopt_child release_child
calls_made = refl

claim_children-IsSafe_example :
    IsSafe plain_accessors manager (claim_children plain_accessors manager children initial).1
claim_children-IsSafe_example =
    claim_children-IsSafe plain_accessors manager children initial
      (initial-IsSafe plain_accessors manager)

claim_children-select_example :
    (claim_children plain_accessors manager children initial).0.0
    ≡ select (claimable plain_accessors manager) children
claim_children-select_example =
    claim_children-select plain_accessors manager children initial
      (initial-IsSafe plain_accessors manager)

add_owner_reference_lem_example :
    (owned "q" (add_owner_reference (owner "p" ∷ []) (owner "q"))
      ≡ (owned "q" (owner "p" ∷ []) || true))
    × (remove_owner_reference (add_owner_reference (owner "p" ∷ []) (owner "q")) "q"
        ≡ remove_owner_reference (owner "p" ∷ []) "q")
add_owner_reference_lem_example = add_owner_reference_lem (owner "p" ∷ []) (owner "q") "q"

owned-remove_owner_reference_example :
    owned "p" (remove_owner_reference (owner "p" ∷ []) "q") ≡ (owned "p" (owner "p" ∷ []) && true)
owned-remove_owner_reference_example = owned-remove_owner_reference (owner "p" ∷ []) "q" "p"
