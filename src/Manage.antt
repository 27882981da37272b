-- ===== src/Manage.antt =====
-- pkg/controller/common/manage_children.go: the deletion of children that are not desired, and the cache by
-- which a server-side apply is skipped. The answers of the API server are a parameter.
pub mod Deletions
pub mod Cache
mod Tests
use metacontroller.Prelude.{
  ℕ, String, Bool, true, false, not, ◌||◌, ◌&&◌, Option, none, some, List, [], ◌∷◌, ◌++◌, ◌==◌,
  string_eq, nat_eq, if◌then◌else◌, is_some, or_default, Dict, lookup, insert, delete, has,
  Comparable, ◌≡◌, ◌↔◌, arith,
}
use metacontroller.Json.{ℤ, pos, negsuc}
use metacontroller.Names.{slashed}
use metacontroller.Objects.{Accessors}
use metacontroller.ControllerRef.{Reason, is_not_found}

unfoldable pub same_int : ℤ → ℤ → Bool
same_int (pos a) (pos b) = a == b
same_int (negsuc a) (negsuc b) = a == b
same_int _ _ = false

pub same_int_iff : (a b : ℤ) → (same_int a b ≡ true) ↔ (a ≡ b)
unfolding same_int
same_int_iff (pos a) (pos b) = ground (arith, nat_eq.same_iff a b)
same_int_iff (negsuc a) (negsuc b) = ground (arith, nat_eq.same_iff a b)
same_int_iff (pos a) (negsuc b) = ground arith
same_int_iff (negsuc a) (pos b) = ground arith

instance abbrev pub int_eq : Comparable ℤ
int_eq = record { same = same_int; same_iff = same_int_iff }

pub record LastUpdate : Type 0 where
  pub hash : ℕ
  pub resourcegeneration : ℤ
  pub resourceversion : String
  pub uid : String

-- `LastUpdateCache`
abbrev pub Cache : Type 0
Cache = Dict String LastUpdate

-- The group and the kind of a resource client.
pub record Client : Type 0 where
  pub group : String
  pub kind : String

-- A deletion: its preconditions name the UID, and its propagation is in the background.
pub record Deletion : Type 0 where
  pub namespace : String
  pub name : String
  pub uid : String

-- What the deletions of a kind change: the requests made, the errors kept, and the cache.
pub record Progress : Type 0 where
  pub requests : List Deletion
  pub errors : List Reason
  pub cache : Cache

module _ {Obj : Type 0} (acc : Accessors Obj) (client : Client) where
  unfoldable pub last_update_cache_key : Obj → String
  last_update_cache_key o =
      slashed (slashed (slashed client.group client.kind) (acc.namespace o)) (acc.name o)

  -- `LastUpdateCache.Set`, as `storeState` calls it.
  unfoldable pub set_last_update : String → ℕ → Obj → Cache → Cache
  set_last_update key hash o cache =
      insert key
        (record {
          hash = hash;
          resourcegeneration = acc.generation o;
          resourceversion = acc.resource_version o;
          uid = acc.uid o;
        })
        cache

  outdated : LastUpdate → Obj → ℕ → Bool
  outdated last observed desired_hash =
      if not (last.uid == acc.uid observed)
      then true
      else if not (last.hash == desired_hash)
      then true
      else if acc.generation observed == pos 0
          && not (acc.resource_version observed == last.resourceversion)
      then true
      else if not (last.resourcegeneration == acc.generation observed)
      then true
      else false

  unfoldable pub is_cache_invalid : Cache → String → Obj → ℕ → Bool
  unfolding outdated
  is_cache_invalid cache key observed desired_hash = elim (lookup key cache) [
    | none ↦ true
    | some last ↦ outdated last observed desired_hash
  ]

  abbrev pub deletion_of : Obj → Deletion
  deletion_of o = record { namespace = acc.namespace o; name = acc.name o; uid = acc.uid o }

  module _ (api : Deletion → Option Reason) (desired : Option (Dict String Obj)) where
    -- What follows the answer of the API server.
    settle_deletion : Obj → Option Reason → Progress → Progress
    unfolding last_update_cache_key
    settle_deletion o (some e) p =
        if is_not_found e then p else record p { errors = p.errors ++ (e ∷ []) }
    settle_deletion o none p = record p { cache = delete (last_update_cache_key o) p.cache }

    delete_child : String → Obj → Progress → Progress
    unfolding settle_deletion
    delete_child name o p =
        if is_some (acc.deletion_timestamp o)
        then p
        else if not (has name (or_default [] desired))
        then settle_deletion o (api (deletion_of o))
            (record p { requests = p.requests ++ (deletion_of o ∷ []) })
        else p

    -- `deleteChildren`
    unfoldable pub delete_children : Dict String Obj → Progress → Progress
    unfolding delete_child
    delete_children [] p = p
    delete_children ((name, o) ∷ observed) p = delete_children observed (delete_child name o p)
