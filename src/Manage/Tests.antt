-- ===== src/Manage/Tests.antt =====
-- The theorems on the deletion of children and on the cache at concrete objects.
use metacontroller.Prelude.{
  String, true, false, Option, none, some, [], ◌∷◌, ◌++◌, ◌==◌, nat_eq, string_eq, if◌then◌else◌,
  Dict, lookup, delete, ◌≡◌, refl, ◌↔◌,
}
use metacontroller.Json.{pos}
use metacontroller.Objects.{PlainObject, plain_accessors, plain_object}
use metacontroller.ControllerRef.{Reason, conflict}
use metacontroller.Manage.{
  Client, Cache, LastUpdate, Deletion, Progress, delete_children, is_cache_invalid, set_last_update,
}
use metacontroller.Manage.Cache.{Fresh, is_cache_invalid_iff, is_cache_invalid-set_last_update}
use metacontroller.Manage.Deletions.{
  deletions, failures, any_confirmed, delete_children-requests, delete_children-errors,
  delete_children-cache,
}

abbrev client : Client
client = record { group = "apps"; kind = "Pod" }

abbrev pod : String → String → PlainObject
pod name uid = plain_object (record { group = "apps"; version = "v1"; kind = "Pod" }) "ns" name uid

abbrev observed : Dict String PlainObject
observed =
    ("a", pod "a" "1")
    ∷ ("b", pod "b" "2")
    ∷ ("c", pod "c" "3")
    ∷ ("d", record (pod "d" "4") { deletion_timestamp = some "now" })
    ∷ []

abbrev desired : Option (Dict String PlainObject)
desired = some (("b", pod "b" "") ∷ [])

abbrev answer : Deletion → Option Reason
answer d = if d.name == "c" then some conflict else none

abbrev entry : LastUpdate
entry = record { hash = 7; resourcegeneration = pos 1; resourceversion = "1"; uid = "1" }

abbrev cache : Cache
cache = ("apps/Pod/ns/a", entry) ∷ ("apps/Pod/ns/c", entry) ∷ []

abbrev start : Progress
start = record { requests = []; errors = []; cache = cache }

after : delete_children plain_accessors client answer desired observed start ≡ record {
  requests =
      record { namespace = "ns"; name = "a"; uid = "1" }
      ∷ record { namespace = "ns"; name = "c"; uid = "3" }
      ∷ [];
  errors = conflict ∷ [];
  cache = ("apps/Pod/ns/c", entry) ∷ [];
}
unfolding delete_children lookup delete
after = refl

delete_children-requests_example :
    (delete_children plain_accessors client answer desired observed start).requests
    ≡ start.requests ++ deletions plain_accessors client answer desired observed
delete_children-requests_example =
    delete_children-requests plain_accessors client answer desired observed start

delete_children-errors_example :
    (delete_children plain_accessors client answer desired observed start).errors
    ≡ start.errors ++ failures plain_accessors client answer desired observed
delete_children-errors_example =
    delete_children-errors plain_accessors client answer desired observed start

delete_children-cache_example :
    lookup "apps/Pod/ns/a"
      (delete_children plain_accessors client answer desired observed start).cache
    ≡ (if any_confirmed plain_accessors client answer desired "apps/Pod/ns/a" observed
        then none
        else lookup "apps/Pod/ns/a" start.cache)
delete_children-cache_example =
    delete_children-cache plain_accessors client answer desired "apps/Pod/ns/a" observed start

is_cache_invalid_iff_example :
    (is_cache_invalid plain_accessors client cache "apps/Pod/ns/a" (pod "a" "1") 7 ≡ false) ↔ (
      (last : LastUpdate) × (lookup "apps/Pod/ns/a" cache ≡ some last)
      × Fresh plain_accessors client last (pod "a" "1") 7)
is_cache_invalid_iff_example =
    is_cache_invalid_iff plain_accessors client cache "apps/Pod/ns/a" (pod "a" "1") 7

is_cache_invalid-set_last_update_example :
    is_cache_invalid plain_accessors client
      (set_last_update plain_accessors client "apps/Pod/ns/b" 8 (pod "b" "2") cache)
      "apps/Pod/ns/b"
      (pod "b" "2")
      9
    ≡ true
is_cache_invalid-set_last_update_example =
    is_cache_invalid-set_last_update plain_accessors client cache "apps/Pod/ns/b" (pod "b" "2") 8 9
