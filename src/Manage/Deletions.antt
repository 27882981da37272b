-- ===== src/Manage/Deletions.antt =====
-- What the deletion of children asks of the API server, and what it keeps of the answers.
use metacontroller.Prelude.{
  String, Bool, false, not, ◌&&◌, ◌||◌, Option, none, some, List, [], ◌∷◌, ◌++◌, append-nil,
  append_assoc, lookup-delete, ◌==◌, string_eq, if◌then◌else◌, is_some, or_default, Dict, lookup,
  has, ◌≡◌, refl, sym, ◌∙◌, arith, Option-cases, inl, inr,
}
use metacontroller.Objects.{Accessors}
use metacontroller.ControllerRef.{Reason, is_not_found}
use metacontroller.Manage.{
  Client, Deletion, Progress, deletion_of, settle_deletion, delete_child, delete_children,
  last_update_cache_key,
}

module _ {Obj : Type 0} (acc : Accessors Obj) (client : Client) (api : Deletion → Option Reason)
    (desired : Option (Dict String Obj)) where
  -- An observed child that is to be deleted: it is not being deleted and not desired.
  abbrev pub doomed : String × Obj → Bool
  doomed (name, o) =
      not (is_some (acc.deletion_timestamp o)) && not (has name (or_default [] desired))

  -- The deletions of the doomed.
  unfoldable pub deletions : Dict String Obj → List Deletion
  deletions [] = []
  deletions ((name, o) ∷ observed) =
      let rest = deletions observed in
      if doomed (name, o) then deletion_of acc client o ∷ rest else rest

  -- The error that is kept of an answer.
  abbrev pub kept : Option Reason → List Reason
  kept none = []
  kept (some e) = if is_not_found e then [] else e ∷ []

  pub failures : Dict String Obj → List Reason
  failures [] = []
  failures ((name, o) ∷ observed) =
      let rest = failures observed in
      if doomed (name, o) then kept (api (deletion_of acc client o)) ++ rest else rest

  -- A doomed child whose deletion the server has confirmed, and whose cache entry has the key.
  abbrev pub confirmed : String → String × Obj → Bool
  confirmed key (name, o) =
      doomed (name, o)
      && not (is_some (api (deletion_of acc client o)))
      && last_update_cache_key acc client o == key

  delete_child-requests :
      (name : String) (o : Obj) (p : Progress)
      → (delete_child acc client api desired name o p).requests
        ≡ (if doomed (name, o) then p.requests ++ (deletion_of acc client o ∷ []) else p.requests)
  unfolding delete_child settle_deletion
  delete_child-requests name o p = elim (Option-cases (api (deletion_of acc client o))) [
    | inl e ↦ rw (delete_child, e) (ground arith)
    | inr (r, e) ↦ rw (delete_child, e) (ground arith)
  ]

  settle_deletion-errors :
      (o : Obj) (answer : Option Reason) (p : Progress)
      → (settle_deletion acc client api desired o answer p).errors ≡ p.errors ++ kept answer
  unfolding settle_deletion
  settle_deletion-errors o none p = sym (append-nil p.errors)
  settle_deletion-errors o (some e) p = ground (arith, append-nil p.errors)

  delete_child-errors :
      (name : String) (o : Obj) (p : Progress)
      → (delete_child acc client api desired name o p).errors
        ≡ (if doomed (name, o) then p.errors ++ kept (api (deletion_of acc client o)) else p.errors)
  unfolding delete_child
  delete_child-errors name o p = ground (
    arith,
    settle_deletion-errors o (api (deletion_of acc client o))
        (record p { requests = p.requests ++ (deletion_of acc client o ∷ []) }),
  )

  settle_deletion-cache :
      (key : String) (o : Obj) (answer : Option Reason) (p : Progress)
      → lookup key (settle_deletion acc client api desired o answer p).cache ≡ (
          if not (is_some answer) && last_update_cache_key acc client o == key
          then none
          else lookup key p.cache)
  unfolding settle_deletion
  settle_deletion-cache key o none p =
      lookup-delete (last_update_cache_key acc client o) key p.cache
  settle_deletion-cache key o (some e) p = ground arith

  delete_child-cache :
      (key name : String) (o : Obj) (p : Progress)
      → lookup key (delete_child acc client api desired name o p).cache
        ≡ (if confirmed key (name, o) then none else lookup key p.cache)
  unfolding delete_child
  delete_child-cache key name o p = ground (
    arith,
    settle_deletion-cache key o (api (deletion_of acc client o))
        (record p { requests = p.requests ++ (deletion_of acc client o ∷ []) }),
  )

  pub any_confirmed : String → Dict String Obj → Bool
  any_confirmed key [] = false
  any_confirmed key (entry ∷ observed) = confirmed key entry || any_confirmed key observed

  -- Deletion is requested of every observed child that is neither being deleted nor desired, by its
  -- UID and of no other, whatever errors are met.
  pub delete_children-requests :
      (observed : Dict String Obj) (p : Progress)
      → (delete_children acc client api desired observed p).requests
        ≡ p.requests ++ deletions observed
  unfolding delete_children deletions
  delete_children-requests [] p = sym (append-nil p.requests)
  delete_children-requests ((name, o) ∷ observed) p =
      delete_children-requests observed (delete_child acc client api desired name o p)
      ∙ ground (
        arith,
        delete_child-requests name o p,
        append_assoc p.requests (deletion_of acc client o ∷ []) (deletions observed),
      )

  -- Of the answers to these requests every error is kept, in order, but for those that say that the
  -- child is gone.
  pub delete_children-errors :
      (observed : Dict String Obj) (p : Progress)
      → (delete_children acc client api desired observed p).errors ≡ p.errors ++ failures observed
  unfolding delete_children failures
  delete_children-errors [] p = sym (append-nil p.errors)
  delete_children-errors ((name, o) ∷ observed) p =
      delete_children-errors observed (delete_child acc client api desired name o p)
      ∙ ground (
        arith,
        delete_child-errors name o p,
        append_assoc p.errors (kept (api (deletion_of acc client o))) (failures observed),
      )

  -- A cache entry is forgotten where the deletion of a child that has its key is confirmed, and
  -- every other entry stays.
  pub delete_children-cache :
      (key : String) (observed : Dict String Obj) (p : Progress)
      → lookup key (delete_children acc client api desired observed p).cache
        ≡ (if any_confirmed key observed then none else lookup key p.cache)
  unfolding delete_children any_confirmed
  delete_children-cache key [] p = refl
  delete_children-cache key ((name, o) ∷ observed) p =
      delete_children-cache key observed (delete_child acc client api desired name o p)
      ∙ ground (arith, delete_child-cache key name o p)
