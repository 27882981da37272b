-- ===== src/Finalizers/Settled.antt =====
-- What the finalizer's operations guarantee.
use metacontroller.Prelude.{
  ℕ, String, true, false, List, [], ◌∷◌, ◌==◌, string_eq, bool_eq, Result, ok, is_some, ◌≡◌, arith,
  inl, inr, ◌⊎◌, ◌↔◌, In, if-elim,
}
use metacontroller.Objects.{Accessors}
use metacontroller.ControllerRef.{Reason}
use metacontroller.Clientset.{
  Server, FinalizerUtil, IsFinalizerUtil, client_add_finalizer, client_remove_finalizer,
  atomic_update, adding, removing,
}
use metacontroller.Clientset.Atomic.{Done, retried-Done}
use metacontroller.Finalizers.{Finalizer, has_gc_item, should_finalize, sync_object}

has_gc_item_iff :
    (items : List String)
    → (has_gc_item items ≡ true) ↔ (In "foregroundDeletion" items ⊎ In "orphan" items)
unfolding has_gc_item
has_gc_item_iff [] = ground arith
has_gc_item_iff (item ∷ items) = ground (
  arith,
  has_gc_item_iff items,
  string_eq.same_iff item "foregroundDeletion",
  string_eq.same_iff item "orphan",
)

module _ {Obj : Type 0} (acc : Accessors Obj) (util : FinalizerUtil Obj) (m : Finalizer) where
  -- A parent that is being deleted is finalized exactly if the controller's finalizer is enabled and
  -- still on it, and the garbage collector has none of its own there.
  pub should_finalize_iff :
      (parent : Obj)
      → (should_finalize acc util m parent ≡ true) ↔ (
          (m.enabled ≡ true)
          × (util.contains_finalizer parent m.name ≡ true)
          × (In "foregroundDeletion" (acc.finalizers parent) → ⊥)
          × (In "orphan" (acc.finalizers parent) → ⊥))
  unfolding should_finalize
  should_finalize_iff parent = ground (arith, has_gc_item_iff (acc.finalizers parent))

  -- The API server stores the finalizers that it is sent.
  abbrev pub KeepsFinalizers : Server Obj → Type 0
  KeepsFinalizers server =
      (n : ℕ) (o stored : Obj)
      → server.update n o ≡ ok stored
      → util.contains_finalizer stored m.name ≡ util.contains_finalizer o m.name

  added-Done :
      (server : Server Obj) (o r : Obj)
      → IsFinalizerUtil util
      → KeepsFinalizers server
      → Done acc server server.update o (adding acc util server m.name) r
      → util.contains_finalizer r m.name ≡ true
  added-Done server o r u k (inl (e, same)) = ground (arith, e)
  added-Done server o r u k (inr (n, current, sent, e, p)) =
      ground (arith, e, k n sent r p, u.added current m.name)

  removed-Done :
      (server : Server Obj) (o r : Obj)
      → IsFinalizerUtil util
      → KeepsFinalizers server
      → Done acc server server.update o (removing acc util server m.name) r
      → util.contains_finalizer r m.name ≡ false
  removed-Done server o r u k (inl (e, same)) = ground (arith, e)
  removed-Done server o r u k (inr (n, current, sent, e, p)) =
      ground (arith, e, k n sent r p, u.removed current m.name)

  abbrev pub Settled : Obj → Obj → Type 0
  Settled o r =
      (util.contains_finalizer r m.name ≡ m.enabled)
      ⊎ ((r ≡ o) × (m.enabled ≡ true) × (is_some (acc.deletion_timestamp o) ≡ true))

  abbrev Settles : Obj → Obj → Result Reason Obj → Type 0
  Settles o r result = result ≡ ok r → Settled o r

  -- Where SyncObject succeeds, the object that it returns has the finalizer exactly if it is enabled, or
  -- it is the given one, which is being deleted and so gets none; provided that the API server stores
  -- the finalizers that it is sent.
  pub sync_object-Settled :
      (server : Server Obj) (o r : Obj)
      → IsFinalizerUtil util
      → KeepsFinalizers server
      → sync_object acc util m server o ≡ ok r
      → Settled o r
  unfolding sync_object client_add_finalizer client_remove_finalizer atomic_update
  sync_object-Settled server o r u k =
      if-elim (Settles o r) (util.contains_finalizer o m.name == m.enabled)
        (λ same h. inl (
          let e : o ≡ r = cc h in
          rw (← e) ((bool_eq.same_iff (util.contains_finalizer o m.name) m.enabled).0 same)))
        (λ other.
          if-elim (Settles o r) m.enabled
            (λ on.
              if-elim (Settles o r) (is_some (acc.deletion_timestamp o))
                (λ pending h. inr (cc h, on, pending))
                (λ there h. inl (
                  rw on (
                    added-Done server o r u k (
                      retried-Done acc server server.update o (adding acc util server m.name) r
                        h)))))
            (λ off h. inl (
              rw off (
                removed-Done server o r u k (
                  retried-Done acc server server.update o (removing acc util server m.name) r h)))))
