-- ===== src/Manage/Cache.antt =====
-- When a server-side apply is skipped.
use metacontroller.Prelude.{
  ℕ, String, false, not, some, ◌==◌, string_eq, nat_eq, lookup, lookup-insert_self, ◌≡◌, sym,
  Option-cases, inl, inr, Bool-cases, ◌↔◌, arith,
}
use metacontroller.Json.{pos}
use metacontroller.Objects.{Accessors}
use metacontroller.Manage.{
  LastUpdate, Cache, Client, outdated, is_cache_invalid, set_last_update, int_eq,
}

module _ {Obj : Type 0} (acc : Accessors Obj) (client : Client) where
  -- The entry is of this very object, at its generation, and of what is desired now; for an object
  -- without generations it is of its resource version.
  abbrev pub Fresh : LastUpdate → Obj → ℕ → Type 0
  Fresh last o desired_hash =
      (last.uid ≡ acc.uid o)
      × (last.hash ≡ desired_hash)
      × (last.resourcegeneration ≡ acc.generation o)
      × (acc.generation o ≡ pos 0 → last.resourceversion ≡ acc.resource_version o)

  outdated-Fresh :
      (last : LastUpdate) (o : Obj) (desired_hash : ℕ)
      → outdated acc client last o desired_hash ≡ false
      → Fresh last o desired_hash
  unfolding outdated
  outdated-Fresh last o desired_hash e =
      let u = string_eq.same_iff last.uid (acc.uid o) in
      let h = nat_eq.same_iff last.hash desired_hash in
      let z = int_eq.same_iff (acc.generation o) (pos 0) in
      let v = string_eq.same_iff (acc.resource_version o) last.resourceversion in
      let g = int_eq.same_iff last.resourcegeneration (acc.generation o) in
      (
        u.0 (ground (arith, e)),
        h.0 (ground (arith, e)),
        g.0 (ground (arith, e)),
        λ zero. sym (v.0 (ground (arith, e, z.1 zero))),
      )

  Fresh-outdated :
      (last : LastUpdate) (o : Obj) (desired_hash : ℕ)
      → Fresh last o desired_hash
      → outdated acc client last o desired_hash ≡ false
  unfolding outdated
  Fresh-outdated last o desired_hash (same_uid, same_hash, same_generation, same_version) =
      let u = (string_eq.same_iff last.uid (acc.uid o)).1 same_uid in
      let h = (nat_eq.same_iff last.hash desired_hash).1 same_hash in
      let g = (int_eq.same_iff last.resourcegeneration (acc.generation o)).1 same_generation in
      elim (Bool-cases (acc.generation o == pos 0)) [
        | inr f ↦ ground (arith, u, h, g, f)
        | inl z ↦
            let v =
              (string_eq.same_iff (acc.resource_version o) last.resourceversion).1
                (sym (same_version ((int_eq.same_iff (acc.generation o) (pos 0)).0 z))) in
            ground (arith, u, h, g, z, v)
      ]

  -- The cache is valid for an object where it has an entry that is fresh, and nowhere else.
  pub is_cache_invalid_iff :
      (cache : Cache) (key : String) (o : Obj) (desired_hash : ℕ)
      → (is_cache_invalid acc client cache key o desired_hash ≡ false)
        ↔ ((last : LastUpdate) × (lookup key cache ≡ some last) × Fresh last o desired_hash)
  unfolding is_cache_invalid
  is_cache_invalid_iff cache key o desired_hash = elim (Option-cases (lookup key cache)) [
    | inl e ↦ (λ h. cc (rw (e, is_cache_invalid) at h), λ (last, found, _). cc (e, found))
    | inr (last, e) ↦ (
      λ h. (last, e, outdated-Fresh last o desired_hash (rw (e, is_cache_invalid) at h)),
      λ (last', found, fresh).
          rw (is_cache_invalid, found) (Fresh-outdated last' o desired_hash fresh),
    )
  ]

  -- What was just stored for an object makes the cache valid for that object and that hash, and for
  -- no other hash.
  pub is_cache_invalid-set_last_update :
      (cache : Cache) (key : String) (o : Obj) (hash desired_hash : ℕ)
      → is_cache_invalid acc client (set_last_update acc client key hash o cache) key o desired_hash
        ≡ not (hash == desired_hash)
  unfolding is_cache_invalid set_last_update outdated
  is_cache_invalid-set_last_update cache key o hash desired_hash =
      let last : LastUpdate = record {
        hash = hash;
        resourcegeneration = acc.generation o;
        resourceversion = acc.resource_version o;
        uid = acc.uid o;
      } in
      rw (set_last_update, is_cache_invalid, lookup-insert_self key last cache)
        (ground (
          arith,
          string_eq.same_iff (acc.uid o) (acc.uid o),
          int_eq.same_iff (acc.generation o) (acc.generation o),
          string_eq.same_iff (acc.resource_version o) (acc.resource_version o),
        ))
