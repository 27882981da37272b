-- ===== src/Composite/Claims/Justified.antt =====
-- The calls that claiming all kinds of children makes.
use metacontroller.Prelude.{
  Bool, true, false, none, some, List, [], ◌∷◌, ◌==◌, string_eq, ◌≡◌, refl, Result, ok, err,
  is_some, All, All-map, All-append, Bool-cases, Option-cases, none-is_some, inl, inr,
}
use metacontroller.Names.{Gvk}
use metacontroller.Objects.{OwnerReference, Accessors}
use metacontroller.ObjectMap.{ObjectMap}
use metacontroller.ControllerRef.{Reason, Call, adopting, releasing, State, initial, claim_children}
use metacontroller.ControllerRef.Claims.{Justified, initial-IsSafe, claim_children-IsSafe}
use metacontroller.Composite.Claims.{
  ClaimError, ChildResource, Sources, Claiming, recheck, manager, candidates, add_claimed,
  claim_listed, claim_kind, then_kinds, claim_kinds,
}

module _ {Obj : Type 0} (acc : Accessors Obj) (src : Sources Obj) (matches : Obj → Bool)
    (parent : Obj) where
  -- An uncached read has found the parent with its UID and not being deleted.
  abbrev pub FoundAlive : Type 0
  FoundAlive =
      (fresh : Obj) × (src.live_parent ≡ ok fresh)
      × (acc.uid fresh ≡ acc.uid parent)
      × (acc.deletion_timestamp fresh ≡ none)

  -- A call that the parent may make: neither it nor the object is being deleted where it adopts an
  -- orphan that matches, and it is alive at its last uncached read; it releases an object that it
  -- controls and that does not match.
  abbrev pub Granted : Call Obj → Type 0
  Granted (adopting o) =
      (src.controller_of o ≡ none)
      × (acc.deletion_timestamp parent ≡ none)
      × (matches o ≡ true)
      × (acc.deletion_timestamp o ≡ none)
      × FoundAlive
  Granted (releasing o) =
      ((ref : OwnerReference) × (src.controller_of o ≡ some ref) × (ref.uid ≡ acc.uid parent))
      × (acc.deletion_timestamp parent ≡ none)
      × (matches o ≡ false)

  recheck-FoundAlive :
      (live : Result Reason Obj)
      → src.live_parent ≡ live
      → recheck acc live parent ≡ none
      → FoundAlive
  unfolding recheck
  recheck-FoundAlive (err e) same h = cc h
  recheck-FoundAlive (ok fresh) same h =
      let u = string_eq.same_iff (acc.uid fresh) (acc.uid parent) in
      elim (Bool-cases (acc.uid fresh == acc.uid parent)) [
        | inr f ↦ cc (rw (recheck, f) at h)
        | inl t ↦ elim (Bool-cases (is_some (acc.deletion_timestamp fresh))) [
          | inl d ↦ cc (rw (recheck, t, d) at h)
          | inr d ↦ (fresh, same, u.0 t, none-is_some (acc.deletion_timestamp fresh) d)
        ]
      ]

  Justified-Granted :
      (call : Call Obj) → Justified acc (manager acc src matches parent) call → Granted call
  Justified-Granted (adopting o) (c, d, m, t, v) =
      (c, d, m, t, recheck-FoundAlive src.live_parent refl v)
  Justified-Granted (releasing o) j = j

  abbrev AllGranted : List (Call Obj) → Type 0
  AllGranted calls = All Granted calls

  add_claimed-Justified :
      (gvk : Gvk) (r : (List Obj × List Reason) × State Obj) (claiming : Claiming Obj)
      → AllGranted r.1.calls
      → AllGranted claiming.1
      → AllGranted (add_claimed acc src matches parent gvk r claiming).1
  unfolding add_claimed
  add_claimed-Justified gvk ((claimed, []), s) (m, calls) h g = All-append Granted calls s.calls g h
  add_claimed-Justified gvk ((claimed, e ∷ errors), s) (m, calls) h g =
      All-append Granted calls s.calls g h

  claim_listed-Justified :
      (gvk : Gvk) (listed : Result ClaimError (List Obj)) (claiming : Claiming Obj)
      → AllGranted claiming.1
      → AllGranted (claim_listed acc src matches parent gvk listed claiming).1
  unfolding claim_listed
  claim_listed-Justified gvk (err e) (m, calls) g = g
  claim_listed-Justified gvk (ok all) (m, calls) g =
      let p = manager acc src matches parent in
      add_claimed-Justified gvk (claim_children acc p all initial) (m, calls)
        (All-map (claim_children acc p all initial).1.calls Justified-Granted
          (claim_children-IsSafe acc p all initial (initial-IsSafe acc p)).calls)
        g

  claim_kind-Justified :
      (child : ChildResource) (claiming : Claiming Obj)
      → AllGranted claiming.1
      → AllGranted (claim_kind acc src matches parent child claiming).1
  unfolding claim_kind
  claim_kind-Justified child (m, calls) g = elim (Option-cases (src.client child)) [
    | inl e ↦ rw (claim_kind, e) g
    | inr (gvk, e) ↦ elim (Option-cases (src.informer child)) [
      | inl i ↦ rw (claim_kind, e, i) g
      | inr (indexer, i) ↦
          rw (claim_kind, e, i)
            (claim_listed-Justified gvk (candidates acc src matches parent indexer) (m, calls) g)
    ]
  ]

  then_kinds-Justified :
      (rest : Claiming Obj → Result ClaimError (ObjectMap Obj) × List (Call Obj))
      (r : Result ClaimError (ObjectMap Obj) × List (Call Obj))
      → ((claiming : Claiming Obj) → AllGranted claiming.1 → AllGranted (rest claiming).1)
      → AllGranted r.1
      → AllGranted (then_kinds acc src matches parent rest r).1
  unfolding then_kinds
  then_kinds-Justified rest (err e, calls) h g = g
  then_kinds-Justified rest (ok m, calls) h g = h (m, calls) g

  -- Whatever is cached, listed and answered, for every kind of children: each adoption that claiming
  -- asks the API server for is of an orphan that matches and is not being deleted, for a parent that an
  -- uncached read has found with its UID and that is not being deleted in the cache or there; each
  -- release is of an object that the parent controls and that does not match.
  pub claim_kinds-Justified :
      (kinds : List ChildResource) (claiming : Claiming Obj)
      → AllGranted claiming.1
      → AllGranted (claim_kinds acc src matches parent kinds claiming).1
  unfolding claim_kinds
  claim_kinds-Justified [] (m, calls) g = g
  claim_kinds-Justified (child ∷ kinds) claiming g =
      then_kinds-Justified (claim_kinds acc src matches parent kinds)
        (claim_kind acc src matches parent child claiming) (claim_kinds-Justified kinds)
        (claim_kind-Justified child claiming g)
