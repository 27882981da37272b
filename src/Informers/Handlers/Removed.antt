-- ===== src/Informers/Handlers/Removed.antt =====
-- Which handlers an event reaches after some have been added and removed.
use metacontroller.Prelude.{
  ℕ, false, not, none, List, [], ◌∷◌, ◌++◌, ◌==◌, nat_eq, if◌then◌else◌, Dict, lookup, get_or,
  select, ◌≡◌, refl, In, In-append_left, In-append_right, inl, inr, ◌⊎◌, ◌↔◌, Bool-cases, arith,
  lookup-delete, UniqueKeys, delete-UniqueKeys, ap, contains, map, ◌&&◌,
}
use metacontroller.Informers.Handlers.{
  Event, EventHandler, SharedEventHandler, stop_timer, stop_all, remove_handlers, deliver,
  broadcast,
}

contains-select_other :
    (id other : ℕ) (ids : List ℕ)
    → contains id (select (λ x. not (x == other)) ids) ≡ (contains id ids && not (other == id))
unfolding contains select
contains-select_other id other [] = refl
contains-select_other id other (x ∷ ids) = ground (
  arith,
  contains-select_other id other ids,
  nat_eq.same_iff x other,
  nat_eq.same_iff x id,
  nat_eq.same_iff other id,
)

abbrev pub Reaches : ℕ → Dict ℕ (List EventHandler) → Type 0
Reaches target dict =
    (wrapper : ℕ) × (eh : EventHandler) × In eh (get_or [] wrapper dict) × (eh.target ≡ target)

later :
    (target wrapper : ℕ) (handlers : List EventHandler) (dict : Dict ℕ (List EventHandler))
    → lookup wrapper dict ≡ none
    → Reaches target dict
    → Reaches target ((wrapper, handlers) ∷ dict)
unfolding lookup
later target wrapper handlers dict absent (other, eh, m, e) = elim (Bool-cases (wrapper == other)) [
  | inr f ↦ (other, eh, rw (lookup, f) m, e)
  | inl t ↦ let same = (nat_eq.same_iff wrapper other).0 t in absurd (rw (← same, absent) at m)
]

module _ {Obj : Type 0} where
  -- A handler with the target is registered through a subscription.
  abbrev pub Registered : ℕ → ℕ → SharedEventHandler Obj → Type 0
  Registered wrapper target seh =
      (eh : EventHandler) × In eh (get_or [] wrapper seh.handlers) × (eh.target ≡ target)

  stop_all-handlers :
      (handlers : List EventHandler) (seh : SharedEventHandler Obj)
      → (stop_all handlers seh).handlers ≡ seh.handlers
  unfolding stop_all
  stop_all-handlers [] seh = refl
  stop_all-handlers (eh ∷ handlers) seh = stop_all-handlers handlers (stop_timer eh seh)

  remove_handlers-lookup :
      (wrapper other : ℕ) (seh : SharedEventHandler Obj)
      → get_or [] other (remove_handlers wrapper seh).handlers
        ≡ (if wrapper == other then [] else get_or [] other seh.handlers)
  unfolding remove_handlers
  remove_handlers-lookup wrapper other seh =
      rw (stop_all-handlers (get_or [] wrapper seh.handlers) seh)
        (ground (arith, lookup-delete wrapper other seh.handlers))

  deliver-In :
      (event : Event Obj) (target : ℕ) (handlers : List EventHandler)
      → In (target, event) (deliver event handlers)
        ↔ ((eh : EventHandler) × In eh handlers × (eh.target ≡ target))
  unfolding deliver
  deliver-In event target [] = (λ m. absurd m, λ (eh, m, e). absurd m)
  deliver-In event target (x ∷ handlers) =
      let (into, from) = deliver-In event target handlers in
      (
        λ m. elim m [
          | inl e ↦ (x, inl refl, ap (λ (d : ℕ × Event Obj). d.0) e)
          | inr n ↦ let (eh, there, e) = into n in (eh, inr there, e)
        ],
        λ (eh, m, e). elim m [ inl same ↦ inl (cc (same, e)) | inr n ↦ inr (from (eh, n, e)) ],
      )

  In-append :
      (d : ℕ × Event Obj) (xs ys : List (ℕ × Event Obj)) → In d (xs ++ ys) → In d xs ⊎ In d ys
  In-append d [] ys m = inr m
  In-append d (x ∷ xs) ys (inl e) = inl (inl e)
  In-append d (x ∷ xs) ys (inr m) = elim (In-append d xs ys m) [
    | inl n ↦ inl (inr n)
    | inr n ↦ inr n
  ]

  broadcast-Reaches :
      (event : Event Obj) (target : ℕ) (dict : Dict ℕ (List EventHandler))
      → UniqueKeys dict
      → In (target, event) (broadcast event dict)
      → Reaches target dict
  unfolding broadcast lookup
  broadcast-Reaches event target [] u m = absurd m
  broadcast-Reaches event target ((wrapper, handlers) ∷ dict) u m =
      elim (In-append (target, event) (deliver event handlers) (broadcast event dict) m) [
        | inr n ↦ later target wrapper handlers dict u.0 (broadcast-Reaches event target dict u.1 n)
        | inl n ↦
            let (eh, there, e) = (deliver-In event target handlers).0 n in
            (wrapper, eh, rw (lookup, (nat_eq.same_iff wrapper wrapper).1 refl) there, e)
      ]

  Reaches-broadcast :
      (event : Event Obj) (wrapper : ℕ) (eh : EventHandler) (dict : Dict ℕ (List EventHandler))
      → In eh (get_or [] wrapper dict)
      → In (eh.target, event) (broadcast event dict)
  unfolding broadcast lookup
  Reaches-broadcast event wrapper eh [] m = absurd m
  Reaches-broadcast event wrapper eh ((other, handlers) ∷ dict) m =
      elim (Bool-cases (other == wrapper)) [
        | inl t ↦
            In-append_left (eh.target, event) (deliver event handlers) (broadcast event dict)
              ((deliver-In event eh.target handlers).1 (eh, rw (lookup, t) at m, refl))
        | inr f ↦
            In-append_right (eh.target, event) (deliver event handlers) (broadcast event dict)
              (Reaches-broadcast event wrapper eh dict (rw (lookup, f) at m))
      ]

  remove_handlers-UniqueKeys :
      (wrapper : ℕ) (seh : SharedEventHandler Obj)
      → UniqueKeys seh.handlers
      → UniqueKeys (remove_handlers wrapper seh).handlers
  unfolding remove_handlers
  remove_handlers-UniqueKeys wrapper seh u =
      rw (stop_all-handlers (get_or [] wrapper seh.handlers) seh)
        (delete-UniqueKeys wrapper seh.handlers u)

  -- Once a subscription has removed its handlers, an event reaches a handler exactly if that was
  -- registered through another subscription; no key stands twice in the map, as in every Go map.
  pub broadcast-remove_handlers :
      (event : Event Obj) (wrapper target : ℕ) (seh : SharedEventHandler Obj)
      → UniqueKeys seh.handlers
      → In (target, event) (broadcast event (remove_handlers wrapper seh).handlers)
        ↔ ((other : ℕ) × ((wrapper == other) ≡ false) × Registered other target seh)
  broadcast-remove_handlers event wrapper target seh u = (
    λ m.
        let (other, eh, there, e) =
          broadcast-Reaches event target (remove_handlers wrapper seh).handlers
            (remove_handlers-UniqueKeys wrapper seh u) m in
        elim (Bool-cases (wrapper == other)) [
          | inl t ↦ absurd (rw (remove_handlers-lookup wrapper other seh, t) at there)
          | inr f ↦ (other, f, (eh, rw (remove_handlers-lookup wrapper other seh, f) at there, e))
        ],
    λ (other, f, (eh, there, e)). rw (← e) (
        Reaches-broadcast event other eh (remove_handlers wrapper seh).handlers
          (rw (remove_handlers-lookup wrapper other seh, f) there)),
  )

  -- Removing the handlers of a subscription stops their timers, and no others.
  pub stop_all-ticking :
      (id : ℕ) (handlers : List EventHandler) (seh : SharedEventHandler Obj)
      → contains id (stop_all handlers seh).ticking
        ≡ (contains id seh.ticking && not (contains id (map (λ eh. eh.id) handlers)))
  unfolding stop_all contains
  stop_all-ticking id [] seh = ground arith
  stop_all-ticking id (eh ∷ handlers) seh = ground (
    arith,
    stop_all-ticking id handlers (stop_timer eh seh),
    contains-select_other id eh.id seh.ticking,
    nat_eq.same_iff eh.id id,
  )
