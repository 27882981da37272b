-- ===== src/Composite/Revisions/Stored.antt =====
-- Which calls bring the stored revisions to the desired ones.
use metacontroller.Prelude.{
  true, false, not, Option, none, some, List, [], ◌∷◌, string_eq, lookup, has, ◌≡◌, refl, In, All,
  inl, inr, ◌⊎◌, if-elim, arith,
}
use metacontroller.ControllerRef.{Reason}
use metacontroller.Composite.Revisions.{
  RevisionCall, deletes, updates, creates, Storage, Calls, by_name, call_then, delete_undesired,
  refreshed, store_one, store_desired, manage_revisions,
}

module _ {Rev : Type 0} (st : Storage Rev) (observed desired : List Rev) where
  -- A call that the two lists call for: the deletion, with its UID, of an observed revision that has no
  -- desired one of its name, the creation of a desired one that has no observed one of its name, or the
  -- update of an observed one from which the desired one differs.
  abbrev pub Wanted : RevisionCall Rev → Type 0
  Wanted (deletes name uid) =
      (r : Rev) × In r observed
      × (st.name r ≡ name)
      × (st.uid r ≡ uid)
      × (has name (by_name st desired []) ≡ false)
  Wanted (creates r) = In r desired × (lookup (st.name r) (by_name st observed []) ≡ none)
  Wanted (updates sent) =
      (r old : Rev) × In r desired
      × (lookup (st.name r) (by_name st observed []) ≡ some old)
      × (st.deep_equal old r ≡ false)
      × (sent ≡ refreshed st old r)

  -- A desired revision is as it was observed, or has been sent.
  abbrev pub Stored : List (RevisionCall Rev) → Rev → Type 0
  Stored calls r =
      ((lookup (st.name r) (by_name st observed []) ≡ none) × In (creates r) calls)
      ⊎ ((old : Rev) × (lookup (st.name r) (by_name st observed []) ≡ some old)
          × ((st.deep_equal old r ≡ true) ⊎ In (updates (refreshed st old r)) calls))

  abbrev AllWanted : Calls st → Type 0
  AllWanted r = All Wanted r.1

  call_then-Wanted :
      (call : RevisionCall Rev) (e : Option Reason) (rest : Calls st)
      → Wanted call
      → AllWanted rest
      → AllWanted (call_then st call e rest)
  unfolding call_then
  call_then-Wanted call (some e) rest w h = (w, tt)
  call_then-Wanted call none rest w h = (w, h)

  delete_undesired-Wanted :
      (revisions : List Rev) (rest : Calls st)
      → ((r : Rev) → In r revisions → In r observed)
      → AllWanted rest
      → AllWanted (delete_undesired st (by_name st desired []) revisions rest)
  unfolding delete_undesired
  delete_undesired-Wanted [] rest sub h = h
  delete_undesired-Wanted (r ∷ revisions) rest sub h =
      let later = delete_undesired-Wanted revisions rest (λ x m. sub x (inr m)) h in
      if-elim AllWanted (not (has (st.name r) (by_name st desired [])))
        (λ t.
          call_then-Wanted (deletes (st.name r) (st.uid r)) _ _
            (r, sub r (inl refl), refl, refl, ground (arith, t)) later)
        (λ f. later)

  store_one-Wanted :
      (r : Rev) (found : Option Rev) (rest : Calls st)
      → In r desired
      → lookup (st.name r) (by_name st observed []) ≡ found
      → AllWanted rest
      → AllWanted (store_one st r found rest)
  unfolding store_one
  store_one-Wanted r none rest m e h = call_then-Wanted (creates r) _ rest (m, e) h
  store_one-Wanted r (some old) rest m e h =
      if-elim AllWanted (st.deep_equal old r) (λ t. h)
        (λ f. call_then-Wanted (updates (refreshed st old r)) _ rest (r, old, m, e, f, refl) h)

  store_desired-Wanted :
      (revisions : List Rev)
      → ((r : Rev) → In r revisions → In r desired)
      → AllWanted (store_desired st (by_name st observed []) revisions)
  unfolding store_desired
  store_desired-Wanted [] sub = tt
  store_desired-Wanted (r ∷ revisions) sub =
      store_one-Wanted r (lookup (st.name r) (by_name st observed [])) _ (sub r (inl refl)) refl
        (store_desired-Wanted revisions (λ x m. sub x (inr m)))

  -- A run of calls that succeeds includes the calls of its rest, which succeeds too.
  abbrev Extends : Calls st → Calls st → Type 0
  Extends whole rest =
      whole.0 ≡ none → (rest.0 ≡ none) × ((c : RevisionCall Rev) → In c rest.1 → In c whole.1)

  call_then-Extends :
      (call : RevisionCall Rev) (e : Option Reason) (rest : Calls st)
      → Extends (call_then st call e rest) rest
  unfolding call_then
  call_then-Extends call (some e) rest h = cc h
  call_then-Extends call none rest h = (h, λ c m. inr m)

  call_then-In :
      (call : RevisionCall Rev) (e : Option Reason) (rest : Calls st)
      → In call (call_then st call e rest).1
  unfolding call_then
  call_then-In call (some e) rest = inl refl
  call_then-In call none rest = inl refl

  delete_undesired-Extends :
      (revisions : List Rev) (rest : Calls st)
      → Extends (delete_undesired st (by_name st desired []) revisions rest) rest
  unfolding delete_undesired
  delete_undesired-Extends [] rest = λ h. (h, λ c m. m)
  delete_undesired-Extends (r ∷ revisions) rest =
      let d = by_name st desired [] in
      let later = delete_undesired-Extends revisions rest in
      if-elim (λ (whole : Calls st). Extends whole rest) (not (has (st.name r) d))
        (λ t h.
          let (ended, keep) =
            call_then-Extends (deletes (st.name r) (st.uid r)) _
              (delete_undesired st d revisions rest) h in
          let (e, keep') = later ended in (e, λ c m. keep c (keep' c m)))
        (λ f. later)

  store_one-Extends :
      (r : Rev) (found : Option Rev) (rest : Calls st) → Extends (store_one st r found rest) rest
  unfolding store_one
  store_one-Extends r none rest = call_then-Extends (creates r) _ rest
  store_one-Extends r (some old) rest =
      if-elim (λ (whole : Calls st). Extends whole rest) (st.deep_equal old r)
        (λ t h. (h, λ c m. m)) (λ f. call_then-Extends (updates (refreshed st old r)) _ rest)

  store_one-Stored :
      (r : Rev) (found : Option Rev) (rest : Calls st)
      → lookup (st.name r) (by_name st observed []) ≡ found
      → Stored (store_one st r found rest).1 r
  unfolding store_one
  store_one-Stored r none rest e = inl (e, call_then-In (creates r) _ rest)
  store_one-Stored r (some old) rest e =
      if-elim (λ (whole : Calls st). Stored whole.1 r) (st.deep_equal old r)
        (λ t. inr (old, e, inl t))
        (λ f. inr (old, e, inr (call_then-In (updates (refreshed st old r)) _ rest)))

  Stored-more :
      (r : Rev) (some_calls more : List (RevisionCall Rev))
      → ((c : RevisionCall Rev) → In c some_calls → In c more)
      → Stored some_calls r
      → Stored more r
  Stored-more r some_calls more keep (inl (e, m)) = inl (e, keep (creates r) m)
  Stored-more r some_calls more keep (inr (old, e, inl t)) = inr (old, e, inl t)
  Stored-more r some_calls more keep (inr (old, e, inr m)) =
      inr (old, e, inr (keep (updates (refreshed st old r)) m))

  store_desired-Stored :
      (revisions : List Rev) (r : Rev)
      → In r revisions
      → (store_desired st (by_name st observed []) revisions).0 ≡ none
      → Stored (store_desired st (by_name st observed []) revisions).1 r
  unfolding store_desired
  store_desired-Stored [] r m h = absurd m
  store_desired-Stored (x ∷ revisions) r (inl e) h =
      rw (← e) (store_one-Stored x (lookup (st.name x) (by_name st observed [])) _ refl)
  store_desired-Stored (x ∷ revisions) r (inr m) h =
      let rest = store_desired st (by_name st observed []) revisions in
      let (ended, keep) =
        store_one-Extends x (lookup (st.name x) (by_name st observed [])) rest h in
      Stored-more r rest.1 _ keep (store_desired-Stored revisions r m ended)

  -- Whatever the API server refuses, every call is one that the observed and the desired revisions call
  -- for; and where none is refused, each desired revision is equal to the observed one of its name, or
  -- has been sent as its update, or has been created where none was observed.
  pub manage_revisions-Stored :
      All Wanted (manage_revisions st observed desired).1
      × ((manage_revisions st observed desired).0 ≡ none
          → (r : Rev) → In r desired
          → Stored (manage_revisions st observed desired).1 r)
  unfolding manage_revisions
  manage_revisions-Stored =
      let stores = store_desired st (by_name st observed []) desired in
      (
        delete_undesired-Wanted observed stores (λ r m. m)
            (store_desired-Wanted desired (λ r m. m)),
        λ h r m.
            let (ended, keep) = delete_undesired-Extends observed stores h in
            Stored-more r stores.1 _ keep (store_desired-Stored desired r m ended),
      )
