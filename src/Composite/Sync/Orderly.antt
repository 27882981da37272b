-- ===== src/Composite/Sync/Orderly.antt =====
-- The order of what a sync does, and what justifies each act.
use metacontroller.Prelude.{
  ℕ, ◌≤◌, ◌<◌, Bool, true, false, not, ◌||◌, Option, none, some, List, [], ◌∷◌, ◌++◌, Result, ok,
  err, if◌then◌else◌, ◌≡◌, refl, inl, inr, ◌⊎◌, arith, if-elim, is_some, ltb, Option-cases,
}
use metacontroller.ObjectMap.{ObjectMap, make_object_map, qualified_name}
use metacontroller.Composite.Queue.{SyncError, Log, enqueue_parent_object_after}
use metacontroller.Composite.Sync.{
  Labels, Act, syncs_finalizer, claims, asks_related, syncs_revisions, removes_finalizer, manages,
  updates_status, SyncResult, Parts, Run, act, ignored, update_parent_status, reconcile,
  enforce_selector, enforce_and_reconcile, finish, after_revisions, after_related, after_claims,
  after_finalizer, sync_parent_object,
}
use metacontroller.Composite.Sync.Managed.{KeepsLabels, MatchesAll, enforce_labels-Matches}

-- The place of an act.
abbrev pub stage : {Obj Related Status : Type 0} → Act Obj Related Status → ℕ
stage (syncs_finalizer parent) = 0
stage (claims parent) = 1
stage (asks_related parent) = 2
stage (syncs_revisions parent observed related) = 3
stage (removes_finalizer parent) = 4
stage (manages parent observed desired) = 5
stage (updates_status parent status) = 6

module _ {Obj Related Status : Type 0} (p : Parts Obj Related Status) where
  -- What an act rests on: parents are ours, the hook sees what was claimed and what is related, and
  -- children are managed only for a parent that is alive or is to be finalized, with all the desired ones
  -- matching its selector and with the observed ones as they were claimed.
  abbrev pub Justified : Act Obj Related Status → Type 0
  Justified (syncs_finalizer parent) = ignored p parent ≡ false
  Justified (claims parent) = ignored p parent ≡ false
  Justified (asks_related parent) = (observed : ObjectMap Obj) × (p.claim parent ≡ ok observed)
  Justified (syncs_revisions parent observed related) =
      (p.claim parent ≡ ok observed) × (p.related parent ≡ ok related)
  Justified (removes_finalizer parent) = Unit
  Justified (manages parent observed desired) =
      (not (is_some (p.acc.deletion_timestamp parent)) || p.should_finalize parent ≡ true)
      × ((claimed : Obj) × (p.claim claimed ≡ ok observed))
      × ((selector : Labels → Bool) × (p.selector parent ≡ some selector)
          × MatchesAll p selector desired)
  Justified (updates_status parent status) = Unit

  -- Justified acts of increasing stages, all below a bound.
  pub data Orderly : ℕ → List (Act Obj Related Status) → Type 0 where
    nothing : (n : ℕ) → Orderly n []
    and_then :
        (n m : ℕ) (acts : List (Act Obj Related Status)) (a : Act Obj Related Status)
        → Orderly n acts
        → n ≤ stage a
        → stage a < m
        → Justified a
        → Orderly m (acts ++ (a ∷ []))

  widen : (n m : ℕ) (acts : List (Act Obj Related Status)) → n ≤ m → Orderly n acts → Orderly m acts
  widen n m _ le (nothing _) = nothing m
  widen n m _ le (and_then k _ acts a o lower upper j) =
      and_then k m acts a o lower (omega (arith, le, upper)) j

  -- How a sync ends: before any child is managed, or with the update of the status as the last act.
  abbrev pub Ends : List (Act Obj Related Status) → Type 0
  Ends acts =
      Orderly 5 acts
      ⊎ ((parent : Obj) × (status : Status) × (before : List (Act Obj Related Status)) × (acts
            ≡ before ++ (updates_status parent status ∷ []))
          × Orderly 6 before)

  abbrev RunEnds : Run p → Type 0
  RunEnds r = Ends r.1.acts

  reconcile-Ends :
      (parent : Obj) (observed : ObjectMap Obj) (status : Status)
      (checked : Result SyncError (ObjectMap Obj)) (log : Log Obj (Act Obj Related Status))
      → (claimed : Obj) → p.claim claimed ≡ ok observed
      → ((desired : ObjectMap Obj)
          → checked ≡ ok desired
          → (selector : Labels → Bool) × (p.selector parent ≡ some selector)
            × MatchesAll p selector desired)
      → Orderly 5 log.acts
      → RunEnds (reconcile p parent observed status checked log)
  unfolding reconcile update_parent_status
  reconcile-Ends parent observed status (err e) log claimed c matching o = inl o
  reconcile-Ends parent observed status (ok desired) log claimed c matching o =
      if-elim RunEnds (not (is_some (p.acc.deletion_timestamp parent)) || p.should_finalize parent)
        (λ alive. inr (
          parent,
          status,
          log.acts ++ (manages parent observed desired ∷ []),
          refl,
          and_then 5 6 log.acts (manages parent observed desired) o (omega arith) (omega arith)
              (alive, (claimed, c), matching desired refl),
        ))
        (λ dead. inr (parent, status, log.acts, refl, widen 5 6 log.acts (omega arith) o))

  enforce_selector-Matches :
      (parent : Obj) (selector : Option (Labels → Bool)) (desired checked : ObjectMap Obj)
      → KeepsLabels p
      → p.selector parent ≡ selector
      → enforce_selector p parent selector desired ≡ ok checked
      → (selector : Labels → Bool) × (p.selector parent ≡ some selector)
        × MatchesAll p selector checked
  unfolding enforce_selector
  enforce_selector-Matches parent none desired checked keeps e h = cc
  enforce_selector-Matches parent (some selector) desired checked keeps e h =
      (selector, e, enforce_labels-Matches p parent selector desired checked keeps h)

  enforce_and_reconcile-Ends :
      (observed : ObjectMap Obj) (status : Status) (desired : ObjectMap Obj)
      (updated : Result SyncError Obj) (log : Log Obj (Act Obj Related Status)) (claimed : Obj)
      → KeepsLabels p
      → p.claim claimed ≡ ok observed
      → Orderly 5 log.acts
      → RunEnds (enforce_and_reconcile p observed status desired updated log)
  unfolding enforce_and_reconcile
  enforce_and_reconcile-Ends observed status desired (err e) log claimed keeps c o = inl o
  enforce_and_reconcile-Ends observed status desired (ok parent) log claimed keeps c o =
      reconcile-Ends parent observed status (enforce_selector p parent (p.selector parent) desired)
        log claimed c
        (λ checked. enforce_selector-Matches parent (p.selector parent) desired checked keeps refl)
        o

  finish-Ends :
      (parent : Obj) (observed : ObjectMap Obj) (status : Status) (desired : ObjectMap Obj)
      (finalized : Bool) (log : Log Obj (Act Obj Related Status))
      → KeepsLabels p
      → p.claim parent ≡ ok observed
      → Orderly 4 log.acts
      → RunEnds (finish p parent observed status desired finalized log)
  unfolding finish
  finish-Ends parent observed status desired true log keeps c o =
      enforce_and_reconcile-Ends observed status desired (p.remove_finalizer parent)
        (act p (removes_finalizer parent) log) parent keeps c
        (and_then 4 5 log.acts (removes_finalizer parent) o (omega arith) (omega arith) tt)
  finish-Ends parent observed status desired false log keeps c o =
      enforce_and_reconcile-Ends observed status desired (ok parent) log parent keeps c
        (widen 4 5 log.acts (omega arith) o)

  delay_keeps :
      (parent : Obj) (delay : ℕ) (log : Log Obj (Act Obj Related Status))
      → Orderly 4 log.acts
      → Orderly 4
          (if ltb 0 delay then enqueue_parent_object_after p.out parent delay log else log).acts
  unfolding enqueue_parent_object_after
  delay_keeps parent delay log o =
      if-elim (λ (l : Log Obj (Act Obj Related Status)). Orderly 4 l.acts) (ltb 0 delay)
        (λ t. elim (Option-cases (p.out.key_func parent)) [
          | inl e ↦ rw (enqueue_parent_object_after, e) o
          | inr (key, e) ↦ rw (enqueue_parent_object_after, e) o
        ])
        (λ f. o)

  after_revisions-Ends :
      (parent : Obj) (observed : ObjectMap Obj)
      (result : Result SyncError (Option (SyncResult Obj Status)))
      (log : Log Obj (Act Obj Related Status))
      → KeepsLabels p
      → p.claim parent ≡ ok observed
      → Orderly 4 log.acts
      → RunEnds (after_revisions p parent observed result log)
  unfolding after_revisions
  after_revisions-Ends parent observed (err e) log keeps c o =
      inl (widen 4 5 log.acts (omega arith) o)
  after_revisions-Ends parent observed (ok none) log keeps c o =
      inl (widen 4 5 log.acts (omega arith) o)
  after_revisions-Ends parent observed (ok (some result)) log keeps c o =
      finish-Ends parent observed result.status
        (make_object_map p.acc (qualified_name p.acc) parent result.children) result.finalized _
        keeps c (delay_keeps parent result.resync_after log o)

  after_related-Ends :
      (parent : Obj) (observed : ObjectMap Obj) (related : Result SyncError Related)
      (log : Log Obj (Act Obj Related Status))
      → KeepsLabels p
      → p.claim parent ≡ ok observed
      → p.related parent ≡ related
      → Orderly 3 log.acts
      → RunEnds (after_related p parent observed related log)
  unfolding after_related
  after_related-Ends parent observed (err e) log keeps c r o =
      inl (widen 3 5 log.acts (omega arith) o)
  after_related-Ends parent observed (ok related) log keeps c r o =
      after_revisions-Ends parent observed (p.sync_revisions parent observed related)
        (act p (syncs_revisions parent observed related) log) keeps c
        (and_then 3 4 log.acts (syncs_revisions parent observed related) o (omega arith)
          (omega arith) (c, r))

  after_claims-Ends :
      (parent : Obj) (claimed : Result SyncError (ObjectMap Obj))
      (log : Log Obj (Act Obj Related Status))
      → KeepsLabels p
      → p.claim parent ≡ claimed
      → Orderly 2 log.acts
      → RunEnds (after_claims p parent claimed log)
  unfolding after_claims
  after_claims-Ends parent (err e) log keeps c o = inl (widen 2 5 log.acts (omega arith) o)
  after_claims-Ends parent (ok observed) log keeps c o =
      after_related-Ends parent observed (p.related parent) (act p (asks_related parent) log) keeps
        c refl
        (and_then 2 3 log.acts (asks_related parent) o (omega arith) (omega arith) (observed, c))

  after_finalizer-Ends :
      (updated : Result SyncError Obj) (log : Log Obj (Act Obj Related Status))
      → KeepsLabels p
      → Orderly 1 log.acts
      → RunEnds (after_finalizer p updated log)
  unfolding after_finalizer
  after_finalizer-Ends (err e) log keeps o = inl (widen 1 5 log.acts (omega arith) o)
  after_finalizer-Ends (ok parent) log keeps o =
      if-elim RunEnds (ignored p parent) (λ none_of_ours. inl (widen 1 5 log.acts (omega arith) o))
        (λ ours.
          after_claims-Ends parent (p.claim parent) (act p (claims parent) log) keeps refl
            (and_then 1 2 log.acts (claims parent) o (omega arith) (omega arith) ours))

  -- Whatever the components answer, a sync goes through its stages in order, each at most once: the
  -- finalizer first, then the claims, the related objects and the hook, then the removal of the finalizer.
  -- It ends before any child is managed, or with the update of the parent's status as its last act. It
  -- manages children only for a parent that is alive or to be finalized, with the observed children as
  -- claimed and with desired ones that all match its selector. Labels that are set are read back.
  pub sync_parent_object-Ends :
      (parent : Obj) (log : Log Obj (Act Obj Related Status))
      → KeepsLabels p
      → log.acts ≡ []
      → Ends (sync_parent_object p parent log).1.acts
  unfolding sync_parent_object
  sync_parent_object-Ends parent log keeps e =
      let none_yet : Orderly 0 log.acts = rw e (nothing 0) in
      if-elim RunEnds p.cancelled (λ stop. inl (widen 0 5 log.acts (omega arith) none_yet))
        (λ going.
          if-elim RunEnds (ignored p parent)
            (λ none_of_ours. inl (widen 0 5 log.acts (omega arith) none_yet))
            (λ ours.
              after_finalizer-Ends (p.sync_finalizer parent) (act p (syncs_finalizer parent) log)
                keeps
                (and_then 0 1 log.acts (syncs_finalizer parent) none_yet (omega arith) (omega arith)
                  ours)))
