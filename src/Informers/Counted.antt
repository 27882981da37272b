-- ===== src/Informers/Counted.antt =====
-- The reference counts of the shared informers, and what each branch of the factory does to them.
use metacontroller.Prelude.{
  ℕ, suc, ◌-◌, ◌≤◌, ◌<◌, String, true, false, none, some, List, [], ◌∷◌, ◌++◌, string_eq, lookup,
  get_or, insert, delete, contains, nat_eq, ltb, ◌≡◌, refl, arith, In, lookup-insert, lookup-delete,
  inl, inr,
}
use metacontroller.Informers.{Factory, new_factory, ResourceInformer}
use metacontroller.Informers.Subscribers.{
  subscribers, subscribers-middle, unheld, held-subscribers, In-middle, In-self,
}

-- The factory's books are right: each key is counted as often as it is held, has an informer exactly
-- if it is held, and a held subscription is to that informer; informers of the factory are running,
-- and no two keys share one.
pub record IsCounted (f : Factory) (held : List ResourceInformer) : Type 0 where
  pub counted : (key : String) → get_or 0 key f.ref_count ≡ subscribers key held
  pub shared :
      (ri : ResourceInformer) → In ri held → lookup ri.key f.shared_informers ≡ some ri.shared
  pub used :
      (key : String) (i : ℕ) → lookup key f.shared_informers ≡ some i → 0 < subscribers key held
  pub running :
      (key : String) (i : ℕ)
      → lookup key f.shared_informers ≡ some i
      → (contains i f.stopped ≡ false) × (i < f.next)
  pub distinct :
      (key other : String) (i : ℕ)
      → lookup key f.shared_informers ≡ some i
      → lookup other f.shared_informers ≡ some i
      → key ≡ other
  pub past : (i : ℕ) → f.next ≤ i → contains i f.stopped ≡ false

pub new_factory-IsCounted : IsCounted new_factory []
unfolding subscribers lookup contains
new_factory-IsCounted = record {
  counted = λ key. refl;
  shared = λ ri m. absurd m;
  used = λ key i e. cc;
  running = λ key i e. cc;
  distinct = λ key other i e. cc;
  past = λ i h. refl;
}

-- Another subscription to an informer that is there.
pub joined-IsCounted :
    (f : Factory) (held : List ResourceInformer) (key : String) (i : ℕ)
    → lookup key f.shared_informers ≡ some i
    → IsCounted f held
    → IsCounted
        (record f { ref_count = insert key (suc (get_or 0 key f.ref_count)) f.ref_count })
        (record { key = key; shared = i } ∷ held)
unfolding subscribers
joined-IsCounted f held key i e h = record {
  counted = λ other. ground (
    arith,
    lookup-insert key other (suc (get_or 0 key f.ref_count)) f.ref_count,
    string_eq.same_iff key other,
    h.counted key,
    h.counted other,
  );
  shared = λ ri m. elim m [ inl q ↦ rw (← q) e | inr n ↦ h.shared ri n ];
  used = λ other j q. ground (arith, h.used other j q);
  running = h.running;
  distinct = h.distinct;
  past = h.past;
}

-- The first subscription to an informer that is made for it.
pub started-IsCounted :
    (f : Factory) (held : List ResourceInformer) (key : String)
    → lookup key f.shared_informers ≡ none
    → IsCounted f held
    → IsCounted
        (record f {
          ref_count = insert key 1 f.ref_count;
          shared_informers = insert key f.next f.shared_informers;
          next = suc f.next;
        })
        (record { key = key; shared = f.next } ∷ held)
unfolding subscribers
started-IsCounted f held key e h =
    let zero_held = unheld key f.shared_informers held h.shared e in
    record {
      counted = λ other. ground (
        arith,
        lookup-insert key other 1 f.ref_count,
        string_eq.same_iff key other,
        zero_held,
        h.counted other,
      );
      shared = λ ri m. elim m [
        | inl q ↦ rw (← q) (
            ground
              (arith, lookup-insert key key f.next f.shared_informers, string_eq.same_iff key key))
        | inr n ↦ ground (
          arith,
          lookup-insert key ri.key f.next f.shared_informers,
          string_eq.same_iff key ri.key,
          h.shared ri n,
          held-subscribers ri held n,
          zero_held,
        )
      ];
      used = λ other j q. ground (
        arith,
        lookup-insert key other f.next f.shared_informers,
        string_eq.same_iff key other,
        h.used other j,
      );
      running = λ other j q. ground (
        arith,
        lookup-insert key other f.next f.shared_informers,
        h.running other j,
        h.past f.next,
      );
      distinct = λ one other j q r. ground (
        arith,
        lookup-insert key one f.next f.shared_informers,
        lookup-insert key other f.next f.shared_informers,
        string_eq.same_iff key one,
        string_eq.same_iff key other,
        h.distinct one other j,
        h.running one j,
        h.running other j,
      );
      past = λ i le. h.past i (omega (arith, le));
    }

-- One of several subscriptions is closed.
pub left-IsCounted :
    (f : Factory) (ri : ResourceInformer) (before after : List ResourceInformer)
    → ltb 1 (get_or 0 ri.key f.ref_count) ≡ true
    → IsCounted f (before ++ (ri ∷ after))
    → IsCounted
        (record f { ref_count = insert ri.key (get_or 0 ri.key f.ref_count - 1) f.ref_count })
        (before ++ after)
left-IsCounted f ri before after several h = record {
  counted = λ other. ground (
    arith,
    lookup-insert ri.key other (get_or 0 ri.key f.ref_count - 1) f.ref_count,
    string_eq.same_iff ri.key other,
    subscribers-middle other before ri after,
    h.counted other,
  );
  shared = λ other m. h.shared other (In-middle other ri before after m);
  used = λ other i e. ground (
    arith,
    h.used other i e,
    h.counted ri.key,
    subscribers-middle other before ri after,
    string_eq.same_iff ri.key other,
  );
  running = h.running;
  distinct = h.distinct;
  past = h.past;
}

-- The last subscription is closed.
pub stopped-IsCounted :
    (f : Factory) (ri : ResourceInformer) (before after : List ResourceInformer)
    → ltb 1 (get_or 0 ri.key f.ref_count) ≡ false
    → IsCounted f (before ++ (ri ∷ after))
    → IsCounted
        (record f {
          ref_count = delete ri.key f.ref_count;
          shared_informers = delete ri.key f.shared_informers;
          stopped = ri.shared ∷ f.stopped;
        })
        (before ++ after)
unfolding contains
stopped-IsCounted f ri before after last h =
    let own = h.shared ri (In-self ri before after) in
    let none_left : subscribers ri.key (before ++ after) ≡ 0 = ground (
      arith,
      last,
      h.counted ri.key,
      subscribers-middle ri.key before ri after,
      string_eq.same_iff ri.key ri.key,
    ) in
    record {
      counted = λ other. ground (
        arith,
        lookup-delete ri.key other f.ref_count,
        string_eq.same_iff ri.key other,
        subscribers-middle other before ri after,
        h.counted other,
        none_left,
      );
      shared = λ other m. ground (
        arith,
        lookup-delete ri.key other.key f.shared_informers,
        string_eq.same_iff ri.key other.key,
        h.shared other (In-middle other ri before after m),
        held-subscribers other (before ++ after) m,
        none_left,
      );
      used = λ other i e. ground (
        arith,
        lookup-delete ri.key other f.shared_informers,
        subscribers-middle other before ri after,
        h.used other i,
      );
      running = λ other i e. ground (
        arith,
        lookup-delete ri.key other f.shared_informers,
        string_eq.same_iff ri.key other,
        h.running other i,
        nat_eq.same_iff ri.shared i,
        h.distinct ri.key other i,
        own,
      );
      distinct = λ one other i q r. ground (
        arith,
        lookup-delete ri.key one f.shared_informers,
        lookup-delete ri.key other f.shared_informers,
        h.distinct one other i,
      );
      past = λ i le.
          ground (arith, h.past i le, h.running ri.key ri.shared own, nat_eq.same_iff ri.shared i);
    }
