-- ===== src/Informers/Reached.antt =====
-- The reference counts in every state that users of the factory can reach.
use mathlib.Core.Path.{subst}
use metacontroller.Prelude.{
  String, none, some, List, ◌∷◌, ◌++◌, string_eq, lookup, get_or, nat_eq, ltb, Result, ok, err, ◌≡◌,
  refl, arith, sym, ◌∙◌, ◌↔◌, Lacks, join_inj, In, inl, inr, Option-cases, Bool-cases,
}
use metacontroller.Informers.{
  Clients, Factory, ResourceInformer, resource_key, start_informer, subscribe, close_informer,
  Users, Step, subscribes, fails, closes, Reach, start, next,
}
use metacontroller.Informers.Subscribers.{subscribers, unheld, In-self}
use metacontroller.Informers.Counted.{
  IsCounted, new_factory-IsCounted, joined-IsCounted, started-IsCounted, left-IsCounted,
  stopped-IsCounted,
}

close_informer-IsCounted :
    (f : Factory) (ri : ResourceInformer) (before after : List ResourceInformer)
    → IsCounted f (before ++ (ri ∷ after))
    → (f' : Factory) × (close_informer ri f ≡ some f') × IsCounted f' (before ++ after)
unfolding close_informer
close_informer-IsCounted f ri before after h =
    elim (Bool-cases (ltb 1 (get_or 0 ri.key f.ref_count))) [
      | inl several ↦
          (_, rw (close_informer, several) refl, left-IsCounted f ri before after several h)
      | inr last ↦ (
        _,
        rw
            (
              close_informer,
              last,
              (h.running ri.key ri.shared (h.shared ri (In-self ri before after))).0,
            )
            refl,
        stopped-IsCounted f ri before after last h,
      )
    ]

-- The books after a subscription to a key.
abbrev Kept :
    Factory → List ResourceInformer → String → Result String ResourceInformer × Factory → Type 0
Kept f held key (ok ri, f') = IsCounted f' (ri ∷ held) × (ri.key ≡ key)
Kept f held key (err e, f') = f' ≡ f

subscribe-IsCounted :
    (out : Clients) (api_version name key : String) (f : Factory) (held : List ResourceInformer)
    → IsCounted f held
    → Kept f held key (subscribe out api_version name key f)
unfolding subscribe start_informer
subscribe-IsCounted out api_version name key f held h =
    elim (Option-cases (lookup key f.shared_informers)) [
      | inr (i, e) ↦ rw (subscribe, e) (joined-IsCounted f held key i e h, refl)
      | inl e ↦ elim (Option-cases (out.client_error api_version name)) [
        | inr (w, c) ↦ rw (subscribe, e, start_informer, c) refl
        | inl c ↦ elim (Option-cases (out.informer_error api_version name)) [
          | inr (w, d) ↦ rw (subscribe, e, start_informer, c, d) refl
          | inl d ↦ rw (subscribe, e, start_informer, c, d) (started-IsCounted f held key e h, refl)
        ]
      ]
    ]

Step-IsCounted :
    (out : Clients) (u u' : Users)
    → Step out u u'
    → IsCounted u.factory u.held
    → IsCounted u'.factory u'.held
Step-IsCounted out _ _ (subscribes api_version name ri f f' held e) h =
    (subst (Kept f held (resource_key api_version name)) e
      (subscribe-IsCounted out api_version name (resource_key api_version name) f held h)).0
Step-IsCounted out _ _ (fails api_version name w f f' held e) h =
    rw
      (subst (Kept f held (resource_key api_version name)) e
        (subscribe-IsCounted out api_version name (resource_key api_version name) f held h))
      h
Step-IsCounted out _ _ (closes ri f f' before after e) h =
    let (f'', q, h') = close_informer-IsCounted f ri before after h in
    subst (λ (g : Factory). IsCounted g (before ++ after)) (cc (q, e)) h'

-- In every state that users can reach by subscribing and closing, whatever fails, the factory's books
-- are right: each key is counted as often as it is held and has an informer only if it is held, every
-- held subscription is to the informer of its key, and those informers are running and distinct.
pub reach-IsCounted : (out : Clients) (u : Users) → Reach out u → IsCounted u.factory u.held
reach-IsCounted out _ start = new_factory-IsCounted
reach-IsCounted out _ (next u u' r s) = Step-IsCounted out u u' s (reach-IsCounted out u r)

-- In every state that users can reach, closing a subscription that one of them holds does not panic;
-- afterwards its key has an informer exactly if another subscription to the key is held.
pub close_informer-keeps :
    (out : Clients) (u : Users) (ri : ResourceInformer) (before after : List ResourceInformer)
    → Reach out u
    → u.held ≡ before ++ (ri ∷ after)
    → (f : Factory) × (close_informer ri u.factory ≡ some f)
      × ((lookup ri.key f.shared_informers ≡ none) ↔ (subscribers ri.key (before ++ after) ≡ 0))
close_informer-keeps out u ri before after r e =
    let (f, q, h) =
      close_informer-IsCounted u.factory ri before after
        (subst (IsCounted u.factory) e (reach-IsCounted out u r)) in
    (
      f,
      q,
      (
        unheld ri.key f.shared_informers (before ++ after) h.shared,
        λ z. elim (Option-cases (lookup ri.key f.shared_informers)) [
          | inl n ↦ n
          | inr (i, p) ↦ absurd (omega (arith, h.used ri.key i p, z))
        ],
      ),
    )

-- Two held subscriptions, to names of resources without a `.`, share an informer exactly if they are
-- to the same resource of the same API version.
pub shared-resource :
    (out : Clients) (u : Users) (ri other : ResourceInformer)
    (api_version name other_version other_name : String)
    → Reach out u
    → In ri u.held
    → In other u.held
    → ri.key ≡ resource_key api_version name
    → other.key ≡ resource_key other_version other_name
    → Lacks b'.' name
    → Lacks b'.' other_name
    → (ri.shared ≡ other.shared) ↔ ((api_version ≡ other_version) × (name ≡ other_name))
shared-resource out u ri other api_version name other_version other_name r m n k k' l l' =
    let h = reach-IsCounted out u r in
    (
      λ e.
          let (a, b) = join_inj b'.' "." name api_version other_name other_version refl l l' (
            sym k
            ∙ h.distinct ri.key other.key ri.shared (h.shared ri m) (rw e (h.shared other n))
            ∙ k') in
          (b, a),
      λ (a, b). cc (h.shared ri m, h.shared other n, k, k', a, b),
    )
