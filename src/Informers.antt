-- ===== src/Informers.antt =====
-- The shared informers: pkg/dynamic/informer. The factory hands out subscriptions to informers that
-- it counts and stops with their last subscriber (factory.go); Handlers and Index model informer.go.
-- The factory's mutex makes each operation one step.
pub mod Subscribers
pub mod Counted
pub mod Reached
pub mod Handlers
pub mod Index
mod Tests
use Prim.Native.String
use metacontroller.Prelude.{
  ℕ, suc, ◌-◌, String, Bool, true, Option, none, some, List, [], ◌∷◌, string_eq, if◌then◌else◌,
  Dict, lookup, get_or, insert, delete, contains, nat_eq, ltb, Result, ok, err, ◌≡◌, ◌++◌,
}

-- `resourceKey`.
abbrev pub resource_key : String → String → String
resource_key api_version resource = String.◌++◌ resource (String.◌∷◌ "." api_version)

-- What is outside: why no client, or no shared informer, can be made for a resource.
pub record Clients : Type 0 where
  pub client_error : String → String → Option String
  pub informer_error : String → String → Option String

-- `SharedInformerFactory`. An informer is named by the number of informers made before it; `stopped`
-- holds those whose stop channel is closed.
pub record Factory : Type 0 where
  pub ref_count : Dict String ℕ
  pub shared_informers : Dict String ℕ
  pub next : ℕ
  pub stopped : List ℕ

-- `NewSharedInformerFactory`.
abbrev pub new_factory : Factory
new_factory = record { ref_count = []; shared_informers = []; next = 0; stopped = [] }

-- `ResourceInformer`: a shared informer, with the key that its `closeFn` has captured.
pub record ResourceInformer : Type 0 where
  pub key : String
  pub shared : ℕ

module _ (out : Clients) where
  -- `Resource`, where the key has no informer yet.
  unfoldable pub start_informer :
      String → String → String → Factory → Result String ResourceInformer × Factory
  start_informer api_version resource key f = elim (out.client_error api_version resource) [
    | some e ↦ (err e, f)
    | none ↦ elim (out.informer_error api_version resource) [
      | some e ↦ (err e, f)
      | none ↦ (
        ok (record { key = key; shared = f.next }),
        record f {
          ref_count = insert key 1 f.ref_count;
          shared_informers = insert key f.next f.shared_informers;
          next = suc f.next;
        },
      )
    ]
  ]

  unfoldable pub subscribe :
      String → String → String → Factory → Result String ResourceInformer × Factory
  subscribe api_version resource key f = elim (lookup key f.shared_informers) [
    | some shared ↦ (
      ok (record { key = key; shared = shared }),
      record f { ref_count = insert key (suc (get_or 0 key f.ref_count)) f.ref_count },
    )
    | none ↦ start_informer api_version resource key f
  ]

  -- `Resource`.
  abbrev pub resource : String → String → Factory → Result String ResourceInformer × Factory
  resource api_version name f = subscribe api_version name (resource_key api_version name) f

-- `Close`, which is `closeFn`; `none` is the panic of closing a closed channel.
unfoldable pub close_informer : ResourceInformer → Factory → Option Factory
close_informer ri f =
    if ltb 1 (get_or 0 ri.key f.ref_count)
    then some (record f { ref_count = insert ri.key (get_or 0 ri.key f.ref_count - 1) f.ref_count })
    else if contains ri.shared f.stopped
    then none
    else some (record f {
      ref_count = delete ri.key f.ref_count;
      shared_informers = delete ri.key f.shared_informers;
      stopped = ri.shared ∷ f.stopped;
    })

-- The factory with the subscriptions that its users hold.
pub record Users : Type 0 where
  pub factory : Factory
  pub held : List ResourceInformer

-- What users do: subscribe, try to, and close one of the subscriptions they hold.
pub data Step (out : Clients) : Users → Users → Type 0 where
  subscribes :
      (api_version name : String) (ri : ResourceInformer) (f f' : Factory)
      (held : List ResourceInformer)
      → resource out api_version name f ≡ (ok ri, f')
      → Step out (record { factory = f; held = held }) (record { factory = f'; held = ri ∷ held })
  fails :
      (api_version name e : String) (f f' : Factory) (held : List ResourceInformer)
      → resource out api_version name f ≡ (err e, f')
      → Step out (record { factory = f; held = held }) (record { factory = f'; held = held })
  closes :
      (ri : ResourceInformer) (f f' : Factory) (before after : List ResourceInformer)
      → close_informer ri f ≡ some f'
      → Step out
          (record { factory = f; held = before ++ (ri ∷ after) })
          (record { factory = f'; held = before ++ after })

-- The states that are reached from a new factory that nobody uses.
pub data Reach (out : Clients) : Users → Type 0 where
  start : Reach out (record { factory = new_factory; held = [] })
  next : (u u' : Users) → Reach out u → Step out u u' → Reach out u'
