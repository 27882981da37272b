-- ===== src/Decorator/Keys.antt =====
-- The keys of the decorator's queue: parentQueueKey and splitParentQueueKey of
-- pkg/controller/decorator/controller.go.
use Prim.Native.String
use metacontroller.Prelude.{String, Option, none, some, ◌≡◌, refl, Lacks, cut, cut-join}
use metacontroller.Objects.{Accessors}

abbrev colon : String → String → String
colon a b = String.◌++◌ a (String.◌∷◌ ":" b)

-- What a handler may be given: a tombstone or an explicit key with its key, an object, or else.
pub data Keyed (Obj : Type 0) : Type 0 where
  tombstone explicit : String → Keyed Obj
  object : Obj → Keyed Obj
  anything : Keyed Obj

pub record ParentKey : Type 0 where
  pub api_version : String
  pub kind : String
  pub namespace : String
  pub name : String

unfoldable pub parent_queue_key : {Obj : Type 0} → Accessors Obj → Keyed Obj → Option String
parent_queue_key acc (tombstone key) = some key
parent_queue_key acc (explicit key) = some key
parent_queue_key acc (object o) =
    some (colon (acc.api_version o) (colon (acc.kind o) (colon (acc.namespace o) (acc.name o))))
parent_queue_key acc anything = none

-- `strings.SplitN(key, ":", 4)`, where it has four parts.
unfoldable pub split_parent_queue_key : String → Option ParentKey
split_parent_queue_key key = elim (cut b':' key) [
  | none ↦ none
  | some (api_version, rest) ↦ elim (cut b':' rest) [
    | none ↦ none
    | some (kind, rest') ↦ elim (cut b':' rest') [
      | none ↦ none
      | some (namespace, name) ↦
          some
            (record { api_version = api_version; kind = kind; namespace = namespace; name = name })
    ]
  ]
]

-- The key of an object is split into its API version, kind, namespace and name, where the first three
-- have no `:` in them.
pub split_parent_queue_key-parent_queue_key :
    {Obj : Type 0} (acc : Accessors Obj) (o : Obj)
    → Lacks b':' (acc.api_version o)
    → Lacks b':' (acc.kind o)
    → Lacks b':' (acc.namespace o)
    → (key : String) × (parent_queue_key acc (object o) ≡ some key)
      × (split_parent_queue_key key
          ≡ some (record {
            api_version = acc.api_version o;
            kind = acc.kind o;
            namespace = acc.namespace o;
            name = acc.name o;
          }))
unfolding parent_queue_key split_parent_queue_key
split_parent_queue_key-parent_queue_key acc o v k n = (
  _,
  refl,
  rw
      (
        split_parent_queue_key,
        cut-join b':' ":" (acc.api_version o)
            (colon (acc.kind o) (colon (acc.namespace o) (acc.name o))) refl v,
        cut-join b':' ":" (acc.kind o) (colon (acc.namespace o) (acc.name o)) refl k,
        cut-join b':' ":" (acc.namespace o) (acc.name o) refl n,
      )
      refl,
)
