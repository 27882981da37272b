-- ===== src/Names/RoundTrip.antt =====
-- The text forms determine what they are made of.
use metacontroller.Prelude.{
  String, some, ◌≡◌, ◌≢◌, refl, arith, ◌==◌, string_eq, Lacks, cut-join, cut-Lacks, join_inj, inl,
  inr, Bool-cases,
}
use metacontroller.Names.{
  Gvk, GroupVersionParser, marshal_text, unmarshal_text, slashed, parse_api_version, claim_map_key,
}

-- What `schema.ParseGroupVersion` documents: a text with no slash is a version of the core group,
-- and one slash parts the group from the version.
pub record ParsesGroupVersion (parse : GroupVersionParser) : Type 0 where
  pub core :
      (version : String) → version ≢ "" → Lacks b'/' version → parse version ≡ some ("", version)
  pub grouped :
      (group version : String)
      → Lacks b'/' group
      → Lacks b'/' version
      → parse (slashed group version) ≡ some (group, version)

-- A kind that has no dot, with a group and a version that have no slash.
pub record IsPlain (gvk : Gvk) : Type 0 where
  pub kind : Lacks b'.' gvk.kind
  pub group : Lacks b'/' gvk.group
  pub version : Lacks b'/' gvk.version
  pub versioned : gvk.version ≢ ""

-- For a kind with no dot and a group and a non-empty version with no slash, and a parser of
-- group versions that does what it documents, a group, version and kind is read back from its
-- text.
pub unmarshal_text-marshal_text :
    (parse : GroupVersionParser) (gvk : Gvk)
    → ParsesGroupVersion parse
    → IsPlain gvk
    → unmarshal_text parse (marshal_text gvk) ≡ some gvk
unfolding unmarshal_text marshal_text
unmarshal_text-marshal_text parse gvk laws plain = elim (Bool-cases (gvk.group == "")) [
  | inl t ↦
      rw
        (
          t,
          unmarshal_text,
          cut-join b'.' "." gvk.kind gvk.version refl plain.kind,
          laws.core gvk.version plain.versioned plain.version,
        )
        (ground (arith, (string_eq.same_iff gvk.group "").0 t))
  | inr f ↦
      rw
        (
          f,
          unmarshal_text,
          cut-join b'.' "." gvk.kind (slashed gvk.group gvk.version) refl plain.kind,
          laws.grouped gvk.group gvk.version plain.group plain.version,
        )
        refl
]

-- Where neither has a slash, the API version `group/version` is parsed into its two parts, and a
-- version alone into the core group and itself.
pub parse_api_version-slashed :
    (group version : String)
    → Lacks b'/' group
    → Lacks b'/' version
    → (parse_api_version (slashed group version) ≡ (group, version))
      × (parse_api_version version ≡ ("", version))
unfolding parse_api_version
parse_api_version-slashed group version g v = (
  rw (parse_api_version, cut-join b'/' "/" group version refl g) refl,
  rw (parse_api_version, cut-Lacks b'/' version v) refl,
)

-- Two kinds with no dot in their names have the same key only if they and their groups are equal.
pub claim_map_key_inj :
    (group kind group' kind' : String)
    → Lacks b'.' kind
    → Lacks b'.' kind'
    → claim_map_key group kind ≡ claim_map_key group' kind'
    → (kind ≡ kind') × (group ≡ group')
unfolding claim_map_key
claim_map_key_inj group kind group' kind' h h' e =
    join_inj b'.' "." kind group kind' group' refl h h' e
