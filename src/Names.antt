-- ===== src/Names.antt =====
-- Names of kinds and versions: GroupVersionKind of pkg/controller/common/api/api.go with its text form,
-- ParseAPIVersion of pkg/controller/common/common.go, and the keys `kind.group` by which
-- pkg/controller/composite and pkg/controller/decorator look up a kind.
pub mod RoundTrip
mod Tests
use Prim.Native.String
use metacontroller.Prelude.{
  String, Bool, true, ◌&&◌, Option, none, some, Result, ok, err, ◌≡◌, ◌↔◌, refl, arith, ◌==◌,
  Comparable, string_eq, if◌then◌else◌, cut, Pair,
}

pub record Gvk : Type 0 where
  pub group : String
  pub version : String
  pub kind : String

pub record GroupKind : Type 0 where
  pub group : String
  pub kind : String

abbrev pub group_kind : Gvk → GroupKind
group_kind gvk = record { group = gvk.group; kind = gvk.kind }

pub gvk_same_iff :
    (a b : Gvk)
    → ((a.group == b.group && (a.version == b.version && a.kind == b.kind)) ≡ true) ↔ (a ≡ b)
gvk_same_iff a b = ground (
  arith,
  string_eq.same_iff a.group b.group,
  string_eq.same_iff a.version b.version,
  string_eq.same_iff a.kind b.kind,
)

instance abbrev pub gvk_eq : Comparable Gvk
gvk_eq = record {
  same = λ a b. a.group == b.group && (a.version == b.version && a.kind == b.kind);
  same_iff = gvk_same_iff;
}

pub group_kind_same_iff :
    (a b : GroupKind) → ((a.group == b.group && a.kind == b.kind) ≡ true) ↔ (a ≡ b)
group_kind_same_iff a b =
    ground (arith, string_eq.same_iff a.group b.group, string_eq.same_iff a.kind b.kind)

instance abbrev pub group_kind_eq : Comparable GroupKind
group_kind_eq = record {
  same = λ a b. a.group == b.group && a.kind == b.kind;
  same_iff = group_kind_same_iff;
}

-- `a.b` and `a/b`, as `fmt.Sprintf` joins them.
abbrev pub dotted : String → String → String
dotted a b = String.◌++◌ a (String.◌∷◌ "." b)

abbrev pub slashed : String → String → String
slashed a b = String.◌++◌ a (String.◌∷◌ "/" b)

unfoldable pub marshal_text : Gvk → String
marshal_text gvk =
    if gvk.group == ""
    then dotted gvk.kind gvk.version
    else dotted gvk.kind (slashed gvk.group gvk.version)

-- `schema.ParseGroupVersion`, from a text to a group and a version.
abbrev pub GroupVersionParser : Type 0
GroupVersionParser = String → Option Pair

unfoldable pub unmarshal_text : GroupVersionParser → String → Option Gvk
unmarshal_text parse_group_version text = elim (cut b'.' text) [
  | none ↦ none
  | some (kind, rest) ↦ elim (parse_group_version rest) [
    | none ↦ none
    | some (group, version) ↦ some (record { group = group; version = version; kind = kind })
  ]
]

unfoldable pub parse_api_version : String → Pair
parse_api_version api_version = elim (cut b'/' api_version) [
  | none ↦ ("", api_version)
  | some (group, version) ↦ (group, version)
]

-- `claimMapKey` and `selectorMapKey`.
unfoldable pub claim_map_key : String → String → String
claim_map_key api_group kind = dotted kind api_group
