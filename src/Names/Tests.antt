-- ===== src/Names/Tests.antt =====
-- The theorems on names at concrete names.
use metacontroller.Prelude.{String, some, ◌≡◌, refl, arith, ap, string_eq, Pair}
use metacontroller.Names.{
  Gvk, marshal_text, unmarshal_text, slashed, parse_api_version, GroupVersionParser,
}
use metacontroller.Names.RoundTrip.{
  ParsesGroupVersion, unmarshal_text-marshal_text, parse_api_version-slashed, claim_map_key_inj,
}

-- A parser with the documented behaviour.
abbrev parser : GroupVersionParser
parser text = some (parse_api_version text)

parser_laws : ParsesGroupVersion parser
parser_laws = record {
  core = λ v ne h. ap (λ (q : Pair). some q) (parse_api_version-slashed v v h h).1;
  grouped = λ g v hg hv. ap (λ (q : Pair). some q) (parse_api_version-slashed g v hg hv).0;
}

abbrev deployment : Gvk
deployment = record { group = "apps"; version = "v1"; kind = "Deployment" }

unmarshal_text-marshal_text_example :
    unmarshal_text parser (marshal_text deployment) ≡ some deployment
unmarshal_text-marshal_text_example =
    unmarshal_text-marshal_text parser deployment parser_laws (record {
      kind = omega arith;
      group = omega arith;
      version = omega arith;
      versioned = ground (arith, string_eq.same_iff "v1" "");
    })

parse_api_version-slashed_example :
    (parse_api_version (slashed "apps" "v1") ≡ ("apps", "v1"))
    × (parse_api_version "v1" ≡ ("", "v1"))
parse_api_version-slashed_example =
    parse_api_version-slashed "apps" "v1" (omega arith) (omega arith)

claim_map_key_inj_example : ◌≡◌ {A = String} "Pod" "Pod" × ◌≡◌ {A = String} "" ""
claim_map_key_inj_example = claim_map_key_inj "" "Pod" "" "Pod" (omega arith) (omega arith) refl
