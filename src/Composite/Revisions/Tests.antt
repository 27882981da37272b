-- ===== src/Composite/Revisions/Tests.antt =====
-- The theorems on revisions for one that is kept, one that is dropped and one that is new.
use metacontroller.Prelude.{
  ◌≤◌, ◌<◌, String, none, List, [], ◌∷◌, ◌≡◌, In, All, arith, inl, inr, refl, ◌==◌, string_eq,
}
use metacontroller.Composite.Revisions.{Storage, manage_revisions, smallest_delay}
use metacontroller.Composite.Revisions.Stored.{Wanted, Stored, manage_revisions-Stored}
use metacontroller.Composite.Revisions.Aggregated.{smallest_delay_lem}

-- Revisions that are their own names.
abbrev storage : Storage String
storage = record {
  name = λ r. r;
  uid = λ r. r;
  resource_version = λ r. "1";
  set_resource_version = λ r version. r;
  deep_equal = λ a b. a == b;
  api = λ call. none;
}

abbrev before : List String
before = "kept" ∷ "dropped" ∷ []

abbrev after : List String
after = "kept" ∷ "new" ∷ []

manage_revisions-Stored_example :
    All (Wanted storage before after) (manage_revisions storage before after).1
    × ((manage_revisions storage before after).0 ≡ none
        → (r : String) → In r after
        → Stored storage before after (manage_revisions storage before after).1 r)
manage_revisions-Stored_example = manage_revisions-Stored storage before after

smallest_delay_lem_example :
    (0 < smallest_delay 0 (0 ∷ 7 ∷ 5 ∷ []))
    × (smallest_delay 0 (0 ∷ 7 ∷ 5 ∷ []) ≤ 7)
    × In (smallest_delay 0 (0 ∷ 7 ∷ 5 ∷ [])) (0 ∷ 7 ∷ 5 ∷ [])
smallest_delay_lem_example = smallest_delay_lem (0 ∷ 7 ∷ 5 ∷ []) 7 (inr (inl refl)) (omega arith)
