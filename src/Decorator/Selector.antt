-- ===== src/Decorator/Selector.antt =====
-- `decoratorSelector` of pkg/controller/decorator/selector.go. The conversion of selectors and the
-- discovery of resources are parameters.
use metacontroller.Prelude.{
  lookup-insert, Option-cases, Bool-cases, inl, inr, arith, String, Bool, true, false, ◌&&◌, Option,
  none, some, List, [], ◌∷◌, ◌==◌, string_eq, Dict, lookup, insert, ◌≡◌, refl, if◌then◌else◌,
}
use metacontroller.Names.{GroupKind, claim_map_key, parse_api_version}
use metacontroller.Objects.{Accessors}

abbrev pub Strings : Type 0
Strings = Dict String String

-- `DecoratorControllerResourceRule`, with its selectors as they are written.
pub record ResourceRule (Raw : Type 0) : Type 0 where
  pub api_version : String
  pub resource : String
  pub label_selector : Option Raw
  pub annotation_selector : Option Raw

-- `ResourceMap.Get`, by the group and kind of the resource, and `LabelSelectorAsSelector`.
pub record Discovery (Raw : Type 0) : Type 0 where
  pub get : String → String → Option GroupKind
  pub as_selector : Raw → Option (Strings → Bool)

pub record DecoratorSelector : Type 0 where
  pub label_selectors : Dict String (Strings → Bool)
  pub annotation_selectors : Dict String (Strings → Bool)

abbrev pub selector_map_key : GroupKind → String
selector_map_key gk = claim_map_key gk.group gk.kind

-- `labels.Everything()` where there is no selector.
unfoldable pub to_selector : {Raw : Type 0} → Discovery Raw → Option Raw → Option (Strings → Bool)
to_selector d none = some (λ strings. true)
to_selector d (some raw) = d.as_selector raw

unfoldable pub store_selectors :
    String
    → Option (Strings → Bool)
    → Option (Strings → Bool)
    → DecoratorSelector
    → Option DecoratorSelector
store_selectors key none annotations ds = none
store_selectors key (some labels) none ds = none
store_selectors key (some labels) (some annotations) ds = some (record {
  label_selectors = insert key labels ds.label_selectors;
  annotation_selectors = insert key annotations ds.annotation_selectors;
})

-- The body of the loop of `newDecoratorSelector`; `none` is an error.
unfoldable pub add_rule :
    {Raw : Type 0} → Discovery Raw → ResourceRule Raw → DecoratorSelector → Option DecoratorSelector
unfolding to_selector store_selectors
add_rule d rule ds = elim (d.get rule.api_version rule.resource) [
  | none ↦ none
  | some gk ↦
      store_selectors (selector_map_key gk) (to_selector d rule.label_selector)
        (to_selector d rule.annotation_selector) ds
]

-- `newDecoratorSelector`
unfoldable pub add_rules :
    {Raw : Type 0}
    → Discovery Raw
    → List (ResourceRule Raw)
    → DecoratorSelector
    → Option DecoratorSelector
unfolding add_rule
add_rules d [] ds = some ds
add_rules d (rule ∷ rules) ds = elim (add_rule d rule ds) [
  | none ↦ none
  | some ds' ↦ add_rules d rules ds'
]

abbrev pub new_decorator_selector :
    {Raw : Type 0} → Discovery Raw → List (ResourceRule Raw) → Option DecoratorSelector
new_decorator_selector d rules =
    add_rules d rules (record { label_selectors = []; annotation_selectors = [] })

unfoldable pub selectors_match :
    Option (Strings → Bool) → Option (Strings → Bool) → Strings → Strings → Bool
selectors_match none annotation_selector labels annotations = false
selectors_match (some label_selector) none labels annotations = false
selectors_match (some label_selector) (some annotation_selector) labels annotations =
    label_selector labels && annotation_selector annotations

-- `Matches`, of an object with labels and annotations.
unfoldable pub matches :
    {Obj : Type 0} → Accessors Obj → DecoratorSelector → Obj → Strings → Strings → Bool
unfolding selectors_match
matches acc ds o labels annotations =
    let key =
      selector_map_key
        (record { group = (parse_api_version (acc.api_version o)).0; kind = acc.kind o }) in
    selectors_match (lookup key ds.label_selectors) (lookup key ds.annotation_selectors) labels
      annotations

module _ {Raw : Type 0} (d : Discovery Raw) (key : String) (labels annotations : Strings) where
  abbrev pub same_key : Option GroupKind → Bool
  same_key none = false
  same_key (some gk) = selector_map_key gk == key

  -- The last rule whose resource has the key.
  pub last_rule : Option (ResourceRule Raw) → List (ResourceRule Raw) → Option (ResourceRule Raw)
  last_rule found [] = found
  last_rule found (rule ∷ rules) =
      last_rule (if same_key (d.get rule.api_version rule.resource) then some rule else found) rules

  -- The rule's selectors, where it has them, accept the labels and the annotations.
  abbrev pub accepted : Option (ResourceRule Raw) → Bool
  accepted none = false
  accepted (some rule) =
      selectors_match (to_selector d rule.label_selector) (to_selector d rule.annotation_selector)
        labels annotations

  abbrev matches_key : DecoratorSelector → Bool
  matches_key ds =
      selectors_match (lookup key ds.label_selectors) (lookup key ds.annotation_selectors) labels
        annotations

  store_selectors-matches :
      (k : String) (l a : Option (Strings → Bool)) (ds ds' : DecoratorSelector)
      → store_selectors k l a ds ≡ some ds'
      → matches_key ds'
        ≡ (if k == key then selectors_match l a labels annotations else matches_key ds)
  unfolding store_selectors selectors_match
  store_selectors-matches k none a ds ds' h = cc
  store_selectors-matches k (some l) none ds ds' h = cc
  store_selectors-matches k (some l) (some a) ds ds' h =
      let same : record {
        label_selectors = insert k l ds.label_selectors;
        annotation_selectors = insert k a ds.annotation_selectors;
      }
          ≡ ds' =
        cc h in
      rw
        (
          ← same,
          lookup-insert k key l ds.label_selectors,
          lookup-insert k key a ds.annotation_selectors,
        )
        (ground arith)

  add_rule-matches :
      (rule : ResourceRule Raw) (found : Option (ResourceRule Raw)) (ds ds' : DecoratorSelector)
      → add_rule d rule ds ≡ some ds'
      → matches_key ds ≡ accepted found
      → matches_key ds'
        ≡ accepted (if same_key (d.get rule.api_version rule.resource) then some rule else found)
  unfolding add_rule
  add_rule-matches rule found ds ds' h e =
      elim (Option-cases (d.get rule.api_version rule.resource)) [
        | inl n ↦ cc (rw (add_rule, n) at h)
        | inr (gk, s) ↦
            let stored =
              store_selectors-matches (selector_map_key gk) (to_selector d rule.label_selector)
                (to_selector d rule.annotation_selector) ds ds' (rw (add_rule, s) at h) in
            elim (Bool-cases (selector_map_key gk == key)) [
              | inl t ↦ rw (s, t) (rw t at stored)
              | inr f ↦ rw (s, f) (rw (f, e) at stored)
            ]
      ]

  add_rules-matches :
      (rules : List (ResourceRule Raw)) (found : Option (ResourceRule Raw))
      (ds ds' : DecoratorSelector)
      → add_rules d rules ds ≡ some ds'
      → matches_key ds ≡ accepted found
      → matches_key ds' ≡ accepted (last_rule found rules)
  unfolding add_rules last_rule
  add_rules-matches [] found ds ds' h e = let same : ds ≡ ds' = cc h in rw (← same) e
  add_rules-matches (rule ∷ rules) found ds ds' h e = elim (Option-cases (add_rule d rule ds)) [
    | inl n ↦ cc (rw (add_rules, n) at h)
    | inr (next, s) ↦
        add_rules-matches rules _ next ds' (rw (add_rules, s) at h)
          (add_rule-matches rule found ds next s e)
  ]

-- A selector that could be made matches an object exactly if the last rule for its group and kind
-- accepts its labels and its annotations, and no object of any other group and kind. An earlier rule
-- for a group and kind counts for nothing, where the documentation has the hook called for an object
-- that matches any rule.
pub matches-last_rule :
    {Obj Raw : Type 0} (acc : Accessors Obj) (d : Discovery Raw) (rules : List (ResourceRule Raw))
    (ds : DecoratorSelector) (o : Obj) (labels annotations : Strings)
    → new_decorator_selector d rules ≡ some ds
    → matches acc ds o labels annotations ≡ (
        let key =
          selector_map_key
            (record { group = (parse_api_version (acc.api_version o)).0; kind = acc.kind o }) in
        accepted d key labels annotations (last_rule d key labels annotations none rules))
unfolding matches selectors_match lookup
matches-last_rule acc d rules ds o labels annotations h =
    add_rules-matches d
      (selector_map_key
        (record { group = (parse_api_version (acc.api_version o)).0; kind = acc.kind o }))
      labels annotations rules none (record { label_selectors = []; annotation_selectors = [] }) ds
      h refl
