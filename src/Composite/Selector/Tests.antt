-- ===== src/Composite/Selector/Tests.antt =====
-- The theorem on selectors for a parent that is selected by its UID.
use metacontroller.Prelude.{
  String, true, false, none, some, [], ◌∷◌, ◌≡◌, refl, if◌then◌else◌, ◌==◌, string_eq, lookup,
}
use metacontroller.Objects.{PlainObject, plain_accessors}
use metacontroller.Composite.Samples.{parent}
use metacontroller.Composite.Selector.{
  LabelSelector, SelectorUtil, is_empty, base_selector, add_labels, finish_selector, make_selector,
}
use metacontroller.Composite.Selector.Labels.{AddsLabel, Keeps, Requires}
use metacontroller.Composite.Selector.Based.{IsBase, make_selector-not_empty}

-- Selectors by labels alone.
-- `AddLabelToSelector`
abbrev add_label : LabelSelector String → String → String → LabelSelector String
add_label ls key value =
    if key == "" then ls else record ls { match_labels = (key, value) ∷ ls.match_labels }

abbrev util : SelectorUtil PlainObject String (LabelSelector String)
util = record { spec_selector = λ o. none; add_label = add_label; as_selector = λ ls. some ls }

abbrev selector : LabelSelector String
selector = record {
  match_labels = ("app", "a") ∷ ("controller-uid", "p") ∷ [];
  match_expressions = [];
}

util-AddsLabel : AddsLabel plain_accessors util
unfolding lookup
util-AddsLabel ls key value = (
  λ t. rw t refl,
  λ f. rw f (rw ((string_eq.same_iff key key).1 refl) refl, refl, λ other apart. rw apart refl),
)

make_selector-not_empty_example :
    (base ls : LabelSelector String) × IsBase plain_accessors util true parent base
    × (util.as_selector ls ≡ some selector)
    × (is_empty ls ≡ false)
    × Keeps plain_accessors util (("app", "a") ∷ []) base ls
    × Requires plain_accessors util (("app", "a") ∷ []) ls
unfolding make_selector base_selector finish_selector add_labels
make_selector-not_empty_example =
    make_selector-not_empty plain_accessors util true parent (("app", "a") ∷ []) selector
      util-AddsLabel refl
