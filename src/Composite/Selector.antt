-- ===== src/Composite/Selector.antt =====
-- `makeSelector` of pkg/controller/composite/controller.go: the selector by which a parent claims. The
-- helpers of metav1 are parameters.
pub mod Labels
pub mod Based
mod Tests
use metacontroller.Prelude.{
  String, Bool, true, false, not, ◌&&◌, ◌||◌, Option, none, some, List, [], ◌∷◌, if◌then◌else◌,
  Dict, lookup, ◌++◌, ◌==◌, string_eq, ◌∙◌, ◌≡◌, refl, arith, Option-cases, Bool-cases, inl, inr,
}
use metacontroller.Objects.{Accessors}

-- `metav1.LabelSelector`
pub record LabelSelector (Expr : Type 0) : Type 0 where
  pub match_labels : Dict String String
  pub match_expressions : List Expr

-- `GetNestedFieldInto` at `spec.selector`, `AddLabelToSelector` and `LabelSelectorAsSelector`.
pub record SelectorUtil (Obj Expr Sel : Type 0) : Type 0 where
  pub spec_selector : Obj → Option (LabelSelector Expr)
  pub add_label : LabelSelector Expr → String → String → LabelSelector Expr
  pub as_selector : LabelSelector Expr → Option Sel

abbrev pub no_items : {A : Type 0} → List A → Bool
no_items [] = true
no_items (x ∷ xs) = false

-- The selector selects everything.
abbrev pub is_empty : {Expr : Type 0} → LabelSelector Expr → Bool
is_empty ls = no_items ls.match_labels && no_items ls.match_expressions

module _ {Obj Expr Sel : Type 0} (acc : Accessors Obj) (util : SelectorUtil Obj Expr Sel) where
  unfoldable pub own_selector : Option (LabelSelector Expr) → Option (LabelSelector Expr)
  own_selector none = none
  own_selector (some ls) = if is_empty ls then none else some ls

  -- Selector generation selects by the UID of the parent, whatever selector it has; otherwise it must
  -- have one that is not empty.
  unfoldable pub base_selector : Bool → Obj → Option (LabelSelector Expr)
  unfolding own_selector
  base_selector generated parent =
      if generated
      then some (
          util.add_label (record { match_labels = []; match_expressions = [] }) "controller-uid"
            (acc.uid parent))
      else own_selector (util.spec_selector parent)

  -- The loop over the extra labels.
  unfoldable pub add_labels : Dict String String → LabelSelector Expr → LabelSelector Expr
  add_labels [] ls = ls
  add_labels ((key, value) ∷ extra) ls = add_labels extra (util.add_label ls key value)

  unfoldable pub finish_selector : Dict String String → Option (LabelSelector Expr) → Option Sel
  unfolding add_labels
  finish_selector extra none = none
  finish_selector extra (some ls) = util.as_selector (add_labels extra ls)

  -- `makeSelector`; `none` is an error.
  unfoldable pub make_selector : Bool → Obj → Dict String String → Option Sel
  unfolding base_selector finish_selector
  make_selector generated parent extra = finish_selector extra (base_selector generated parent)
