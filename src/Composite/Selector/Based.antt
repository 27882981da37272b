-- ===== src/Composite/Selector/Based.antt =====
-- What a parent selects by.
use metacontroller.Prelude.{
  String, Bool, true, false, Option, none, some, [], Dict, lookup, string_eq, ◌≡◌, refl,
  Option-cases, Bool-cases, inl, inr,
}
use metacontroller.Objects.{Accessors}
use metacontroller.Composite.Selector.{
  LabelSelector, SelectorUtil, is_empty, own_selector, base_selector, add_labels, finish_selector,
  make_selector,
}
use metacontroller.Composite.Selector.Labels.{
  AddsLabel, Keeps, Requires, not_empty, add_labels-not_empty, add_labels-Keeps, add_labels-adds,
}

module _ {Obj Expr Sel : Type 0} (acc : Accessors Obj) (util : SelectorUtil Obj Expr Sel) where
  own_selector-not_empty :
      (o : Option (LabelSelector Expr)) (ls : LabelSelector Expr)
      → own_selector acc util o ≡ some ls
      → is_empty ls ≡ false
  unfolding own_selector
  own_selector-not_empty none ls h = cc
  own_selector-not_empty (some x) ls h = elim (Bool-cases (is_empty x)) [
    | inl t ↦ cc (rw (own_selector, t) at h)
    | inr f ↦ let same : x ≡ ls = cc (rw (own_selector, f) at h) in rw (← same) f
  ]

  -- What a parent selects by: its UID where selectors are generated, and otherwise its own selector,
  -- which is not empty.
  abbrev pub IsBase : Bool → Obj → LabelSelector Expr → Type 0
  IsBase true parent base =
      (lookup "controller-uid" base.match_labels ≡ some (acc.uid parent))
      × (base.match_expressions ≡ [])
  IsBase false parent base = (util.spec_selector parent ≡ some base) × (is_empty base ≡ false)

  own_selector-same :
      (o : Option (LabelSelector Expr)) (ls : LabelSelector Expr)
      → own_selector acc util o ≡ some ls
      → o ≡ some ls
  unfolding own_selector
  own_selector-same none ls h = h
  own_selector-same (some x) ls h = elim (Bool-cases (is_empty x)) [
    | inl t ↦ cc (rw (own_selector, t) at h)
    | inr f ↦ rw (own_selector, f) at h
  ]

  base_selector-IsBase :
      (generated : Bool) (parent : Obj) (ls : LabelSelector Expr)
      → AddsLabel acc util
      → base_selector acc util generated parent ≡ some ls
      → IsBase generated parent ls × (is_empty ls ≡ false)
  unfolding base_selector
  base_selector-IsBase true parent ls adds h =
      let start : LabelSelector Expr = record { match_labels = []; match_expressions = [] } in
      let added = util.add_label start "controller-uid" (acc.uid parent) in
      let same : added ≡ ls = cc h in
      let law = (adds start "controller-uid" (acc.uid parent)).1 refl in
      rw (← same) ((law.0, law.1), not_empty acc util added "controller-uid" (acc.uid parent) law.0)
  base_selector-IsBase false parent ls adds h =
      let f = own_selector-not_empty (util.spec_selector parent) ls h in
      ((own_selector-same (util.spec_selector parent) ls h, f), f)

  -- The label selector that a parent's selector is converted from is not empty: it is what the parent
  -- selects by, its UID or its own selector that is not empty, with the extra labels required, and with
  -- its other labels and its expressions kept.
  pub make_selector-not_empty :
      (generated : Bool) (parent : Obj) (extra : Dict String String) (s : Sel)
      → AddsLabel acc util
      → make_selector acc util generated parent extra ≡ some s
      → (base ls : LabelSelector Expr) × IsBase generated parent base
        × (util.as_selector ls ≡ some s)
        × (is_empty ls ≡ false)
        × Keeps acc util extra base ls
        × Requires acc util extra ls
  unfolding make_selector finish_selector
  make_selector-not_empty generated parent extra s adds h =
      elim (Option-cases (base_selector acc util generated parent)) [
        | inl e ↦ cc (rw (make_selector, e, finish_selector) at h)
        | inr (base, e) ↦
            let known = base_selector-IsBase generated parent base adds e in
            (
              base,
              add_labels acc util extra base,
              known.0,
              rw (make_selector, e, finish_selector) at h,
              add_labels-not_empty acc util extra base adds known.1,
              add_labels-Keeps acc util extra base adds,
              λ before after key value same gone filled.
                  rw same (add_labels-adds acc util before after key value base adds gone filled),
            )
      ]
