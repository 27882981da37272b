-- ===== src/Composite/Selector/Labels.antt =====
-- The loop over the extra labels of a selector.
use metacontroller.Prelude.{
  String, true, false, none, some, [], ◌∷◌, Dict, lookup, ◌++◌, ◌==◌, string_eq, ◌∙◌, ◌≡◌, refl,
  arith, Bool-cases, inl, inr,
}
use metacontroller.Objects.{Accessors}
use metacontroller.Composite.Selector.{LabelSelector, SelectorUtil, no_items, is_empty, add_labels}

module _ {Obj Expr Sel : Type 0} (acc : Accessors Obj) (util : SelectorUtil Obj Expr Sel) where
  -- A key that is not empty is added, and read back; the other labels are kept. An empty key leaves the
  -- selector as it is.
  abbrev pub AddsLabel : Type 0
  AddsLabel =
      (ls : LabelSelector Expr) (key value : String)
      → ((key == "") ≡ true → util.add_label ls key value ≡ ls)
        × ((key == "") ≡ false
            → (lookup key (util.add_label ls key value).match_labels ≡ some value)
              × ((util.add_label ls key value).match_expressions ≡ ls.match_expressions)
              × ((other : String)
                  → (key == other) ≡ false
                  → lookup other (util.add_label ls key value).match_labels
                    ≡ lookup other ls.match_labels))

  lookup-items :
      (labels : Dict String String) (key value : String)
      → lookup key labels ≡ some value
      → no_items labels ≡ false
  unfolding lookup
  lookup-items [] key value h = cc h
  lookup-items ((k, v) ∷ labels) key value h = refl

  pub not_empty :
      (ls : LabelSelector Expr) (key value : String)
      → lookup key ls.match_labels ≡ some value
      → is_empty ls ≡ false
  not_empty ls key value h = ground (arith, lookup-items ls.match_labels key value h)

  pub add_labels-not_empty :
      (extra : Dict String String) (ls : LabelSelector Expr)
      → AddsLabel
      → is_empty ls ≡ false
      → is_empty (add_labels acc util extra ls) ≡ false
  unfolding add_labels
  add_labels-not_empty [] ls adds h = h
  add_labels-not_empty ((key, value) ∷ extra) ls adds h =
      add_labels-not_empty extra (util.add_label ls key value) adds (elim (Bool-cases (key == "")) [
        | inl t ↦ rw ((adds ls key value).0 t) h
        | inr f ↦ not_empty (util.add_label ls key value) key value ((adds ls key value).1 f).0
      ])

  -- The expressions are kept, and so are the labels that are not among the extra ones.
  abbrev pub Keeps : Dict String String → LabelSelector Expr → LabelSelector Expr → Type 0
  Keeps extra base ls =
      (ls.match_expressions ≡ base.match_expressions)
      × ((key : String)
          → lookup key extra ≡ none
          → lookup key ls.match_labels ≡ lookup key base.match_labels)

  -- The extra labels are required, the last one of a key.
  abbrev pub Requires : Dict String String → LabelSelector Expr → Type 0
  Requires extra ls =
      (before after : Dict String String) (key value : String)
      → extra ≡ before ++ ((key, value) ∷ after)
      → lookup key after ≡ none
      → (key == "") ≡ false
      → lookup key ls.match_labels ≡ some value

  add_label-Keeps :
      (ls : LabelSelector Expr) (key value other : String)
      → AddsLabel
      → (key == other) ≡ false
      → (lookup other (util.add_label ls key value).match_labels ≡ lookup other ls.match_labels)
        × ((util.add_label ls key value).match_expressions ≡ ls.match_expressions)
  add_label-Keeps ls key value other adds h = elim (Bool-cases (key == "")) [
    | inl t ↦ rw ((adds ls key value).0 t) (refl, refl)
    | inr f ↦ (((adds ls key value).1 f).2 other h, ((adds ls key value).1 f).1)
  ]

  add_label-expressions :
      (ls : LabelSelector Expr) (key value : String)
      → AddsLabel
      → (util.add_label ls key value).match_expressions ≡ ls.match_expressions
  add_label-expressions ls key value adds = elim (Bool-cases (key == "")) [
    | inl t ↦ rw ((adds ls key value).0 t) refl
    | inr f ↦ ((adds ls key value).1 f).1
  ]

  lookup-none :
      (key value other : String) (dict : Dict String String)
      → lookup other ((key, value) ∷ dict) ≡ none
      → ((key == other) ≡ false) × (lookup other dict ≡ none)
  unfolding lookup
  lookup-none key value other dict h = elim (Bool-cases (key == other)) [
    | inl t ↦ cc (rw (lookup, t) at h)
    | inr f ↦ (f, rw (lookup, f) at h)
  ]

  pub add_labels-Keeps :
      (extra : Dict String String) (ls : LabelSelector Expr)
      → AddsLabel
      → Keeps extra ls (add_labels acc util extra ls)
  unfolding add_labels
  add_labels-Keeps [] ls adds = (refl, λ key h. refl)
  add_labels-Keeps ((key, value) ∷ extra) ls adds =
      let rest = add_labels-Keeps extra (util.add_label ls key value) adds in
      (
        rest.0 ∙ add_label-expressions ls key value adds,
        λ other h.
            let apart = lookup-none key value other extra h in
            rest.1 other apart.1 ∙ (add_label-Keeps ls key value other adds apart.0).0,
      )

  pub add_labels-adds :
      (before after : Dict String String) (key value : String) (ls : LabelSelector Expr)
      → AddsLabel
      → lookup key after ≡ none
      → (key == "") ≡ false
      → lookup key (add_labels acc util (before ++ ((key, value) ∷ after)) ls).match_labels
        ≡ some value
  unfolding add_labels
  add_labels-adds [] after key value ls adds h f =
      (add_labels-Keeps after (util.add_label ls key value) adds).1 key h
      ∙ ((adds ls key value).1 f).0
  add_labels-adds ((k, v) ∷ before) after key value ls adds h f =
      add_labels-adds before after key value (util.add_label ls k v) adds h f
