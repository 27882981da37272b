-- ===== src/Composite/Revisions/Aggregated.antt =====
-- What the answers for the revisions are put together to.
use metacontroller.Prelude.{
  ℕ, ◌≤◌, ◌<◌, ◌||◌, ◌&&◌, Option, none, some, List, [], ◌∷◌, ◌==◌, nat_eq, if◌then◌else◌, ltb, ◌≡◌,
  refl, In, inl, inr, ◌⊎◌, arith, is_some, String, sym, ◌∙◌,
}
use metacontroller.Names.{Gvk, GroupKind}
use metacontroller.Objects.{Accessors}
use metacontroller.ObjectMap.{ObjectMap, relative_name, find_group_kind_name, find_at}
use metacontroller.ObjectMap.Find.{find_at-replace}
use metacontroller.Revision.{Children}
use metacontroller.Composite.Revisions.{
  smallest_delay, Answer, override_child, override_names, override_kinds, override_all,
}

next_least : ℕ → ℕ → ℕ
next_least least delay = if ltb 0 delay && (least == 0 || ltb delay least) then delay else least

next_least-bounds :
    (least delay : ℕ)
    → (0 < least → (0 < next_least least delay) × (next_least least delay ≤ least))
      × (0 < delay → (0 < next_least least delay) × (next_least least delay ≤ delay))
      × ((next_least least delay ≡ least) ⊎ (next_least least delay ≡ delay))
unfolding next_least
next_least-bounds least delay = ground (arith, nat_eq.same_iff least 0)

smallest_delay-kept :
    (least : ℕ) (delays : List ℕ)
    → 0 < least
    → (0 < smallest_delay least delays) × (smallest_delay least delays ≤ least)
unfolding smallest_delay next_least
smallest_delay-kept least [] h = (h, omega arith)
smallest_delay-kept least (d ∷ delays) h =
    let (positive, below) = (next_least-bounds least d).0 h in
    let (result, under) = smallest_delay-kept (next_least least d) delays positive in
    (result, omega (arith, below, under))

smallest_delay-below :
    (least delay : ℕ) (delays : List ℕ)
    → In delay delays
    → 0 < delay
    → (0 < smallest_delay least delays) × (smallest_delay least delays ≤ delay)
unfolding smallest_delay next_least
smallest_delay-below least delay [] m h = absurd m
smallest_delay-below least delay (d ∷ delays) (inl e) h =
    let (positive, below) = (next_least-bounds least d).1 (omega (arith, e, h)) in
    let (result, under) = smallest_delay-kept (next_least least d) delays positive in
    (result, omega (arith, below, under, e))
smallest_delay-below least delay (d ∷ delays) (inr m) h =
    smallest_delay-below (next_least least d) delay delays m h

smallest_delay-In :
    (least : ℕ) (delays : List ℕ)
    → (smallest_delay least delays ≡ least) ⊎ In (smallest_delay least delays) delays
unfolding smallest_delay next_least
smallest_delay-In least [] = inl refl
smallest_delay-In least (d ∷ delays) = elim (smallest_delay-In (next_least least d) delays) [
  | inr m ↦ inr (inr m)
  | inl e ↦ elim (next_least-bounds least d).2 [
    | inl same ↦ inl (e ∙ same)
    | inr here ↦ inr (inl (sym (e ∙ here)))
  ]
]

-- The delay that is put together from those of the revisions is one of them, positive and not above any
-- positive one, where there is a positive one.
pub smallest_delay_lem :
    (delays : List ℕ) (delay : ℕ)
    → In delay delays
    → 0 < delay
    → (0 < smallest_delay 0 delays)
      × (smallest_delay 0 delays ≤ delay)
      × In (smallest_delay 0 delays) delays
smallest_delay_lem delays delay m h =
    let (positive, below) = smallest_delay-below 0 delay delays m h in
    elim (smallest_delay-In 0 delays) [
      | inl e ↦ absurd (omega (arith, positive, e))
      | inr there ↦ (positive, below, there)
    ]

module _ {Obj : Type 0} (acc : Accessors Obj) (parent : Obj) where
  override_child-is_some :
      (found : Option Obj) (m : ObjectMap Obj) (gvk : Gvk) (name : String)
      → is_some (find_at gvk name (override_child acc parent found m))
        ≡ is_some (find_at gvk name m)
  unfolding override_child
  override_child-is_some none m gvk name = refl
  override_child-is_some (some o) m gvk name =
      ground (arith, find_at-replace acc (relative_name acc) parent o m gvk name)

  override_names-is_some :
      (gk : GroupKind) (desired : ObjectMap Obj) (names : List String) (m : ObjectMap Obj)
      (gvk : Gvk) (name : String)
      → is_some (find_at gvk name (override_names acc parent gk desired names m))
        ≡ is_some (find_at gvk name m)
  unfolding override_names
  override_names-is_some gk desired [] m gvk name = refl
  override_names-is_some gk desired (n ∷ names) m gvk name =
      override_names-is_some gk desired names
        (override_child acc parent (find_group_kind_name gk n desired) m) gvk name
      ∙ override_child-is_some (find_group_kind_name gk n desired) m gvk name

  override_kinds-is_some :
      (children : Children GroupKind) (desired m : ObjectMap Obj) (gvk : Gvk) (name : String)
      → is_some (find_at gvk name (override_kinds acc parent children desired m))
        ≡ is_some (find_at gvk name m)
  unfolding override_kinds
  override_kinds-is_some [] desired m gvk name = refl
  override_kinds-is_some (ck ∷ children) desired m gvk name =
      override_kinds-is_some children desired (override_names acc parent ck.kind desired ck.names m)
        gvk name
      ∙ override_names-is_some ck.kind desired ck.names m gvk name

  -- The revisions that are not the latest replace desired children, but none is added or removed by them.
  pub override_all-is_some :
      (answers : List (Answer Obj)) (m : ObjectMap Obj) (gvk : Gvk) (name : String)
      → is_some (find_at gvk name (override_all acc parent answers m))
        ≡ is_some (find_at gvk name m)
  unfolding override_all
  override_all-is_some [] m gvk name = refl
  override_all-is_some (a ∷ answers) m gvk name =
      override_all-is_some answers (override_kinds acc parent a.children a.desired m) gvk name
      ∙ override_kinds-is_some a.children a.desired m gvk name
