-- ===== src/Decorator/Strings.antt =====
-- `updateStringMap` of pkg/controller/decorator/controller.go, by which labels and annotations of a
-- parent are changed.
use metacontroller.Prelude.{
  String, Bool, true, false, not, ◌||◌, Option, none, some, [], ◌∷◌, ◌==◌, string_eq, if◌then◌else◌,
  Dict, lookup, has, insert, delete, UniqueKeys, ◌≡◌, refl, ◌↔◌, arith, lookup-insert,
  lookup-delete, inl, inr, Bool-cases, ◌∙◌, ap, ◌≢◌,
}

abbrev same_value : String → Option String → Bool
same_value v none = false
same_value v (some old) = old == v

-- The body of the loop: a nil update deletes the key.
unfoldable pub update_string :
    String → Option String → Dict String String → Dict String String × Bool
update_string k none dest = if has k dest then (delete k dest, true) else (dest, false)
update_string k (some v) dest =
    if not (same_value v (lookup k dest)) then (insert k v dest, true) else (dest, false)

unfoldable pub update_string_map :
    Dict String String → Dict String (Option String) → Dict String String × Bool
unfolding update_string
update_string_map dest [] = (dest, false)
update_string_map dest ((k, v) ∷ updates) =
    let (dest', changed) = update_string k v dest in
    let (result, rest) = update_string_map dest' updates in (result, changed || rest)

-- The value that the updates ask for.
abbrev pub wanted_value : Option (Option String) → Option String → Option String
wanted_value none old = old
wanted_value (some update) old = update

same_value_iff : (v : String) (o : Option String) → (same_value v o ≡ true) ↔ (o ≡ some v)
same_value_iff v none = ground arith
same_value_iff v (some old) = ground (arith, string_eq.same_iff old v)

update_string-lookup :
    (k other : String) (v : Option String) (dest : Dict String String)
    → lookup other (update_string k v dest).0 ≡ (if k == other then v else lookup other dest)
unfolding update_string
update_string-lookup k other none dest =
    ground (arith, lookup-delete k other dest, string_eq.same_iff k other)
update_string-lookup k other (some v) dest = ground (
  arith,
  lookup-insert k other v dest,
  string_eq.same_iff k other,
  same_value_iff v (lookup k dest),
)

update_string-same :
    (k : String) (v : Option String) (dest : Dict String String)
    → (update_string k v dest).1 ≡ false
    → (update_string k v dest).0 ≡ dest
unfolding update_string
update_string-same k none dest h = ground (arith, h)
update_string-same k (some v) dest h = ground (arith, h)

update_string-differs :
    (k : String) (v : Option String) (dest : Dict String String)
    → (update_string k v dest).1 ≡ true
    → v ≢ lookup k dest
unfolding update_string
update_string-differs k none dest h e = ground (arith, h, e)
update_string-differs k (some v) dest h e = ground (arith, h, e, same_value_iff v (lookup k dest))

-- After the updates each key has what they ask for, nothing where that is nil, and any other key what
-- it had; no key stands twice in the updates.
pub update_string_map-lookup :
    (dest : Dict String String) (updates : Dict String (Option String)) (other : String)
    → UniqueKeys updates
    → lookup other (update_string_map dest updates).0
      ≡ wanted_value (lookup other updates) (lookup other dest)
unfolding update_string_map lookup
update_string_map-lookup dest [] other u = refl
update_string_map-lookup dest ((k, v) ∷ updates) other u = ground (
  arith,
  update_string_map-lookup (update_string k v dest).0 updates other u.1,
  update_string-lookup k other v dest,
  string_eq.same_iff k other,
  u.0,
)

update_string_map-same :
    (dest : Dict String String) (updates : Dict String (Option String))
    → (update_string_map dest updates).1 ≡ false
    → (update_string_map dest updates).0 ≡ dest
unfolding update_string_map
update_string_map-same dest [] h = refl
update_string_map-same dest ((k, v) ∷ updates) h =
    let first : (update_string k v dest).1 ≡ false = ground (arith, h) in
    update_string_map-same (update_string k v dest).0 updates (ground (arith, h))
    ∙ update_string-same k v dest first

update_string_map-unchanged :
    (dest : Dict String String) (updates : Dict String (Option String))
    → UniqueKeys updates
    → ((k : String) → lookup k (update_string_map dest updates).0 ≡ lookup k dest)
    → (update_string_map dest updates).1 ≡ false
unfolding update_string_map
update_string_map-unchanged dest [] u h = refl
update_string_map-unchanged dest ((k, v) ∷ updates) u h =
    elim (Bool-cases (update_string k v dest).1) [
      | inr f ↦
          let kept = update_string-same k v dest f in
          ground (
            arith,
            f,
            update_string_map-unchanged (update_string k v dest).0 updates u.1
                (λ other. rw kept (rw kept at h other)),
          )
      | inl t ↦ absurd (
          update_string-differs k v dest t (
            ground (
              arith,
              h k,
              update_string_map-lookup (update_string k v dest).0 updates k u.1,
              update_string-lookup k k v dest,
              string_eq.same_iff k k,
              u.0,
            )))
    ]

-- The updates report a change exactly if some key has another value than before, or has one only before
-- or only afterwards; no key stands twice in them.
pub update_string_map-changed :
    (dest : Dict String String) (updates : Dict String (Option String))
    → UniqueKeys updates
    → ((update_string_map dest updates).1 ≡ false)
      ↔ ((k : String) → lookup k (update_string_map dest updates).0 ≡ lookup k dest)
update_string_map-changed dest updates u = (
  λ h k. ap (lookup k) (update_string_map-same dest updates h),
  update_string_map-unchanged dest updates u,
)
