-- ===== src/Json.antt =====
-- The content of an unstructured Kubernetes object: decoded JSON, as `map[string]interface{}`.
-- A nil slice and an empty one are one value here.
use metacontroller.Prelude.{
  ℕ, suc, ◌<◌, max, String, Bool, List, [], ◌∷◌, Dict, ◌≡◌, refl, ap, All, arith,
}

-- `negsuc n` is -(n + 1).
pub data ℤ : Type 0 where
  pos : ℕ → ℤ
  negsuc : ℕ → ℤ

mutual
  pub data Value : Type 0 where
    null : Value
    bool : Bool → Value
    int : ℤ → Value  -- int64
    float : ℕ → Value  -- the bit pattern of a float64
    str : String → Value
    arr : Items → Value
    obj : Fields → Value

  pub data Items : Type 0 where
    no_items : Items
    cons : Value → Items → Items

  pub data Fields : Type 0 where
    no_fields : Fields
    field : String → Value → Fields → Fields

abbrev pub Object : Type 0
Object = Dict String Value

abbrev pub items : Items → List Value
items no_items = []
items (cons x xs) = x ∷ items xs

abbrev pub to_items : List Value → Items
to_items [] = no_items
to_items (x ∷ xs) = cons x (to_items xs)

abbrev pub entries : Fields → Object
entries no_fields = []
entries (field k v fs) = (k, v) ∷ entries fs

abbrev pub to_fields : Object → Fields
to_fields [] = no_fields
to_fields ((k, v) ∷ m) = field k v (to_fields m)

abbrev pub object : Object → Value
object m = obj (to_fields m)

abbrev pub array : List Value → Value
array xs = arr (to_items xs)

pub entries-to_fields : (m : Object) → entries (to_fields m) ≡ m
entries-to_fields [] = refl
entries-to_fields ((k, v) ∷ m) = ap (λ (r : Object). (k, v) ∷ r) (entries-to_fields m)

pub items-to_items : (xs : List Value) → items (to_items xs) ≡ xs
items-to_items [] = refl
items-to_items (x ∷ xs) = ap (λ (r : List Value). x ∷ r) (items-to_items xs)

unfoldable mutual
  pub height : Value → ℕ
  height null = 0
  height (bool b) = 0
  height (int n) = 0
  height (float n) = 0
  height (str s) = 0
  height (arr xs) = suc (height_items xs)
  height (obj fs) = suc (height_fields fs)

  pub height_items : Items → ℕ
  height_items no_items = 0
  height_items (cons x xs) = max (height_items xs) (height x)

  pub height_fields : Fields → ℕ
  height_fields no_fields = 0
  height_fields (field k v fs) = max (height_fields fs) (height v)

-- Every value of an object, or item of a list, lies below a height.
abbrev pub Below : ℕ → Object → Type 0
Below n = All (λ (e : String × Value). height e.1 < n)

abbrev pub ItemsBelow : ℕ → List Value → Type 0
ItemsBelow n = All (λ (v : Value). height v < n)

pub entries-Below : (fs : Fields) (n : ℕ) → height_fields fs < n → Below n (entries fs)
unfolding height
entries-Below no_fields n h = tt
entries-Below (field k v fs) n h = (omega arith, entries-Below fs n (omega arith))

pub items-ItemsBelow : (xs : Items) (n : ℕ) → height_items xs < n → ItemsBelow n (items xs)
unfolding height
items-ItemsBelow no_items n h = tt
items-ItemsBelow (cons x xs) n h = (omega arith, items-ItemsBelow xs n (omega arith))
