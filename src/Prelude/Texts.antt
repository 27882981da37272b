-- ===== src/Prelude/Texts.antt =====
-- Texts that are joined by a separator and split at its first place: `strings.SplitN(s, sep, 2)`.
use Prim.Native.Nat.{ℕ}
use Prim.Native.Char.{Char, code}
use Prim.Native.String.append
use Prim.Native.String.{String}
use Prim.Native.String
use mathlib.Core.Path.{◌≡◌, refl, ap, sym, ◌∙◌}
use mathlib.Core.Bool.{true, false}
use mathlib.Core.Option.{Option, none, some}
use mathlib.Core.Logic.{◌≢◌}
use native.Mathlib.Omega.{arith}
use metacontroller.Prelude.Tests.{nat_beq, if◌then◌else◌}

abbrev pub Pair : Type 0
Pair = String × String

abbrev prepend : Char → Option Pair → Option Pair
prepend c none = none
prepend c (some (a, b)) = some (String.◌∷◌ c a, b)

-- The parts before and after the first character with the separator's code.
unfoldable pub cut : ℕ → String → Option Pair
cut sep String.[] = none
cut sep (String.◌∷◌ c s) =
    let rest = prepend c (cut sep s) in if nat_beq (code c) sep then some (String.[], s) else rest

-- No character has the separator's code.
abbrev pub Lacks : ℕ → String → Type 0
Lacks sep String.[] = Unit
Lacks sep (String.◌∷◌ c s) = (code c ≢ sep) × Lacks sep s

other_code : (c : Char) (sep : ℕ) → code c ≢ sep → nat_beq (code c) sep ≡ false
other_code c sep h = ground arith

pub cut-join :
    (sep : ℕ) (c : Char) (a b : String)
    → nat_beq (code c) sep ≡ true
    → Lacks sep a
    → cut sep (String.◌++◌ a (String.◌∷◌ c b)) ≡ some (a, b)
unfolding cut
cut-join sep c String.[] b s h = rw (append.nil (String.◌∷◌ c b)) (rw s refl)
cut-join sep c (String.◌∷◌ d a) b s h =
    rw (append.cons d a (String.◌∷◌ c b)) (rw (other_code d sep h.0, cut-join sep c a b s h.1) refl)

pub cut-Lacks : (sep : ℕ) (a : String) → Lacks sep a → cut sep a ≡ none
unfolding cut
cut-Lacks sep String.[] h = refl
cut-Lacks sep (String.◌∷◌ d a) h = rw (other_code d sep h.0, cut-Lacks sep a h.1) refl

-- Two texts joined by a separator that the first parts lack are equal only part by part.
pub join_inj :
    (sep : ℕ) (c : Char) (a b a' b' : String)
    → nat_beq (code c) sep ≡ true
    → Lacks sep a
    → Lacks sep a'
    → String.◌++◌ a (String.◌∷◌ c b) ≡ String.◌++◌ a' (String.◌∷◌ c b')
    → (a ≡ a') × (b ≡ b')
join_inj sep c a b a' b' s h h' e =
    let p = sym (cut-join sep c a b s h) ∙ ap (cut sep) e ∙ cut-join sep c a' b' s h' in
    (cc p, cc p)
