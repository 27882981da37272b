-- ===== src/Rolling/Reached.antt =====
-- What the tests of `shouldContinueRolling` on generations and strategies mean.
use metacontroller.Prelude.{
  ℕ, ◌≤◌, ◌<◌, ◌⊎◌, ltb, true, false, Option, none, some, string_eq, Result, ok, err, ◌≡◌, refl,
  ◌↔◌, arith, inl, inr, Bool-cases,
}
use metacontroller.Json.{ℤ, pos, negsuc}
use metacontroller.Rolling.{Strategy, is_rolling_strategy, Stop, behind, first}

pub first_iff : (a b : Option Stop) → (first a b ≡ none) ↔ ((a ≡ none) × (b ≡ none))
first_iff none b = (λ h. (refl, h), λ (_, h). h)
first_iff (some w) b = (λ h. cc h, λ (e, _). cc e)

-- A generation is at most what has been observed.
abbrev pub Reached : ℤ → ℕ → Type 0
Reached (pos generation) seen = generation ≤ seen
Reached (negsuc n) seen = Unit

pub behind_iff :
    {Error : Type 0} (generation : ℤ) (result : Result Error (Option ℤ))
    → (behind generation result ≡ false)
      ↔ ((seen : ℕ) → result ≡ ok (some (pos seen)) → 0 < seen → Reached generation seen)
behind_iff generation (err e) = (λ _ seen h. cc h, λ _. refl)
behind_iff generation (ok none) = (λ _ seen h. cc h, λ _. refl)
behind_iff generation (ok (some (negsuc n))) = (λ _ seen h. cc h, λ _. refl)
behind_iff (negsuc g) (ok (some (pos n))) = (λ _ seen h p. tt, λ _. ground arith)
behind_iff (pos g) (ok (some (pos n))) = (
  λ h seen e p. let same : n ≡ seen = cc e in ground (arith, h, same, p),
  λ f. elim (Bool-cases (ltb 0 n)) [
    | inl t ↦ let reached : g ≤ n = f n refl (ground (arith, t)) in ground (arith, reached)
    | inr z ↦ rw z refl
  ],
)

-- A strategy is rolling by its method.
abbrev pub RollsOut : Strategy → Type 0
RollsOut s = (s.method ≡ "RollingInPlace") ⊎ (s.method ≡ "RollingRecreate")

pub is_rolling_strategy_iff : (s : Strategy) → (is_rolling_strategy (some s) ≡ true) ↔ RollsOut s
unfolding is_rolling_strategy
is_rolling_strategy_iff s = ground (
  arith,
  string_eq.same_iff s.method "RollingInPlace",
  string_eq.same_iff s.method "RollingRecreate",
)
