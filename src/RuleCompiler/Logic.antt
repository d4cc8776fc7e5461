-- ===== src/RuleCompiler/Logic.antt =====
-- What the masks of src/core/engine/compiled_rule.h require, one flag at a time.
use yamy.Base.{
  ℕ, subst, set_bit, set_bit_self, ◌<◌, ◌≡◌, refl, ◌↔◌, Bool, true, false, not, ◌&&◌, arith, Bits,
}
use native.Mathlib.Decide.{ℕ_discrete}
use yamy.ModifierState.{total_bits}
use yamy.RuleTable.{CompiledRule, matches}
use yamy.RuleTable.Matching.{Holds, matches_iff}
use yamy.RuleCompiler.{base_rule, require_on, require_off}

-- Two Boolean values are equal when each follows from the other.
pub same_of_iff : (a b : Bool) → ((a ≡ true) ↔ (b ≡ true)) → a ≡ b
same_of_iff true true h = refl
same_of_iff true false h = ground (arith, h.0 refl)
same_of_iff false true h = ground (arith, h.1 refl)
same_of_iff false false h = refl

pub matches-base_rule : (out : ℕ) (s : Bits) → matches (base_rule out) s ≡ true
unfolding base_rule
matches-base_rule out s = (matches_iff _ s).1 (λ i lt. (λ e. cc, λ e. cc))

-- A flag of a mask with one more flag set.
set_cases :
    (P : ℕ → Type 0) (mask : Bits) (f i : ℕ)
    → P f
    → (mask i ≡ true → P i)
    → set_bit mask f true i ≡ true
    → P i
set_cases P mask f i p rest h = elim (ℕ_discrete f i) [
  | yes e ↦ subst P e p
  | no ne ↦ rest (ground arith)
]

keeps : (mask : Bits) (f i : ℕ) → mask i ≡ true → set_bit mask f true i ≡ true
keeps mask f i h = ground arith

Holds-require_on :
    (r : CompiledRule) (f : ℕ) (s : Bits)
    → f < total_bits
    → Holds (require_on f r) s ↔ ((s f ≡ true) × Holds r s)
unfolding require_on
Holds-require_on r f s h = (
  λ k. (
    (k f h).0 (set_bit_self r.required_on f true),
    λ i lt. (λ e. (k i lt).0 (keeps r.required_on f i e), (k i lt).1),
  ),
  λ k i lt. (set_cases (λ j. s j ≡ true) r.required_on f i k.0 (k.1 i lt).0, (k.1 i lt).1),
)

Holds-require_off :
    (r : CompiledRule) (f : ℕ) (s : Bits)
    → f < total_bits
    → Holds (require_off f r) s ↔ ((s f ≡ false) × Holds r s)
unfolding require_off
Holds-require_off r f s h = (
  λ k. (
    (k f h).1 (set_bit_self r.required_off f true),
    λ i lt. ((k i lt).0, λ e. (k i lt).1 (keeps r.required_off f i e)),
  ),
  λ k i lt. ((k.1 i lt).0, set_cases (λ j. s j ≡ false) r.required_off f i k.0 (k.1 i lt).1),
)

-- One more flag required on is one more flag to test.
pub matches-require_on :
    (r : CompiledRule) (f : ℕ) (s : Bits)
    → f < total_bits
    → matches (require_on f r) s ≡ (s f && matches r s)
matches-require_on r f s h = same_of_iff _ _ (
  λ e.
      let (on, rest) = (Holds-require_on r f s h).0 ((matches_iff _ s).0 e) in
      ground (arith, (matches_iff r s).1 rest),
  λ e.
      (matches_iff _ s).1
        ((Holds-require_on r f s h).1 (ground arith, (matches_iff r s).0 (ground arith))),
)

pub matches-require_off :
    (r : CompiledRule) (f : ℕ) (s : Bits)
    → f < total_bits
    → matches (require_off f r) s ≡ (not (s f) && matches r s)
matches-require_off r f s h = same_of_iff _ _ (
  λ e.
      let (off, rest) = (Holds-require_off r f s h).0 ((matches_iff _ s).0 e) in
      ground (arith, (matches_iff r s).1 rest),
  λ e.
      (matches_iff _ s).1
        ((Holds-require_off r f s h).1 (ground arith, (matches_iff r s).0 (ground arith))),
)
