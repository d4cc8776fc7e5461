-- ===== src/RuleTable/Matching.antt =====
-- When a rule of src/core/engine/compiled_rule.h matches.
use yamy.Base.{
  ℕ, ◌<◌, ◌≡◌, ◌↔◌, Bool, true, false, ◌&&◌, arith, Bits, same_bits, same_bits_iff, any_below,
  any_below_none, none_below,
}
use yamy.ModifierState.{total_bits}
use yamy.RuleTable.{CompiledRule, matches}

-- A rule holds in a state: all that it requires on is on, and all that it requires off is off.
abbrev pub Holds : CompiledRule → Bits → Type 0
Holds r s =
    (i : ℕ)
    → i < total_bits
    → (r.required_on i ≡ true → s i ≡ true) × (r.required_off i ≡ true → s i ≡ false)

masked_on : (a b : Bool) → ((a && b) ≡ b) ↔ (b ≡ true → a ≡ true)
masked_on a b = ground arith

masked_off : (a b : Bool) → ((a && b) ≡ false) ↔ (b ≡ true → a ≡ false)
masked_off a b = ground arith

matches-parts :
    (r : CompiledRule) (s : Bits)
    → (matches r s ≡ true) ↔ (
        (same_bits total_bits (λ i. s i && r.required_on i) r.required_on ≡ true)
        × (any_below total_bits (λ i. s i && r.required_off i) ≡ false))
unfolding matches
matches-parts r s = (λ h. ground arith, λ h. ground arith)

-- `matches` on the two masks is true exactly when each of the 528 modifier and lock flags that the
-- rule requires on is on and each that it requires off is off.
pub matches_iff : (r : CompiledRule) (s : Bits) → (matches r s ≡ true) ↔ Holds r s
matches_iff r s = (
  λ h i lt.
      let (on, off) = (matches-parts r s).0 h in
      (
        (masked_on (s i) (r.required_on i)).0 ((same_bits_iff total_bits _ _).0 on i lt),
        (masked_off (s i) (r.required_off i)).0 (any_below_none total_bits _ i off lt),
      ),
  λ h. (matches-parts r s).1 (
    (same_bits_iff total_bits _ _).1 (λ i lt. (masked_on (s i) (r.required_on i)).1 (h i lt).0),
    none_below total_bits _ (λ i lt. (masked_off (s i) (r.required_off i)).1 (h i lt).1),
  ),
)
