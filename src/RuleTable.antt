-- ===== src/RuleTable.antt =====
-- src/core/engine/compiled_rule.h and lookup_table.h: compiled substitution rules, in buckets by
-- scan code. The debug output of `findMatch` is left out.
pub mod Matching
pub mod Priority
use yamy.Base.{
  ℕ, ◌≡◌, Bool, true, false, not, ◌&&◌, Option, none, some, List, [], ◌∷◌, ◌++◌, Bits, same_bits,
  any_below, Assoc, lookup, insert, get_or, find_if, if◌then◌else◌,
}
use yamy.ModifierState.{total_bits}

pub record CompiledRule : Type 0 where
  pub required_on : Bits
  pub required_off : Bits
  pub output_scan_code : ℕ  -- uint16

unfoldable pub matches : CompiledRule → Bits → Bool
matches r current_state =
    if not (same_bits total_bits (λ i. current_state i && r.required_on i) r.required_on)
    then false
    else if any_below total_bits (λ i. current_state i && r.required_off i)
    then false
    else true

pub record RuleLookupTable : Type 0 where
  pub buckets : Assoc (List CompiledRule)

unfoldable pub add_rule : RuleLookupTable → ℕ → CompiledRule → RuleLookupTable
add_rule t input_scan_code rule = record t {
  buckets =
      insert input_scan_code (get_or [] (lookup input_scan_code t.buckets) ++ rule ∷ []) t.buckets;
}

unfoldable pub clear : RuleLookupTable → RuleLookupTable
clear t = record t { buckets = [] }

unfoldable pub find_match : RuleLookupTable → ℕ → Bits → Option CompiledRule
find_match t scan_code state = elim (lookup scan_code t.buckets) [
  | none ↦ none
  | some rules ↦ find_if (λ rule. matches rule state) rules
]
