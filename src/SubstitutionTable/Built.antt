-- ===== src/SubstitutionTable/Built.antt =====
-- The processor that src/core/engine/engine_setting.cpp builds, against the configuration.
use yamy.Base.{
  ℕ, suc, ◌≡◌, refl, sym, ap, ◌∙◌, Option, none, some, List, [], ◌∷◌, arith, Bits, Assoc, lookup,
  get_or,
}
use yamy.ModifierState.{ModifierState}
use yamy.ModifiedKey.{ModifiedKey}
use yamy.RuleTable.{RuleLookupTable, clear}
use yamy.RuleTable.Priority.{or_else, find_match-cleared}
use yamy.RuleCompiler.{ScanCodes, ActionType}
use yamy.EventProcessor.{
  KeyCodes, EventProcessor, register_number, register_trigger, processor_init, apply_rules,
}
use yamy.SubstitutionTable.{
  Source, first_scan_code, add_substitutes, number_round, register_numbers, register_triggers,
  all_assignments, all_triggers, build_rules, build_substitution_table,
}
use yamy.SubstitutionTable.Lookup.{
  output, found, or_else-none, first_substitute, first_assignment, found-add_substitutes,
  found-add_assignments,
}

number-table :
    (codes : KeyCodes) (p : EventProcessor) (n m : ℕ)
    → (register_number codes p n m).lookup_table ≡ p.lookup_table
unfolding register_number
number-table codes p n m = ground arith

round-table :
    (codes : KeyCodes) (p : EventProcessor) (n m : Option ℕ)
    → (number_round codes p n m).lookup_table ≡ p.lookup_table
round-table codes p (some n) (some m) = number-table codes p n m
round-table codes p (some n) none = refl
round-table codes p none m = refl

numbers-table :
    (codes : KeyCodes) (sc : ScanCodes) (p : EventProcessor) (l : List (Option ℕ × Option ℕ))
    → (register_numbers codes sc p l).lookup_table ≡ p.lookup_table
unfolding register_numbers
numbers-table codes sc p [] = refl
numbers-table codes sc p ((n, m) ∷ rest) =
    numbers-table codes sc (number_round codes p (first_scan_code sc n) (first_scan_code sc m)) rest
    ∙ round-table codes p (first_scan_code sc n) (first_scan_code sc m)

triggers-table :
    (p : EventProcessor) (taps : Assoc ℕ) (l : List (ℕ × ℕ))
    → (register_triggers p taps l).lookup_table ≡ p.lookup_table
unfolding register_triggers register_trigger
triggers-table p taps [] = refl
triggers-table p taps ((k, n) ∷ rest) =
    triggers-table (register_trigger p k n (get_or 0 (lookup n taps))) taps rest ∙ ground arith

all_triggers-table :
    (p : EventProcessor) (taps : Assoc ℕ) (o : Option (List (ℕ × ℕ)))
    → (all_triggers p taps o).lookup_table ≡ p.lookup_table
unfolding all_triggers
all_triggers-table p taps none = refl
all_triggers-table p taps (some l) = triggers-table p taps l

-- The specification: what a setting makes of a code under a state of the modifiers. The substitutes
-- come first, then the assignments of the global keymap; the first one for this code whose modifiers
-- the state satisfies decides.
unfoldable pub assigned_first :
    ScanCodes → Option (List (ModifiedKey × Option (List ActionType))) → ℕ → Bits → Option ℕ
unfolding first_assignment
assigned_first sc none j s = none
assigned_first sc (some l) j s = first_assignment sc l j s

unfoldable pub configured : Source → ℕ → Bits → Option ℕ
configured src j s =
    or_else (first_substitute src.scan_codes src.substitutes j s)
      (assigned_first src.scan_codes src.assignments j s)

found-all_assignments :
    (sc : ScanCodes) (t : RuleLookupTable)
    (o : Option (List (ModifiedKey × Option (List ActionType)))) (j : ℕ) (s : Bits)
    → found (all_assignments sc t o) j s ≡ or_else (found t j s) (assigned_first sc o j s)
unfolding all_assignments assigned_first
found-all_assignments sc t none j s = sym (or_else-none (found t j s))
found-all_assignments sc t (some l) j s = found-add_assignments sc t l j s

found-build_rules :
    (src : Source) (t : RuleLookupTable) (j : ℕ) (s : Bits)
    → found (build_rules src t) j s ≡ configured src j s
unfolding build_rules configured
found-build_rules src t j s =
    let sc = src.scan_codes in
    let last = assigned_first sc src.assignments j s in
    found-all_assignments sc (add_substitutes sc (clear t) src.substitutes) src.assignments j s
    ∙ ap (λ o. or_else o last)
        (found-add_substitutes sc (clear t) src.substitutes j s
          ∙ ap (λ o. or_else (output o) (first_substitute sc src.substitutes j s))
              (find_match-cleared t j s))

built-table :
    (codes : KeyCodes) (src : Source) (current : EventProcessor)
    → (build_substitution_table codes 0 src current).lookup_table
      ≡ build_rules src processor_init.lookup_table
unfolding build_substitution_table
built-table codes src current =
    all_triggers-table _ src.tap_actions src.triggers
    ∙ numbers-table codes src.scan_codes _ src.number_modifiers

apply_rules-found :
    (p : EventProcessor) (s : ModifierState) (code : ℕ)
    → apply_rules p (some s) code ≡ get_or code (found p.lookup_table code s.bits)
unfolding apply_rules
apply_rules-found p s code = ground arith

-- The processor that is built outside the processing of events puts out for every code and every
-- state of the modifiers what the configuration says: the output of the first substitute, or else of
-- the first assignment of the global keymap, that is for this code and whose modifiers the state
-- satisfies, and the code itself where there is none. While events are processed, the processor in
-- use stays.
pub build_substitution_table_lem :
    (codes : KeyCodes) (src : Source) (current : EventProcessor) (s : ModifierState)
    (code guard : ℕ)
    → (apply_rules (build_substitution_table codes 0 src current) (some s) code
        ≡ get_or code (configured src code s.bits))
      × (build_substitution_table codes (suc guard) src current ≡ current)
build_substitution_table_lem codes src current s code guard = (
  apply_rules-found (build_substitution_table codes 0 src current) s code
      ∙ ap (λ t. get_or code (found t code s.bits)) (built-table codes src current)
      ∙ ap (get_or code) (found-build_rules src processor_init.lookup_table code s.bits),
  unfold build_substitution_table in ground arith,
)
