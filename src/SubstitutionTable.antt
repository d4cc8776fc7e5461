-- ===== src/SubstitutionTable.antt =====
-- src/core/engine/engine_setting.cpp: `Engine::buildSubstitutionTable`, which makes the event
-- processor of a setting. A pointer to a key is its number, `none` for null. The order in which the
-- code walks a hash table is the order of the list here. Log lines are left out.
pub mod Lookup
pub mod Built
use yamy.Base.{
  ℕ, ◌≡◌, Bool, Option, none, some, List, [], ◌∷◌, Assoc, lookup, get_or, ltb, if◌then◌else◌,
}
use yamy.ModifiedKey.{ModifiedKey}
use yamy.RuleTable.{CompiledRule, RuleLookupTable, add_rule, clear}
use yamy.RuleCompiler.{ScanCodes, ActionType, compile_substitute, compile_key_assignment}
use yamy.EventProcessor.{
  KeyCodes, EventProcessor, register_number, register_trigger, processor_init,
}

-- What the code reads of the keyboard, of the global keymap and of the setting; `none` for a null
-- keymap or setting.
pub record Source : Type 0 where
  pub scan_codes : ScanCodes
  pub substitutes : List (ModifiedKey × ModifiedKey)
  pub assignments : Option (List (ModifiedKey × Option (List ActionType)))
  pub number_modifiers : List (Option ℕ × Option ℕ)
  pub triggers : Option (List (ℕ × ℕ))
  pub tap_actions : Assoc ℕ

-- The first scan code of a key, if there is such a key and it has one.
unfoldable pub first_scan_code : ScanCodes → Option ℕ → Option ℕ
first_scan_code scan_codes none = none
first_scan_code scan_codes (some k) = elim (scan_codes k) [ [] ↦ none | code ∷ codes ↦ some code ]

-- The loop over the rules of one compilation.
unfoldable pub add_rules : RuleLookupTable → ℕ → List CompiledRule → RuleLookupTable
add_rules t input_scan_code [] = t
add_rules t input_scan_code (r ∷ rules) =
    add_rules (add_rule t input_scan_code r) input_scan_code rules

abbrev pub add_compiled : RuleLookupTable → Option ℕ → List CompiledRule → RuleLookupTable
add_compiled t none rules = t
add_compiled t (some code) rules = add_rules t code rules

-- The loop over the substitutes.
unfoldable pub add_substitutes :
    ScanCodes → RuleLookupTable → List (ModifiedKey × ModifiedKey) → RuleLookupTable
add_substitutes sc t [] = t
add_substitutes sc t ((from, to) ∷ rest) =
    add_substitutes sc
      (add_compiled t (first_scan_code sc from.key) (compile_substitute sc from to)) rest

-- The loop over the assignments of the global keymap.
unfoldable pub add_assignments :
    ScanCodes → RuleLookupTable → List (ModifiedKey × Option (List ActionType)) → RuleLookupTable
add_assignments sc t [] = t
add_assignments sc t ((from, seq) ∷ rest) =
    add_assignments sc
      (add_compiled t (first_scan_code sc from.key) (compile_key_assignment sc from seq)) rest

-- One round of the loop over the number modifiers.
abbrev pub number_round : KeyCodes → EventProcessor → Option ℕ → Option ℕ → EventProcessor
number_round codes p (some n) (some m) = register_number codes p n m
number_round codes p (some n) none = p
number_round codes p none m = p

unfoldable pub register_numbers :
    KeyCodes → ScanCodes → EventProcessor → List (Option ℕ × Option ℕ) → EventProcessor
register_numbers codes sc p [] = p
register_numbers codes sc p ((number, modifier) ∷ rest) =
    register_numbers codes sc
      (number_round codes p (first_scan_code sc number) (first_scan_code sc modifier)) rest

-- The loop over the triggers; a modifier without a tap action gets 0.
unfoldable pub register_triggers : EventProcessor → Assoc ℕ → List (ℕ × ℕ) → EventProcessor
register_triggers p taps [] = p
register_triggers p taps ((trigger, mod_num) ∷ rest) =
    register_triggers (register_trigger p trigger mod_num (get_or 0 (lookup mod_num taps))) taps
      rest

unfoldable pub all_assignments :
    ScanCodes
    → RuleLookupTable
    → Option (List (ModifiedKey × Option (List ActionType)))
    → RuleLookupTable
all_assignments sc t none = t
all_assignments sc t (some l) = add_assignments sc t l

unfoldable pub all_triggers : EventProcessor → Assoc ℕ → Option (List (ℕ × ℕ)) → EventProcessor
all_triggers p taps none = p
all_triggers p taps (some l) = register_triggers p taps l

-- The rules of a new processor.
unfoldable pub build_rules : Source → RuleLookupTable → RuleLookupTable
build_rules src t =
    all_assignments src.scan_codes (add_substitutes src.scan_codes (clear t) src.substitutes)
      src.assignments

-- `buildSubstitutionTable`: the processor in use afterwards, from the one before; `guard` is
-- `m_generateKeyboardEventsRecursionGuard`.
unfoldable pub build_substitution_table : KeyCodes → ℕ → Source → EventProcessor → EventProcessor
build_substitution_table codes guard src current =
    if ltb 0 guard
    then current
    else let fresh = processor_init in
      all_triggers
        (register_numbers codes src.scan_codes
          (record fresh { lookup_table = build_rules src fresh.lookup_table }) src.number_modifiers)
        src.tap_actions src.triggers
