-- ===== src/Examples/Rules.antt =====
-- Examples for the rules of src/core/engine: Shift with key 0 becomes key 1, and M03 with key 0 becomes
-- key 2.
use yamy.Base.{
  ℕ, ◌+◌, ◌≡◌, true, false, some, Option, List, [], ◌∷◌, All, Bits, no_bits, set_bit, get_or,
}
use yamy.Modifier.{modifier_init, press, type_shift}
use yamy.ModifierState.{ModifierState}
use yamy.ModifiedKey.{ModifiedKey, Words, of_key, of_modifier, set_virtual_mod}
use yamy.RuleTable.{CompiledRule, RuleLookupTable, clear, find_match}
use yamy.RuleTable.Priority.{fill, first_match, find_match-refines}
use yamy.RuleCompiler.{
  ScanCodes, ActionType, action_key, action_function, compile_substitute, compile_key_assignment,
  output_code,
}
use yamy.RuleCompiler.Expansion.{any_match}
use yamy.RuleCompiler.Correct.{
  asked, compile_substitute_lem, CompiledAs, first_key, compile_key_assignment_lem,
}
use yamy.EventProcessor.{KeyCodes, processor_init, apply_rules}
use yamy.SubstitutionTable.{Source, build_substitution_table}
use yamy.SubstitutionTable.Built.{configured, build_substitution_table_lem}
use yamy.VirtualKeymap.{KeymapEntry}

-- Left Shift is down and M03 is active.
abbrev bits : Bits
bits = set_bit (set_bit no_bits 0 true) 19 true

abbrev state : ModifierState
state = record { bits = bits; has_callback = false }

abbrev rule : CompiledRule
rule = record {
  required_on = set_bit no_bits 0 true;
  required_off = set_bit no_bits 2 true;
  output_scan_code = 31;
}

abbrev table : RuleLookupTable
table = record { buckets = [] }

find_match-refines_example :
    find_match (fill (clear table) ((30, rule) ∷ (32, rule) ∷ [])) 32 bits
    ≡ first_match ((30, rule) ∷ (32, rule) ∷ []) 32 bits
find_match-refines_example = find_match-refines table ((30, rule) ∷ (32, rule) ∷ []) 32 bits

-- Key k has the scan code k + 30.
abbrev scan_codes : ScanCodes
scan_codes k = (k + 30) ∷ []

abbrev shift_key : ModifiedKey
shift_key = of_modifier (press modifier_init type_shift) (some 0)

abbrev m03_key : ModifiedKey
m03_key = set_virtual_mod (of_key 0) 3 true

compile_substitute_example :
    (any_match (compile_substitute scan_codes shift_key (of_key 1)) bits ≡ asked shift_key bits)
    × All
        (λ r. r.output_scan_code ≡ output_code scan_codes (of_key 1))
        (compile_substitute scan_codes shift_key (of_key 1))
compile_substitute_example = compile_substitute_lem scan_codes shift_key (of_key 1) bits

abbrev seq : Option (List ActionType)
seq = some (action_key (of_key 2) ∷ action_function ∷ [])

compile_key_assignment_example :
    CompiledAs scan_codes m03_key
      (first_key seq)
      (compile_key_assignment scan_codes m03_key seq)
      bits
compile_key_assignment_example = compile_key_assignment_lem scan_codes m03_key seq bits

abbrev source : Source
source = record {
  scan_codes = scan_codes;
  substitutes = (shift_key, of_key 1) ∷ [];
  assignments = some ((m03_key, seq) ∷ []);
  number_modifiers = (some 5, some 6) ∷ [];
  triggers = some ((58, 3) ∷ []);
  tap_actions = (3, 28) ∷ [];
}

abbrev codes : KeyCodes
codes = record { evdev_to_yamy = λ c. c; yamy_to_evdev = λ c. c }

build_substitution_table_example :
    (apply_rules (build_substitution_table codes 0 source processor_init) (some state) 30
      ≡ get_or 30 (configured source 30 bits))
    × (build_substitution_table codes 3 source processor_init ≡ processor_init)
build_substitution_table_example =
    build_substitution_table_lem codes source processor_init state 30 2

abbrev no_words : Words
no_words w i = false

abbrev entry : ℕ → KeymapEntry
entry n = record {
  required_mods = no_words;
  required_locks = no_words;
  input_key = 30;
  output_key = n;
  specificity = 0;
}
