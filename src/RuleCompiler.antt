-- ===== src/RuleCompiler.antt =====
-- src/core/engine/engine.cpp: `compileSubstitute` and `compileKeyAssignment`, which compile the modifiers that a key asks for into rules over the modifier bitset.
pub mod Logic
pub mod Expansion
pub mod OutputCode
pub mod Conditions
pub mod Correct
use yamy.Base.{
  ℕ, zero, suc, ◌+◌, ◌*◌, ◌/◌, ◌%◌, ◌^◌, ◌≡◌, Bool, true, false, not, Option, none, some, List, [],
  ◌∷◌, ◌++◌, length, Bits, no_bits, set_bit, ◌==◌, if◌then◌else◌,
}
use yamy.Modifier.{
  Modifier, is_pressed, is_dontcare, type_shift, type_control, type_alt, type_windows,
  type_caps_lock, type_num_lock, type_scroll_lock, type_up,
}
use yamy.ModifierState.{virtual_offset, lock_offset}
use yamy.ModifiedKey.{ModifiedKey, is_virtual_mod_active}
use yamy.RuleTable.{CompiledRule}

abbrev pub type_lock0 : ℕ
type_lock0 = 19

-- `base_rule` before its masks are filled.
unfoldable pub base_rule : ℕ → CompiledRule
base_rule output_scan_code = record {
  required_on = no_bits;
  required_off = no_bits;
  output_scan_code = output_scan_code;
}

-- `requiredOn.set(i)` and `requiredOff.set(i)`.
unfoldable pub require_on : ℕ → CompiledRule → CompiledRule
require_on i r = record r { required_on = set_bit r.required_on i true }

unfoldable pub require_off : ℕ → CompiledRule → CompiledRule
require_off i r = record r { required_off = set_bit r.required_off i true }

-- A rule under construction, with `generic_modifiers`.
pub record Draft : Type 0 where
  pub rule : CompiledRule
  pub generic_modifiers : List (ℕ × ℕ)

-- Shift, Control, Alt or Windows, with its left and right flag.
unfoldable pub generic : Modifier → ℕ → ℕ → ℕ → Draft → Draft
generic from_mod type left right d =
    if is_pressed from_mod type
    then record d { generic_modifiers = d.generic_modifiers ++ (left, right) ∷ [] }
    else if not (is_dontcare from_mod type)
    then record d { rule = require_off right (require_off left d.rule) }
    else d

-- A modifier with one flag.
unfoldable pub specific : Modifier → ℕ → ℕ → CompiledRule → CompiledRule
specific from_mod type flag r =
    if is_pressed from_mod type
    then require_on flag r
    else if not (is_dontcare from_mod type)
    then require_off flag r
    else r

-- The first n rounds of the loop over M00-MFF.
unfoldable pub virtual_mods : ℕ → ModifiedKey → CompiledRule → CompiledRule
virtual_mods zero mk r = r
virtual_mods (suc i) mk r =
    let r' = virtual_mods i mk r in
    if is_virtual_mod_active mk i then require_on (virtual_offset + i) r' else r'

-- The first n rounds of the loop over the ten locks.
unfoldable pub locks : ℕ → Modifier → CompiledRule → CompiledRule
unfolding specific
locks zero m r = r
locks (suc i) m r = specific m (type_lock0 + i) (lock_offset + i) (locks i m r)

-- The four generic modifiers, from the bare rule.
unfoldable pub generics : Modifier → ℕ → Draft
generics m output_scan_code = generic m type_windows 6 7 (
    generic m type_alt 4 5 (
      generic m type_control 2 3 (
        generic m type_shift 0 1
          (record { rule = base_rule output_scan_code; generic_modifiers = [] }))))

-- The other modifiers of a rule.
unfoldable pub specifics : ModifiedKey → CompiledRule → CompiledRule
specifics from r =
    let m = from.modifier in
    locks 10 m (
      virtual_mods 256 from (
        specific m type_up 11 (
          specific m type_scroll_lock 10
            (specific m type_num_lock 9 (specific m type_caps_lock 8 r)))))

-- All but the expansion.
unfoldable pub draft : ModifiedKey → ℕ → Draft
draft from output_scan_code =
    let d = generics from.modifier output_scan_code in record d { rule = specifics from d.rule }

-- Expansion number i: bit j of i chooses the right or the left flag of modifier j.
unfoldable pub expand : ℕ → List (ℕ × ℕ) → CompiledRule → CompiledRule
expand i [] r = r
expand i ((left, right) ∷ rest) r =
    expand (i / 2) rest (require_on (if i % 2 == 1 then right else left) r)

-- `count` expansions from number i on.
unfoldable pub expansions : ℕ → ℕ → List (ℕ × ℕ) → CompiledRule → List CompiledRule
unfolding expand
expansions i zero pairs r = []
expansions i (suc count) pairs r = expand i pairs r ∷ expansions (suc i) count pairs r

abbrev pub expand_all : List (ℕ × ℕ) → CompiledRule → List CompiledRule
expand_all [] r = r ∷ []
expand_all (p ∷ ps) r = expansions 0 (2 ^ length (p ∷ ps)) (p ∷ ps) r

-- The scan codes of a key, as `Key::getScanCodes` gives them.
abbrev pub ScanCodes : Type 0
ScanCodes = ℕ → List ℕ

-- The first scan code of the key to put out, 0 where there is no key or it has none.
unfoldable pub output_code : ScanCodes → ModifiedKey → ℕ
output_code scan_codes to = elim to.key [
  | none ↦ 0
  | some k ↦ elim (scan_codes k) [ [] ↦ 0 | code ∷ codes ↦ code ]
]

-- Everything that the two compilations share.
unfoldable pub compile_rules : ModifiedKey → ℕ → List CompiledRule
compile_rules from output_scan_code =
    let d = draft from output_scan_code in expand_all d.generic_modifiers d.rule

-- `compileSubstitute`, from `m_mkeyFrom` and `m_mkeyTo`.
unfoldable pub compile_substitute : ScanCodes → ModifiedKey → ModifiedKey → List CompiledRule
compile_substitute scan_codes from to = compile_rules from (output_code scan_codes to)

-- `Action::Type`; what a key sequence or a function does is not looked at here.
pub data ActionType : Type 0 where
  action_key : ModifiedKey → ActionType
  action_key_seq action_function : ActionType

-- `compileKeyAssignment`, from the key and the actions of its sequence, `none` for a null sequence.
unfoldable pub compile_key_assignment :
    ScanCodes → ModifiedKey → Option (List ActionType) → List CompiledRule
compile_key_assignment scan_codes from none = []
compile_key_assignment scan_codes from (some []) = []
compile_key_assignment scan_codes from (some (action_key to ∷ actions)) =
    compile_rules from (output_code scan_codes to)
compile_key_assignment scan_codes from (some (action_key_seq ∷ actions)) = []
compile_key_assignment scan_codes from (some (action_function ∷ actions)) = []
