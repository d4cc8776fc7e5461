-- ===== src/RuleCompiler/Correct.antt =====
-- The rules that src/core/engine/engine.cpp compiles against the modifiers that a key asks for.
use yamy.Base.{
  ℕ, ◌≡◌, refl, ap, ◌∙◌, Bool, ◌&&◌, Option, none, some, List, [], ◌∷◌, arith, Bits, All,
}
use yamy.ModifiedKey.{ModifiedKey}
use yamy.RuleTable.{CompiledRule, matches}
use yamy.RuleCompiler.{
  generics, specifics, draft, compile_substitute, ScanCodes, output_code, compile_rules, ActionType,
  action_key, action_key_seq, action_function, compile_key_assignment,
}
use yamy.RuleCompiler.OutputCode.{compile_rules-output}
use yamy.RuleCompiler.Expansion.{some_side, any_match, any_match-expand_all}
use yamy.RuleCompiler.Conditions.{
  wants_generics, wants_specifics, accepts-generics, generics-FlagsOk, matches-specifics,
}

-- What the modifiers of a key ask of a state, in the words of the configuration: Shift, Control, Alt
-- and Windows stand for either side, and each lock and virtual modifier for its own flag.
unfoldable pub asked : ModifiedKey → Bits → Bool
asked mk s = wants_generics mk.modifier s && wants_specifics mk s

swap_and : (a b c : Bool) → (a && (b && c)) ≡ ((a && c) && b)
swap_and a b c = ground arith

any_match-compile_rules :
    (mk : ModifiedKey) (out : ℕ) (s : Bits) → any_match (compile_rules mk out) s ≡ asked mk s
unfolding compile_rules draft asked
any_match-compile_rules mk out s =
    let d = generics mk.modifier out in
    any_match-expand_all d.generic_modifiers (specifics mk d.rule) s
      (generics-FlagsOk mk.modifier out)
    ∙ ap (◌&&◌ (some_side d.generic_modifiers s)) (matches-specifics mk d.rule s)
    ∙ swap_and (some_side d.generic_modifiers s) (wants_specifics mk s) (matches d.rule s)
    ∙ ap (λ b. b && wants_specifics mk s) (accepts-generics mk.modifier out s)

-- A compiled substitute applies exactly where it should: for every key to replace with its modifiers,
-- every key to put out and every state of the modifiers, some rule of the compilation matches exactly
-- when the state is as the modifiers ask; and every rule puts out the first scan code of the key to
-- put out, or 0 where there is none.
pub compile_substitute_lem :
    (scan_codes : ScanCodes) (from to : ModifiedKey) (s : Bits)
    → (any_match (compile_substitute scan_codes from to) s ≡ asked from s)
      × All
          (λ r. r.output_scan_code ≡ output_code scan_codes to)
          (compile_substitute scan_codes from to)
unfolding compile_substitute
compile_substitute_lem scan_codes from to s =
    let out = output_code scan_codes to in
    (any_match-compile_rules from out s, compile_rules-output from out)

-- The key that the first action of a sequence puts out, where that action is a key.
abbrev pub first_key : Option (List ActionType) → Option ModifiedKey
first_key (some (action_key to ∷ actions)) = some to
first_key _ = none

-- What the rules of an assignment must be, for the key that its first action puts out.
abbrev pub CompiledAs :
    ScanCodes → ModifiedKey → Option ModifiedKey → List CompiledRule → Bits → Type 0
CompiledAs scan_codes from none rules s = rules ≡ []
CompiledAs scan_codes from (some to) rules s =
    (any_match rules s ≡ asked from s)
    × All (λ r. r.output_scan_code ≡ output_code scan_codes to) rules

-- An assignment in a keymap compiles to rules exactly where its first action is a key, whatever
-- follows it, so also for a sequence of several keys, of which the others are put out by no rule: then some rule matches exactly when the state is as the modifiers of the assigned key
-- ask, and every rule puts out the first scan code of that first key, or 0 where there is none; in
-- every other case there is no rule at all.
pub compile_key_assignment_lem :
    (scan_codes : ScanCodes) (from : ModifiedKey) (seq : Option (List ActionType)) (s : Bits)
    → CompiledAs scan_codes from (first_key seq) (compile_key_assignment scan_codes from seq) s
unfolding compile_key_assignment
compile_key_assignment_lem scan_codes from none s = refl
compile_key_assignment_lem scan_codes from (some []) s = refl
compile_key_assignment_lem scan_codes from (some (action_key to ∷ actions)) s =
    let out = output_code scan_codes to in
    (any_match-compile_rules from out s, compile_rules-output from out)
compile_key_assignment_lem scan_codes from (some (action_key_seq ∷ actions)) s = refl
compile_key_assignment_lem scan_codes from (some (action_function ∷ actions)) s = refl
