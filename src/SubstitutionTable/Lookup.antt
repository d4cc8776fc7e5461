-- ===== src/SubstitutionTable/Lookup.antt =====
-- What the processor built in src/core/engine/engine_setting.cpp makes of a code: the rules of the
-- setting, read as a list of conditions.
use yamy.Base.{
  ℕ, ◌≡◌, refl, sym, ap, ◌∙◌, Bool, false, ◌&&◌, ◌||◌, Option, none, some, List, [], ◌∷◌, arith,
  All, Bits, ◌==◌, if◌then◌else◌,
}
use yamy.ModifiedKey.{ModifiedKey}
use yamy.RuleTable.{CompiledRule, RuleLookupTable, matches, add_rule, find_match}
use yamy.RuleTable.Priority.{or_else, find_match-add_rule}
use yamy.RuleCompiler.{
  ScanCodes, ActionType, output_code, compile_substitute, compile_key_assignment,
}
use yamy.RuleCompiler.Expansion.{any_match}
use yamy.RuleCompiler.Correct.{
  asked, compile_substitute_lem, first_key, CompiledAs, compile_key_assignment_lem,
}
use yamy.SubstitutionTable.{
  first_scan_code, add_rules, add_compiled, add_substitutes, add_assignments,
}

-- The code that a rule puts out, if there is a rule.
abbrev pub output : Option CompiledRule → Option ℕ
output none = none
output (some r) = some r.output_scan_code

output-or_else : (a b : Option CompiledRule) → output (or_else a b) ≡ or_else (output a) (output b)
output-or_else none b = refl
output-or_else (some r) b = refl

-- What a table puts out for a code.
abbrev pub found : RuleLookupTable → ℕ → Bits → Option ℕ
found t j s = output (find_match t j s)

or_else_assoc : (a b c : Option ℕ) → or_else (or_else a b) c ≡ or_else a (or_else b c)
or_else_assoc none b c = refl
or_else_assoc (some x) b c = refl

pub or_else-none : (a : Option ℕ) → or_else a none ≡ a
or_else-none none = refl
or_else-none (some x) = refl

-- Where the condition holds, the given code.
abbrev pub when : Bool → Option ℕ → Option ℕ
when c o = if c then o else none

found-add_rule :
    (t : RuleLookupTable) (k : ℕ) (r : CompiledRule) (j : ℕ) (s : Bits)
    → found (add_rule t k r) j s
      ≡ or_else (found t j s) (when (k == j && matches r s) (some r.output_scan_code))
found-add_rule t k r j s =
    ap output (find_match-add_rule t k r j s)
    ∙ ground (arith, output-or_else (find_match t j s), or_else-none (found t j s))

when-or :
    (a m n : Bool) (o : Option ℕ)
    → or_else (when (a && m) o) (when (a && n) o) ≡ when (a && (m || n)) o
when-or a m n none = ground arith
when-or a m n (some x) = ground arith

found-add_rules :
    (t : RuleLookupTable) (k : ℕ) (rules : List CompiledRule) (out j : ℕ) (s : Bits)
    → All (λ r. r.output_scan_code ≡ out) rules
    → found (add_rules t k rules) j s
      ≡ or_else (found t j s) (when (k == j && any_match rules s) (some out))
unfolding add_rules
found-add_rules t k [] out j s all = ground (arith, or_else-none (found t j s))
found-add_rules t k (r ∷ rules) out j s (e, all) =
    let here = when (k == j && matches r s) (some out) in
    let later = when (k == j && any_match rules s) (some out) in
    found-add_rules (add_rule t k r) k rules out j s all
    ∙ ap (λ o. or_else o later)
        (found-add_rule t k r j s
          ∙ ap (λ x. or_else (found t j s) (when (k == j && matches r s) (some x))) e)
    ∙ or_else_assoc (found t j s) here later
    ∙ ap (or_else (found t j s)) (when-or (k == j) (matches r s) (any_match rules s) (some out))

-- Is the scan code of the key the one looked up?
abbrev pub is_code : Option ℕ → ℕ → Bool
is_code none j = false
is_code (some k) j = k == j

found-add_compiled :
    (t : RuleLookupTable) (code : Option ℕ) (rules : List CompiledRule) (out j : ℕ) (s : Bits)
    → All (λ r. r.output_scan_code ≡ out) rules
    → found (add_compiled t code rules) j s
      ≡ or_else (found t j s) (when (is_code code j && any_match rules s) (some out))
found-add_compiled t none rules out j s all = sym (or_else-none (found t j s))
found-add_compiled t (some k) rules out j s all = found-add_rules t k rules out j s all

-- The specification of the substitutes: the output of the first one for this code whose modifiers
-- the state satisfies.
unfoldable pub first_substitute : ScanCodes → List (ModifiedKey × ModifiedKey) → ℕ → Bits → Option ℕ
first_substitute sc [] j s = none
first_substitute sc ((from, to) ∷ rest) j s =
    or_else
      (when (is_code (first_scan_code sc from.key) j && asked from s) (some (output_code sc to)))
      (first_substitute sc rest j s)

pub found-add_substitutes :
    (sc : ScanCodes) (t : RuleLookupTable) (l : List (ModifiedKey × ModifiedKey)) (j : ℕ) (s : Bits)
    → found (add_substitutes sc t l) j s ≡ or_else (found t j s) (first_substitute sc l j s)
unfolding add_substitutes first_substitute
found-add_substitutes sc t [] j s = sym (or_else-none (found t j s))
found-add_substitutes sc t ((from, to) ∷ rest) j s =
    let rules = compile_substitute sc from to in
    let code = first_scan_code sc from.key in
    let out = output_code sc to in
    let (same, all) = compile_substitute_lem sc from to s in
    found-add_substitutes sc (add_compiled t code rules) rest j s
    ∙ ap (λ o. or_else o (first_substitute sc rest j s))
        (found-add_compiled t code rules out j s all
          ∙ ap (λ b. or_else (found t j s) (when (is_code code j && b) (some out))) same)
    ∙ or_else_assoc (found t j s) (when (is_code code j && asked from s) (some out)) _

-- The code that an assignment puts out, where its first action is a key.
abbrev pub assigned : ScanCodes → Option ModifiedKey → Option ℕ
assigned sc none = none
assigned sc (some to) = some (output_code sc to)

-- The specification of the assignments.
unfoldable pub first_assignment :
    ScanCodes → List (ModifiedKey × Option (List ActionType)) → ℕ → Bits → Option ℕ
first_assignment sc [] j s = none
first_assignment sc ((from, seq) ∷ rest) j s =
    or_else
      (when (is_code (first_scan_code sc from.key) j && asked from s) (assigned sc (first_key seq)))
      (first_assignment sc rest j s)

found-compiled :
    (sc : ScanCodes) (t : RuleLookupTable) (code : Option ℕ) (from : ModifiedKey)
    (to : Option ModifiedKey) (rules : List CompiledRule) (j : ℕ) (s : Bits)
    → CompiledAs sc from to rules s
    → found (add_compiled t code rules) j s
      ≡ or_else (found t j s) (when (is_code code j && asked from s) (assigned sc to))
unfolding add_rules
found-compiled sc t none from none rules j s h = sym (or_else-none (found t j s))
found-compiled sc t (some k) from none rules j s h =
    rw h (ground (arith, or_else-none (found t j s)))
found-compiled sc t code from (some to) rules j s (same, all) =
    found-add_compiled t code rules (output_code sc to) j s all
    ∙ ap (λ b. or_else (found t j s) (when (is_code code j && b) (some (output_code sc to)))) same

pub found-add_assignments :
    (sc : ScanCodes) (t : RuleLookupTable) (l : List (ModifiedKey × Option (List ActionType)))
    (j : ℕ) (s : Bits)
    → found (add_assignments sc t l) j s ≡ or_else (found t j s) (first_assignment sc l j s)
unfolding add_assignments first_assignment
found-add_assignments sc t [] j s = sym (or_else-none (found t j s))
found-add_assignments sc t ((from, seq) ∷ rest) j s =
    let rules = compile_key_assignment sc from seq in
    let code = first_scan_code sc from.key in
    found-add_assignments sc (add_compiled t code rules) rest j s
    ∙ ap (λ o. or_else o (first_assignment sc rest j s))
        (found-compiled sc t code from (first_key seq) rules j s
          (compile_key_assignment_lem sc from seq s))
    ∙ or_else_assoc (found t j s)
        (when (is_code code j && asked from s) (assigned sc (first_key seq))) _
