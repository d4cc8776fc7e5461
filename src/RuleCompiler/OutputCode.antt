-- ===== src/RuleCompiler/OutputCode.antt =====
-- The scan code that the rules compiled in src/core/engine/engine.cpp put out.
use yamy.Base.{
  ℕ, zero, suc, ◌+◌, ◌/◌, ◌^◌, ◌≡◌, refl, subst, ◌∙◌, List, [], ◌∷◌, length, arith, All,
}
use yamy.Modifier.{
  Modifier, type_shift, type_control, type_alt, type_windows, type_caps_lock, type_num_lock,
  type_scroll_lock, type_up,
}
use yamy.ModifierState.{lock_offset}
use yamy.ModifiedKey.{ModifiedKey}
use yamy.RuleTable.{CompiledRule}
use yamy.RuleCompiler.{
  Draft, type_lock0, base_rule, require_on, require_off, generic, specific, virtual_mods, locks,
  generics, specifics, draft, expand, expansions, expand_all, compile_rules,
}

generic-output :
    (m : Modifier) (type l r : ℕ) (d : Draft)
    → (generic m type l r d).rule.output_scan_code ≡ d.rule.output_scan_code
unfolding generic require_off
generic-output m type l r d = ground arith

generics-output : (m : Modifier) (out : ℕ) → (generics m out).rule.output_scan_code ≡ out
unfolding generics base_rule
generics-output m out =
    generic-output m type_windows 6 7 _
    ∙ generic-output m type_alt 4 5 _
    ∙ generic-output m type_control 2 3 _
    ∙ generic-output m type_shift 0 1 _

specific-output :
    (m : Modifier) (type f : ℕ) (r : CompiledRule)
    → (specific m type f r).output_scan_code ≡ r.output_scan_code
unfolding specific require_on require_off
specific-output m type f r = ground arith

virtual_mods-output :
    (n : ℕ) (mk : ModifiedKey) (r : CompiledRule)
    → (virtual_mods n mk r).output_scan_code ≡ r.output_scan_code
unfolding virtual_mods require_on
virtual_mods-output zero mk r = refl
virtual_mods-output (suc i) mk r = ground (arith, virtual_mods-output i mk r)

locks-output :
    (n : ℕ) (m : Modifier) (r : CompiledRule) → (locks n m r).output_scan_code ≡ r.output_scan_code
unfolding locks
locks-output zero m r = refl
locks-output (suc i) m r =
    specific-output m (type_lock0 + i) (lock_offset + i) (locks i m r) ∙ locks-output i m r

specifics-output :
    (mk : ModifiedKey) (r : CompiledRule) → (specifics mk r).output_scan_code ≡ r.output_scan_code
unfolding specifics
specifics-output mk r =
    let m = mk.modifier in
    locks-output 10 m _
    ∙ virtual_mods-output 256 mk _
    ∙ specific-output m type_up 11 _
    ∙ specific-output m type_scroll_lock 10 _
    ∙ specific-output m type_num_lock 9 _
    ∙ specific-output m type_caps_lock 8 r

expand-output :
    (i : ℕ) (ps : List (ℕ × ℕ)) (r : CompiledRule)
    → (expand i ps r).output_scan_code ≡ r.output_scan_code
unfolding expand require_on
expand-output i [] r = refl
expand-output i ((a, b) ∷ ps) r = expand-output (i / 2) ps _

expansions-output :
    (i count : ℕ) (ps : List (ℕ × ℕ)) (r : CompiledRule)
    → All (λ x. x.output_scan_code ≡ r.output_scan_code) (expansions i count ps r)
unfolding expansions
expansions-output i zero ps r = tt
expansions-output i (suc count) ps r = (expand-output i ps r, expansions-output (suc i) count ps r)

expand_all-output :
    (ps : List (ℕ × ℕ)) (r : CompiledRule) (out : ℕ)
    → r.output_scan_code ≡ out
    → All (λ x. x.output_scan_code ≡ out) (expand_all ps r)
expand_all-output [] r out e = (e, tt)
expand_all-output (p ∷ ps) r out e =
    subst (λ o. All (λ x. x.output_scan_code ≡ o) (expand_all (p ∷ ps) r)) e
      (expansions-output 0 (2 ^ length (p ∷ ps)) (p ∷ ps) r)

-- Every rule of a compilation puts out the given scan code.
pub compile_rules-output :
    (mk : ModifiedKey) (out : ℕ) → All (λ x. x.output_scan_code ≡ out) (compile_rules mk out)
unfolding compile_rules draft
compile_rules-output mk out =
    let d = generics mk.modifier out in
    expand_all-output d.generic_modifiers (specifics mk d.rule) out
      (specifics-output mk d.rule ∙ generics-output mk.modifier out)
