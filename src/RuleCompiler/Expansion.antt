-- ===== src/RuleCompiler/Expansion.antt =====
-- The expansion of the generic modifiers in src/core/engine/engine.cpp: one rule for each choice of a
-- left or a right key.
use yamy.Base.{
  ℕ, zero, suc, ◌+◌, ◌*◌, ◌/◌, ◌%◌, ◌^◌, ◌<◌, ◌≡◌, refl, ap, ◌∙◌, Bool, true, false, ◌&&◌, ◌||◌,
  List, [], ◌∷◌, length, arith, Bits, All, ◌==◌, if◌then◌else◌,
}
use native.Mathlib.Nat.{pow-suc}
use yamy.ModifierState.{total_bits}
use yamy.RuleTable.{CompiledRule, matches}
use yamy.RuleCompiler.{require_on, expand, expansions, expand_all}
use yamy.RuleCompiler.Logic.{matches-require_on}

-- Is there a rule that matches?
abbrev pub any_match : List CompiledRule → Bits → Bool
any_match [] s = false
any_match (r ∷ rs) s = matches r s || any_match rs s

-- Every generic modifier has a flag set, on the left or on the right.
abbrev pub some_side : List (ℕ × ℕ) → Bits → Bool
some_side [] s = true
some_side ((left, right) ∷ rest) s = (s left || s right) && some_side rest s

abbrev pub FlagsOk : List (ℕ × ℕ) → Type 0
FlagsOk = All (λ p. (p.0 < total_bits) × (p.1 < total_bits))

-- The flags that expansion number i chooses are set.
chosen : ℕ → List (ℕ × ℕ) → Bits → Bool
chosen i [] s = true
chosen i ((left, right) ∷ rest) s =
    (if i % 2 == 1 then s right else s left) && chosen (i / 2) rest s

matches-expand :
    (i : ℕ) (ps : List (ℕ × ℕ)) (r : CompiledRule) (s : Bits)
    → FlagsOk ps
    → matches (expand i ps r) s ≡ (chosen i ps s && matches r s)
unfolding expand chosen
matches-expand i [] r s ok = refl
matches-expand i ((left, right) ∷ rest) r s ok = ground (
  arith,
  matches-expand (i / 2) rest (require_on (if i % 2 == 1 then right else left) r) s ok.1,
  matches-require_on r right s ok.0.1,
  matches-require_on r left s ok.0.0,
)

-- Does the test pass at one of `count` numbers from i on?
any_from : ℕ → ℕ → (ℕ → Bool) → Bool
any_from i zero p = false
any_from i (suc count) p = p i || any_from (suc i) count p

any_match-expansions :
    (i count : ℕ) (ps : List (ℕ × ℕ)) (r : CompiledRule) (s : Bits)
    → FlagsOk ps
    → any_match (expansions i count ps r) s ≡ (any_from i count (λ j. chosen j ps s) && matches r s)
unfolding expansions any_from
any_match-expansions i zero ps r s ok = refl
any_match-expansions i (suc count) ps r s ok =
    ground (arith, matches-expand i ps r s ok, any_match-expansions (suc i) count ps r s ok)

-- Numbers in pairs: an even one and the odd one behind it.
any_from-double :
    (i count : ℕ) (p : ℕ → Bool) (q : ℕ → Bool)
    → ((j : ℕ) → q j ≡ (p (2 * j) || p (2 * j + 1)))
    → any_from (2 * i) (2 * count) p ≡ any_from i count q
unfolding any_from
any_from-double i zero p q h = refl
any_from-double i (suc count) p q h =
    let twice : 2 * suc count ≡ suc (suc (2 * count)) = omega arith in
    let next : suc (suc (2 * i)) ≡ 2 * suc i = omega arith in
    let odd : suc (2 * i) ≡ 2 * i + 1 = omega arith in
    rw twice (rw (next, odd) (ground (arith, h i, any_from-double (suc i) count p q h)))

any_from-and :
    (i count : ℕ) (b : Bool) (q : ℕ → Bool)
    → any_from i count (λ j. b && q j) ≡ (b && any_from i count q)
unfolding any_from
any_from-and i zero b q = ground arith
any_from-and i (suc count) b q = ground (arith, any_from-and (suc i) count b q)

chosen-pair :
    (l r : ℕ) (rest : List (ℕ × ℕ)) (s : Bits) (j : ℕ)
    → ((s l || s r) && chosen j rest s)
      ≡ (chosen (2 * j) ((l, r) ∷ rest) s || chosen (2 * j + 1) ((l, r) ∷ rest) s)
unfolding chosen
chosen-pair l r rest s j =
    let a : 2 * j / 2 ≡ j = omega arith in
    let b : (2 * j + 1) / 2 ≡ j = omega arith in rw (a, b) (ground arith)

-- Some choice is set exactly when each generic modifier has a side set.
any_from-chosen :
    (ps : List (ℕ × ℕ)) (s : Bits)
    → any_from 0 (2 ^ length ps) (λ j. chosen j ps s) ≡ some_side ps s
any_from-chosen [] s = unfold any_from chosen in refl
any_from-chosen ((l, r) ∷ rest) s =
    let twice : 2 ^ length rest * 2 ≡ 2 * 2 ^ length rest = omega arith in
    rw (pow-suc 2 (length rest)) (
      rw twice (
        any_from-double 0 (2 ^ length rest) (λ j. chosen j ((l, r) ∷ rest) s)
          (λ j. (s l || s r) && chosen j rest s) (chosen-pair l r rest s)
        ∙ any_from-and 0 (2 ^ length rest) (s l || s r) (λ j. chosen j rest s)
        ∙ ap (◌&&◌ (s l || s r)) (any_from-chosen rest s)))

-- The expansions of a rule match a state exactly when the rule does and each generic modifier has its
-- left or its right flag set there.
pub any_match-expand_all :
    (ps : List (ℕ × ℕ)) (r : CompiledRule) (s : Bits)
    → FlagsOk ps
    → any_match (expand_all ps r) s ≡ (some_side ps s && matches r s)
any_match-expand_all [] r s ok = ground arith
any_match-expand_all (p ∷ ps) r s ok =
    any_match-expansions 0 (2 ^ length (p ∷ ps)) (p ∷ ps) r s ok
    ∙ ap (λ b. b && matches r s) (any_from-chosen (p ∷ ps) s)
