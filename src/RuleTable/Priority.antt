-- ===== src/RuleTable/Priority.antt =====
-- The table of src/core/engine/lookup_table.h against one list of rules in the order of addition.
use yamy.Base.{
  ℕ, ◌≡◌, refl, ap, ◌∙◌, Bool, ◌&&◌, Option, none, some, List, [], ◌∷◌, ◌++◌, arith, Bits, lookup,
  lookup-insert, get_or, find_if, ◌==◌, if◌then◌else◌,
}
use yamy.RuleTable.{CompiledRule, RuleLookupTable, matches, add_rule, clear, find_match}

module _ {ℓ} {A : Type ℓ} where
  abbrev pub or_else : Option A → Option A → Option A
  or_else none b = b
  or_else (some a) b = some a

  find_if-append :
      (p : A → Bool) (xs ys : List A) → find_if p (xs ++ ys) ≡ or_else (find_if p xs) (find_if p ys)
  unfolding find_if
  find_if-append p [] ys = refl
  find_if-append p (x ∷ xs) ys = ground (arith, find_if-append p xs ys)

abbrev only_if : Bool → CompiledRule → Option CompiledRule
only_if c r = if c then some r else none

found : Bits → Option (List CompiledRule) → Option CompiledRule
found s none = none
found s (some rules) = find_if (λ rule. matches rule s) rules

find_match-found :
    (t : RuleLookupTable) (j : ℕ) (s : Bits) → find_match t j s ≡ found s (lookup j t.buckets)
unfolding find_match found
find_match-found t j s = ground arith

found-push :
    (s : Bits) (o : Option (List CompiledRule)) (r : CompiledRule)
    → found s (some (get_or [] o ++ r ∷ [])) ≡ or_else (found s o) (only_if (matches r s) r)
unfolding found find_if
found-push s none r = ground arith
found-push s (some rules) r = ground (arith, find_if-append (λ rule. matches rule s) rules (r ∷ []))

-- A rule added for a scan code is found for this scan code alone, and only where no earlier one
-- matches.
pub find_match-add_rule :
    (t : RuleLookupTable) (k : ℕ) (r : CompiledRule) (j : ℕ) (s : Bits)
    → find_match (add_rule t k r) j s
      ≡ (if k == j then or_else (find_match t j s) (only_if (matches r s) r) else find_match t j s)
unfolding add_rule
find_match-add_rule t k r j s =
    rw (find_match-found (add_rule t k r) j s, find_match-found t j s)
      (ground (
        arith,
        lookup-insert k j (get_or [] (lookup k t.buckets) ++ r ∷ []) t.buckets,
        found-push s (lookup k t.buckets) r,
      ))

-- A table filled by the given additions, in their order.
unfoldable pub fill : RuleLookupTable → List (ℕ × CompiledRule) → RuleLookupTable
fill t [] = t
fill t ((k, r) ∷ rest) = fill (add_rule t k r) rest

-- The specification: the first of the additions with this scan code whose rule matches.
unfoldable pub first_match : List (ℕ × CompiledRule) → ℕ → Bits → Option CompiledRule
first_match [] j s = none
first_match ((k, r) ∷ rest) j s = if (k == j) && matches r s then some r else first_match rest j s

find_match-fill :
    (t : RuleLookupTable) (rules : List (ℕ × CompiledRule)) (j : ℕ) (s : Bits)
    → find_match (fill t rules) j s ≡ or_else (find_match t j s) (first_match rules j s)
unfolding fill first_match
find_match-fill t [] j s = ground arith
find_match-fill t ((k, r) ∷ rest) j s =
    ground (arith, find_match-fill (add_rule t k r) rest j s, find_match-add_rule t k r j s)

pub find_match-cleared : (t : RuleLookupTable) (j : ℕ) (s : Bits) → find_match (clear t) j s ≡ none
unfolding find_match clear lookup
find_match-cleared t j s = refl

-- A cleared table that is filled by any sequence of additions finds, for every scan code and state,
-- what the specification finds in that sequence: the first matching rule of the scan code, in the
-- order of addition, or nothing where none matches.
pub find_match-refines :
    (t : RuleLookupTable) (rules : List (ℕ × CompiledRule)) (j : ℕ) (s : Bits)
    → find_match (fill (clear t) rules) j s ≡ first_match rules j s
unfolding clear
find_match-refines t rules j s =
    find_match-fill (clear t) rules j s
    ∙ ap (λ o. or_else o (first_match rules j s)) (find_match-cleared t j s)
