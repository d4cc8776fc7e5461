-- ===== src/ScanCodes/Compared.antt =====
-- What the comparisons of scan codes in src/core/input/keyboard.cpp decide, and where they read.
use yamy.Base.{
  ◌≡◌, refl, ◌≢◌, ◌↔◌, true, none, some, List, [], ◌∷◌, ◌++◌, length, arith, beq_sound, beq_self,
  Bool-cases, inl, inr, ◌==◌,
}
use yamy.ScanCodes.{ScanCode, same_code, is_prefix_scan_code, is_same_scan_code}

-- Two codes agree in their number and in the flags E0 and E1.
abbrev pub Agree : ScanCode → ScanCode → Type 0
Agree a b = (a.scan ≡ b.scan) × (a.flags 1 ≡ b.flags 1) × (a.flags 2 ≡ b.flags 2)

-- The codes agree one by one, and there are as many of them.
abbrev pub AllAgree : List ScanCode → List ScanCode → Type 0
AllAgree [] [] = Unit
AllAgree [] (k ∷ key) = ⊥
AllAgree (c ∷ this) [] = ⊥
AllAgree (c ∷ this) (k ∷ key) = Agree c k × AllAgree this key

same_code_iff : (a b : ScanCode) → (same_code a b ≡ true) ↔ Agree a b
unfolding same_code
same_code_iff a b = (
  λ h. ground (arith, beq_sound (a.flags 1) (b.flags 1), beq_sound (a.flags 2) (b.flags 2)),
  λ h. ground (arith, h, beq_self (a.flags 1), beq_self (a.flags 2)),
)

-- With as many codes on both sides, the loop ends inside them.
prefix-decides :
    (this key : List ScanCode)
    → length this ≡ length key
    → (is_prefix_scan_code this key ≢ none)
      × ((is_prefix_scan_code this key ≡ some true) ↔ AllAgree this key)
unfolding is_prefix_scan_code
prefix-decides [] [] e = ground arith
prefix-decides [] (k ∷ key) e = absurd (omega (arith, e))
prefix-decides (c ∷ this) [] e = absurd (omega (arith, e))
prefix-decides (c ∷ this) (k ∷ key) e =
    let (inside, decided) = prefix-decides this key (omega (arith, e)) in
    elim (Bool-cases (same_code c k)) [
      | inl y ↦ rw y (inside, (λ h. ((same_code_iff c k).0 y, decided.0 h), λ h. decided.1 h.1))
      | inr n ↦
          rw n (ground arith, (λ h. ground arith, λ h. ground (arith, (same_code_iff c k).1 h.0)))
    ]

AllAgree-length : (this key : List ScanCode) → AllAgree this key → length this ≡ length key
AllAgree-length [] [] h = refl
AllAgree-length [] (k ∷ key) h = absurd h
AllAgree-length (c ∷ this) [] h = absurd h
AllAgree-length (c ∷ this) (k ∷ key) h = omega (arith, AllAgree-length this key h.1)

-- For any two keys, the comparison for sameness never reads behind the codes of a key, and it says
-- yes exactly when there are as many codes and they agree one by one in number and in the flags E0
-- and E1.
pub is_same_scan_code_iff :
    (this key : List ScanCode)
    → (is_same_scan_code this key ≢ none)
      × ((is_same_scan_code this key ≡ some true) ↔ AllAgree this key)
unfolding is_same_scan_code
is_same_scan_code_iff this key = elim (Bool-cases (length this == length key)) [
  | inl y ↦ rw y (prefix-decides this key (ground (arith, y)))
  | inr n ↦
      rw n (ground arith, (λ h. ground arith, λ h. ground (arith, AllAgree-length this key h)))
]

-- The prefix test on a key whose codes all agree with the first codes of a longer key reads behind
-- the codes of the shorter one.
pub is_prefix_scan_code_overruns :
    (this key : List ScanCode) (next : ScanCode) (rest : List ScanCode)
    → AllAgree this key
    → is_prefix_scan_code this (key ++ next ∷ rest) ≡ none
unfolding is_prefix_scan_code
is_prefix_scan_code_overruns [] [] next rest h = refl
is_prefix_scan_code_overruns [] (k ∷ key) next rest h = absurd h
is_prefix_scan_code_overruns (c ∷ this) [] next rest h = absurd h
is_prefix_scan_code_overruns (c ∷ this) (k ∷ key) next rest h =
    rw ((same_code_iff c k).1 h.0) (is_prefix_scan_code_overruns this key next rest h.1)
