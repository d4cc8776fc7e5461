-- ===== src/Keyboard/Same.antt =====
-- Keys with the same scan codes, in src/core/input/keyboard.cpp.
use yamy.Base.{
  ◌≡◌, sym, ap, ◌∙◌, Bool, true, false, Option, none, some, List, [], ◌∷◌, Bool-cases, inl, inr,
}
use yamy.ScanCodes.{ScanCode}
use yamy.ScanCodes.Compared.{AllAgree, is_same_scan_code_iff}
use yamy.Keyboard.{Key, scan_codes, says_yes, same}

AllAgree-sym : (a b : List ScanCode) → AllAgree a b → AllAgree b a
AllAgree-sym [] [] h = tt
AllAgree-sym [] (y ∷ b) h = absurd h
AllAgree-sym (x ∷ a) [] h = absurd h
AllAgree-sym (x ∷ a) (y ∷ b) h = ((sym h.0.0, sym h.0.1, sym h.0.2), AllAgree-sym a b h.1)

AllAgree-trans : (a b c : List ScanCode) → AllAgree a b → AllAgree b c → AllAgree a c
AllAgree-trans [] [] [] h h' = tt
AllAgree-trans [] [] (z ∷ c) h h' = absurd h'
AllAgree-trans [] (y ∷ b) c h h' = absurd h
AllAgree-trans (x ∷ a) [] c h h' = absurd h
AllAgree-trans (x ∷ a) (y ∷ b) [] h h' = absurd h'
AllAgree-trans (x ∷ a) (y ∷ b) (z ∷ c) h h' =
    ((h.0.0 ∙ h'.0.0, h.0.1 ∙ h'.0.1, h.0.2 ∙ h'.0.2), AllAgree-trans a b c h.1 h'.1)

says_yes-some : (o : Option Bool) → says_yes o ≡ true → o ≡ some true
says_yes-some none e = cc
says_yes-some (some b) e = ap some e

same-AllAgree : (a b : Key) → same a b ≡ true → AllAgree (scan_codes a) (scan_codes b)
unfolding same
same-AllAgree a b h = (is_same_scan_code_iff (scan_codes a) (scan_codes b)).1.0 (says_yes-some _ h)

AllAgree-same : (a b : Key) → AllAgree (scan_codes a) (scan_codes b) → same a b ≡ true
unfolding same
AllAgree-same a b h = ap says_yes ((is_same_scan_code_iff (scan_codes a) (scan_codes b)).1.1 h)

pub same_sym : (a b : Key) → same a b ≡ true → same b a ≡ true
same_sym a b h =
    AllAgree-same b a (AllAgree-sym (scan_codes a) (scan_codes b) (same-AllAgree a b h))

pub same_trans : (a b c : Key) → same a b ≡ true → same b c ≡ true → same a c ≡ true
same_trans a b c h h' = AllAgree-same a c (
    AllAgree-trans (scan_codes a) (scan_codes b) (scan_codes c) (same-AllAgree a b h)
      (same-AllAgree b c h'))

pub same-scan : (a b : Key) → same a b ≡ true → a.first_scan_code.scan ≡ b.first_scan_code.scan
same-scan a b h = (same-AllAgree a b h).0.0

-- The test for a key by either of two keys with the same codes.
pub same_eq : (a b c : Key) → same a b ≡ true → same a c ≡ same b c
same_eq a b c h = elim (Bool-cases (same a c)) [
  | inl y ↦ y ∙ sym (same_trans b a c (same_sym a b h) y)
  | inr n ↦ elim (Bool-cases (same b c)) [
    | inl y ↦ let q = same_trans a b c h y in cc
    | inr m ↦ n ∙ sym m
  ]
]

pub same_other : (a b c : Key) → same a b ≡ false → same a c ≡ true → same b c ≡ false
same_other a b c n y = elim (Bool-cases (same b c)) [
  | inl h ↦ let q = same_trans a c b y (same_sym b c h) in cc
  | inr m ↦ m
]
