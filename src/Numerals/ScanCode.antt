-- ===== src/Numerals/ScanCode.antt =====
-- `parseScanCode` of src/core/settings/json_config_loader.cpp against an independent reading of
-- hexadecimal codes, by the place of each digit.
use yamy.Base.{
  ℕ, ◌-◌, suc, ◌+◌, ◌*◌, ◌^◌, ◌≡◌, refl, sym, ap, ◌∙◌, true, false, ◌&&◌, Option, none, some, List,
  [], ◌∷◌, arith, length, ltb, ◌==◌, if◌then◌else◌, Option-cases, Bool-cases, ==_iff, subst, inl,
  inr,
}
use native.Mathlib.Nat.{pow-suc}
use yamy.Texts.{Text}
use yamy.Numerals.{
  hex_value, digits, read_digits, is_x, after_prefix, skip_space, sign, with_sign, strto, stoul,
  whole_code, parse_scan_code,
}

-- The digits of a text, `none` where some character is none.
unfoldable pub all_digits : Text → Option (List ℕ)
all_digits [] = some []
all_digits (c ∷ s) = elim (hex_value c) [
  | none ↦ none
  | some d ↦ elim (all_digits s) [ none ↦ none | some ds ↦ some (d ∷ ds) ]
]

-- Their number, each digit at its place.
unfoldable pub place_value : List ℕ → ℕ
place_value [] = 0
place_value (d ∷ ds) = d * 16 ^ length ds + place_value ds

unfoldable pub in_16_bits : Option (List ℕ) → Option ℕ
in_16_bits none = none
in_16_bits (some ds) = if ltb 0xFFFF (place_value ds) then none else some (place_value ds)

-- The specification: 0x or 0X, then at least one digit and nothing else, at most 0xFFFF.
unfoldable pub scan_code_of : Text → Option ℕ
scan_code_of (a ∷ x ∷ d ∷ s) =
    if (a == b'0') && is_x x then in_16_bits (all_digits (d ∷ s)) else none
scan_code_of _ = none

-- What is read if nothing stands behind it.
abbrev ended : ℕ × Text → Option ℕ
ended (value, []) = some value
ended (value, c ∷ rest) = none

abbrev behind : ℕ → Option (List ℕ) → Option ℕ
behind v none = none
behind v (some ds) = some (v * 16 ^ length ds + place_value ds)

regroup : (v d w p : ℕ) → (v * 16 + d) * w + p ≡ v * (w * 16) + (d * w + p)
regroup v d w p = omega arith

pow_step : (v d n p : ℕ) → (v * 16 + d) * 16 ^ n + p ≡ v * 16 ^ suc n + (d * 16 ^ n + p)
pow_step v d n p = regroup v d (16 ^ n) p ∙ ap (λ w. v * w + (d * 16 ^ n + p)) (sym (pow-suc 16 n))

behind_cons :
    (v d : ℕ) (o : Option (List ℕ))
    → behind (v * 16 + d) o ≡ behind v (elim o [ none ↦ none | some ds ↦ some (d ∷ ds) ])
unfolding place_value
behind_cons v d none = refl
behind_cons v d (some ds) = ap some (pow_step v d (length ds) (place_value ds))

digits-behind : (v : ℕ) (s : Text) → ended (digits v s) ≡ behind v (all_digits s)
unfolding digits all_digits place_value
digits-behind v [] = ap some (omega arith)
digits-behind v (c ∷ s) = elim (Option-cases (hex_value c)) [
  | inl e ↦ rw (e, digits, all_digits)
  | inr (d, e) ↦
      rw (e, digits, all_digits) (digits-behind (v * 16 + d) s ∙ behind_cons v d (all_digits s))
]

abbrev checked : Option ℕ → Option ℕ
checked none = none
checked (some v) = if ltb 0xFFFF v then none else some v

whole_code-ended :
    (r : ℕ × Text)
    → whole_code (if ltb (2 ^ 64 - 1) r.0 then none else some (r.0, r.1)) ≡ checked (ended r)
unfolding whole_code
whole_code-ended (value, []) = ground arith
whole_code-ended (value, c ∷ rest) = ground arith

no_digit : (x : ℕ) → is_x x ≡ true → hex_value x ≡ none
unfolding hex_value
no_digit x h = ground arith

digit_0 : hex_value b'0' ≡ some 0
unfolding hex_value
digit_0 = refl

strto-hex :
    (x d : ℕ) (s : Text)
    → is_x x ≡ true
    → strto (b'0' ∷ x ∷ d ∷ s) ≡ elim (hex_value d) [
      | none ↦ some (false, 0, x ∷ d ∷ s)
      | some n ↦ some (false, (digits n s).0, (digits n s).1)
    ]
unfolding strto skip_space sign with_sign after_prefix read_digits digits
strto-hex x d s h = ground (arith, digit_0, no_digit x h)

checked-behind :
    (n : ℕ) (o : Option (List ℕ))
    → checked (behind n o) ≡ in_16_bits (elim o [ none ↦ none | some ds ↦ some (n ∷ ds) ])
unfolding in_16_bits place_value
checked-behind n none = refl
checked-behind n (some ds) = refl

-- The code behind a correct start.
hex_code :
    (x d : ℕ) (s : Text)
    → is_x x ≡ true
    → whole_code (stoul (b'0' ∷ x ∷ d ∷ s)) ≡ in_16_bits (all_digits (d ∷ s))
unfolding stoul all_digits in_16_bits whole_code
hex_code x d s h = elim (Option-cases (hex_value d)) [
  | inl e ↦ rw (strto-hex x d s h, e, stoul, all_digits) refl
  | inr (n, e) ↦
      rw (strto-hex x d s h, e, stoul, all_digits)
        (whole_code-ended (digits n s)
          ∙ ap checked (digits-behind n s)
          ∙ checked-behind n (all_digits s))
]

-- `parseScanCode` accepts exactly the texts 0x or 0X with at least one hexadecimal digit behind it,
-- nothing else, and a number of at most 0xFFFF, and gives the number that the digits write by their
-- places, also for X in capitals and for more than four digits; every other text, of any length and content, is refused.
pub parse_scan_code_lem : (s : Text) → parse_scan_code s ≡ scan_code_of s
unfolding parse_scan_code scan_code_of
parse_scan_code_lem [] = refl
parse_scan_code_lem (a ∷ []) = refl
parse_scan_code_lem (a ∷ x ∷ []) = refl
parse_scan_code_lem (a ∷ x ∷ d ∷ s) = elim (Bool-cases (a == b'0')) [
  | inl e ↦ elim (Bool-cases (is_x x)) [
    | inl h ↦
        subst (λ a'. parse_scan_code (a' ∷ x ∷ d ∷ s) ≡ scan_code_of (a' ∷ x ∷ d ∷ s))
          (sym ((==_iff a b'0').0 e)) (rw h (hex_code x d s h))
    | inr h ↦ rw (e, h)
  ]
  | inr e ↦ rw e
]
