-- ===== src/Numerals/Modifiers.antt =====
-- The names of virtual modifiers that src/core/settings/json_config_loader.cpp accepts, M00 to MFF
-- among them.
use yamy.Base.{
  ℕ, ◌+◌, ◌-◌, ◌*◌, ◌%◌, ◌<◌, ◌≡◌, refl, false, Option, none, some, [], ◌∷◌, arith, ◌==◌, ◌||◌,
  if◌then◌else◌, Option-cases, inl, inr,
}
use yamy.Texts.{Text}
use yamy.Numerals.{
  hex_value, digits, read_digits, is_space, after_prefix, skip_space, sign, with_sign, strto, stoi,
  to_byte, as_byte, virtual_number,
}

-- What the two characters behind M stand for: two digits are the number in base 16; one digit counts
-- where anything but a digit follows, where a space or a plus stands in front of it, and with the
-- number taken from 256 where a minus does; nothing else is a number.
unfoldable pub number_of : ℕ → ℕ → Option ℕ
number_of a b = elim (hex_value a) [
  | some high ↦ elim (hex_value b) [ some low ↦ some (high * 16 + low) | none ↦ some high ]
  | none ↦
      if is_space a || a == b'+'
      then hex_value b
      else if a == b'-'
      then elim (hex_value b) [ some low ↦ some ((256 - low) % 256) | none ↦ none ]
      else none
]

hex_value-lt : (c d : ℕ) → hex_value c ≡ some d → d < 16
unfolding hex_value
hex_value-lt c d h = ground arith

pub hex_plain :
    (c d : ℕ)
    → hex_value c ≡ some d
    → (is_space c ≡ false) × ((c == b'-') ≡ false) × ((c == b'+') ≡ false)
unfolding hex_value
hex_plain c d h = ground arith

stoi-two : (a b : ℕ) → as_byte (stoi (a ∷ b ∷ [])) ≡ number_of a b
unfolding stoi strto skip_space sign with_sign after_prefix read_digits digits as_byte to_byte
    number_of
stoi-two a b = elim (Option-cases (hex_value a)) [
  | inl e ↦ elim (Option-cases (hex_value b)) [
    | inl f ↦ ground arith
    | inr (low, f) ↦ ground (arith, hex_value-lt b low f, hex_plain b low f)
  ]
  | inr (high, e) ↦ elim (Option-cases (hex_value b)) [
    | inl f ↦ ground (arith, e, f, hex_value-lt a high e, hex_plain a high e)
    | inr (low, f) ↦ ground (arith, hex_value-lt a high e, hex_value-lt b low f, hex_plain a high e)
  ]
]

-- The specification: M and two characters that are a number in the sense above.
unfoldable pub modifier_of : Text → Option ℕ
modifier_of (m ∷ a ∷ b ∷ []) = if m == b'M' then number_of a b else none
modifier_of _ = none

-- Which names of virtual modifiers the loader takes, and for which number: three characters, M and
-- two more. Two hexadecimal digits, in capitals or not, are their number, so M00 to MFF and no other
-- names of this form are 0 to 255. But other names are taken too: where the first character is a
-- digit and the second is none, the number is that of the first alone (M1z is M01); a space or a plus
-- before a digit is dropped; and a minus before a digit takes the digit from 256 (M-1 is MFF).
-- Every other text is refused.
pub virtual_number_lem : (s : Text) → virtual_number s ≡ modifier_of s
unfolding virtual_number modifier_of
virtual_number_lem [] = refl
virtual_number_lem (m ∷ []) = refl
virtual_number_lem (m ∷ a ∷ []) = refl
virtual_number_lem (m ∷ a ∷ b ∷ []) = rw stoi-two
virtual_number_lem (m ∷ a ∷ b ∷ c ∷ s) = refl
