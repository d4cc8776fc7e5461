-- ===== src/Numerals.antt =====
-- Hexadecimal numbers in src/core/settings/json_config_loader.cpp: `parseScanCode`, the names of
-- virtual modifiers in `parseVirtualModifier` and `applySingleModifier`, and what both rely on,
-- `std::stoul` and `std::stoi` with base 16 (an `unsigned long` has 64 bits). An exception is `none`;
-- a rest is what stands behind the last character read.
pub mod ScanCode
pub mod Modifiers
use yamy.Base.{
  ℕ, ◌+◌, ◌-◌, ◌*◌, ◌%◌, ◌^◌, ◌≡◌, Bool, true, false, not, ◌&&◌, ◌||◌, Option, none, some, List, [],
  ◌∷◌, ltb, leb, ◌==◌, if◌then◌else◌,
}
use yamy.Texts.{Text}

unfoldable pub hex_value : ℕ → Option ℕ
hex_value c =
    if leb b'0' c && leb c b'9'
    then some (c - b'0')
    else if leb b'a' c && leb c b'f'
    then some (c - b'a' + 10)
    else if leb b'A' c && leb c b'F'
    then some (c - b'A' + 10)
    else none

abbrev pub is_some {ℓ} : {A : Type ℓ} → Option A → Bool
is_some none = false
is_some (some a) = true

-- The digits behind the first one, `value` being what is read so far.
unfoldable pub digits : ℕ → Text → ℕ × Text
digits value [] = (value, [])
digits value (c ∷ s) = elim (hex_value c) [
  | none ↦ (value, c ∷ s)
  | some d ↦ digits (value * 16 + d) s
]

unfoldable pub read_digits : Text → Option (ℕ × Text)
read_digits [] = none
read_digits (c ∷ s) = elim (hex_value c) [ none ↦ none | some d ↦ some (digits d s) ]

abbrev pub is_x : ℕ → Bool
is_x c = c == b'x' || c == b'X'

-- A prefix 0x counts only in front of a digit.
unfoldable pub after_prefix : Text → Text
after_prefix (a ∷ x ∷ d ∷ s) =
    if (a == b'0') && (is_x x && is_some (hex_value d)) then d ∷ s else a ∷ x ∷ d ∷ s
after_prefix (a ∷ x ∷ []) = a ∷ x ∷ []
after_prefix (a ∷ []) = a ∷ []
after_prefix [] = []

abbrev pub is_space : ℕ → Bool
is_space c = c == 32 || (leb 9 c && leb c 13)

unfoldable pub skip_space : Text → Text
skip_space [] = []
skip_space (c ∷ s) = let rest = skip_space s in if is_space c then rest else c ∷ s

-- Is there a minus, and what comes behind the sign?
unfoldable pub sign : Text → Bool × Text
sign [] = (false, [])
sign (c ∷ s) = if c == b'-' then (true, s) else if c == b'+' then (false, s) else (false, c ∷ s)

unfoldable pub with_sign : Bool × Text → Option (Bool × ℕ × Text)
with_sign (minus, s) = elim (read_digits (after_prefix s)) [
  | none ↦ none
  | some (value, rest) ↦ some (minus, value, rest)
]

-- `strtol` and `strtoul` with base 16, before the value is brought into range.
unfoldable pub strto : Text → Option (Bool × ℕ × Text)
strto s = with_sign (sign (skip_space s))

unfoldable pub stoul : Text → Option (ℕ × Text)
stoul s = elim (strto s) [
  | none ↦ none
  | some (minus, value, rest) ↦
      if ltb (2 ^ 64 - 1) value
      then none
      else some (if minus then (2 ^ 64 - value) % 2 ^ 64 else value, rest)
]

-- The result with its sign: `(true, n)` is -n.
unfoldable pub stoi : Text → Option (Bool × ℕ)
stoi s = elim (strto s) [
  | none ↦ none
  | some (minus, value, rest) ↦
      if ltb (if minus then 2 ^ 31 else 2 ^ 31 - 1) value then none else some (minus, value)
]

-- The tests of `parseScanCode` behind the conversion.
unfoldable pub whole_code : Option (ℕ × Text) → Option ℕ
whole_code none = none
whole_code (some (value, [])) = if ltb 0xFFFF value then none else some value
whole_code (some (value, c ∷ rest)) = none

-- `parseScanCode`; `none` where it returns false.
unfoldable pub parse_scan_code : Text → Option ℕ
parse_scan_code (a ∷ x ∷ d ∷ s) =
    if not (a == b'0') || not (is_x x) then none else whole_code (stoul (a ∷ x ∷ d ∷ s))
parse_scan_code (a ∷ x ∷ []) = none
parse_scan_code (a ∷ []) = none
parse_scan_code [] = none

-- `static_cast<uint8_t>`
unfoldable pub to_byte : Bool × ℕ → ℕ
to_byte (minus, value) = if minus then (256 - value % 256) % 256 else value % 256

unfoldable pub as_byte : Option (Bool × ℕ) → Option ℕ
as_byte none = none
as_byte (some n) = some (to_byte n)

-- The number of a virtual modifier by its name: three characters, the first one M.
unfoldable pub virtual_number : Text → Option ℕ
virtual_number (m ∷ a ∷ b ∷ []) = if m == b'M' then as_byte (stoi (a ∷ b ∷ [])) else none
virtual_number (m ∷ a ∷ b ∷ c ∷ rest) = none
virtual_number (m ∷ a ∷ []) = none
virtual_number (m ∷ []) = none
virtual_number [] = none
