-- ===== src/Metadata/Dates.antt =====
-- The dates that src/core/settings/config_metadata.cpp writes as decimal numbers and reads again.
use yamy.Base.{
  ℕ, zero, suc, ◌+◌, ◌-◌, ◌*◌, ◌/◌, ◌%◌, ◌^◌, ◌<◌, ◌≡◌, refl, ap, ◌∙◌, Bool, true, false, ◌&&◌,
  some, [], ◌∷◌, ◌++◌, arith, any, ℤ, pos, negsuc, ltb, leb, ◌==◌, if◌then◌else◌, Bool-cases, inl,
  inr,
}
use mathlib.Core.List.{append_assoc}
use yamy.Texts.{Text, decimal, to_string}
use yamy.Metadata.Searched.{free-append}
use yamy.Metadata.{quote, print_int, read_decimal, read_int, skip_blanks, stoll}

-- Is the number an `int64_t`?
unfoldable pub in_64_bits : ℤ → Bool
in_64_bits (pos n) = ltb n (2 ^ 63)
in_64_bits (negsuc n) = ltb n (2 ^ 63)

abbrev pub is_digit : ℕ → Bool
is_digit c = leb b'0' c && leb c b'9'

-- Does a digit come first?
unfoldable pub leads : Text → Bool
leads [] = false
leads (c ∷ s) = is_digit c

-- What a value is multiplied with by the digits of n.
unfoldable scale : ℕ → ℕ → ℕ
scale zero n = 1
scale (suc fuel) n = let s = scale fuel (n / 10) in if ltb n 10 then 10 else s * 10

regroup : (v s n : ℕ) → (v * s + n / 10) * 10 + ((b'0' + n % 10) - b'0') ≡ v * (s * 10) + n
regroup v s n = grind arith

read_digit :
    (found : Bool) (v d : ℕ) (t : Text)
    → d < 10
    → read_decimal found v ((b'0' + d) ∷ t) ≡ read_decimal true (v * 10 + ((b'0' + d) - b'0')) t
unfolding read_decimal
read_digit found v d t h = ground arith

read-decimal :
    (fuel n : ℕ) (found : Bool) (v : ℕ) (t : Text)
    → n < fuel
    → read_decimal found v (decimal fuel n ++ t) ≡ read_decimal true (v * scale fuel n + n) t
unfolding decimal scale
read-decimal zero n found v t h = ground arith
read-decimal (suc fuel) n found v t h = elim (Bool-cases (ltb n 10)) [
  | inl y ↦ rw y (
      read_digit found v n t (ground (arith, y))
      ∙ ap (λ m. read_decimal true m t) (grind (arith, y)))
  | inr g ↦ rw g (
      ap (read_decimal found v) (append_assoc (decimal fuel (n / 10)) ((b'0' + n % 10) ∷ []) t)
      ∙ read-decimal fuel (n / 10) found v ((b'0' + n % 10) ∷ t) (ground (arith, g, h))
      ∙ read_digit true (v * scale fuel (n / 10) + n / 10) (n % 10) t (omega arith)
      ∙ ap (λ m. read_decimal true m t) (regroup v (scale fuel (n / 10)) n))
]

decimal-leads : (fuel n : ℕ) (t : Text) → n < fuel → leads (decimal fuel n ++ t) ≡ true
unfolding decimal leads
decimal-leads zero n t h = ground arith
decimal-leads (suc fuel) n t h = elim (Bool-cases (ltb n 10)) [
  | inl y ↦ rw y (ground (arith, y))
  | inr g ↦ rw g (
      ap leads (append_assoc (decimal fuel (n / 10)) ((b'0' + n % 10) ∷ []) t)
      ∙ decimal-leads fuel (n / 10) ((b'0' + n % 10) ∷ t) (ground (arith, g, h)))
]

leads-skip_blanks : (s : Text) → leads s ≡ true → skip_blanks s ≡ s
unfolding leads skip_blanks
leads-skip_blanks [] h = refl
leads-skip_blanks (c ∷ s) h = ground arith

leads-read_int : (s : Text) → leads s ≡ true → read_int s ≡ stoll false (read_decimal false 0 s)
unfolding leads read_int
leads-read_int [] h = cc
leads-read_int (c ∷ s) h = ground arith

-- The number of a text that begins with digits and goes on with a comma.
read_to_comma : (n : ℕ) (t : Text) → read_decimal false 0 (to_string n ++ b',' ∷ t) ≡ (true, n)
unfolding to_string read_decimal
read_to_comma n t =
    read-decimal (suc n) n false 0 (b',' ∷ t) (omega arith) ∙ ap (λ m. (true, m)) (omega arith)

-- A date of 64 bits is read as it was written.
pub date_read :
    (z : ℤ) (t : Text)
    → in_64_bits z ≡ true
    → read_int (skip_blanks (print_int z ++ b',' ∷ t)) ≡ some z
unfolding in_64_bits print_int stoll to_string skip_blanks read_int
date_read (pos n) t h =
    let l = decimal-leads (suc n) n (b',' ∷ t) (omega arith) in
    ap read_int (leads-skip_blanks _ l)
    ∙ leads-read_int _ l
    ∙ ap (stoll false) (read_to_comma n t)
    ∙ ground (arith, h)
date_read (negsuc n) t h = ap (stoll true) (read_to_comma (suc n) t) ∙ ground (arith, h)

decimal_quotes : (fuel n : ℕ) → any (λ c. c == quote) (decimal fuel n) ≡ false
unfolding any decimal
decimal_quotes zero n = refl
decimal_quotes (suc fuel) n = elim (Bool-cases (ltb n 10)) [
  | inl y ↦ rw y (ground arith)
  | inr g ↦ rw g (
      free-append quote (decimal fuel (n / 10)) ((b'0' + n % 10) ∷ [])
        (decimal_quotes fuel (n / 10)) (ground arith))
]

-- A date is written without quotes.
pub date_quotes : (z : ℤ) → any (λ c. c == quote) (print_int z) ≡ false
unfolding any print_int to_string
date_quotes (pos n) = decimal_quotes (suc n) n
date_quotes (negsuc n) = decimal_quotes (suc (suc n)) (suc n)
