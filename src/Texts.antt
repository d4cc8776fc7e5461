-- ===== src/Texts.antt =====
-- Strings as the lists of their bytes: comparison, `strcasecmp_utf8` of src/utils/stringtool.cpp
-- (`strcasecmp` in the C locale), the split of src/core/settings/json_config_loader.cpp at `-`, and
-- an `std::unordered_map` with strings as keys.
pub mod Split
use Prim.Native.Char.{code}
use Prim.Native.String.{String}
use yamy.Base.{
  zero, suc, ◌/◌, ◌%◌, ltb, ℕ, ◌+◌, ◌≡◌, refl, ◌↔◌, inl, inr, ap, Bool, true, false, ◌&&◌, Option,
  none, some, List, [], ◌∷◌, ◌++◌, map, arith, leb, ◌==◌, ==_self, ==_iff, both_true, Bool-cases,
  if◌then◌else◌,
}

abbrev pub Text : Type 0
Text = List ℕ

-- The bytes of a literal.
abbrev pub codes : String → Text
codes String.[] = []
codes (String.◌∷◌ c s) = code c ∷ codes s

-- `operator==` of `std::string`.
unfoldable pub same_text : Text → Text → Bool
same_text [] [] = true
same_text (a ∷ s) (b ∷ t) = (a == b) && same_text s t
same_text _ _ = false

pub same_text_self : (s : Text) → same_text s s ≡ true
unfolding same_text
same_text_self [] = refl
same_text_self (a ∷ s) = ground (arith, same_text_self s)

pub same_text_sound : (s t : Text) → same_text s t ≡ true → s ≡ t
unfolding same_text
same_text_sound [] [] h = refl
same_text_sound [] (b ∷ t) h = cc
same_text_sound (a ∷ s) [] h = cc
same_text_sound (a ∷ s) (b ∷ t) h =
    let p = both_true (a == b) (same_text s t) h in cc ((==_iff a b).0 p.0, same_text_sound s t p.1)

-- What `c_str` shows: the bytes before the first zero.
unfoldable pub c_str : Text → Text
c_str [] = []
c_str (a ∷ s) = let rest = c_str s in if a == 0 then [] else a ∷ rest

abbrev pub lower : ℕ → ℕ
lower c = if leb b'A' c && leb c b'Z' then c + 32 else c

-- `strcasecmp_utf8(a.c_str(), b.c_str()) == 0`
unfoldable pub same_name : Text → Text → Bool
same_name a b = same_text (map lower (c_str a)) (map lower (c_str b))

pub same_name_self : (s : Text) → same_name s s ≡ true
unfolding same_name
same_name_self s = same_text_self (map lower (c_str s))

-- `std::to_string` of a number that is not negative; the fuel bounds the digits.
unfoldable pub decimal : ℕ → ℕ → Text
decimal zero n = []
decimal (suc fuel) n =
    let rest = decimal fuel (n / 10) in
    if ltb n 10 then (b'0' + n) ∷ [] else rest ++ (b'0' + n % 10) ∷ []

unfoldable pub to_string : ℕ → Text
to_string n = decimal (suc n) n

module _ {ℓ} {V : Type ℓ} where
  unfoldable pub find_text : Text → List (Text × V) → Option V
  find_text key [] = none
  find_text key ((other, value) ∷ rest) =
      let behind = find_text key rest in if same_text other key then some value else behind

  -- `m[key] = value`
  unfoldable pub put_text : Text → V → List (Text × V) → List (Text × V)
  put_text key value [] = (key, value) ∷ []
  put_text key value ((other, old) ∷ rest) =
      let behind = put_text key value rest in
      if same_text other key then (key, value) ∷ rest else (other, old) ∷ behind

  pub find-put_self :
      (key : Text) (v : V) (m : List (Text × V)) → find_text key (put_text key v m) ≡ some v
  unfolding find_text put_text
  find-put_self key v [] = ground (arith, same_text_self key)
  find-put_self key v ((other, w) ∷ m) = ground (arith, same_text_self key, find-put_self key v m)
