-- ===== src/Loader/RoundTrip.antt =====
-- Key specifications that src/core/settings/json_config_loader.cpp reads back as they are written:
-- names of modifiers, then the name of a key, a dash between two of them.
use yamy.Base.{
  ℕ, ◌+◌, ◌*◌, ◌≡◌, refl, ap, ◌∙◌, true, Option, none, some, List, [], ◌∷◌, ◌++◌, map, arith, All,
}
use yamy.Modifier.{type_shift, type_control, type_alt, type_windows}
use yamy.ModifiedKey.{ModifiedKey, of_key, set_virtual_mod}
use yamy.Numerals.{hex_value, virtual_number}
use yamy.Numerals.Modifiers.{number_of, modifier_of, virtual_number_lem, hex_plain}
use yamy.Texts.{Text, codes, same_text, find_text}
use yamy.Texts.Split.{split, IsPart, split-part, split-last}
use yamy.Loader.Keys.{NamedKey}
use yamy.Loader.Specs.{
  press_in, apply_single_modifier, apply_modifiers, back, front, with_key, parse_parts,
  parse_modified_key,
}

-- The modifiers of a specification; a virtual one is M with two digits.
pub data ModifierName : Type 0 where
  shift ctrl control alt win windows : ModifierName
  virtual : ℕ → ℕ → ModifierName

unfoldable pub spelled : ModifierName → Text
spelled shift = codes "Shift"
spelled ctrl = codes "Ctrl"
spelled control = codes "Control"
spelled alt = codes "Alt"
spelled win = codes "Win"
spelled windows = codes "Windows"
spelled (virtual a b) = b'M' ∷ a ∷ b ∷ []

abbrev pub digit_or_0 : Option ℕ → ℕ
digit_or_0 none = 0
digit_or_0 (some d) = d

-- The two characters are hexadecimal digits.
abbrev pub IsName : ModifierName → Type 0
IsName (virtual a b) =
    (hex_value a ≡ some (digit_or_0 (hex_value a)))
    × (hex_value b ≡ some (digit_or_0 (hex_value b)))
IsName _ = Unit

-- What a modifier means for a key.
unfoldable pub meant : ModifierName → ModifiedKey → ModifiedKey
meant shift mk = press_in type_shift mk
meant ctrl mk = press_in type_control mk
meant control mk = press_in type_control mk
meant alt mk = press_in type_alt mk
meant win mk = press_in type_windows mk
meant windows mk = press_in type_windows mk
meant (virtual a b) mk =
    set_virtual_mod mk (digit_or_0 (hex_value a) * 16 + digit_or_0 (hex_value b)) true

unfoldable pub all_meant : List ModifierName → ModifiedKey → ModifiedKey
all_meant [] mk = mk
all_meant (n ∷ names) mk = all_meant names (meant n mk)

unfoldable pub written : List ModifierName → Text → Text
written [] key = key
written (n ∷ names) key = spelled n ++ b'-' ∷ written names key

spelled-IsPart : (n : ModifierName) → IsName n → IsPart (spelled n)
unfolding spelled
spelled-IsPart shift h = ground arith
spelled-IsPart (virtual a b) h = (refl, ((hex_plain a _ h.0).1, ((hex_plain b _ h.1).1, tt)))
spelled-IsPart ctrl h = ground arith
spelled-IsPart control h = ground arith
spelled-IsPart alt h = ground arith
spelled-IsPart win h = ground arith
spelled-IsPart windows h = ground arith

split-written :
    (names : List ModifierName) (key : Text)
    → All IsName names
    → IsPart key
    → split (written names key) ≡ map spelled names ++ key ∷ []
unfolding written
split-written [] key hs h = split-last key h
split-written (n ∷ names) key hs h =
    split-part (spelled n) (written names key) (spelled-IsPart n hs.0)
    ∙ ap (λ l. spelled n ∷ l) (split-written names key hs.1 h)

number_of-digits :
    (a b high low : ℕ)
    → hex_value a ≡ some high
    → hex_value b ≡ some low
    → number_of a b ≡ some (high * 16 + low)
unfolding number_of
number_of-digits a b high low h l = rw (h, number_of) (rw l)

virtual_number-digits :
    (a b : ℕ)
    → IsName (virtual a b)
    → virtual_number (b'M' ∷ a ∷ b ∷ [])
      ≡ some (digit_or_0 (hex_value a) * 16 + digit_or_0 (hex_value b))
unfolding modifier_of
virtual_number-digits a b h =
    virtual_number_lem (b'M' ∷ a ∷ b ∷ []) ∙ number_of-digits a b _ _ h.0 h.1

apply-spelled :
    (n : ModifierName) (mk : ModifiedKey)
    → IsName n
    → apply_single_modifier (spelled n) mk ≡ some (meant n mk)
unfolding apply_single_modifier spelled meant same_text
apply-spelled shift mk h = refl
apply-spelled ctrl mk h = refl
apply-spelled control mk h = refl
apply-spelled alt mk h = refl
apply-spelled win mk h = refl
apply-spelled windows mk h = refl
apply-spelled (virtual a b) mk h = rw (virtual_number-digits a b h)

apply_modifiers-written :
    (names : List ModifierName) (mk : ModifiedKey)
    → All IsName names
    → apply_modifiers (map spelled names) mk ≡ some (all_meant names mk)
unfolding apply_modifiers all_meant
apply_modifiers-written [] mk hs = refl
apply_modifiers-written (n ∷ names) mk hs =
    rw (apply-spelled n mk hs.0, apply_modifiers) (apply_modifiers-written names (meant n mk) hs.1)

back-append : (p : Text) (parts : List Text) (key : Text) → back p (parts ++ key ∷ []) ≡ key
unfolding back
back-append p [] key = refl
back-append p (q ∷ parts) key = back-append q parts key

front-append : (p : Text) (parts : List Text) (key : Text) → front p (parts ++ key ∷ []) ≡ p ∷ parts
unfolding front
front-append p [] key = refl
front-append p (q ∷ parts) key = ap (λ l. p ∷ l) (front-append q parts key)

parse_parts-append :
    (lookup : List (Text × NamedKey)) (parts : List Text) (key : Text) (k : NamedKey)
    → find_text key lookup ≡ some k
    → parse_parts lookup (parts ++ key ∷ []) ≡ with_key k (apply_modifiers parts (of_key k.number))
unfolding parse_parts back front
parse_parts-append lookup [] key k h = rw (h, parse_parts) refl
parse_parts-append lookup (p ∷ parts) key k h =
    ap (λ b. resolved b (front p (parts ++ key ∷ []))) (back-append p parts key)
    ∙ ap (resolved key) (front-append p parts key)
    ∙ rw h
  where
    resolved : Text → List Text → Option (ModifiedKey × NamedKey)
    resolved b f = elim (find_text b lookup) [
      | none ↦ none
      | some k' ↦ with_key k' (apply_modifiers f (of_key k'.number))
    ]

-- A specification is read as it is written: for every list of modifiers, each by a name that the
-- configuration has for it (Shift, Ctrl, Control, Alt, Win, Windows, or M with two hexadecimal
-- digits), and a key name that is not empty, has no dash, and is the name of a key, the specification
-- with a dash between two names gives that key with exactly these modifiers set, one after the other.
pub parse_modified_key-written :
    (lookup : List (Text × NamedKey)) (names : List ModifierName) (key : Text) (k : NamedKey)
    → All IsName names
    → IsPart key
    → find_text key lookup ≡ some k
    → parse_modified_key lookup (written names key) ≡ some (all_meant names (of_key k.number), k)
unfolding parse_modified_key
parse_modified_key-written lookup names key k hs h f =
    ap (parse_parts lookup) (split-written names key hs h)
    ∙ parse_parts-append lookup (map spelled names) key k f
    ∙ ap (with_key k) (apply_modifiers-written names (of_key k.number) hs)
