-- ===== src/Metadata/Stored.antt =====
-- What src/core/settings/config_metadata.cpp reads back of what it wrote.
use yamy.Base.{
  ℕ, ◌≡◌, refl, ap, ◌∙◌, Bool, true, false, some, [], ◌∷◌, ◌++◌, arith, ◌==◌, if◌then◌else◌, ◌>>=◌,
  Bool-cases, inl, inr,
}
use mathlib.Core.List.{append-nil}
use yamy.Texts.{Text, codes}
use yamy.Metadata.{
  MetadataInfo, quote, backslash, escape_char, escape, escaped_pair, unescape, without, find,
  to_quote, value_of, unescape_value, extract_string, value_or, parse_json, after_author,
  after_description, after_name, to_json,
}
use yamy.Metadata.Escapes.{
  last_escaped, end_char, unescape-escape, to_quote-escape, prepend_all-some,
}

unfoldable pub last : ℕ → Text → ℕ
last c [] = c
last c (d ∷ s) = last d s

-- Is the last character a backslash?
unfoldable pub ends_in_backslash : Text → Bool
ends_in_backslash s = last quote s == backslash

same_end :
    (p q : ℕ) (s : Text)
    → (p == backslash) ≡ (q == backslash)
    → (end_char p s == backslash) ≡ (last q s == backslash)
unfolding end_char last
same_end p q [] h = h
same_end p q (c ∷ s) h = same_end (last_escaped c) c s (ground arith)

pub ends-end_char : (v : Text) → (end_char quote v == backslash) ≡ ends_in_backslash v
unfolding ends_in_backslash
ends-end_char v = same_end quote quote v refl

-- The text that a string is read back as, where the next line of the file begins with a key: the
-- string itself, or with the end of its line behind it.
unfoldable pub read_back : Text → Text
read_back v = if ends_in_backslash v then v ++ codes "\",\n  " else v

-- The end of a line of the file, and the quote of the next key.
abbrev next_line : Text → Text
next_line t = codes "\",\n  \"" ++ t

pub string_read :
    (v t : Text)
    → (to_quote quote (escape v ++ next_line t) >>= unescape_value) ≡ some (read_back v)
unfolding to_quote read_back ends_in_backslash unescape escaped_pair
string_read v t = elim (Bool-cases (last quote v == backslash)) [
  | inl y ↦
      let e : (end_char quote v == backslash) ≡ true = same_end quote quote v refl ∙ y in
      rw (to_quote-escape quote v (next_line t), e, y)
        (ap (λ o. o >>= unescape_value) (prepend_all-some (escape v) (codes "\",\n  ") t)
          ∙ ap some (unescape-escape v (codes "\",\n  ")))
  | inr n ↦
      let e : (end_char quote v == backslash) ≡ false = same_end quote quote v refl ∙ n in
      rw (to_quote-escape quote v (next_line t), e, n)
        (ap (λ o. o >>= unescape_value) (prepend_all-some (escape v) [] _)
          ∙ ap some (unescape-escape v [] ∙ append-nil v))
]

-- What becomes of a name that is stored in the file and read again, whatever it and the rest of the
-- description hold: it is the same name, unless it ends in a backslash. Then the closing quote is
-- taken for an escaped one, and the name that is read has the end of its line behind it: a quote, a
-- comma, a line feed and two spaces.
pub stored_name :
    (i : MetadataInfo)
    → (parse_json (to_json i)).name
      ≡ (if ends_in_backslash i.name then i.name ++ codes "\",\n  " else i.name)
unfolding parse_json extract_string value_of find without to_json after_name read_back
stored_name i =
    ap (λ o. value_or o [])
      (string_read i.name
        (codes "description\": \"" ++ (escape i.description ++ after_description i)))

-- A description called "author" is stored, but when it is read its author is not the one that was
-- stored: the search for the key finds the name, and takes the string of the next line, which is the
-- text of the description.
author_lost :
    (i : MetadataInfo)
    → i.name ≡ codes "author"
    → (parse_json (to_json i)).author ≡ (
        if ends_in_backslash i.description then i.description ++ codes "\",\n  " else i.description)
unfolding parse_json extract_string value_of find without to_json after_name after_description
    escape escape_char read_back
author_lost i h =
    ap
      (λ n.
        value_or
          (extract_string (codes "{\n  \"name\": \"" ++ (escape n ++ after_name i))
            (codes "author"))
          [])
      h
    ∙ ap (λ o. value_or o [])
        (string_read i.description (codes "author\": \"" ++ (escape i.author ++ after_author i)))
