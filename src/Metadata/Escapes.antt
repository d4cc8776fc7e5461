-- ===== src/Metadata/Escapes.antt =====
-- The escapes of src/core/settings/config_metadata.cpp, and the closing quote behind an escaped text.
use yamy.Base.{
  ℕ, ◌≡◌, refl, sym, ap, ◌∙◌, false, Option, some, [], ◌∷◌, ◌++◌, arith, ◌==◌, if◌then◌else◌,
}
use mathlib.Core.List.{append_assoc}
use yamy.Texts.{Text}
use yamy.Metadata.{backslash, escape_char, escape, escaped_pair, unescape, prepend, to_quote}

-- A character that begins no escape stays as it is.
unescape-plain : (c : ℕ) (s : Text) → (c == backslash) ≡ false → unescape (c ∷ s) ≡ c ∷ unescape s
unfolding unescape escaped_pair
unescape-plain c [] h = refl
unescape-plain c (d ∷ s) h = rw (h, escaped_pair, unescape)

unescape-escape_char : (c : ℕ) (s : Text) → unescape (escape_char c ++ s) ≡ c ∷ unescape s
unfolding escape_char unescape escaped_pair
unescape-escape_char c s = ground (arith, unescape-plain c s)

-- What is escaped reads back as it was, whatever the text holds and whatever follows it.
pub unescape-escape : (s t : Text) → unescape (escape s ++ t) ≡ s ++ unescape t
unfolding escape
unescape-escape [] t = refl
unescape-escape (c ∷ s) t =
    ap unescape (append_assoc (escape_char c) (escape s) t)
    ∙ unescape-escape_char c (escape s ++ t)
    ∙ ap (λ r. c ∷ r) (unescape-escape s t)

-- The last character of an escape.
abbrev pub last_escaped : ℕ → ℕ
last_escaped c = if c == 10 then b'n' else if c == 13 then b'r' else if c == 9 then b't' else c

-- The last character of an escaped text, or the one in front of it.
unfoldable pub end_char : ℕ → Text → ℕ
end_char previous [] = previous
end_char previous (c ∷ s) = end_char (last_escaped c) s

abbrev pub prepend_all : Text → Option (Text × Text) → Option (Text × Text)
prepend_all [] o = o
prepend_all (c ∷ s) o = prepend c (prepend_all s o)

prepend_all-append :
    (s t : Text) (o : Option (Text × Text))
    → prepend_all (s ++ t) o ≡ prepend_all s (prepend_all t o)
prepend_all-append [] t o = refl
prepend_all-append (c ∷ s) t o = ap (prepend c) (prepend_all-append s t o)

to_quote-escape_char :
    (previous c : ℕ) (s : Text)
    → to_quote previous (escape_char c ++ s)
      ≡ prepend_all (escape_char c) (
          to_quote
            (if c == 10 then b'n' else if c == 13 then b'r' else if c == 9 then b't' else c)
            s)
unfolding escape_char to_quote
to_quote-escape_char previous c s = ground arith

-- No quote of an escaped text is taken for the closing one: the search goes on behind the text.
pub to_quote-escape :
    (previous : ℕ) (s t : Text)
    → to_quote previous (escape s ++ t) ≡ prepend_all (escape s) (to_quote (end_char previous s) t)
unfolding escape end_char
to_quote-escape previous [] t = refl
to_quote-escape previous (c ∷ s) t =
    ap (to_quote previous) (append_assoc (escape_char c) (escape s) t)
    ∙ to_quote-escape_char previous c (escape s ++ t)
    ∙ ap (prepend_all (escape_char c)) (to_quote-escape (last_escaped c) s t)
    ∙ sym (prepend_all-append (escape_char c) (escape s) (to_quote (end_char (last_escaped c) s) t))

pub prepend_all-some :
    (s value rest : Text) → prepend_all s (some (value, rest)) ≡ some (s ++ value, rest)
prepend_all-some [] value rest = refl
prepend_all-some (c ∷ s) value rest = ap (prepend c) (prepend_all-some s value rest)
