-- ===== src/Metadata/Tags.antt =====
-- The tags that src/core/settings/config_metadata.cpp writes as a JSON array and reads again.
use yamy.Base.{
  ℕ, zero, suc, ◌≤◌, ◌≡◌, refl, sym, ap, ◌∙◌, false, some, List, [], ◌∷◌, ◌++◌, length,
  length-append, arith, any, All, ◌==◌, ◌>>=◌,
}
use mathlib.Core.List.{append-nil}
use yamy.Texts.{Text, codes}
use yamy.Metadata.{
  quote, escape_char, escape, unescape, to_quote, without, find, to_bracket, read_strings,
  print_tags,
}
use yamy.Metadata.Escapes.{unescape-escape, to_quote-escape, prepend_all-some}
use yamy.Metadata.Searched.{free-append}
use yamy.Metadata.Stored.{ends_in_backslash, ends-end_char}

-- A tag that the array can hold: it has no closing bracket and does not end in a backslash.
unfoldable pub Fitting : Text → Type 0
Fitting tag = (any (λ c. c == b']') tag ≡ false) × (ends_in_backslash tag ≡ false)

bracket-escape_char : (c : ℕ) → (c == b']') ≡ false → any (λ x. x == b']') (escape_char c) ≡ false
unfolding any escape_char
bracket-escape_char c h = ground (arith, h)

bracket-escape :
    (s : Text) → any (λ c. c == b']') s ≡ false → any (λ c. c == b']') (escape s) ≡ false
unfolding any escape
bracket-escape [] h = refl
bracket-escape (c ∷ s) h =
    free-append b']' (escape_char c) (escape s) (bracket-escape_char c (ground (arith, h)))
      (bracket-escape s (ground (arith, h)))

bracket-print_tags :
    (tags : List Text) → All Fitting tags → any (λ c. c == b']') (print_tags tags) ≡ false
unfolding any print_tags Fitting
bracket-print_tags [] a = refl
bracket-print_tags (tag ∷ []) a = free-append b']' (escape tag) _ (bracket-escape tag a.0.0) refl
bracket-print_tags (tag ∷ next ∷ rest) a =
    free-append b']' (escape tag) (codes "\", " ++ print_tags (next ∷ rest))
      (bracket-escape tag a.0.0) (bracket-print_tags (next ∷ rest) a.1)

to_bracket-append :
    (s t : Text) → any (λ c. c == b']') s ≡ false → to_bracket (s ++ b']' ∷ t) ≡ some s
unfolding any to_bracket
to_bracket-append [] t h = refl
to_bracket-append (c ∷ s) t h = ground (arith, h, to_bracket-append s t (ground (arith, h)))

-- An escaped string is read up to its closing quote.
to_quote_here :
    (v t : Text)
    → ends_in_backslash v ≡ false
    → to_quote quote (escape v ++ quote ∷ t) ≡ some (escape v, t)
unfolding to_quote
to_quote_here v t h =
    rw (to_quote-escape quote v (quote ∷ t), ends-end_char v ∙ h)
      (prepend_all-some (escape v) [] t ∙ ap (λ s. some (s, t)) (append-nil (escape v)))

read_tag :
    (fuel : ℕ) (tag t : Text)
    → ends_in_backslash tag ≡ false
    → read_strings (suc fuel) (quote ∷ escape tag ++ quote ∷ t) ≡ tag ∷ read_strings fuel t
unfolding find without read_strings unescape
read_tag fuel tag t h =
    rw (read_strings, to_quote_here tag t h)
      (ap (λ s. s ∷ read_strings fuel t)
        (ap unescape (sym (append-nil (escape tag))) ∙ unescape-escape tag [] ∙ append-nil tag))

no_string : (fuel : ℕ) → read_strings fuel [] ≡ []
unfolding read_strings find
no_string zero = refl
no_string (suc fuel) = refl

behind_comma :
    (fuel : ℕ) (s : Text) → 1 ≤ fuel → read_strings fuel (b',' ∷ 32 ∷ s) ≡ read_strings fuel s
unfolding read_strings find without
behind_comma zero s h = ground arith
behind_comma (suc fuel) s h = refl

read-print_tags :
    (fuel : ℕ) (tags : List Text)
    → length tags ≤ fuel
    → All Fitting tags
    → read_strings fuel (print_tags tags) ≡ tags
unfolding print_tags read_strings find without Fitting
read-print_tags zero [] h a = refl
read-print_tags (suc fuel) [] h a = refl
read-print_tags zero (tag ∷ rest) h a = ground arith
read-print_tags (suc fuel) (tag ∷ []) h a =
    read_tag fuel tag [] a.0.1 ∙ ap (λ s. tag ∷ s) (no_string fuel)
read-print_tags (suc fuel) (tag ∷ next ∷ rest) h a =
    read_tag fuel tag (b',' ∷ 32 ∷ print_tags (next ∷ rest)) a.0.1
    ∙ ap (λ s. tag ∷ s)
        (behind_comma fuel (print_tags (next ∷ rest)) (ground (arith, h))
          ∙ read-print_tags fuel (next ∷ rest) (omega (arith, h)) a.1)

length-print_tags : (tags : List Text) → length tags ≤ length (print_tags tags)
unfolding print_tags
length-print_tags [] = omega arith
length-print_tags (tag ∷ []) = omega arith
length-print_tags (tag ∷ next ∷ rest) =
    let n = length-append (escape tag) (codes "\", " ++ print_tags (next ∷ rest)) in
    ground (arith, n, length-print_tags (next ∷ rest))

-- The array of tags is read as it was written.
pub tags_read :
    (tags : List Text) (t : Text)
    → All Fitting tags
    → (to_bracket (print_tags tags ++ b']' ∷ t) >>= λ content.
        some (read_strings (length content) content))
      ≡ some tags
tags_read tags t a =
    ap (λ o. o >>= λ content. some (read_strings (length content) content))
      (to_bracket-append (print_tags tags) t (bracket-print_tags tags a))
    ∙ ap some (read-print_tags (length (print_tags tags)) tags (length-print_tags tags) a)
