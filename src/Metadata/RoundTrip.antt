-- ===== src/Metadata/RoundTrip.antt =====
-- What src/core/settings/config_metadata.cpp writes, read again.
use yamy.Base.{
  ◌≡◌, refl, ap, ◌∙◌, true, false, Option, none, some, List, [], ◌∷◌, ◌++◌, All, any, length, ◌==◌,
  ◌>>=◌, ℤ, pos,
}
use yamy.Texts.{Text, codes}
use yamy.Metadata.{
  MetadataInfo, quote, escape, without, find, quoted_key, value_of, unescape_value, extract_string,
  extract_int, extract_string_array, value_or, parse_json, after_author, after_created,
  after_modified, after_description, after_name, to_json, print_int, print_tags, to_quote, read_int,
  skip_blanks, to_bracket, read_strings,
}
use yamy.Metadata.Dates.{in_64_bits, date_read, date_quotes}
use yamy.Metadata.Searched.{find-behind, find-passed}
use yamy.Metadata.Stored.{ends_in_backslash, read_back, string_read}
use yamy.Metadata.Tags.{Fitting, tags_read}

-- The value does not look like the key of a later line: the search for it, in quotes, finds nothing in
-- the value and the quotes around it.
unfoldable pub Unlike : Text → Text → Type 0
Unlike value key = find (quoted_key key) (quote ∷ escape value ++ quote ∷ []) ≡ none

-- A string of the description, with the keys that stand behind it.
unfoldable pub Legible : List Text → Text → Type 0
Legible keys value = (ends_in_backslash value ≡ false) × All (Unlike value) keys

abbrev pub after_strings : List Text
after_strings = codes "createdDate" ∷ codes "modifiedDate" ∷ codes "tags" ∷ []

-- A description of a configuration that can be stored.
pub record Storable (i : MetadataInfo) : Type 0 where
  pub name : Legible (codes "description" ∷ codes "author" ∷ after_strings) i.name
  pub description : Legible (codes "author" ∷ after_strings) i.description
  pub author : Legible after_strings i.author
  pub created_date : in_64_bits i.created_date ≡ true
  pub modified_date : in_64_bits i.modified_date ≡ true
  pub tags : All Fitting i.tags

read_back_same : (v : Text) → ends_in_backslash v ≡ false → read_back v ≡ v
unfolding read_back
read_back_same v h = rw h refl

-- The search for a key passes over a string.
passed :
    (k v t : Text)
    → any (λ c. c == quote) k ≡ false
    → Unlike v k
    → find (quoted_key k) (quote ∷ escape v ++ quote ∷ t) ≡ find (quoted_key k) (quote ∷ t)
unfolding Unlike
passed k v t q u = find-behind k (quote ∷ escape v) t q u

description_found :
    (i : MetadataInfo)
    → Unlike i.name (codes "description")
    → value_of (to_json i) (codes "description")
      ≡ some (codes " \"" ++ (escape i.description ++ after_description i))
unfolding value_of find without to_json after_name any
description_found i u =
    ap (λ o. o >>= find (codes ":")) (passed (codes "description") i.name _ refl u)

author_found :
    (i : MetadataInfo)
    → Unlike i.name (codes "author")
    → Unlike i.description (codes "author")
    → value_of (to_json i) (codes "author")
      ≡ some (codes " \"" ++ (escape i.author ++ after_author i))
unfolding value_of find without to_json after_name after_description any
author_found i u v =
    ap (λ o. o >>= find (codes ":"))
      (passed (codes "author") i.name _ refl u ∙ passed (codes "author") i.description _ refl v)

created_found :
    (i : MetadataInfo)
    → Unlike i.name (codes "createdDate")
    → Unlike i.description (codes "createdDate")
    → Unlike i.author (codes "createdDate")
    → value_of (to_json i) (codes "createdDate")
      ≡ some (codes " " ++ (print_int i.created_date ++ after_created i))
unfolding value_of find without to_json after_name after_description after_author any
created_found i u v w =
    ap (λ o. o >>= find (codes ":"))
      (passed (codes "createdDate") i.name _ refl u
        ∙ passed (codes "createdDate") i.description _ refl v
        ∙ passed (codes "createdDate") i.author _ refl w)

modified_found :
    (i : MetadataInfo)
    → Unlike i.name (codes "modifiedDate")
    → Unlike i.description (codes "modifiedDate")
    → Unlike i.author (codes "modifiedDate")
    → value_of (to_json i) (codes "modifiedDate")
      ≡ some (codes " " ++ (print_int i.modified_date ++ after_modified i))
unfolding value_of find without to_json after_name after_description after_author after_created any
modified_found i u v w =
    ap (λ o. o >>= find (codes ":"))
      (passed (codes "modifiedDate") i.name _ refl u
        ∙ passed (codes "modifiedDate") i.description _ refl v
        ∙ passed (codes "modifiedDate") i.author _ refl w
        ∙ find-passed (codes "modifiedDate") (print_int i.created_date) _
            (date_quotes i.created_date))

tags_found :
    (i : MetadataInfo)
    → Unlike i.name (codes "tags")
    → Unlike i.description (codes "tags")
    → Unlike i.author (codes "tags")
    → value_of (to_json i) (codes "tags")
      ≡ some (codes " [" ++ (print_tags i.tags ++ codes "]\n}\n"))
unfolding value_of find without to_json after_name after_description after_author after_created
    after_modified any
tags_found i u v w =
    ap (λ o. o >>= find (codes ":"))
      (passed (codes "tags") i.name _ refl u
        ∙ passed (codes "tags") i.description _ refl v
        ∙ passed (codes "tags") i.author _ refl w
        ∙ find-passed (codes "tags") (print_int i.created_date) _ (date_quotes i.created_date)
        ∙ find-passed (codes "tags") (print_int i.modified_date) _ (date_quotes i.modified_date))

strings_read :
    (v t : Text)
    → ends_in_backslash v ≡ false
    → (to_quote quote (escape v ++ (codes "\",\n  \"" ++ t)) >>= unescape_value) ≡ some v
strings_read v t h = string_read v t ∙ ap some (read_back_same v h)

string_field :
    (o : Option Text) (v t : Text)
    → ends_in_backslash v ≡ false
    → o ≡ some (codes " \"" ++ (escape v ++ (codes "\",\n  \"" ++ t)))
    → value_or (o >>= λ s. find (codes "\"") s >>= λ u. to_quote quote u >>= unescape_value) [] ≡ v
unfolding find without
string_field o v t e h = rw h (ap (λ p. value_or p []) (strings_read v t e))

date_field :
    (o : Option Text) (z : ℤ) (t : Text)
    → in_64_bits z ≡ true
    → o ≡ some (codes " " ++ (print_int z ++ b',' ∷ t))
    → value_or (o >>= λ s. read_int (skip_blanks s)) (pos 0) ≡ z
unfolding skip_blanks
date_field o z t b h = rw h (ap (λ p. value_or p (pos 0)) (date_read z t b))

tags_field :
    (o : Option Text) (tags : List Text) (t : Text)
    → All Fitting tags
    → o ≡ some (codes " [" ++ (print_tags tags ++ b']' ∷ t))
    → value_or
        (o >>= λ s. find (codes "[") s >>= λ u.
          to_bracket u >>= λ content. some (read_strings (length content) content))
        []
      ≡ tags
unfolding find without
tags_field o tags t a h = rw h (ap (λ p. value_or p []) (tags_read tags t a))

same_info :
    (i j : MetadataInfo)
    → i.name ≡ j.name
    → i.description ≡ j.description
    → i.author ≡ j.author
    → i.created_date ≡ j.created_date
    → i.modified_date ≡ j.modified_date
    → i.tags ≡ j.tags
    → i ≡ j
same_info i j a b c d e f = cc

-- What is stored is read as it was: the name, the description, the author, both dates and the tags.
-- The condition is that no string ends in a backslash, that no string holds the name of a key that
-- stands behind it where its quotes would be taken for those of the key, that both dates have 64 bits,
-- and that no tag has a closing bracket or ends in a backslash.
pub parse_json-to_json : (i : MetadataInfo) → Storable i → parse_json (to_json i) ≡ i
unfolding parse_json extract_string extract_int extract_string_array Legible value_of find without
    to_json after_name after_description after_author after_created after_modified
parse_json-to_json i s =
    let ks = s.name.1 in
    let ds = s.description.1 in
    let authors = s.author.1 in
    same_info (parse_json (to_json i)) i (string_field _ i.name _ s.name.0 refl)
      (string_field _ i.description _ s.description.0 (description_found i ks.0))
      (string_field _ i.author _ s.author.0 (author_found i ks.1.0 ds.0))
      (date_field _ i.created_date _ s.created_date (created_found i ks.1.1.0 ds.1.0 authors.0))
      (date_field _ i.modified_date _ s.modified_date
        (modified_found i ks.1.1.1.0 ds.1.1.0 authors.1.0))
      (tags_field _ i.tags _ s.tags (tags_found i ks.1.1.1.1.0 ds.1.1.1.0 authors.1.1.0))
