-- ===== src/Examples/Described.antt =====
-- Examples for src/core/settings/config_metadata.cpp, and for the modifier assignments of
-- src/core/input/keymap.cpp.
use yamy.Base.{◌≡◌, ◌≤◌, refl, true, false, none, some, List, [], ◌∷◌, ◌++◌, pos, negsuc, suc, any}
use yamy.Texts.{codes, same_text}
use yamy.Metadata.{
  MetadataInfo, no_info, escape, escape_char, quote, backslash, unescape, escaped_pair, parse_json,
  to_json, add_tag, remove_tag, extract_int, extract_string_array, without_tag, value_of, find,
  without, skip_blanks, read_int, read_decimal, stoll, to_bracket, read_strings, to_quote,
}
use yamy.Metadata.Stored.{ends_in_backslash, last, stored_name}
use yamy.Metadata.RoundTrip.{Unlike, Legible, Storable, parse_json-to_json}
use yamy.Metadata.Dates.{in_64_bits}
use yamy.Metadata.Tags.{Fitting}
use yamy.Keymap.{ModAssignment, am_normal, ao_add, ao_sub}
use yamy.Keymap.Modifiers.{
  has_key, adjust_modifier, add_modifier, set_or_append, inherited, adjust_all, adjust_by,
  erase_redundant, erase_key,
}
use yamy.Keymap.Adjusted.{count, counted, counted_all, adjust_modifier_lem}

-- The name a"\ of a configuration.
abbrev named : MetadataInfo
named = record no_info { name = 97 ∷ quote ∷ backslash ∷ []; created_date = pos 7 }

stored_name_example : (parse_json (to_json named)).name ≡ codes "a\"\\\",\n  "
unfolding ends_in_backslash last
stored_name_example = stored_name named

date_read : extract_int (codes "{ \"createdDate\": -12,") (codes "createdDate") ≡ some (negsuc 11)
unfolding extract_int value_of find without skip_blanks read_int read_decimal stoll
date_read = refl

tags_read :
    extract_string_array (codes "\"tags\": [\"a\", \"b[c]\"]") (codes "tags")
    ≡ some (codes "a" ∷ [])
unfolding extract_string_array value_of find without to_bracket read_strings to_quote unescape
    escaped_pair
tags_read = refl

tag_added_once :
    (add_tag (add_tag named (codes "x") (pos 1)) (codes "x") (pos 2)).modified_date ≡ pos 1
unfolding add_tag any same_text
tag_added_once = refl

tag_removed : (remove_tag (add_tag named (codes "x") (pos 1)) (codes "x") (pos 2)).tags ≡ []
unfolding add_tag remove_tag any same_text without_tag
tag_removed = refl

-- A description with quotes, a backslash and a line feed, two dates and two tags.
abbrev described : MetadataInfo
described = record {
  name = codes "the \"tags\" of C:\\x";
  description = codes "a\nb";
  author = [];
  created_date = negsuc 11;
  modified_date = pos 1700000000;
  tags = codes "one" ∷ codes "a \"b\"" ∷ [];
}

described-Storable : Storable described
unfolding Legible Unlike Fitting ends_in_backslash last find without escape escape_char any
    in_64_bits
described-Storable = record {
  name = (refl, (refl, (refl, (refl, (refl, (refl, tt))))));
  description = (refl, (refl, (refl, (refl, (refl, tt)))));
  author = (refl, (refl, (refl, (refl, tt))));
  created_date = refl;
  modified_date = refl;
  tags = ((refl, refl), ((refl, refl), tt));
}

parse_json-to_json_example : parse_json (to_json described) ≡ described
parse_json-to_json_example = parse_json-to_json described described-Storable

-- Key 5 is taken away from the keys of the keyboard, and key 6 is added twice.
abbrev own : List ModAssignment
own =
    add_modifier ao_sub am_normal 5 []
    ++ add_modifier ao_add am_normal 6 []
    ++ add_modifier ao_add am_normal 6 []

adjust_modifier_example :
    (has_key 6 (adjust_modifier none 0 (5 ∷ 7 ∷ []) own) ≡ true)
    × (2 ≤ suc (count 6 (adjust_modifier none 0 (5 ∷ 7 ∷ []) own)))
unfolding counted_all counted count inherited add_modifier set_or_append
adjust_modifier_example = adjust_modifier_lem none 0 (5 ∷ 7 ∷ []) own 6

key_taken : has_key 5 (adjust_modifier none 0 (5 ∷ 7 ∷ []) own) ≡ false
unfolding adjust_modifier inherited adjust_all adjust_by erase_redundant erase_key add_modifier
    set_or_append any
key_taken = refl
