-- ===== src/Metadata.antt =====
-- src/core/settings/config_metadata.cpp: the description of a configuration, which is kept in a file
-- as JSON that the code writes and reads by hand. A search in a text gives the text behind what is
-- found; `none` stands for `npos` and for a result of false. The file itself and its path are left
-- out; readings of the clock are arguments.
pub mod Escapes
pub mod Dates
pub mod Searched
pub mod Stored
pub mod Tags
pub mod RoundTrip
use yamy.Base.{
  ℕ, zero, suc, ◌+◌, ◌-◌, ◌*◌, ◌^◌, ◌≡◌, Bool, true, false, not, ◌&&◌, ◌||◌, Option, none, some,
  List, [], ◌∷◌, ◌++◌, length, any, ℤ, pos, negsuc, ltb, leb, ◌==◌, if◌then◌else◌, ◌>>=◌,
}
use yamy.Texts.{Text, codes, same_text, to_string}

pub record MetadataInfo : Type 0 where
  pub name : Text
  pub description : Text
  pub author : Text
  pub created_date : ℤ
  pub modified_date : ℤ
  pub tags : List Text

abbrev pub no_info : MetadataInfo
no_info = record {
  name = [];
  description = [];
  author = [];
  created_date = pos 0;
  modified_date = pos 0;
  tags = [];
}

abbrev pub quote : ℕ
quote = 34

abbrev pub backslash : ℕ
backslash = 92

-- The cases of `escapeJson`.
unfoldable pub escape_char : ℕ → Text
escape_char c =
    if c == quote
    then backslash ∷ quote ∷ []
    else if c == backslash
    then backslash ∷ backslash ∷ []
    else if c == 10
    then backslash ∷ b'n' ∷ []
    else if c == 13
    then backslash ∷ b'r' ∷ []
    else if c == 9
    then backslash ∷ b't' ∷ []
    else c ∷ []

unfoldable pub escape : Text → Text
escape [] = []
escape (c ∷ s) = escape_char c ++ escape s

-- The character that two characters stand for, where the first one begins an escape.
unfoldable pub escaped_pair : ℕ → ℕ → Option ℕ
escaped_pair c d =
    if not (c == backslash)
    then none
    else if d == quote
    then some quote
    else if d == backslash
    then some backslash
    else if d == b'n'
    then some 10
    else if d == b'r'
    then some 13
    else if d == b't'
    then some 9
    else none

unfoldable pub unescape : Text → Text
unescape [] = []
unescape (c ∷ []) = c ∷ []
unescape (c ∷ d ∷ s) =
    let behind_pair = unescape s in
    let behind = unescape (d ∷ s) in
    elim (escaped_pair c d) [ none ↦ c ∷ behind | some e ↦ e ∷ behind_pair ]

-- What follows a text at the start of another.
unfoldable pub without : Text → Text → Option Text
without [] s = some s
without (p ∷ pattern) [] = none
without (p ∷ pattern) (c ∷ s) = let rest = without pattern s in if p == c then rest else none

-- `find` of a text that is not empty.
unfoldable pub find : Text → Text → Option Text
find pattern [] = none
find pattern (c ∷ s) = elim (without pattern (c ∷ s)) [
  | none ↦ find pattern s
  | some rest ↦ some rest
]

abbrev pub prepend : ℕ → Option (Text × Text) → Option (Text × Text)
prepend c none = none
prepend c (some (value, rest)) = some (c ∷ value, rest)

-- The loop to the closing quote, `previous` being the character before: what stands in front of that
-- quote, and what stands behind it.
unfoldable pub to_quote : ℕ → Text → Option (Text × Text)
to_quote previous [] = none
to_quote previous (c ∷ s) =
    let more = prepend c (to_quote c s) in
    if c == quote && not (previous == backslash) then some ([], s) else more

abbrev pub quoted_key : Text → Text
quoted_key key = quote ∷ key ++ quote ∷ []

-- The text behind a key and its colon.
unfoldable pub value_of : Text → Text → Option Text
value_of json key = find (quoted_key key) json >>= find (codes ":")

abbrev pub unescape_value : Text × Text → Option Text
unescape_value (value, rest) = some (unescape value)

unfoldable pub extract_string : Text → Text → Option Text
extract_string json key =
    value_of json key >>= λ s. find (codes "\"") s >>= λ t. to_quote quote t >>= unescape_value

unfoldable pub skip_blanks : Text → Text
skip_blanks [] = []
skip_blanks (c ∷ s) = let rest = skip_blanks s in if c == 32 || c == 9 then rest else c ∷ s

-- The number that the digits at the start write, and whether there is one.
unfoldable pub read_decimal : Bool → ℕ → Text → Bool × ℕ
read_decimal found value [] = (found, value)
read_decimal found value (c ∷ s) =
    let more = read_decimal true (value * 10 + (c - b'0')) s in
    if leb b'0' c && leb c b'9' then more else (found, value)

-- `std::stoll` of a sign and digits.
unfoldable pub stoll : Bool → Bool × ℕ → Option ℤ
stoll minus (false, value) = none
stoll false (true, value) = if ltb (2 ^ 63 - 1) value then none else some (pos value)
stoll true (true, zero) = some (pos 0)
stoll true (true, suc value) = if ltb (2 ^ 63 - 1) value then none else some (negsuc value)

unfoldable pub read_int : Text → Option ℤ
read_int [] = none
read_int (c ∷ s) =
    if c == b'-'
    then stoll true (read_decimal false 0 s)
    else stoll false (read_decimal false 0 (c ∷ s))

unfoldable pub extract_int : Text → Text → Option ℤ
extract_int json key = value_of json key >>= λ s. read_int (skip_blanks s)

-- The text in front of the first `]`.
unfoldable pub to_bracket : Text → Option Text
to_bracket [] = none
to_bracket (c ∷ s) =
    let more = to_bracket s in
    if c == b']' then some [] else elim more [ none ↦ none | some t ↦ some (c ∷ t) ]

-- The loop over the strings of an array; each round uses up a character, so the length is enough fuel.
unfoldable pub read_strings : ℕ → Text → List Text
read_strings zero s = []
read_strings (suc fuel) s = elim (find (codes "\"") s) [
  | none ↦ []
  | some t ↦ elim (to_quote quote t) [
    | none ↦ []
    | some (value, rest) ↦ unescape value ∷ read_strings fuel rest
  ]
]

unfoldable pub extract_string_array : Text → Text → Option (List Text)
extract_string_array json key = value_of json key >>= λ s. find (codes "[") s >>= λ t.
    to_bracket t >>= λ content. some (read_strings (length content) content)

abbrev pub value_or {ℓ} : {A : Type ℓ} → Option A → A → A
value_or none a = a
value_or (some b) a = b

unfoldable pub parse_json : Text → MetadataInfo
parse_json json = record {
  name = value_or (extract_string json (codes "name")) [];
  description = value_or (extract_string json (codes "description")) [];
  author = value_or (extract_string json (codes "author")) [];
  created_date = value_or (extract_int json (codes "createdDate")) (pos 0);
  modified_date = value_or (extract_int json (codes "modifiedDate")) (pos 0);
  tags = value_or (extract_string_array json (codes "tags")) [];
}

unfoldable pub print_int : ℤ → Text
print_int (pos n) = to_string n
print_int (negsuc n) = b'-' ∷ to_string (suc n)

unfoldable pub print_tags : List Text → Text
print_tags [] = []
print_tags (tag ∷ []) = quote ∷ escape tag ++ quote ∷ []
print_tags (tag ∷ next ∷ rest) = quote ∷ (escape tag ++ (codes "\", " ++ print_tags (next ∷ rest)))

-- The text behind the name, and so on.
unfoldable pub after_modified : MetadataInfo → Text
after_modified i = codes ",\n  \"tags\": [" ++ (print_tags i.tags ++ codes "]\n}\n")

unfoldable pub after_created : MetadataInfo → Text
after_created i = codes ",\n  \"modifiedDate\": " ++ (print_int i.modified_date ++ after_modified i)

unfoldable pub after_author : MetadataInfo → Text
after_author i = codes "\",\n  \"createdDate\": " ++ (print_int i.created_date ++ after_created i)

unfoldable pub after_description : MetadataInfo → Text
after_description i = codes "\",\n  \"author\": \"" ++ (escape i.author ++ after_author i)

unfoldable pub after_name : MetadataInfo → Text
after_name i = codes "\",\n  \"description\": \"" ++ (escape i.description ++ after_description i)

unfoldable pub to_json : MetadataInfo → Text
to_json i = codes "{\n  \"name\": \"" ++ (escape i.name ++ after_name i)

-- The setters, at the time `now`.
unfoldable pub set_name : MetadataInfo → Text → ℤ → MetadataInfo
set_name i name now = record i { name = name; modified_date = now }

unfoldable pub set_description : MetadataInfo → Text → ℤ → MetadataInfo
set_description i description now = record i { description = description; modified_date = now }

unfoldable pub set_author : MetadataInfo → Text → ℤ → MetadataInfo
set_author i author now = record i { author = author; modified_date = now }

abbrev pub has_tag : Text → List Text → Bool
has_tag tag tags = any (λ t. same_text t tag) tags

unfoldable pub add_tag : MetadataInfo → Text → ℤ → MetadataInfo
add_tag i tag now =
    if has_tag tag i.tags then i else record i { tags = i.tags ++ tag ∷ []; modified_date = now }

-- `erase` of the first one.
unfoldable pub without_tag : Text → List Text → List Text
without_tag tag [] = []
without_tag tag (t ∷ rest) =
    let behind = without_tag tag rest in if same_text t tag then rest else t ∷ behind

unfoldable pub remove_tag : MetadataInfo → Text → ℤ → MetadataInfo
remove_tag i tag now =
    if has_tag tag i.tags
    then record i { tags = without_tag tag i.tags; modified_date = now }
    else i

unfoldable pub clear_tags : MetadataInfo → ℤ → MetadataInfo
clear_tags i now = elim i.tags [ [] ↦ i | t ∷ rest ↦ record i { tags = []; modified_date = now } ]
