-- ===== src/Loader/Keys.antt =====
-- The section of the keys in src/core/settings/json_config_loader.cpp: `parseKeyboard`,
-- `parseKeyDefinition` and `resolveKeyName`, with the searches by name of `Keyboard` in
-- src/core/input/keyboard.cpp. A pointer to a key is the key with its number: the loader changes no
-- key that it has added. Log lines are left out.
use yamy.Base.{
  ℕ, zero, suc, Bool, true, false, not, Option, none, some, List, [], ◌∷◌, Assoc, find_if, any,
  no_bits, ◌==◌, if◌then◌else◌,
}
use yamy.Texts.{Text, codes, same_name, put_text}
use yamy.Keyboard.{Key, hash}
use yamy.Keymap.{Assignments}
use yamy.RuleCompiler.{ActionType}
use yamy.Numerals.{parse_scan_code}

-- `nlohmann::json`, as the loader reads it: the tests of a value's kind, `contains` with `[]`
-- (`none` where the value is no object or has no such member), `items`, the elements of an array,
-- and `get<std::string>`.
pub record JsonReader : Type 1 where
  pub Json : Type 0
  pub is_object : Json → Bool
  pub is_array : Json → Bool
  pub is_string : Json → Bool
  pub member : Json → Text → Option Json
  pub items : Json → List (Text × Json)
  pub elements : Json → List Json
  pub text : Json → Text

pub record NamedKey : Type 0 where
  pub number : ℕ
  pub names : List Text
  pub key : Key

-- `m_hashedKeys` and `m_aliases` of a keyboard, and the number of the next key.
pub record KeyTable : Type 0 where
  pub buckets : ℕ → List NamedKey
  pub aliases : List (Text × NamedKey)
  pub next : ℕ

pub record KeySequence : Type 0 where
  pub number : ℕ
  pub name : Text
  pub mode : ℕ
  pub actions : List ActionType

pub record NamedKeymap : Type 0 where
  pub name : Text
  pub assignments : Assignments

-- What the loader writes: the setting's keyboard, key sequences, keymaps, triggers and tap actions,
-- and its own `m_keyLookup`.
pub record Loading : Type 0 where
  pub keyboard : KeyTable
  pub key_lookup : List (Text × NamedKey)
  pub triggers : Assoc ℕ
  pub tap_actions : Assoc ℕ
  pub keymaps : List NamedKeymap
  pub key_seqs : List KeySequence
  pub next_seq : ℕ

-- A step that returns false ends the loading, with what it has written so far.
abbrev pub and_then : Bool × Loading → (Loading → Bool × Loading) → Bool × Loading
and_then (true, s) f = f s
and_then (false, s) f = (false, s)

abbrev pub first_scan : NamedKey → ℕ
first_scan k = k.key.first_scan_code.scan

-- `Key::operator==` with a name.
unfoldable pub is_called : Text → NamedKey → Bool
is_called name k = any (λ n. same_name n name) k.names

-- The first n buckets, in their order.
unfoldable pub search_below : ℕ → (ℕ → List NamedKey) → Text → Option NamedKey
search_below zero buckets name = none
search_below (suc n) buckets name = elim (search_below n buckets name) [
  | none ↦ find_if (is_called name) (buckets n)
  | some k ↦ some k
]

-- `searchKeyByNonAliasName`
unfoldable pub search_non_alias : KeyTable → Text → Option NamedKey
search_non_alias kb name = search_below 128 kb.buckets name

-- `m_aliases.find`, whose order takes names apart that differ in more than case.
unfoldable pub find_alias : Text → List (Text × NamedKey) → Option NamedKey
find_alias name [] = none
find_alias name ((alias, k) ∷ rest) =
    let behind = find_alias name rest in if same_name alias name then some k else behind

-- `searchKey` by name.
unfoldable pub search_key_by_name : KeyTable → Text → Option NamedKey
search_key_by_name kb name = elim (find_alias name kb.aliases) [
  | none ↦ search_non_alias kb name
  | some k ↦ some k
]

-- A key as `parseKeyDefinition` makes it.
unfoldable pub new_key : ℕ → Text → ℕ → NamedKey
new_key number name scan_code = record {
  number = number;
  names = name ∷ [];
  key = record {
    first_scan_code = record { scan = scan_code; flags = no_bits };
    other_scan_codes = [];
    is_pressed = false;
    is_pressed_on_win32 = false;
    is_pressed_by_assign = false;
  };
}

-- `addKey`, of a key with its name.
unfoldable pub add_named : NamedKey → KeyTable → KeyTable
add_named k kb = record kb {
  buckets = λ b. (if hash k.key == b then k ∷ kb.buckets b else kb.buckets b);
  next = suc kb.next;
}

-- `parseKeyDefinition` behind its tests.
unfoldable pub define_key : Text → ℕ → Loading → Bool × Loading
define_key name scan_code s =
    let kb = add_named (new_key s.keyboard.next name scan_code) s.keyboard in
    elim (search_key_by_name kb name) [
      | none ↦ (false, record s { keyboard = kb })
      | some k ↦ (true, record s { keyboard = kb; key_lookup = put_text name k s.key_lookup })
    ]

module _ (r : JsonReader) where
  open r use {Json, is_object, is_string, member, items, text}

  unfoldable pub parse_key_definition : Text → Json → Loading → Bool × Loading
  parse_key_definition name value s =
      if not (is_string value) then (false, s) else elim (parse_scan_code (text value)) [
        | none ↦ (false, s)
        | some scan_code ↦ define_key name scan_code s
      ]

  -- The loop of `parseKeyboard`.
  unfoldable pub define_keys : List (Text × Json) → Loading → Bool × Loading
  define_keys [] s = (true, s)
  define_keys ((name, value) ∷ rest) s =
      and_then (parse_key_definition name value s) (λ t. define_keys rest t)

  unfoldable pub parse_keyboard : Json → Loading → Bool × Loading
  parse_keyboard obj s = elim (member obj (codes "keyboard")) [
    | none ↦ (false, s)
    | some keyboard ↦ elim (member keyboard (codes "keys")) [
      | none ↦ (false, s)
      | some keys ↦
          if not (is_object keys)
          then (false, s)
          else define_keys (items keys) (record s { key_lookup = [] })
    ]
  ]
