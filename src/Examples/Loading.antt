-- ===== src/Examples/Loading.antt =====
-- A configuration for src/core/settings/json_config_loader.cpp, over JSON values of these examples.
use yamy.Base.{
  insert, same_bits, all_below, ℕ, ◌≡◌, refl, true, false, Option, none, some, List, [], ◌∷◌, arith,
  if◌then◌else◌,
}
use yamy.ModifiedKey.{same_virtual_mods, of_key}
use yamy.Texts.{decimal, to_string, put_text, Text, codes, same_text}
use yamy.Base.{any, find_if, All}
use yamy.Modifier.{does_match, modifier_init, type_control}
use yamy.ModifiedKey.{set_virtual_mod}
use yamy.Texts.{find_text, same_name, c_str}
use yamy.Texts.Split.{split, split_from, keep}
use yamy.Loader.Specs.{
  set_mode, add_key_action, add_element, parse_parts, back, front, apply_modifiers, press_in,
  parse_modified_key, parse_to_field, type_assign,
}
use yamy.RuleCompiler.{action_key, compile_key_assignment}
use yamy.Loader.Mapped.{global_of, seq_numbered, search_global, mapping_takes_effect}
use yamy.Loader.Sections.{
  parse_mappings, parse_tap, parse_virtual_modifier, parse_modifiers, parse_virtual_modifiers,
  key_seq_name, is_global, overwrite, validate_schema, parse_single_mapping, load, new_seq,
}
use yamy.Loader.ToField.{keys_of, with_actions, to_keys, parse_to_field_lem, to_modifiers_lost}
use yamy.Loader.RoundTrip.{
  ctrl, virtual, spelled, meant, all_meant, written, parse_modified_key-written,
}
use yamy.Loader.Resolved.{define_key_lem}
use yamy.Loader.Keys.{
  search_non_alias, search_key_by_name, parse_key_definition, define_keys, parse_keyboard,
  is_called, JsonReader, NamedKey, KeySequence, Loading, new_key, add_named, search_below,
  define_key, find_alias,
}
use yamy.Keymap.{search_in, search_assignment, exact, reassign}
use yamy.Numerals.{
  to_byte, stoi, as_byte, digits, skip_space, sign, after_prefix, read_digits, with_sign, strto,
  stoul, whole_code, parse_scan_code, virtual_number, hex_value,
}
use yamy.Numerals.ScanCode.{parse_scan_code_lem, scan_code_of, all_digits, in_16_bits, place_value}
use yamy.Numerals.Modifiers.{virtual_number_lem, modifier_of, number_of}

mutual
  data Value : Type 0 where
    object : Fields → Value
    array : Items → Value
    string : Text → Value
    number : ℕ → Value

  data Fields : Type 0 where
    no_field : Fields
    field : Text → Value → Fields → Fields

  data Items : Type 0 where
    no_item : Items
    item : Value → Items → Items

field_list : Fields → List (Text × Value)
field_list no_field = []
field_list (field name v rest) = (name, v) ∷ field_list rest

item_list : Items → List Value
item_list no_item = []
item_list (item v rest) = v ∷ item_list rest

field_of : Fields → Text → Option Value
field_of no_field key = none
field_of (field name v rest) key =
    let behind = field_of rest key in if same_text name key then some v else behind

abbrev reader : JsonReader
reader = record {
  Json = Value;
  is_object = elim [ object fs ↦ true | _ ↦ false ];
  is_array = elim [ array xs ↦ true | _ ↦ false ];
  is_string = elim [ string s ↦ true | _ ↦ false ];
  member = elim [ object fs ↦ field_of fs | _ ↦ λ key. none ];
  items = elim [ object fs ↦ field_list fs | _ ↦ [] ];
  elements = elim [ array xs ↦ item_list xs | _ ↦ [] ];
  text = elim [ string s ↦ s | _ ↦ [] ];
}

parse_scan_code_example : parse_scan_code (codes "0xE01d") ≡ some 0xE01D
unfolding scan_code_of all_digits in_16_bits place_value hex_value
parse_scan_code_example = parse_scan_code_lem (codes "0xE01d")

virtual_number_example : virtual_number (codes "M-1") ≡ some 0xFF
unfolding modifier_of number_of hex_value
virtual_number_example = virtual_number_lem (codes "M-1")

-- The empty setting, and the keys A (0x1E) and B (0x30).
abbrev empty : Loading
empty = record {
  keyboard = record { buckets = λ b. []; aliases = []; next = 0 };
  key_lookup = [];
  triggers = [];
  tap_actions = [];
  keymaps = record { name = codes "Global"; assignments = record { buckets = λ b. [] } } ∷ [];
  key_seqs = [];
  next_seq = 0;
}

-- The keys a (0x10) and B (0x30).
abbrev key_a : NamedKey
key_a = new_key 0 (codes "a") 0x10

abbrev key_b : NamedKey
key_b = new_key 1 (codes "B") 0x30

abbrev two_keys : Loading
two_keys = record empty {
  keyboard = add_named key_b (add_named key_a empty.keyboard);
  key_lookup = (codes "a", key_a) ∷ (codes "B", key_b) ∷ [];
}

-- A key A (0x1E) beside the key a: its name stands for the old key.
define_key_example :
    ((define_key (codes "A") 0x1E two_keys).0 ≡ true)
    × ((define_key (codes "A") 0x1E two_keys).1.keyboard
        ≡ add_named (new_key 2 (codes "A") 0x1E) two_keys.keyboard)
    × (find_text (codes "A") (define_key (codes "A") 0x1E two_keys).1.key_lookup ≡ some key_a)
unfolding find_alias add_named new_key search_below find_if is_called any same_name same_text c_str
define_key_example = define_key_lem (codes "A") 0x1E two_keys refl

written_example :
    parse_modified_key two_keys.key_lookup (codes "Ctrl-M1F-B")
    ≡ some (set_virtual_mod (press_in type_control (of_key 1)) 0x1F true, key_b)
unfolding written spelled all_meant meant new_key find_text same_text hex_value
written_example =
    parse_modified_key-written two_keys.key_lookup (ctrl ∷ virtual b'1' b'F' ∷ []) (codes "B") key_b
      (tt, ((refl, refl), tt)) (refl, tt) refl

parse_to_field_example :
    (parse_to_field reader two_keys.key_lookup
        (array (item (string (codes "a")) (item (string (codes "B")) no_item)))
        (new_seq 7 (codes "s"))
      ≡ with_actions reader two_keys.key_lookup
          (new_seq 7 (codes "s"))
          (some (of_key 0 ∷ of_key 1 ∷ [])))
    × ((new_seq 7 (codes "s")).mode ≡ type_assign)
unfolding to_keys item_list keys_of parse_modified_key parse_parts split split_from keep find_text
    same_text back apply_modifiers front new_key
parse_to_field_example =
    parse_to_field_lem reader two_keys.key_lookup
      (array (item (string (codes "a")) (item (string (codes "B")) no_item))) 7 (codes "s")

abbrev b_spec : Value
b_spec = string (codes "Ctrl-B")

-- A mapping from a to Ctrl-B is compiled as one to B.
to_modifiers_lost_example :
    (seq : KeySequence) × (parse_to_field reader two_keys.key_lookup b_spec (new_seq 7 (codes "s"))
      ≡ some seq)
    × (seq.actions ≡ action_key (all_meant (ctrl ∷ []) (of_key 1)) ∷ [])
    × (compile_key_assignment (λ k. 0x30 ∷ []) (of_key 0) (some seq.actions)
        ≡ compile_key_assignment (λ k. 0x30 ∷ []) (of_key 0) (some (action_key (of_key 1) ∷ [])))
    × All
        (λ rule. rule.output_scan_code ≡ 0x30)
        (compile_key_assignment (λ k. 0x30 ∷ []) (of_key 0) (some seq.actions))
unfolding written spelled find_text same_text new_key
to_modifiers_lost_example =
    to_modifiers_lost reader two_keys.key_lookup b_spec (ctrl ∷ []) (codes "B") key_b 7 (codes "s")
      (λ k. 0x30 ∷ []) (of_key 0) refl refl (tt, tt) (refl, tt) refl

abbrev mapping : Value
mapping =
    object
      (field (codes "from") (string (codes "a")) (field (codes "to") (string (codes "B")) no_field))

abbrev mapped : KeySequence
mapped = record (new_seq 0 (codes "mapping_1_a")) { actions = action_key (of_key 1) ∷ [] }

mapping_takes_effect_example :
    ((parse_single_mapping reader mapping 1 two_keys).0 ≡ true)
    × (seq_numbered mapped.number (parse_single_mapping reader mapping 1 two_keys).1.key_seqs
        ≡ some mapped)
    × (search_global (parse_single_mapping reader mapping 1 two_keys).1 0x10 (of_key 0)
        ≡ some (record { modified_key = of_key 0; key_seq = mapped.number }))
    × (search_global (parse_single_mapping reader mapping 1 two_keys).1 0x11 (of_key 0) ≡ none)
unfolding field_of new_key parse_modified_key parse_parts split split_from keep find_text same_text
    same_name c_str find_if parse_to_field add_element add_key_action set_mode back apply_modifiers
    front new_seq overwrite global_of is_global reassign exact of_key same_virtual_mods all_below
    same_bits key_seq_name to_string decimal search_assignment search_in modifier_init does_match
mapping_takes_effect_example =
    mapping_takes_effect reader mapping (string (codes "a")) (string (codes "B")) 1 two_keys
      (of_key 0) key_a mapped (record { buckets = λ b. [] }) (of_key 0) 0x11 refl refl refl refl
      refl refl refl refl refl refl (λ e. omega arith)

abbrev config : Value
config = object (
    field (codes "version") (string (codes "2.0")) (
      field (codes "keyboard")
        (object (
          field (codes "keys") (object (field (codes "a") (string (codes "0x10")) no_field))
            no_field))
        (field (codes "virtualModifiers")
          (object (
            field (codes "M-1") (object (field (codes "trigger") (string (codes "a")) no_field))
              no_field))
          no_field)))

loaded :
    ((load reader (some config) empty).0 ≡ true)
    × ((load reader (some config) empty).1.triggers ≡ (0x10, 0xFF) ∷ [])
unfolding load validate_schema field_of same_text parse_keyboard define_keys field_list
    parse_key_definition parse_scan_code whole_code stoul strto with_sign read_digits after_prefix
    sign skip_space hex_value digits define_key search_key_by_name find_alias add_named new_key
    search_non_alias search_below find_if is_called any same_name c_str put_text
    parse_virtual_modifiers parse_modifiers parse_virtual_modifier virtual_number as_byte stoi
    to_byte find_text parse_tap insert parse_mappings
loaded = (refl, refl)
