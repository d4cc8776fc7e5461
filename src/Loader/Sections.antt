-- ===== src/Loader/Sections.antt =====
-- The sections for virtual modifiers and mappings in src/core/settings/json_config_loader.cpp, and
-- `load` itself, with the searches by name of `Keymaps` and `KeySeqs` in src/core/input/keymap.cpp.
-- A file that cannot be read or parsed is `none`.
use yamy.Base.{
  ℕ, suc, Bool, true, false, not, ◌&&◌, Option, none, some, List, [], ◌∷◌, ◌++◌, insert, any,
  if◌then◌else◌,
}
use yamy.Texts.{to_string, Text, codes, same_text, same_name, find_text}
use yamy.ModifiedKey.{ModifiedKey}
use yamy.Keymap.{Assignments, add_assignment}
use yamy.Numerals.{virtual_number, is_some}
use yamy.Loader.Keys.{
  JsonReader, NamedKey, KeySequence, NamedKeymap, Loading, and_then, first_scan, parse_keyboard,
}
use yamy.Loader.Specs.{type_keyseq, type_assign, set_mode, parse_modified_key, parse_to_field}

unfoldable pub key_seq_name : ℕ → Text → Text
key_seq_name index from_spec = codes "mapping_" ++ (to_string index ++ (codes "_" ++ from_spec))

-- A new `KeySeq` with its name, in the mode of `parseSingleMapping`.
unfoldable pub new_seq : ℕ → Text → KeySequence
new_seq number name =
    set_mode type_assign (record { number = number; name = name; mode = type_keyseq; actions = [] })

-- `*ks = i_keySeq` for the first sequence of this name, and its number; `none` if there is none.
unfoldable pub overwrite : KeySequence → List KeySequence → Option (ℕ × List KeySequence)
overwrite seq [] = none
overwrite seq (ks ∷ rest) =
    let behind = overwrite seq rest in
    if same_name seq.name ks.name
    then some (ks.number, record seq { number = ks.number } ∷ rest)
    else elim behind [ none ↦ none | some (n, l) ↦ some (n, ks ∷ l) ]

-- `KeySeqs::add`, for a sequence that has a name.
unfoldable pub add_key_seq : KeySequence → List KeySequence → ℕ × List KeySequence
add_key_seq seq seqs = elim (overwrite seq seqs) [
  | none ↦ (seq.number, seq ∷ seqs)
  | some (n, l) ↦ (n, l)
]

abbrev pub global_name : Text
global_name = codes "Global"

unfoldable pub is_global : NamedKeymap → Bool
is_global m = same_name global_name m.name

-- What is done to the first keymap named Global.
unfoldable pub in_global : (Assignments → Assignments) → List NamedKeymap → List NamedKeymap
in_global f [] = []
in_global f (m ∷ rest) =
    let behind = in_global f rest in
    if is_global m then record m { assignments = f m.assignments } ∷ rest else m ∷ behind

-- The global keymap is searched, and made where there is none.
unfoldable pub with_global : Loading → Loading
with_global s = if any is_global s.keymaps then s else record s {
  keymaps = record { name = global_name; assignments = record { buckets = λ b. [] } } ∷ s.keymaps;
}

-- The end of `parseSingleMapping`: the sequence goes to the setting, the mapping to the keymap.
unfoldable pub add_mapping : ModifiedKey → NamedKey → KeySequence → Loading → Loading
add_mapping mk k seq s =
    let (number, seqs) = add_key_seq seq s.key_seqs in
    record s {
      keymaps = in_global (λ m. add_assignment m (first_scan k) mk number) s.keymaps;
      key_seqs = seqs;
      next_seq = suc s.next_seq;
    }

module _ (r : JsonReader) where
  open r use {Json, is_object, is_array, is_string, member, items, elements, text}

  unfoldable pub validate_schema : Json → Bool
  validate_schema config = is_object config && elim (member config (codes "version")) [
    | none ↦ false
    | some version ↦
        is_string version
        && (same_text (text version) (codes "2.0") && is_some (member config (codes "keyboard")))
  ]

  -- The optional tap action of a modifier.
  unfoldable pub parse_tap : ℕ → Json → Loading → Bool × Loading
  parse_tap mod_num mod_def s = elim (member mod_def (codes "tap")) [
    | none ↦ (true, s)
    | some tap ↦
        if not (is_string tap) then (false, s) else elim (find_text (text tap) s.key_lookup) [
          | none ↦ (false, s)
          | some k ↦ (true, record s { tap_actions = insert mod_num (first_scan k) s.tap_actions })
        ]
  ]

  unfoldable pub parse_virtual_modifier : Text → Json → Loading → Bool × Loading
  parse_virtual_modifier mod_name mod_def s = elim (virtual_number mod_name) [
    | none ↦ (false, s)
    | some mod_num ↦
        if not (is_object mod_def) then (false, s) else elim (member mod_def (codes "trigger")) [
          | none ↦ (false, s)
          | some trigger ↦
              if not (is_string trigger)
              then (false, s)
              else elim (find_text (text trigger) s.key_lookup) [
                | none ↦ (false, s)
                | some k ↦
                    parse_tap mod_num mod_def
                      (record s { triggers = insert (first_scan k) mod_num s.triggers })
              ]
        ]
  ]

  unfoldable pub parse_modifiers : List (Text × Json) → Loading → Bool × Loading
  parse_modifiers [] s = (true, s)
  parse_modifiers ((name, mod_def) ∷ rest) s =
      and_then (parse_virtual_modifier name mod_def s) (λ t. parse_modifiers rest t)

  unfoldable pub parse_virtual_modifiers : Json → Loading → Bool × Loading
  parse_virtual_modifiers obj s = elim (member obj (codes "virtualModifiers")) [
    | none ↦ (true, s)
    | some vmods ↦ if not (is_object vmods) then (false, s) else parse_modifiers (items vmods) s
  ]

  unfoldable pub parse_single_mapping : Json → ℕ → Loading → Bool × Loading
  parse_single_mapping mapping index s =
      if not (is_object mapping) then (false, s) else elim (member mapping (codes "from")) [
        | none ↦ (false, s)
        | some from ↦
            if not (is_string from)
            then (false, s)
            else elim (parse_modified_key s.key_lookup (text from)) [
              | none ↦ (false, s)
              | some (mk, k) ↦ elim (member mapping (codes "to")) [
                | none ↦ (false, s)
                | some to ↦
                    elim (parse_to_field r s.key_lookup to
                      (new_seq s.next_seq (key_seq_name index (text from)))) [
                        | none ↦ (false, s)
                        | some seq ↦ (true, add_mapping mk k seq s)
                      ]
              ]
            ]
      ]

  -- The loop over the mappings, the next one being number `index`.
  unfoldable pub parse_each : ℕ → List Json → Loading → Bool × Loading
  parse_each index [] s = (true, s)
  parse_each index (mapping ∷ rest) s =
      and_then (parse_single_mapping mapping index s) (λ t. parse_each (suc index) rest t)

  unfoldable pub parse_mappings : Json → Loading → Bool × Loading
  parse_mappings obj s = elim (member obj (codes "mappings")) [
    | none ↦ (true, s)
    | some mappings ↦
        if not (is_array mappings)
        then (false, s)
        else parse_each 1 (elements mappings) (with_global s)
  ]

  unfoldable pub load : Option Json → Loading → Bool × Loading
  load none s = (false, s)
  load (some config) s =
      if not (validate_schema config)
      then (false, s)
      else and_then (parse_keyboard r config s)
          (λ t. and_then (parse_virtual_modifiers config t) (λ u. parse_mappings config u))
