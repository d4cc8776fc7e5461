-- ===== src/Loader/Specs.antt =====
-- Key specifications in src/core/settings/json_config_loader.cpp: `parseModifiedKey` and
-- `applySingleModifier`, and `parseToField` with the parts of `KeySeq` in src/core/input/keymap.h
-- that it uses. A modified key comes with the key that its pointer leads to; `none` stands for a null
-- pointer.
use yamy.Base.{ℕ, true, Option, none, some, List, [], ◌∷◌, ◌++◌, ltb, if◌then◌else◌, ◌||◌}
use yamy.Modifier.{press, type_shift, type_control, type_alt, type_windows}
use yamy.ModifiedKey.{ModifiedKey, of_key, set_virtual_mod}
use yamy.RuleCompiler.{action_key}
use yamy.Numerals.{virtual_number}
use yamy.Texts.{Text, codes, same_text, find_text}
use yamy.Texts.Split.{split}
use yamy.Loader.Keys.{JsonReader, NamedKey, KeySequence}

abbrev pub press_in : ℕ → ModifiedKey → ModifiedKey
press_in type mk = record mk { modifier = press mk.modifier type }

-- `applySingleModifier`; `none` where it returns false.
unfoldable pub apply_single_modifier : Text → ModifiedKey → Option ModifiedKey
apply_single_modifier m mk =
    if same_text m (codes "Shift")
    then some (press_in type_shift mk)
    else if same_text m (codes "Ctrl") || same_text m (codes "Control")
    then some (press_in type_control mk)
    else if same_text m (codes "Alt")
    then some (press_in type_alt mk)
    else if same_text m (codes "Win") || same_text m (codes "Windows")
    then some (press_in type_windows mk)
    else elim (virtual_number m) [ none ↦ none | some n ↦ some (set_virtual_mod mk n true) ]

-- The loop over all parts but the last one.
unfoldable pub apply_modifiers : List Text → ModifiedKey → Option ModifiedKey
apply_modifiers [] mk = some mk
apply_modifiers (m ∷ rest) mk = elim (apply_single_modifier m mk) [
  | none ↦ none
  | some mk' ↦ apply_modifiers rest mk'
]

-- `parts.back()`, and the parts in front of it.
unfoldable pub back : Text → List Text → Text
back p [] = p
back p (q ∷ rest) = back q rest

unfoldable pub front : Text → List Text → List Text
front p [] = []
front p (q ∷ rest) = p ∷ front q rest

abbrev pub with_key : NamedKey → Option ModifiedKey → Option (ModifiedKey × NamedKey)
with_key k none = none
with_key k (some mk) = some (mk, k)

unfoldable pub parse_parts : List (Text × NamedKey) → List Text → Option (ModifiedKey × NamedKey)
parse_parts lookup [] = none
parse_parts lookup (p ∷ rest) = elim (find_text (back p rest) lookup) [
  | none ↦ none
  | some k ↦ with_key k (apply_modifiers (front p rest) (of_key k.number))
]

unfoldable pub parse_modified_key : List (Text × NamedKey) → Text → Option (ModifiedKey × NamedKey)
parse_modified_key lookup spec = parse_parts lookup (split spec)

abbrev pub type_keyseq : ℕ
type_keyseq = 6

abbrev pub type_assign : ℕ
type_assign = 29

-- `KeySeq::setMode`
unfoldable pub set_mode : ℕ → KeySequence → KeySequence
set_mode mode seq = if ltb seq.mode mode then record seq { mode = mode } else seq

-- `keySeq.add(ActionKey(key))`
unfoldable pub add_key_action : ModifiedKey → KeySequence → KeySequence
add_key_action mk seq = record seq { actions = seq.actions ++ action_key mk ∷ [] }

module _ (r : JsonReader) (lookup : List (Text × NamedKey)) where
  open r use {Json, is_array, is_string, elements, text}

  -- One element of a sequence, or the string for a single key.
  unfoldable pub add_element : Json → KeySequence → Option KeySequence
  add_element e seq =
      if is_string e
      then elim (parse_modified_key lookup (text e)) [
        | none ↦ none
        | some (mk, k) ↦ some (add_key_action mk seq)
      ]
      else none

  unfoldable pub add_elements : List Json → KeySequence → Option KeySequence
  add_elements [] seq = some seq
  add_elements (e ∷ rest) seq = elim (add_element e seq) [
    | none ↦ none
    | some seq' ↦ add_elements rest seq'
  ]

  abbrev pub as_sequence : List Json → KeySequence → Option KeySequence
  as_sequence [] seq = none
  as_sequence (e ∷ rest) seq = elim (add_elements (e ∷ rest) seq) [
    | none ↦ none
    | some seq' ↦ some (set_mode type_keyseq seq')
  ]

  unfoldable pub parse_to_field : Json → KeySequence → Option KeySequence
  parse_to_field field seq =
      if is_string field
      then add_element field seq
      else if is_array field
      then as_sequence (elements field) seq
      else none
