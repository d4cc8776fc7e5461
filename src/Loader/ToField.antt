-- ===== src/Loader/ToField.antt =====
-- The key sequence that src/core/settings/json_config_loader.cpp makes of the `to` field of a mapping,
-- and the rules that src/core/engine/engine.cpp compiles of it.
use yamy.Base.{
  ℕ, ◌≡◌, refl, ap, ◌∙◌, subst, true, Option, none, some, List, [], ◌∷◌, ◌++◌, map, All,
  if◌then◌else◌, Option-cases, Bool-cases, inl, inr,
}
use mathlib.Core.List.{append-nil, append_assoc}
use yamy.ModifiedKey.{ModifiedKey, of_key, set_virtual_mod}
use yamy.RuleCompiler.{ScanCodes, action_key, output_code, compile_rules, compile_key_assignment}
use yamy.RuleCompiler.OutputCode.{compile_rules-output}
use yamy.Texts.{Text, find_text}
use yamy.Texts.Split.{IsPart}
use yamy.Loader.Keys.{JsonReader, NamedKey, KeySequence}
use yamy.Loader.Specs.{
  parse_modified_key, type_assign, type_keyseq, set_mode, add_key_action, add_element, add_elements,
  as_sequence, parse_to_field,
}
use yamy.Loader.Sections.{new_seq}
use yamy.Loader.RoundTrip.{
  ModifierName, shift, ctrl, control, alt, win, windows, virtual, IsName, meant, all_meant, written,
  parse_modified_key-written,
}

module _ (r : JsonReader) (lookup : List (Text × NamedKey)) where
  open r use {Json, is_array, is_string, elements, text}

  -- The specification: the keys that the elements name, `none` where one is no string or names no key.
  unfoldable pub keys_of : List Json → Option (List ModifiedKey)
  keys_of [] = some []
  keys_of (e ∷ rest) =
      if is_string e
      then elim (parse_modified_key lookup (text e)) [
        | none ↦ none
        | some (mk, k) ↦ elim (keys_of rest) [ none ↦ none | some keys ↦ some (mk ∷ keys) ]
      ]
      else none

  abbrev pub some_keys : List Json → Option (List ModifiedKey)
  some_keys [] = none
  some_keys (e ∷ rest) = keys_of (e ∷ rest)

  unfoldable pub to_keys : Json → Option (List ModifiedKey)
  to_keys field =
      if is_string field
      then keys_of (field ∷ [])
      else if is_array field
      then some_keys (elements field)
      else none

  abbrev pub with_actions : KeySequence → Option (List ModifiedKey) → Option KeySequence
  with_actions seq none = none
  with_actions seq (some keys) = some (record seq { actions = seq.actions ++ map action_key keys })

  cons_actions :
      (seq : KeySequence) (mk : ModifiedKey) (o : Option (List ModifiedKey))
      → with_actions (add_key_action mk seq) o
        ≡ with_actions seq (elim o [ none ↦ none | some keys ↦ some (mk ∷ keys) ])
  unfolding add_key_action
  cons_actions seq mk none = refl
  cons_actions seq mk (some keys) = ap (λ l. some (record seq { actions = l })) (rw append_assoc)

  add_elements-keys :
      (es : List Json) (seq : KeySequence)
      → add_elements r lookup es seq ≡ with_actions seq (keys_of es)
  unfolding add_elements add_element keys_of
  add_elements-keys [] seq = ap (λ l. some (record seq { actions = l })) (rw append-nil)
  add_elements-keys (e ∷ rest) seq = elim (Bool-cases (is_string e)) [
    | inl y ↦ elim (Option-cases (parse_modified_key lookup (text e))) [
      | inl p ↦ rw (y, p, add_elements, keys_of)
      | inr (q, p) ↦
          rw (y, p, add_elements, keys_of)
            (add_elements-keys rest (add_key_action q.0 seq) ∙ cons_actions seq q.0 (keys_of rest))
    ]
    | inr n ↦ rw (n, add_elements, keys_of)
  ]

  same_mode :
      (number : ℕ) (name : Text) (o : Option (List ModifiedKey))
      → ◌≡◌ {A = Option KeySequence}
          (elim (with_actions (new_seq number name) o) [
            | none ↦ none
            | some seq ↦ some (set_mode type_keyseq seq)
          ])
          (with_actions (new_seq number name) o)
  unfolding new_seq set_mode
  same_mode number name none = refl
  same_mode number name (some keys) = refl

  abbrev raised : Option KeySequence → Option KeySequence
  raised o = elim o [ none ↦ none | some seq ↦ some (set_mode type_keyseq seq) ]

  sequence-keys :
      (es : List Json) (number : ℕ) (name : Text)
      → as_sequence r lookup es (new_seq number name)
        ≡ with_actions (new_seq number name) (some_keys es)
  sequence-keys [] number name = refl
  sequence-keys (e ∷ rest) number name =
      ap raised (add_elements-keys (e ∷ rest) (new_seq number name))
      ∙ same_mode number name (keys_of (e ∷ rest))

  one_element :
      (e : Json) (seq : KeySequence)
      → add_element r lookup e seq ≡ add_elements r lookup (e ∷ []) seq
  unfolding add_elements
  one_element e seq = elim (Option-cases (add_element r lookup e seq)) [
    | inl n ↦ rw (n, add_elements)
    | inr (t, y) ↦ rw (y, add_elements)
  ]

  -- The sequence of a mapping: a string must name a key, and gives one action; an array must have an
  -- element, and all its elements must be strings that name keys, and gives one action for each, in
  -- their order; anything else is refused. The mode of the sequence is ASSIGN in all cases: for an
  -- array the loader asks for KEYSEQ, which is lower, and `setMode` only raises the mode.
  pub parse_to_field_lem :
      (field : Json) (number : ℕ) (name : Text)
      → (parse_to_field r lookup field (new_seq number name)
          ≡ with_actions (new_seq number name) (to_keys field))
        × ((new_seq number name).mode ≡ type_assign)
  unfolding parse_to_field to_keys
  parse_to_field_lem field number name = (to_part, unfold new_seq set_mode in refl)
    where
      to_part :
          parse_to_field r lookup field (new_seq number name)
          ≡ with_actions (new_seq number name) (to_keys field)
      to_part = elim (Bool-cases (is_string field)) [
        | inl y ↦ rw y (
            one_element field (new_seq number name)
            ∙ add_elements-keys (field ∷ []) (new_seq number name))
        | inr n ↦ elim (Bool-cases (is_array field)) [
          | inl a ↦ rw (n, a) (sequence-keys (elements field) number name)
          | inr b ↦ rw (n, b)
        ]
      ]

-- A modifier leaves the key as it is.
same_pointer : (n : ModifierName) (mk : ModifiedKey) → (meant n mk).key ≡ mk.key
unfolding meant set_virtual_mod
same_pointer shift mk = refl
same_pointer ctrl mk = refl
same_pointer control mk = refl
same_pointer alt mk = refl
same_pointer win mk = refl
same_pointer windows mk = refl
same_pointer (virtual a b) mk = refl

same_pointers : (names : List ModifierName) (mk : ModifiedKey) → (all_meant names mk).key ≡ mk.key
unfolding all_meant
same_pointers [] mk = refl
same_pointers (n ∷ names) mk = same_pointers names (meant n mk) ∙ same_pointer n mk

same_output :
    (sc : ScanCodes) (names : List ModifierName) (mk : ModifiedKey)
    → output_code sc (all_meant names mk) ≡ output_code sc mk
unfolding output_code
same_output sc names mk = rw (same_pointers names mk, output_code)

-- The first scan code of a key, 0 where it has none.
abbrev pub first_scan_code : List ℕ → ℕ
first_scan_code [] = 0
first_scan_code (code ∷ rest) = code

key_output : (sc : ScanCodes) (k : ℕ) → output_code sc (of_key k) ≡ first_scan_code (sc k)
unfolding output_code of_key
key_output sc k = refl

module _ (r : JsonReader) (lookup : List (Text × NamedKey)) where
  open r use {Json, is_array, is_string, elements, text}

  sequence_of :
      (field : Json) (names : List ModifierName) (key : Text) (k : NamedKey) (number : ℕ)
      (name : Text)
      → is_string field ≡ true
      → text field ≡ written names key
      → All IsName names
      → IsPart key
      → find_text key lookup ≡ some k
      → parse_to_field r lookup field (new_seq number name)
        ≡ some (record (new_seq number name) {
          actions = action_key (all_meant names (of_key k.number)) ∷ [];
        })
  unfolding parse_to_field add_element add_key_action new_seq set_mode
  sequence_of field names key k number name y t hs h f =
      let p : parse_modified_key lookup (text field) ≡ some (all_meant names (of_key k.number), k) =
        ap (parse_modified_key lookup) t ∙ parse_modified_key-written lookup names key k hs h f in
      rw (y, p)

  -- What becomes of the modifiers in a `to` field. If the field is a string, a correct specification of
  -- modifiers and a key, then the sequence has one action, for the key with all these modifiers; but the
  -- rules that are compiled of it, for any key to assign and any keyboard, are those of the key alone,
  -- and each puts out the first scan code of the key, or 0 where it has none.
  pub to_modifiers_lost :
      (field : Json) (names : List ModifierName) (key : Text) (k : NamedKey) (number : ℕ)
      (name : Text) (sc : ScanCodes) (from : ModifiedKey)
      → is_string field ≡ true
      → text field ≡ written names key
      → All IsName names
      → IsPart key
      → find_text key lookup ≡ some k
      → (seq : KeySequence) × (parse_to_field r lookup field (new_seq number name) ≡ some seq)
        × (seq.actions ≡ action_key (all_meant names (of_key k.number)) ∷ [])
        × (compile_key_assignment sc from (some seq.actions)
            ≡ compile_key_assignment sc from (some (action_key (of_key k.number) ∷ [])))
        × All
            (λ rule. rule.output_scan_code ≡ first_scan_code (sc k.number))
            (compile_key_assignment sc from (some seq.actions))
  unfolding compile_key_assignment
  to_modifiers_lost field names key k number name sc from y t hs h f = (
    record (new_seq number name) { actions = action_key (all_meant names (of_key k.number)) ∷ [] },
    sequence_of field names key k number name y t hs h f,
    refl,
    ap (compile_rules from) (same_output sc names (of_key k.number)),
    subst
        (λ o.
          All (λ rule. rule.output_scan_code ≡ o)
            (compile_rules from (output_code sc (all_meant names (of_key k.number)))))
        (same_output sc names (of_key k.number) ∙ key_output sc k.number)
        (compile_rules-output from (output_code sc (all_meant names (of_key k.number)))),
  )
