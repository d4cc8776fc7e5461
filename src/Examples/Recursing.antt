-- ===== src/Examples/Recursing.antt =====
-- Examples for the recursion of src/core/engine/engine_generator.cpp: key 5 is assigned to sequence 1 in
-- keymap 0, whatever the modifiers.
use yamy.Base.{
  pos, ℕ, zero, suc, ◌≡◌, refl, sym, ap, ◌∙◌, ◌≢◌, Bool, true, false, none, some, List, [], ◌∷◌,
  find_if, same_bits, all_below, ◌==◌, if◌then◌else◌, All, Bool-cases, inl, inr, arith,
}
use yamy.Modifier.{
  modifier_init, type_up, type_down, press, care, is_pressed, is_dontcare, does_match,
}
use yamy.ModifiedKey.{ModifiedKey, of_key}
use yamy.Keymap.{KeyAssignment, exact, base_only, search_in, search_assignment}
use yamy.Generator.Keys.{Output, mode_init}
use yamy.Generator.Reached.{output_init}
use yamy.Generator.Actions.{
  done, too_deep, ◌>>=◌, lift, default, keymap, repeat, sync, other, Action, key, function, Setting,
  Keymap, Current, part_down, current_is_pressed, on_or_dontcare, search_by_code, search_in_keymap,
  enter_recursion, generate_keyboard_events, generate_key_seq_events,
}
use yamy.Generator.Recursion.{generate_keyboard_events-stopped, generate_keyboard_events-unbounded}
use yamy.Generator.Returns.{Returns}
use yamy.Generator.Ranked.{IsRanked, generate_key_seq_events-Returns}
use yamy.Examples.Generated.{five_keys, five_keys-AreModifiers}

abbrev assigned : KeyAssignment
assigned = record { modified_key = of_key 5; key_seq = 1 }

abbrev itself : Action
itself = function (keymap 0) modifier_init

-- Keymap 0 has the assignment; every other one has none.
abbrev keymap_of : ℕ → Keymap
keymap_of zero = record {
  assignments = record { buckets = λ b. assigned ∷ [] };
  default_key_seq = 0;
  parent_keymap = none;
}
keymap_of (suc m) = record {
  assignments = record { buckets = λ b. [] };
  default_key_seq = 2;
  parent_keymap = some 0;
}

abbrev pub setting_of : (ℕ → List Action) → Setting
setting_of actions = record {
  keyboard = five_keys;
  keymaps = keymap_of;
  actions = actions;
  prefixed = 7;
}

abbrev pub no_command : ℕ → Bool → Current → Output → Output
no_command f p c s = s

same_found : (mk : ModifiedKey) → mk.key ≡ some 5 → search_in (assigned ∷ []) mk ≡ some assigned
unfolding search_in find_if base_only does_match same_bits all_below of_key modifier_init exact
same_found mk e = elim (Bool-cases (exact mk assigned)) [
  | inl y ↦ rw y refl
  | inr n ↦ rw (n, e) refl
]

found_in :
    (actions : ℕ → List Action) (m : ℕ) (mk : ModifiedKey)
    → mk.key ≡ some 5
    → search_in_keymap (setting_of actions) m mk
      ≡ done (search_assignment (keymap_of m).assignments 5 mk)
unfolding search_in_keymap
found_in actions m mk e =
    ap (λ o. lift o >>= λ k. search_by_code (keymap_of m).assignments mk (five_keys.scan_codes k)) e

found_first :
    (actions : ℕ → List Action) (mk : ModifiedKey)
    → mk.key ≡ some 5
    → search_in_keymap (setting_of actions) 0 mk ≡ done (some assigned)
unfolding search_assignment
found_first actions mk e = found_in actions 0 mk e ∙ ap done (same_found mk e)

asked : (p : Bool) → on_or_dontcare modifier_init (if p then type_down else type_up) ≡ true
unfolding on_or_dontcare is_dontcare is_pressed modifier_init
asked true = refl
asked false = refl

not_on : (t : ℕ) → is_pressed (of_key 5).modifier t ≡ false
unfolding is_pressed of_key modifier_init
not_on t = refl

abbrev pressed_key : ModifiedKey
pressed_key = record (of_key 5) { modifier = press modifier_init type_down }

pressed_key-key : pressed_key.key ≡ some 5
unfolding of_key
pressed_key-key = refl

abbrev once : ℕ → List Action
once q = itself ∷ []

generate_keyboard_events-stopped_example :
    generate_keyboard_events
      (setting_of once)
      no_command
      63
      (record { keymap = 0; mkey = pressed_key })
      output_init
    ≡ done (enter_recursion output_init)
unfolding output_init
generate_keyboard_events-stopped_example =
    generate_keyboard_events-stopped (setting_of once) no_command 0 (some 5) assigned modifier_init
      (found_first once) (not_on type_up) (not_on type_down) asked 63 63 pressed_key output_init
      refl pressed_key-key (omega arith) refl

abbrev twice : ℕ → List Action
twice q = itself ∷ itself ∷ []

pressed_key-pressed : current_is_pressed (record { keymap = 0; mkey = pressed_key }) ≡ true
unfolding current_is_pressed is_pressed press care
pressed_key-pressed = refl

generate_keyboard_events-unbounded_example :
    generate_keyboard_events
      (setting_of twice)
      no_command
      1000
      (record { keymap = 0; mkey = pressed_key })
      output_init
    ≡ too_deep
unfolding output_init
generate_keyboard_events-unbounded_example =
    generate_keyboard_events-unbounded (setting_of twice) no_command 0 (some 5) assigned
      modifier_init (found_first twice) (not_on type_up) (not_on type_down) asked 62 1000
      pressed_key output_init refl pressed_key-key pressed_key-pressed refl

-- Sequence 1 types the key, calls keymap 1, which has only the default sequence 2, repeats that
-- sequence, synchronizes and calls a command that does not call the generator.
abbrev pub layered : ℕ → List Action
layered zero = []
layered (suc zero) =
    key (of_key 5)
    ∷ function (keymap 1) modifier_init
    ∷ function (repeat 2 (pos 10)) modifier_init
    ∷ function sync modifier_init
    ∷ function (other 3) modifier_init
    ∷ []
layered (suc (suc q)) = function default modifier_init ∷ []

abbrev rank_of : ℕ → ℕ → ℕ
rank_of x q = if q == 1 then 1 else 0

nothing_found :
    (mk : ModifiedKey) (a : KeyAssignment)
    → search_in_keymap (setting_of layered) 1 mk ≡ done (some a)
    → mk.key ≡ some 5
    → ⊥
unfolding search_assignment search_in find_if
nothing_found mk a e k = let q : done none ≡ done (some a) = sym (found_in layered 1 mk k) ∙ e in cc

layered-IsRanked :
    (x q : ℕ) → All (IsRanked (setting_of layered) rank_of 5 x (rank_of x q)) (layered q)
unfolding of_key
layered-IsRanked x zero = tt
layered-IsRanked x (suc zero) = (
  (5, refl),
  ((omega arith, λ mk a e k. absurd (nothing_found mk a e k)), (omega arith, (tt, (tt, tt)))),
)
layered-IsRanked x (suc (suc q)) = (tt, tt)

has_code : five_keys.scan_codes 5 ≢ []
has_code e = cc

-- A command that changes the state, and a state in which sequences are repeated three times.
abbrev forget_key : ℕ → Bool → Current → Output → Output
forget_key f p c s = record s { last_generated_key = none; recursion_guard = f }

abbrev three_times : Output
three_times = record output_init { mode = record mode_init { variable = pos 3 } }

generate_key_seq_events-Returns_example : Returns 0 (
    generate_key_seq_events
      (setting_of layered)
      forget_key
      2
      (record { keymap = 0; mkey = pressed_key })
      1
      part_down
      three_times)
unfolding output_init
generate_key_seq_events-Returns_example =
    generate_key_seq_events-Returns (setting_of layered) forget_key five_keys-AreModifiers 5
      has_code rank_of layered-IsRanked 2 (record { keymap = 0; mkey = pressed_key }) 1 part_down
      three_times pressed_key-key (omega arith) (omega arith)
