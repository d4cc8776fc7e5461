-- ===== src/Generator/Keys.antt =====
-- `generateKeyEvent`, `generateModifierEvents` and `keyboardResetOnWin32` of
-- src/core/engine/engine_generator.cpp and engine_input.cpp.
use yamy.Base.{
  pos, ℕ, zero, suc, Bool, true, false, not, ◌&&◌, ◌||◌, Option, none, some, List, [], ◌∷◌, Bits,
  set_bit, ℤ, inc, dec, ◌==◌, if◌then◌else◌, any, ◌>>=◌,
}
use yamy.Modifier.{
  Modifier, type_shift, type_alt, type_control, type_windows, type_basic, is_pressed, is_dontcare,
}
use yamy.ModifiedKey.{same_key}
use yamy.ModifierState.{KeyboardInputData}
use yamy.ScanCodes.{ScanCode}

-- What the setting holds of the keys: their scan codes, `m_mods` of the keyboard, the key for
-- synchronisation, and the keys in the order of `KeyIterator`; and the array `Event::events`.
pub record Keyboard : Type 0 where
  pub scan_codes : ℕ → List ScanCode
  pub mods : ℕ → List ℕ
  pub sync_key : ℕ
  pub all_keys : List ℕ
  pub events : List ℕ

-- The fields of `Engine` that commands read and write: the keymap, those that had it before by
-- `&Prefix`, the latest first, what the prefix asks for, `m_variable`, and whether the window of the
-- key is a console.
pub record Mode : Type 0 where
  pub current_keymap : ℕ
  pub keymap_prefix_history : List ℕ
  pub is_prefix : Bool
  pub does_edit_next_modifier : Bool
  pub does_ignore_modifier_for_prefix : Bool
  pub variable : ℤ
  pub is_console_window : Bool

-- The mode of a new engine, before it gets a setting.
abbrev pub mode_init : Mode
mode_init = record {
  current_keymap = 0;
  keymap_prefix_history = [];
  is_prefix = false;
  does_edit_next_modifier = false;
  does_ignore_modifier_for_prefix = false;
  variable = pos 0;
  is_console_window = false;
}

-- The flags of the keys and the fields of `Engine`; `injected` is what `injectInput` was called with,
-- the latest first.
pub record Output : Type 0 where
  pub is_pressed_on_win32 : Bits
  pub is_pressed_by_assign : Bits
  pub current_key_press_count_on_win32 : ℤ
  pub last_generated_key : Option ℕ
  pub injected : List KeyboardInputData
  pub recursion_guard : ℕ
  pub mode : Mode

-- The flags of an input: those of the scan code, with `BREAK`, bit 0, set on a release.
unfoldable pub to_input : Bool → ScanCode → KeyboardInputData
to_input do_press sc = record {
  make_code = sc.scan;
  flags = if do_press then sc.flags else set_bit sc.flags 0 true;
}

unfoldable pub inject_codes : Bool → List ScanCode → List KeyboardInputData → List KeyboardInputData
inject_codes do_press [] sent = sent
inject_codes do_press (sc ∷ rest) sent = inject_codes do_press rest (to_input do_press sc ∷ sent)

unfoldable pub next_count : Bool → Bool → ℤ → ℤ
next_count do_press was_pressed count =
    if do_press && not was_pressed
    then inc count
    else (if not do_press && was_pressed then dec count else count)

-- The last part: what is injected, unless the key is already released.
unfoldable pub send_key : Keyboard → ℕ → Bool → Output → Output
send_key kb key do_press s = record s {
  injected = inject_codes do_press (kb.scan_codes key) s.injected;
  last_generated_key = if do_press then some key else none;
}

-- The state with the flags of the key and the count brought up to date.
unfoldable pub mark_key : ℕ → Bool → Bool → Output → Output
mark_key key do_press is_by_assign s = record s {
  is_pressed_on_win32 = set_bit s.is_pressed_on_win32 key do_press;
  is_pressed_by_assign =
      if is_by_assign then set_bit s.is_pressed_by_assign key do_press else s.is_pressed_by_assign;
  current_key_press_count_on_win32 =
      next_count do_press (s.is_pressed_on_win32 key) s.current_key_press_count_on_win32;
}

unfoldable pub is_event : Keyboard → ℕ → Bool
is_event kb key = any (λ e. e == key) kb.events

unfoldable pub generate_key_event : Keyboard → ℕ → Bool → Bool → Output → Output
generate_key_event kb key do_press is_by_assign s =
    let is_already_released = not do_press && not (s.is_pressed_on_win32 key) in
    let marked = mark_key key do_press is_by_assign s in
    if is_event kb key
    then s
    else (if not is_already_released || key == kb.sync_key
        then send_key kb key do_press marked
        else marked)

-- The loop that presses again what an assignment holds down.
unfoldable pub press_assigned : Keyboard → List ℕ → Output → Output
press_assigned kb [] s = s
press_assigned kb (k ∷ mods) s =
    press_assigned kb mods
      (if s.is_pressed_by_assign k then generate_key_event kb k true false s else s)

unfoldable pub front_pressed : Keyboard → List ℕ → Output → Option Output
front_pressed kb [] s = none
front_pressed kb (k ∷ mods) s = some (generate_key_event kb k true false s)

-- The branch for a modifier that is to be pressed.
unfoldable pub press_modifier : Keyboard → List ℕ → Output → Option Output
press_modifier kb mods s =
    if any s.is_pressed_on_win32 mods
    then some s
    else (if any s.is_pressed_by_assign mods
        then some (press_assigned kb mods s)
        else front_pressed kb mods s)

-- The loop that releases the keys of a modifier.
unfoldable pub release_pressed : Keyboard → List ℕ → Output → Output
release_pressed kb [] s = s
release_pressed kb (k ∷ mods) s =
    release_pressed kb mods
      (if s.is_pressed_on_win32 k then generate_key_event kb k false false s else s)

-- The key that is pressed and released to separate a press of Alt or Windows from its release: the
-- first one of Shift, or of Control where Shift has none.
unfoldable pub separator : Keyboard → List ℕ
separator kb = elim (kb.mods type_shift) [ [] ↦ kb.mods type_control | k ∷ rest ↦ k ∷ rest ]

unfoldable pub click_first : Keyboard → List ℕ → Output → Output
click_first kb [] s = s
click_first kb (k ∷ rest) s =
    generate_key_event kb k false false (generate_key_event kb k true false s)

-- Alt and Windows are not released directly behind their own press.
unfoldable pub avoid_menu : Keyboard → ℕ → Output → Output
avoid_menu kb t s =
    if (t == type_alt || t == type_windows)
      && any (λ k. same_key (some k) s.last_generated_key) (kb.mods t)
    then click_first kb (separator kb) s
    else s

-- The loop body for one type.
unfoldable pub modifier_round : Keyboard → Modifier → ℕ → Output → Option Output
modifier_round kb wanted t s =
    if is_dontcare wanted t
    then some s
    else (if is_pressed wanted t
        then press_modifier kb (kb.mods t) s
        else some (release_pressed kb (kb.mods t) (avoid_menu kb t s)))

-- The first n rounds.
unfoldable pub modifier_rounds : Keyboard → Modifier → ℕ → Output → Option Output
modifier_rounds kb wanted zero s = some s
modifier_rounds kb wanted (suc n) s = modifier_rounds kb wanted n s >>= modifier_round kb wanted n

unfoldable pub generate_modifier_events : Keyboard → Modifier → Output → Option Output
generate_modifier_events kb wanted s = modifier_rounds kb wanted type_basic s

unfoldable pub release_all : Keyboard → List ℕ → Output → Output
release_all kb [] s = s
release_all kb (k ∷ keys) s =
    release_all kb keys
      (if s.is_pressed_on_win32 k then generate_key_event kb k false true s else s)

unfoldable pub keyboard_reset_on_win32 : Keyboard → Output → Output
keyboard_reset_on_win32 kb s = release_all kb kb.all_keys s
