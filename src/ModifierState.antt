-- ===== src/ModifierState.antt =====
-- src/core/input/modifier_state.cpp and .h: `ModifierState`, one bitset for the standard modifiers,
-- the virtual modifiers M00-MFF and the locks L00-LFF. The log lines of `toggleLock` are left out.
pub mod Regions
pub mod Keys
pub mod Locks
use yamy.Base.{
  ℕ, zero, suc, ◌+◌, ◌/◌, ◌%◌, ◌≡◌, Bool, true, false, not, ◌||◌, ◌&&◌, Option, none, some, Bits,
  no_bits, set_bit, ◌==◌, if◌then◌else◌,
}
use yamy.Modifier.{
  Modifier, type_shift, type_control, type_alt, type_windows, type_caps_lock, type_num_lock,
  type_scroll_lock, modifier_init, press,
}

abbrev pub std_offset : ℕ
std_offset = 0

abbrev pub virtual_offset : ℕ
virtual_offset = 16

abbrev pub lock_offset : ℕ
lock_offset = 272

abbrev pub total_bits : ℕ
total_bits = 528

-- `enum StdModifier`, down to the entries that the code sets.
pub data StdModifier : Type 0 where
  lshift rshift lctrl rctrl lalt ralt lwin rwin capslock numlock scrolllock : StdModifier

-- The numbers of the enum.
unfoldable pub std_index : StdModifier → ℕ
std_index lshift = 0
std_index rshift = 1
std_index lctrl = 2
std_index rctrl = 3
std_index lalt = 4
std_index ralt = 5
std_index lwin = 6
std_index rwin = 7
std_index capslock = 8
std_index numlock = 9
std_index scrolllock = 10

-- The words that the GUI callback receives: word w, bit b.
abbrev pub LockBits : Type 0
LockBits = ℕ → Bits

pub record ModifierState : Type 0 where
  pub bits : Bits
  pub has_callback : Bool

unfoldable pub modifier_state_init : ModifierState
modifier_state_init = record { bits = no_bits; has_callback = false }

unfoldable pub is_lock_active : ModifierState → ℕ → Bool
is_lock_active s lock_num = s.bits (lock_offset + lock_num)

-- `lock_bits` after n rounds of the loop of `notifyGUILocks`.
unfoldable pub lock_bits : ℕ → ModifierState → LockBits
lock_bits zero s = λ w. no_bits
lock_bits (suc i) s =
    let words = lock_bits i s in
    if is_lock_active s i
    then (λ w. if i / 32 == w then set_bit (words w) (i % 32) true else words w)
    else words

-- What the callback is called with, if there is one.
unfoldable pub notify_gui_locks : ModifierState → Option LockBits
notify_gui_locks s = if s.has_callback then some (lock_bits 256 s) else none

unfoldable pub reset : ModifierState → ModifierState × Option LockBits
reset s = let s' = record s { bits = no_bits } in (s', notify_gui_locks s')

unfoldable pub set_std_flag : ModifierState → StdModifier → Bool → ModifierState
unfolding std_index
set_std_flag s flag pressed = record s {
  bits = set_bit s.bits (std_offset + std_index flag) pressed;
}

unfoldable pub std_flag : ModifierState → StdModifier → Bool
unfolding std_index
std_flag s flag = s.bits (std_offset + std_index flag)

unfoldable pub is_shift_pressed : ModifierState → Bool
is_shift_pressed s = std_flag s lshift || std_flag s rshift

unfoldable pub is_ctrl_pressed : ModifierState → Bool
is_ctrl_pressed s = std_flag s lctrl || std_flag s rctrl

unfoldable pub is_alt_pressed : ModifierState → Bool
is_alt_pressed s = std_flag s lalt || std_flag s ralt

unfoldable pub is_win_pressed : ModifierState → Bool
is_win_pressed s = std_flag s lwin || std_flag s rwin

unfoldable pub activate_modifier : ModifierState → ℕ → ModifierState
activate_modifier s mod_num = record s { bits = set_bit s.bits (virtual_offset + mod_num) true }

unfoldable pub deactivate_modifier : ModifierState → ℕ → ModifierState
deactivate_modifier s mod_num = record s { bits = set_bit s.bits (virtual_offset + mod_num) false }

unfoldable pub is_modifier_active : ModifierState → ℕ → Bool
is_modifier_active s mod_num = s.bits (virtual_offset + mod_num)

unfoldable pub toggle_lock : ModifierState → ℕ → ModifierState × Option LockBits
toggle_lock s lock_num =
    let bit = lock_offset + lock_num in
    let s' = record s { bits = set_bit s.bits bit (not (s.bits bit)) } in (s', notify_gui_locks s')

unfoldable pub set_notification_callback : ModifierState → Bool → ModifierState
set_notification_callback s callback = record s { has_callback = callback }

-- `none` is the cast -1.
unfoldable pub scancode_to_std_modifier : ℕ → Bool → Option StdModifier
scancode_to_std_modifier scancode is_extended =
    if scancode == 0x2A
    then some lshift
    else if scancode == 0x36
    then some rshift
    else if scancode == 0x1D
    then some (if is_extended then rctrl else lctrl)
    else if scancode == 0x38
    then some (if is_extended then ralt else lalt)
    else if scancode == 0x5B
    then (if is_extended then some lwin else none)
    else if scancode == 0x5C
    then (if is_extended then some rwin else none)
    else if scancode == 0x3A
    then some capslock
    else if scancode == 0x45
    then some numlock
    else if scancode == 0x46
    then some scrolllock
    else none

unfoldable pub keycode_to_std_modifier : ℕ → Option StdModifier
keycode_to_std_modifier keycode =
    if keycode == 42
    then some lshift
    else if keycode == 54
    then some rshift
    else if keycode == 29
    then some lctrl
    else if keycode == 97
    then some rctrl
    else if keycode == 56
    then some lalt
    else if keycode == 100
    then some ralt
    else if keycode == 125
    then some lwin
    else if keycode == 126
    then some rwin
    else if keycode == 58
    then some capslock
    else if keycode == 69
    then some numlock
    else if keycode == 70
    then some scrolllock
    else none

-- The fields of `KeyEvent` (src/core/platform/types.h) that are read here.
pub record KeyEvent : Type 0 where
  pub is_key_down : Bool
  pub is_extended : Bool
  pub scan_code : ℕ  -- uint32

-- `KEYBOARD_INPUT_DATA` (src/core/input/input_event.h), with the flags as bits: BREAK is bit 0 and
-- E0 is bit 1.
pub record KeyboardInputData : Type 0 where
  pub make_code : ℕ  -- uint16
  pub flags : Bits

-- The two lines that tell the right key from the left one.
abbrev pub disambiguate : Bool → Option StdModifier → Option StdModifier
disambiguate is_extended none = none
disambiguate is_extended (some rctrl) = some (if not is_extended then lctrl else rctrl)
disambiguate is_extended (some ralt) = some (if not is_extended then lalt else ralt)
disambiguate is_extended (some m) = some m

abbrev pub or_else : Option StdModifier → Option StdModifier → Option StdModifier
or_else none b = b
or_else (some a) b = some a

unfoldable pub apply_std : ModifierState → Option StdModifier → Bool → ModifierState × Bool
apply_std s none pressed = (s, false)
apply_std s (some m) pressed = (set_std_flag s m pressed, true)

unfoldable pub update_from_key_event : ModifierState → KeyEvent → ModifierState × Bool
unfolding apply_std
update_from_key_event s event =
    apply_std s
      (or_else
        (disambiguate event.is_extended
          (scancode_to_std_modifier (event.scan_code % 65536) event.is_extended))
        (keycode_to_std_modifier event.scan_code))
      event.is_key_down

unfoldable pub update_from_kid : ModifierState → KeyboardInputData → ModifierState × Bool
unfolding apply_std
update_from_kid s kid =
    apply_std s (scancode_to_std_modifier kid.make_code (kid.flags 1)) (not (kid.flags 0))

abbrev is_some : Option StdModifier → Bool
is_some none = false
is_some (some m) = true

unfoldable pub is_modifier_scancode : ℕ → Bool → Bool
is_modifier_scancode scancode is_extended = is_some (scancode_to_std_modifier scancode is_extended)

unfoldable pub is_modifier_keycode : ℕ → Bool
is_modifier_keycode keycode = is_some (keycode_to_std_modifier keycode)

-- `if (c) mod.press(t);`
unfoldable pub press_when : Bool → ℕ → Modifier → Modifier
press_when c t m = if c then press m t else m

unfoldable pub to_modifier : ModifierState → Modifier
to_modifier s = press_when (std_flag s scrolllock) type_scroll_lock (
    press_when (std_flag s numlock) type_num_lock (
      press_when (std_flag s capslock) type_caps_lock (
        press_when (is_win_pressed s) type_windows (
          press_when (is_alt_pressed s) type_alt (
            press_when (is_ctrl_pressed s) type_control
              (press_when (is_shift_pressed s) type_shift modifier_init))))))
