-- ===== src/ModifierState/Keys.antt =====
-- Key events in src/core/input/modifier_state.cpp: which standard modifier an event sets or clears,
-- and what the engine's `Modifier` is told of it.
use yamy.Base.{
  ℕ, ◌%◌, ◌≡◌, refl, sym, ap, ◌∙◌, ◌↔◌, ==_self, Bool, true, false, not, ◌||◌, ◌&&◌, Option, none,
  some, arith, ◌==◌, if◌then◌else◌,
}
use yamy.Modifier.{
  Modifier, type_shift, type_alt, type_control, type_windows, type_caps_lock, type_num_lock,
  type_scroll_lock, is_pressed, is_dontcare, modifier_init, press,
}
use yamy.ModifierState.{
  ModifierState, KeyEvent, StdModifier, std_flag, lshift, rshift, lctrl, rctrl, lalt, ralt, lwin,
  rwin, capslock, numlock, scrolllock, scancode_to_std_modifier, keycode_to_std_modifier,
  is_modifier_active, is_lock_active, std_index, set_std_flag, is_shift_pressed, is_ctrl_pressed,
  is_alt_pressed, is_win_pressed, update_from_key_event, apply_std, to_modifier, press_when,
  or_else, disambiguate,
}
use yamy.ModifierState.Regions.{set_std_flag_self, set_std_flag_only}

-- The events that are for a flag, by their scan code and whether they are extended: the codes of a PC
-- keyboard, cut to 16 bits, with E0 for the right key, and the Linux key codes.
unfoldable pub names_flag : StdModifier → ℕ → Bool → Bool
names_flag lshift code extended = code % 65536 == 0x2A
names_flag rshift code extended = code % 65536 == 0x36
names_flag lctrl code extended = code % 65536 == 0x1D && not extended
names_flag rctrl code extended = (code % 65536 == 0x1D && extended) || code == 97
names_flag lalt code extended = code % 65536 == 0x38 && not extended
names_flag ralt code extended = (code % 65536 == 0x38 && extended) || code == 100
names_flag lwin code extended = (code % 65536 == 0x5B && extended) || code == 125
names_flag rwin code extended = (code % 65536 == 0x5C && extended) || code == 126
names_flag capslock code extended = code % 65536 == 0x3A
names_flag numlock code extended = code % 65536 == 0x45
names_flag scrolllock code extended = code % 65536 == 0x46

abbrev is_flag : StdModifier → Option StdModifier → Bool
is_flag f none = false
is_flag f (some g) = std_index f == std_index g

abbrev flag_of : ℕ → Bool → Option StdModifier
flag_of code extended =
    or_else (disambiguate extended (scancode_to_std_modifier (code % 65536) extended))
      (keycode_to_std_modifier code)

named : (f : StdModifier) (code : ℕ) (x : Bool) → names_flag f code x ≡ is_flag f (flag_of code x)
unfolding names_flag scancode_to_std_modifier keycode_to_std_modifier std_index
named f code x = ground arith

flag-apply_std :
    (s : ModifierState) (o : Option StdModifier) (down : Bool) (f : StdModifier)
    → std_flag (apply_std s o down).0 f ≡ (if is_flag f o then down else std_flag s f)
unfolding apply_std std_flag set_std_flag
flag-apply_std s none down f = refl
flag-apply_std s (some g) down f = ground arith

others-apply_std :
    (s : ModifierState) (o : Option StdModifier) (down : Bool)
    → ((j : ℕ) → is_modifier_active (apply_std s o down).0 j ≡ is_modifier_active s j)
      × ((l : ℕ) → is_lock_active (apply_std s o down).0 l ≡ is_lock_active s l)
unfolding apply_std
others-apply_std s none down = (λ j. refl, λ l. refl)
others-apply_std s (some g) down =
    let (flags, virtuals, locks) = set_std_flag_only s g down in (virtuals, locks)

answer-apply_std :
    (s : ModifierState) (o : Option StdModifier) (down : Bool)
    → ((apply_std s o down).1 ≡ true) ↔ ((f : StdModifier) × (is_flag f o ≡ true))
unfolding apply_std
answer-apply_std s none down = (λ h. cc, λ h. cc (h.1))
answer-apply_std s (some g) down = (λ h. (g, ==_self (std_index g)), λ h. refl)

-- What a key event does, whatever the state: each of the eleven standard flags that its scan code
-- names takes the state of the key, and each other one stays as it was; a scan code names a flag by
-- its lowest 16 bits as a PC scan code, where Control, Alt and Windows are told by E0, or as a Linux
-- key code for the right Control and Alt and the Windows keys. No virtual modifier and no lock is
-- changed, and the call returns true exactly if the scan code names a flag.
pub update_from_key_event_lem :
    (s : ModifierState) (e : KeyEvent)
    → ((f : StdModifier)
        → std_flag (update_from_key_event s e).0 f
          ≡ (if names_flag f e.scan_code e.is_extended then e.is_key_down else std_flag s f))
      × ((j : ℕ) → is_modifier_active (update_from_key_event s e).0 j ≡ is_modifier_active s j)
      × ((l : ℕ) → is_lock_active (update_from_key_event s e).0 l ≡ is_lock_active s l)
      × (((update_from_key_event s e).1 ≡ true)
          ↔ ((f : StdModifier) × (names_flag f e.scan_code e.is_extended ≡ true)))
unfolding update_from_key_event
update_from_key_event_lem s e =
    let o = flag_of e.scan_code e.is_extended in
    let same = λ (f : StdModifier). named f e.scan_code e.is_extended in
    let others = others-apply_std s o e.is_key_down in
    let answer = answer-apply_std s o e.is_key_down in
    (
      λ f.
          flag-apply_std s o e.is_key_down f
          ∙ ap (λ b. if b then e.is_key_down else std_flag s f) (sym (same f)),
      others.0,
      others.1,
      (λ h. let (f, y) = answer.0 h in (f, same f ∙ y), λ (f, y). answer.1 (f, sym (same f) ∙ y)),
    )

resolved :
    (k : ℕ) (f : StdModifier)
    → keycode_to_std_modifier k ≡ some f
    → or_else
        (disambiguate false (scancode_to_std_modifier (k % 65536) false))
        (keycode_to_std_modifier k)
      ≡ some f
unfolding keycode_to_std_modifier scancode_to_std_modifier
resolved k f h = ground arith

-- The two tables agree: for every Linux key code that `keycodeToStdModifier` knows, an event that is
-- not extended and carries this code as its scan code sets the flag that the table names.
pub keycode_agrees :
    (s : ModifierState) (e : KeyEvent) (f : StdModifier)
    → keycode_to_std_modifier e.scan_code ≡ some f
    → e.is_extended ≡ false
    → std_flag (update_from_key_event s e).0 f ≡ e.is_key_down
unfolding update_from_key_event
keycode_agrees s e f h x = rw (x, resolved e.scan_code f h) (set_std_flag_self s f e.is_key_down)

is_pressed-press_when :
    (c : Bool) (t i : ℕ) (m : Modifier)
    → is_pressed (press_when c t m) i ≡ (if t == i then c || is_pressed m i else is_pressed m i)
unfolding press_when is_pressed press
is_pressed-press_when c t i m = ground arith

is_dontcare-press_when :
    (c : Bool) (t i : ℕ) (m : Modifier)
    → is_dontcare (press_when c t m) i
      ≡ (if t == i then not c && is_dontcare m i else is_dontcare m i)
unfolding press_when is_dontcare press
is_dontcare-press_when c t i m = ground arith

init_pressed : (i : ℕ) → is_pressed modifier_init i ≡ false
unfolding is_pressed modifier_init
init_pressed i = refl

init_dontcare :
    (is_dontcare modifier_init type_shift ≡ false)
    × (is_dontcare modifier_init type_alt ≡ false)
    × (is_dontcare modifier_init type_control ≡ false)
    × (is_dontcare modifier_init type_windows ≡ false)
    × (is_dontcare modifier_init type_caps_lock ≡ true)
    × (is_dontcare modifier_init type_num_lock ≡ true)
    × (is_dontcare modifier_init type_scroll_lock ≡ true)
unfolding is_dontcare modifier_init
init_dontcare = (refl, refl, refl, refl, refl, refl, refl)

or-false : (b : Bool) → (b || false) ≡ b
or-false b = ground arith

and-true : (b : Bool) → (b && true) ≡ b
and-true b = ground arith

and-false : (b : Bool) → (b && false) ≡ false
and-false b = ground arith

ruleset flags =
    (is_pressed-press_when, is_dontcare-press_when, init_pressed, or-false, and-true, and-false)

-- The engine's `Modifier` has Shift, Control, Alt and Windows pressed exactly when a left or a right
-- key is down, and cares about them; Caps Lock, Num Lock and Scroll Lock are pressed and cared for
-- when their flag is set, and are don't-care otherwise.
to_modifier_reflects :
    (s : ModifierState)
    → let m = to_modifier s in
      (is_pressed m type_shift ≡ is_shift_pressed s)
      × (is_pressed m type_control ≡ is_ctrl_pressed s)
      × (is_pressed m type_alt ≡ is_alt_pressed s)
      × (is_pressed m type_windows ≡ is_win_pressed s)
      × (is_dontcare m type_shift ≡ false)
      × (is_dontcare m type_control ≡ false)
      × (is_dontcare m type_alt ≡ false)
      × (is_dontcare m type_windows ≡ false)
      × (is_pressed m type_caps_lock ≡ std_flag s capslock)
      × (is_dontcare m type_caps_lock ≡ not (std_flag s capslock))
      × (is_pressed m type_num_lock ≡ std_flag s numlock)
      × (is_dontcare m type_num_lock ≡ not (std_flag s numlock))
      × (is_pressed m type_scroll_lock ≡ std_flag s scrolllock)
      × (is_dontcare m type_scroll_lock ≡ not (std_flag s scrolllock))
unfolding to_modifier
to_modifier_reflects s = (
  simp flags,
  simp flags,
  simp flags,
  simp flags,
  simp (flags, init_dontcare.0),
  simp (flags, init_dontcare.2),
  simp (flags, init_dontcare.1),
  simp (flags, init_dontcare.3),
  simp flags,
  simp (flags, init_dontcare.4),
  simp flags,
  simp (flags, init_dontcare.5),
  simp flags,
  simp (flags, init_dontcare.6),
)
