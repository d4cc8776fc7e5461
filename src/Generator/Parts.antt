-- ===== src/Generator/Parts.antt =====
-- What the mutually recursive functions of src/core/engine/engine_generator.cpp work on, and the parts of
-- them that do not call each other.
use yamy.Base.{ℕ, ℤ, Bool, true, not, ◌||◌, Option, none, some, List, [], ◌∷◌, if◌then◌else◌}
use yamy.Modifier.{Modifier, type_up, type_down, is_pressed, is_dontcare, press_if}
use yamy.ModifiedKey.{ModifiedKey}
use yamy.ScanCodes.{ScanCode}
use yamy.Keymap.{Assignments, KeyAssignment, search_assignment}
use yamy.Generator.Keys.{Keyboard, Output, generate_key_event, generate_modifier_events}

-- How a call ends: with a result; with a null pointer or an empty list where the code needs an
-- element; or not within the fuel.
pub data Outcome (A : Type 0) : Type 0 where
  done : A → Outcome A
  fault too_deep : Outcome A

infixl 5 ◌>>=◌
abbrev pub ◌>>=◌ : {A B : Type 0} → Outcome A → (A → Outcome B) → Outcome B
done a >>= f = f a
fault >>= f = fault
too_deep >>= f = too_deep

abbrev pub lift : {A : Type 0} → Option A → Outcome A
lift none = fault
lift (some a) = done a

-- The commands that call the generator, with their arguments: a keymap, how far to go back, a keymap
-- and whether to ignore modifiers, a key sequence and a bound. All others are known by their numbers.
pub data Command : Type 0 where
  default keymap_parent sync : Command
  keymap other : ℕ → Command
  keymap_prev_prefix : ℤ → Command
  prefix : ℕ → Bool → Command
  repeat : ℕ → ℤ → Command

pub data Action : Type 0 where
  key : ModifiedKey → Action
  key_seq : ℕ → Action
  function : Command → Modifier → Action

pub record Keymap : Type 0 where
  pub assignments : Assignments
  pub default_key_seq : ℕ
  pub parent_keymap : Option ℕ

pub record Setting : Type 0 where
  pub keyboard : Keyboard
  pub keymaps : ℕ → Keymap
  pub actions : ℕ → List Action  -- of a key sequence
  pub prefixed : ℕ  -- the key `Event::prefixed`

-- `Engine::Current`.
pub record Current : Type 0 where
  pub keymap : ℕ
  pub mkey : ModifiedKey

pub data Part : Type 0 where
  part_all part_up part_down : Part

-- `MAX_GENERATE_KEYBOARD_EVENTS_RECURSION_COUNT`
abbrev pub max_recursion_count : ℕ
max_recursion_count = 64

unfoldable pub current_is_pressed : Current → Bool
current_is_pressed c = is_pressed c.mkey.modifier type_down

-- `isOn(t) || isDontcare(t)`.
unfoldable pub on_or_dontcare : Modifier → ℕ → Bool
on_or_dontcare m t = is_pressed m t || is_dontcare m t

-- `searchAssignment` for a key of the setting; a fault without a key or without a scan code.
abbrev pub search_by_code :
    Assignments → ModifiedKey → List ScanCode → Outcome (Option KeyAssignment)
search_by_code a mk [] = fault
search_by_code a mk (sc ∷ rest) = done (search_assignment a sc.scan mk)

unfoldable pub search_in_keymap : Setting → ℕ → ModifiedKey → Outcome (Option KeyAssignment)
search_in_keymap setting m mk = lift mk.key >>= λ k.
    search_by_code (setting.keymaps m).assignments mk (setting.keyboard.scan_codes k)

-- An event of the key behind a pointer.
unfoldable pub key_event_of : Keyboard → Option ℕ → Bool → Output → Outcome Output
key_event_of kb none do_press s = fault
key_event_of kb (some k) do_press s = done (generate_key_event kb k do_press true s)

-- `Command_Default::exec`.
unfoldable pub exec_default : Keyboard → Bool → Current → Output → Outcome Output
exec_default kb do_press c s =
    (if do_press then lift (generate_modifier_events kb c.mkey.modifier s) else done s)
    >>= key_event_of kb c.mkey.key do_press

-- The context that a command gets.
unfoldable pub with_part : Bool → Current → Current
with_part do_press c = record c {
  mkey = record c.mkey {
    modifier = press_if (press_if c.mkey.modifier type_up (not do_press)) type_down do_press;
  };
}
