-- ===== src/Modifier.antt =====
-- src/core/input/keyboard.h and keyboard.cpp: class `Modifier`, the modifiers that a key carries and
-- those that a key assignment asks for. `MODIFIERS` is a 64-bit set of flags, kept bit by bit; a
-- `Modifier::Type` is its number in the enum.
pub mod Matching
pub mod Adding
use yamy.Base.{
  ℕ, zero, suc, ◌≡◌, Bool, true, false, not, ◌&&◌, ◌||◌, List, [], ◌∷◌, Bits, no_bits, set_bit,
  same_bits, if◌then◌else◌,
}

abbrev pub type_shift : ℕ
type_shift = 0

abbrev pub type_alt : ℕ
type_alt = 1

abbrev pub type_control : ℕ
type_control = 2

abbrev pub type_windows : ℕ
type_windows = 3

abbrev pub type_basic : ℕ
type_basic = 4

abbrev pub type_up : ℕ
type_up = 4

abbrev pub type_down : ℕ
type_down = 5

abbrev pub type_repeat : ℕ
type_repeat = 6

abbrev pub type_num_lock : ℕ
type_num_lock = 9

abbrev pub type_caps_lock : ℕ
type_caps_lock = 10

abbrev pub type_scroll_lock : ℕ
type_scroll_lock = 11

-- One past `Type_Lock9`.
abbrev pub type_end : ℕ
type_end = 29

abbrev pub width : ℕ
width = 64

pub record Modifier : Type 0 where
  pub modifiers : Bits
  pub dontcares : Bits

unfoldable pub care : Modifier → ℕ → Modifier
care m t = record m { dontcares = set_bit m.dontcares t false }

unfoldable pub dontcare : Modifier → ℕ → Modifier
dontcare m t = record m { dontcares = set_bit m.dontcares t true }

unfoldable pub dontcare_all : Modifier → Modifier
dontcare_all m = record m { dontcares = λ i. true }

unfoldable pub press : Modifier → ℕ → Modifier
unfolding care
press m t = care (record m { modifiers = set_bit m.modifiers t true }) t

unfoldable pub release : Modifier → ℕ → Modifier
unfolding care
release m t = care (record m { modifiers = set_bit m.modifiers t false }) t

-- `press(type, isPressed)` and `on(type, isOn)`.
unfoldable pub press_if : Modifier → ℕ → Bool → Modifier
unfolding press release
press_if m t is_pressed = if is_pressed then press m t else release m t

unfoldable pub care_if : Modifier → ℕ → Bool → Modifier
unfolding care dontcare
care_if m t do_care = if do_care then care m t else dontcare m t

unfoldable pub is_pressed : Modifier → ℕ → Bool
is_pressed m t = m.modifiers t

unfoldable pub is_dontcare : Modifier → ℕ → Bool
is_dontcare m t = m.dontcares t

-- `operator==`.
unfoldable pub equals : Modifier → Modifier → Bool
equals a b = same_bits width a.modifiers b.modifiers && same_bits width a.dontcares b.dontcares

-- `doesMatch`: `m_modifiers | m_dontcares` against the other's `m_modifiers | m_dontcares` of this.
unfoldable pub does_match : Modifier → Modifier → Bool
does_match a m =
    same_bits width (λ i. a.modifiers i || a.dontcares i) (λ i. m.modifiers i || a.dontcares i)

-- `defaultDontCare` of the constructor: all types from `Type_Up` to `Type_Lock9`.
abbrev default_dont_care : List ℕ
default_dont_care =
    4 ∷ 5 ∷ 6 ∷ 7 ∷ 8 ∷ 9 ∷ 10 ∷ 11 ∷ 12 ∷ 13 ∷ 14 ∷ 15 ∷ 16 ∷ 17 ∷ 18 ∷ 19 ∷ 20 ∷ 21 ∷ 22 ∷ 23 ∷ 24
    ∷ 25 ∷ 26 ∷ 27 ∷ 28 ∷ []

dontcare_each : Modifier → List ℕ → Modifier
dontcare_each m [] = m
dontcare_each m (t ∷ ts) = dontcare_each (dontcare m t) ts

-- The constructor.
unfoldable pub modifier_init : Modifier
unfolding dontcare_each dontcare
modifier_init =
    dontcare_each (record { modifiers = no_bits; dontcares = no_bits }) default_dont_care

-- The loop body of `add` for one type.
unfoldable pub add_type : Modifier → Modifier → ℕ → Modifier
unfolding is_dontcare is_pressed press release
add_type self m i =
    if is_dontcare self i
    then (if not (is_dontcare m i)
        then (if is_pressed m i then press self i else release self i)
        else self)
    else self

-- The first n rounds of the loop.
unfoldable pub add_types : ℕ → Modifier → Modifier → Modifier
unfolding add_type
add_types zero self m = self
add_types (suc n) self m = add_type (add_types n self m) m n

unfoldable pub add : Modifier → Modifier → Modifier
unfolding add_types
add self m = add_types type_end self m
