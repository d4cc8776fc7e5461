-- ===== src/Examples/Generated.antt =====
-- Examples for src/core/engine/engine_generator.cpp: keys 1 to 4 are Shift, Alt, Control and Windows, key 5
-- is a letter, and a key's scan code is its number.
use yamy.Base.{
  ℕ, suc, ◌<◌, ◌≡◌, refl, ◌≢◌, true, false, some, [], ◌∷◌, no_bits, ltb, ltb→lt, if◌then◌else◌, All,
  any, Bool-cases, inl, inr, arith,
}
use yamy.Modifier.{Modifier, modifier_init, type_shift, press, is_pressed, is_dontcare}
use yamy.ScanCodes.{same_code}
use yamy.Generator.Keys.{
  Keyboard, Output, is_event, send_key, mark_key, generate_key_event, generate_modifier_events,
}
use yamy.Generator.Reached.{
  Listed, IsSound, Counted, Agrees, start, key_event, output_init, Reached-kept,
}
use yamy.Generator.Basic.{IsKey, IsOff, among}
use yamy.Generator.Wanted.{AreModifiers, Settled}
use yamy.Generator.Rounds.{generate_modifier_events_lem, shift_lost}

abbrev pub five_keys : Keyboard
five_keys = record {
  scan_codes = λ k. record { scan = k; flags = no_bits } ∷ [];
  mods = λ t. (if ltb t 4 then suc t ∷ [] else []);
  sync_key = 9;
  all_keys = 1 ∷ 2 ∷ 3 ∷ 4 ∷ 5 ∷ [];
  events = 8 ∷ [];
}

modifiers_all : (P : ℕ → Type 0) (t : ℕ) → (t < 4 → P (suc t)) → All P (five_keys.mods t)
modifiers_all P t h = elim (Bool-cases (ltb t 4)) [
  | inl y ↦ rw y (h (ltb→lt t 4 y), tt)
  | inr n ↦ rw n tt
]

modifier-Listed : (t : ℕ) → t < 4 → Listed five_keys (suc t)
modifier-Listed t lt = ground arith

modifier_no_event : (t : ℕ) → t < 4 → IsKey five_keys (suc t)
unfolding is_event any
modifier_no_event t lt = ground arith

not_among : (i j : ℕ) → i ≢ j → among (suc i) (five_keys.mods j) ≡ false
unfolding any
not_among i j ne = elim (Bool-cases (ltb j 4)) [
  | inl y ↦ rw y (ground (arith, ne))
  | inr n ↦ rw n refl
]

pub five_keys-IsSound : IsSound five_keys
unfolding any same_code
five_keys-IsSound = record {
  keys_once = (refl, (refl, (refl, (refl, (refl, tt)))));
  mods_listed = λ t. modifiers_all (Listed five_keys) t (modifier-Listed t);
  plain = λ k. (refl, tt);
  apart = λ j k c h h'. ground (arith, h, h');
}

has_modifier : (t : ℕ) → t < 4 → five_keys.mods t ≢ []
has_modifier t lt e = ground (arith, lt, e)

pub five_keys-AreModifiers : AreModifiers five_keys
five_keys-AreModifiers = record {
  are_keys = λ t. modifiers_all (IsKey five_keys) t (modifier_no_event t);
  apart =
      λ i j ne. modifiers_all (λ k. among k (five_keys.mods j) ≡ false) i (λ lt. not_among i j ne);
  nonempty = has_modifier;
}

-- Shift pressed.
abbrev shift_down : Output
shift_down = generate_key_event five_keys 1 true false output_init

Reached-kept_example : Counted five_keys shift_down × Agrees five_keys shift_down
Reached-kept_example =
    Reached-kept five_keys five_keys-IsSound shift_down (key_event 1 true false refl start)

-- Shift and nothing else.
abbrev shifted : Modifier
shifted = press modifier_init type_shift

generate_modifier_events_example :
    (t : Output) × (generate_modifier_events five_keys shifted output_init ≡ some t)
    × Settled five_keys shifted 0 t
    × Settled five_keys shifted 1 t
    × Settled five_keys shifted 2 t
    × Settled five_keys shifted 3 t
unfolding any output_init
generate_modifier_events_example =
    generate_modifier_events_lem five_keys five_keys-AreModifiers shifted output_init refl refl

-- Shift and then Alt pressed.
abbrev shift_alt_down : Output
shift_alt_down = generate_key_event five_keys 2 true false shift_down

shift_lost_example :
    (t : Output) × (generate_modifier_events five_keys shifted shift_alt_down ≡ some t) × IsOff 1 t
unfolding any generate_key_event is_event send_key mark_key is_dontcare press is_pressed
    modifier_init
shift_lost_example =
    shift_lost five_keys five_keys-AreModifiers shifted 1 shift_alt_down refl refl refl refl refl
      refl refl
