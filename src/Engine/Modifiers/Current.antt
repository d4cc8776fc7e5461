-- ===== src/Engine/Modifiers/Current.antt =====
-- The modifiers that `getCurrentModifiers` of src/core/engine/engine_modifier.cpp gives to a key event.
use yamy.Base.{
  ℕ, zero, suc, ◌≡◌, ◌<◌, ◌≤◌, refl, sym, ap, ◌∙◌, ◌⊎◌, inl, inr, ◌↔◌, Bool, true, false, not,
  Option, none, some, List, [], ◌∷◌, any, ◌==◌, ==_iff, ==_self, both_true, Bool-cases,
  if◌then◌else◌, arith,
}
use yamy.Modifier.{
  Modifier, modifier_init, type_shift, type_alt, type_control, type_windows, type_up, type_down,
  type_repeat, add, press, release, care, press_if, is_pressed, is_dontcare,
}
use yamy.ModifiedKey.{same_key}
use yamy.Keymap.{ModAssignment}
use yamy.Engine.Modifiers.{
  Pressed, modifier_is_pressed, is_repeat, with_event, get_current_modifiers,
}

-- Is a key of the modifier pressed?
abbrev pub IsHeld : Pressed → List ModAssignment → Type 0
IsHeld e [] = ⊥
IsHeld e (ma ∷ rest) = (e.key_is_pressed ma.key ≡ true) ⊎ IsHeld e rest

-- Was the key pressed last and, if this is a release, before that as well?
abbrev pub IsRepeated : Pressed → Option ℕ → Bool → Type 0
IsRepeated e key pressed =
    (e.last_pressed_key ≡ key) × ((pressed ≡ true) ⊎ (e.last_but_one_key ≡ key))

IsHeld-iff :
    (e : Pressed) (l : List ModAssignment)
    → (any (λ ma. e.key_is_pressed ma.key) l ≡ true) ↔ IsHeld e l
unfolding any
IsHeld-iff e [] = (λ h. cc, λ h. absurd h)
IsHeld-iff e (ma ∷ rest) = elim (Bool-cases (e.key_is_pressed ma.key)) [
  | inl y ↦ (λ h. inl y, λ h. rw (any, y) refl)
  | inr n ↦ (
    λ h. inr ((IsHeld-iff e rest).0 (rw (any, n) at h)),
    λ h. elim h [ inl y ↦ cc | inr r ↦ rw (any, n) ((IsHeld-iff e rest).1 r) ],
  )
]

same_key_self : (a : Option ℕ) → same_key a a ≡ true
same_key_self none = refl
same_key_self (some a) = ==_self a

same_key_sound : (a b : Option ℕ) → same_key a b ≡ true → a ≡ b
same_key_sound none none h = refl
same_key_sound none (some b) h = cc
same_key_sound (some a) none h = cc
same_key_sound (some a) (some b) h = ap some ((==_iff a b).0 h)

same_key_iff : (a b : Option ℕ) → (same_key a b ≡ true) ↔ (a ≡ b)
same_key_iff a b = (same_key_sound a b, λ h. ap (λ c. same_key c b) h ∙ same_key_self b)

IsRepeated-iff :
    (e : Pressed) (key : Option ℕ) (pressed : Bool)
    → (is_repeat e key pressed ≡ true) ↔ IsRepeated e key pressed
unfolding is_repeat
IsRepeated-iff e key pressed =
    let last = same_key_iff e.last_pressed_key key in
    let before = same_key_iff e.last_but_one_key key in
    (
      λ h.
          let both = both_true (same_key e.last_pressed_key key) _ h in
          (
            last.0 both.0,
            elim (Bool-cases pressed) [
              | inl y ↦ inl y
              | inr n ↦ inr (before.0 (ground (arith, n, both.1)))
            ],
          ),
      λ h. elim h.1 [
        | inl y ↦ ground (arith, last.1 h.0, y)
        | inr y ↦ ground (arith, last.1 h.0, before.1 y)
      ],
    )

is_pressed-press_if :
    (m : Modifier) (t : ℕ) (b : Bool) (i : ℕ)
    → is_pressed (press_if m t b) i ≡ (if t == i then b else is_pressed m i)
unfolding is_pressed press_if press release care
is_pressed-press_if m t b i = ground arith

is_dontcare-press_if :
    (m : Modifier) (t : ℕ) (b : Bool) (i : ℕ)
    → is_dontcare (press_if m t b) i ≡ (if t == i then false else is_dontcare m i)
unfolding is_dontcare press_if press release care
is_dontcare-press_if m t b i = ground arith

is_pressed-with_event :
    (m : Modifier) (p r : Bool) (i : ℕ)
    → is_pressed (with_event m p r) i ≡ (
        if type_repeat == i
        then r
        else if type_down == i
        then p
        else if type_up == i
        then not p
        else is_pressed m i)
unfolding with_event
is_pressed-with_event m p true i = simp is_pressed-press_if (ground arith)
is_pressed-with_event m p false i = simp is_pressed-press_if (ground arith)

is_dontcare-with_event :
    (m : Modifier) (p r : Bool) (i : ℕ)
    → is_dontcare (with_event m p r) i ≡ (
        if type_repeat == i
        then false
        else if type_down == i
        then false
        else if type_up == i
        then false
        else is_dontcare m i)
unfolding with_event
is_dontcare-with_event m p true i = simp is_dontcare-press_if (ground arith)
is_dontcare-with_event m p false i = simp is_dontcare-press_if (ground arith)

module _ (e : Pressed) (key : Option ℕ) (pressed : Bool) where
  abbrev m : Modifier
  m = get_current_modifiers e key pressed

  abbrev locks : Modifier
  locks = add modifier_init e.current_lock

  pressed_types :
      (i : ℕ)
      → is_pressed m i ≡ (
          if type_repeat == i
          then is_repeat e key pressed
          else if type_down == i
          then pressed
          else if type_up == i
          then not pressed
          else if type_windows == i
          then modifier_is_pressed e type_windows
          else if type_control == i
          then modifier_is_pressed e type_control
          else if type_alt == i
          then modifier_is_pressed e type_alt
          else if type_shift == i
          then modifier_is_pressed e type_shift
          else is_pressed locks i)
  unfolding get_current_modifiers
  pressed_types i = simp (is_pressed-with_event, is_pressed-press_if) refl

  cared_types : (i : ℕ) → i < 7 → is_dontcare m i ≡ false
  unfolding get_current_modifiers
  cared_types i h = simp (is_dontcare-with_event, is_dontcare-press_if) (ground (arith, h))

  lock_types : (i : ℕ) → 7 ≤ i → is_pressed m i ≡ is_pressed locks i
  lock_types i h = ground (arith, pressed_types i, h)

  basic_types : (i : ℕ) → i < 4 → is_pressed m i ≡ modifier_is_pressed e i
  basic_types zero h = pressed_types 0
  basic_types (suc zero) h = pressed_types 1
  basic_types (suc (suc zero)) h = pressed_types 2
  basic_types (suc (suc (suc zero))) h = pressed_types 3
  basic_types (suc (suc (suc (suc i)))) h = absurd (omega (arith, h))

  IsHeld-types : (i : ℕ) → i < 4 → (is_pressed m i ≡ true) ↔ IsHeld e (e.mod_assignments i)
  unfolding modifier_is_pressed
  IsHeld-types i h =
      let held = IsHeld-iff e (e.mod_assignments i) in
      let b = basic_types i h in (λ y. held.0 (sym b ∙ y), λ y. b ∙ held.1 y)

  IsRepeated-types : (is_pressed m type_repeat ≡ true) ↔ IsRepeated e key pressed
  IsRepeated-types =
      let r = IsRepeated-iff e key pressed in
      let b = pressed_types type_repeat in (λ y. r.0 (sym b ∙ y), λ y. b ∙ r.1 y)

  -- The modifiers that a key event gets, whatever the locks and the keys: Up is pressed exactly on a
  -- release and Down exactly on a press; Repeat exactly if the key was the last one pressed and, on a
  -- release, also the one before; Shift, Alt, Control and Windows exactly if some key is pressed that
  -- the keymap assigns to them. All of these matter, none is don't-care. Every other type is pressed
  -- exactly if it is in the modifiers of the locks.
  pub get_current_modifiers_lem :
      (is_pressed m type_up ≡ not pressed)
      × (is_pressed m type_down ≡ pressed)
      × ((is_pressed m type_repeat ≡ true) ↔ IsRepeated e key pressed)
      × ((i : ℕ) → i < 4 → (is_pressed m i ≡ true) ↔ IsHeld e (e.mod_assignments i))
      × ((i : ℕ) → i < 7 → is_dontcare m i ≡ false)
      × ((i : ℕ) → 7 ≤ i → is_pressed m i ≡ is_pressed locks i)
  get_current_modifiers_lem = (
    pressed_types type_up,
    pressed_types type_down,
    IsRepeated-types,
    IsHeld-types,
    cared_types,
    lock_types,
  )
