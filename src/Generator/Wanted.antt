-- ===== src/Generator/Wanted.antt =====
-- That `generateModifierEvents` of src/core/engine/engine_generator.cpp gives the modifiers that are
-- asked for.
use yamy.Base.{
  ℕ, ◌<◌, ◌≡◌, refl, sym, ap, ◌∙◌, subst, ◌≢◌, Bool, true, false, ◌||◌, Option, none, some, List,
  [], ◌∷◌, Bits, if◌then◌else◌, any, All, Bool-cases, inl, inr, arith,
}
use yamy.Modifier.{Modifier, type_basic, is_pressed, is_dontcare}
use yamy.ModifiedKey.{same_key}
use yamy.Generator.Keys.{
  Keyboard, Output, is_event, generate_key_event, send_key, mark_key, press_assigned, front_pressed,
  press_modifier,
}
use yamy.Generator.Steps.{OnResult, if_cases}
use yamy.Generator.Held.{is_sent}
use yamy.Generator.Basic.{among, IsKey, IsOff, IsOn, event_other, event_self, event_same}

-- No key of the list was generated last.
abbrev pub NoneLast : List ℕ → Output → Type 0
NoneLast keys s = any (λ k. same_key (some k) s.last_generated_key) keys ≡ false

-- Some key of the list is pressed.
abbrev pub SomeOn : List ℕ → Output → Type 0
SomeOn keys s = any s.is_pressed_on_win32 keys ≡ true

-- What is asked of the keys of one modifier.
abbrev pub AsAsked : Bool → Bool → List ℕ → Output → Type 0
AsAsked true pressed keys s = Unit
AsAsked false true keys s = SomeOn keys s
AsAsked false false keys s = All (λ k. IsOff k s) keys

abbrev pub Settled : Keyboard → Modifier → ℕ → Output → Type 0
Settled kb wanted i s = AsAsked (is_dontcare wanted i) (is_pressed wanted i) (kb.mods i) s

-- Modifiers share no key, none of their keys is an event, and each has a key.
pub record AreModifiers (kb : Keyboard) : Type 0 where
  pub are_keys : (t : ℕ) → All (IsKey kb) (kb.mods t)
  pub apart : (i j : ℕ) → i ≢ j → All (λ k. among k (kb.mods j) ≡ false) (kb.mods i)
  pub nonempty : (t : ℕ) → t < type_basic → kb.mods t ≢ []

pub on_result :
    (P : Output → Type 0) (o : Option Output) (t : Output) → o ≡ some t → OnResult P o → P t
on_result P o t e h = subst (OnResult P) e h

pub all_on_result :
    (keys : List ℕ) (o : Option Output) (t : Output)
    → o ≡ some t
    → All (λ k. OnResult (IsOff k) o) keys
    → All (λ k. IsOff k t) keys
all_on_result [] o t e h = tt
all_on_result (k ∷ keys) o t e h = (on_result (IsOff k) o t e h.0, all_on_result keys o t e h.1)

any_here : (b : Bits) (k : ℕ) (keys : List ℕ) → b k ≡ true → any b (k ∷ keys) ≡ true
unfolding any
any_here b k keys h = rw h refl

any_there : (b : Bits) (k : ℕ) (keys : List ℕ) → any b keys ≡ true → any b (k ∷ keys) ≡ true
unfolding any
any_there b k keys h = ground (arith, h)

module _ (kb : Keyboard) where
  pub event-any :
      (j : ℕ) (v a : Bool) (s : Output) (keys : List ℕ)
      → IsKey kb j
      → among j keys ≡ false
      → any (generate_key_event kb j v a s).is_pressed_on_win32 keys
        ≡ any s.is_pressed_on_win32 keys
  unfolding any
  event-any j v a s [] e n = refl
  event-any j v a s (k ∷ keys) e n =
      ap (λ b. b || any (generate_key_event kb j v a s).is_pressed_on_win32 keys)
        (event_other kb j k v a s e (ground (arith, n)))
      ∙ ap (λ b. s.is_pressed_on_win32 k || b) (event-any j v a s keys e (ground (arith, n)))

  press_assigned-IsOn :
      (k : ℕ) (mods : List ℕ) (s : Output)
      → All (IsKey kb) mods
      → IsOn k s
      → IsOn k (press_assigned kb mods s)
  unfolding press_assigned
  press_assigned-IsOn k [] s e h = h
  press_assigned-IsOn k (j ∷ mods) s e h =
      press_assigned-IsOn k mods _ e.1
        (if_cases (IsOn k) (s.is_pressed_by_assign j) _ _ (event_same kb j k true false s e.0 h) h)

  press_assigned-SomeOn :
      (mods : List ℕ) (s : Output)
      → All (IsKey kb) mods
      → any s.is_pressed_by_assign mods ≡ true
      → SomeOn mods (press_assigned kb mods s)
  unfolding press_assigned any
  press_assigned-SomeOn [] s e h = cc
  press_assigned-SomeOn (k ∷ mods) s e h =
      let next : Bool → Output = λ b. (if b then generate_key_event kb k true false s else s) in
      elim (Bool-cases (s.is_pressed_by_assign k)) [
        | inl y ↦ any_here (press_assigned kb (k ∷ mods) s).is_pressed_on_win32 k mods (
            press_assigned-IsOn k mods (next (s.is_pressed_by_assign k)) e.1
              (subst (λ b. IsOn k (next b)) (sym y) (event_self kb k true false s e.0)))
        | inr n ↦ any_there (press_assigned kb (k ∷ mods) s).is_pressed_on_win32 k mods (
            subst (λ b. SomeOn mods (press_assigned kb mods (next b))) (sym n)
              (press_assigned-SomeOn mods s e.1 (ground (arith, h, n))))
      ]

  -- The branch for a modifier to be pressed ends with one of its keys pressed.
  pub press_modifier-SomeOn :
      (mods : List ℕ) (s : Output)
      → All (IsKey kb) mods
      → mods ≢ []
      → (t : Output) × (press_modifier kb mods s ≡ some t) × SomeOn mods t
  unfolding press_modifier front_pressed
  press_modifier-SomeOn [] s e h = absurd (h refl)
  press_modifier-SomeOn (k ∷ mods) s e h =
      elim (Bool-cases (any s.is_pressed_on_win32 (k ∷ mods))) [
        | inl y ↦ (s, rw y refl, y)
        | inr n ↦ elim (Bool-cases (any s.is_pressed_by_assign (k ∷ mods))) [
          | inl y ↦ (
            press_assigned kb (k ∷ mods) s,
            rw (n, y) refl,
            press_assigned-SomeOn (k ∷ mods) s e y,
          )
          | inr m ↦ (
            generate_key_event kb k true false s,
            rw (n, m) refl,
            any_here _ k mods (event_self kb k true false s e.0),
          )
        ]
      ]

  pub event-NoneLast :
      (j : ℕ) (v a : Bool) (s : Output) (keys : List ℕ)
      → among j keys ≡ false
      → NoneLast keys s
      → NoneLast keys (generate_key_event kb j v a s)
  unfolding generate_key_event send_key mark_key any
  event-NoneLast j v a s keys n h = elim (Bool-cases (is_event kb j)) [
    | inl y ↦ rw y h
    | inr e ↦ elim (Bool-cases (is_sent kb j v s)) [
      | inl y ↦ rw (e, y) (last v)
      | inr m ↦ rw (e, m) h
    ]
  ]
    where
      same_among :
          (keys : List ℕ)
          → among j keys ≡ false
          → any (λ k. same_key (some k) (some j)) keys ≡ false
      same_among [] n = refl
      same_among (k ∷ keys) n = ground (arith, n, same_among keys)

      none_among : (keys : List ℕ) → any (λ k. same_key (some k) none) keys ≡ false
      none_among [] = refl
      none_among (k ∷ keys) = none_among keys

      last : (v : Bool) → any (λ k. same_key (some k) (if v then some j else none)) keys ≡ false
      last true = same_among keys n
      last false = none_among keys
