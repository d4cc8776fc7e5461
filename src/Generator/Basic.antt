-- ===== src/Generator/Basic.antt =====
-- What `generateModifierEvents` of src/core/engine/engine_generator.cpp makes of the basic modifiers.
use yamy.Base.{
  ℕ, ◌≡◌, refl, ap, ◌∙◌, subst, Bool, true, false, ◌&&◌, ◌||◌, some, List, [], ◌∷◌, ◌==◌,
  if◌then◌else◌, any, All, Bool-cases, ==_iff, ==_self, inl, inr, arith,
}
use yamy.Modifier.{Modifier, type_alt, type_windows, is_pressed, is_dontcare}
use yamy.ModifiedKey.{same_key}
use yamy.Generator.Keys.{
  Keyboard, Output, is_event, generate_key_event, release_pressed, separator, click_first,
  avoid_menu, modifier_round,
}
use yamy.Generator.Steps.{OnResult, if_cases, press_modifier-kept, separator-All}
use yamy.Generator.Held.{generate_key_event-is_pressed}

-- Is it a key of the list?
abbrev pub among : ℕ → List ℕ → Bool
among k keys = any (λ j. j == k) keys

abbrev pub IsKey : Keyboard → ℕ → Type 0
IsKey kb k = is_event kb k ≡ false

abbrev pub IsOff : ℕ → Output → Type 0
IsOff k s = s.is_pressed_on_win32 k ≡ false

abbrev pub IsOn : ℕ → Output → Type 0
IsOn k s = s.is_pressed_on_win32 k ≡ true

module _ (kb : Keyboard) where
  pub event_other :
      (j k : ℕ) (v a : Bool) (s : Output)
      → IsKey kb j
      → (j == k) ≡ false
      → (generate_key_event kb j v a s).is_pressed_on_win32 k ≡ s.is_pressed_on_win32 k
  event_other j k v a s e n = ap (λ b. b k) (generate_key_event-is_pressed kb j v a s e) ∙ rw n refl

  pub event_self :
      (k : ℕ) (v a : Bool) (s : Output)
      → IsKey kb k
      → (generate_key_event kb k v a s).is_pressed_on_win32 k ≡ v
  event_self k v a s e =
      ap (λ b. b k) (generate_key_event-is_pressed kb k v a s e) ∙ rw (==_self k) refl

  -- A press leaves no key off that was on, and a release none on that was off.
  pub event_same :
      (j k : ℕ) (v a : Bool) (s : Output)
      → IsKey kb j
      → s.is_pressed_on_win32 k ≡ v
      → (generate_key_event kb j v a s).is_pressed_on_win32 k ≡ v
  event_same j k v a s e h = elim (Bool-cases (j == k)) [
    | inl y ↦
        subst (λ i. (generate_key_event kb j v a s).is_pressed_on_win32 i ≡ v) ((==_iff j k).0 y)
          (event_self j v a s e)
    | inr n ↦ event_other j k v a s e n ∙ h
  ]

  pub release_pressed-IsOff :
      (k : ℕ) (mods : List ℕ) (s : Output)
      → All (IsKey kb) mods
      → IsOff k s
      → IsOff k (release_pressed kb mods s)
  unfolding release_pressed
  release_pressed-IsOff k [] s e h = h
  release_pressed-IsOff k (j ∷ mods) s e h =
      release_pressed-IsOff k mods _ e.1
        (if_cases (IsOff k) (s.is_pressed_on_win32 j) _ _ (event_same j k false false s e.0 h) h)

  released :
      (k : ℕ) (s : Output)
      → IsKey kb k
      → IsOff k (if s.is_pressed_on_win32 k then generate_key_event kb k false false s else s)
  released k s e = elim (Bool-cases (s.is_pressed_on_win32 k)) [
    | inl y ↦ rw y (event_self k false false s e)
    | inr n ↦ rw n n
  ]

  pub release_pressed-AllOff :
      (mods : List ℕ) (s : Output)
      → All (IsKey kb) mods
      → All (λ k. IsOff k (release_pressed kb mods s)) mods
  unfolding release_pressed
  release_pressed-AllOff [] s e = tt
  release_pressed-AllOff (j ∷ mods) s e =
      (release_pressed-IsOff j mods _ e.1 (released j s e.0), release_pressed-AllOff mods _ e.1)

  click_first-IsOff :
      (k : ℕ) (keys : List ℕ) (s : Output)
      → All (IsKey kb) keys
      → IsOff k s
      → IsOff k (click_first kb keys s)
  unfolding click_first
  click_first-IsOff k [] s e h = h
  click_first-IsOff k (j ∷ keys) s e h = elim (Bool-cases (j == k)) [
    | inl y ↦
        subst (λ i. IsOff i (click_first kb (j ∷ keys) s)) ((==_iff j k).0 y)
          (event_self j false false _ e.0)
    | inr n ↦ event_other j k false false _ e.0 n ∙ event_other j k true false s e.0 n ∙ h
  ]

  avoid_menu-IsOff :
      (k t : ℕ) (s : Output)
      → All (IsKey kb) (separator kb)
      → IsOff k s
      → IsOff k (avoid_menu kb t s)
  unfolding avoid_menu
  avoid_menu-IsOff k t s e h =
      elim (Bool-cases (
        (t == type_alt || t == type_windows)
        && any (λ j. same_key (some j) s.last_generated_key) (kb.mods t))) [
          | inl y ↦ rw y (click_first-IsOff k (separator kb) s e h)
          | inr n ↦ rw n h
        ]

  -- Keys of a list that another key is not among.
  pub not_among :
      (k : ℕ) (keys : List ℕ)
      → among k keys ≡ false
      → All (IsKey kb) keys
      → All (λ j. IsKey kb j × ((j == k) ≡ false)) keys
  unfolding any
  not_among k [] n e = tt
  not_among k (j ∷ keys) n e = ((e.0, ground (arith, n)), not_among k keys (ground (arith, n)) e.1)

  module _ (keys : (t : ℕ) → All (IsKey kb) (kb.mods t)) where
    separator-IsKey : All (IsKey kb) (separator kb)
    separator-IsKey = separator-All kb (IsKey kb) (λ s. Unit) (λ k v a s q p. tt) keys

    -- The round of a modifier leaves every other key off.
    pub modifier_round-IsOff :
        (wanted : Modifier) (t k : ℕ) (s : Output)
        → among k (kb.mods t) ≡ false
        → IsOff k s
        → OnResult (IsOff k) (modifier_round kb wanted t s)
    unfolding modifier_round
    modifier_round-IsOff wanted t k s n h = elim (Bool-cases (is_dontcare wanted t)) [
      | inl y ↦ rw y h
      | inr d ↦ elim (Bool-cases (is_pressed wanted t)) [
        | inl y ↦
            rw (d, y)
              (press_modifier-kept kb (λ j. IsKey kb j × ((j == k) ≡ false)) (IsOff k)
                (λ j v a s' q p. event_other j k v a s' q.0 q.1 ∙ p) (kb.mods t) s
                (not_among k (kb.mods t) n (keys t)) h)
        | inr r ↦
            rw (d, r)
              (release_pressed-IsOff k (kb.mods t) _ (keys t)
                (avoid_menu-IsOff k t s separator-IsKey h))
      ]
    ]
