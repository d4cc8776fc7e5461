-- ===== src/Generator/Steps.antt =====
-- What every call of `generateKeyEvent` keeps is kept by the functions that call it in
-- src/core/engine/engine_generator.cpp and engine_input.cpp.
use yamy.Base.{
  ℕ, zero, suc, Bool, true, false, Option, none, some, List, [], ◌∷◌, if◌then◌else◌, any, ◌>>=◌,
  All, Bool-cases, inl, inr,
}
use yamy.Modifier.{Modifier, type_shift, type_control, is_pressed, is_dontcare}
use yamy.Generator.Keys.{
  Keyboard, Output, generate_key_event, press_assigned, front_pressed, press_modifier,
  release_pressed, separator, click_first, avoid_menu, modifier_round, modifier_rounds,
  generate_modifier_events, release_all, keyboard_reset_on_win32,
}

-- The property holds where there is a result.
abbrev pub OnResult : (Output → Type 0) → Option Output → Type 0
OnResult P none = Unit
OnResult P (some s) = P s

pub OnResult->>= :
    (P Q : Output → Type 0) (o : Option Output) (f : Output → Option Output)
    → OnResult P o
    → ((s : Output) → P s → OnResult Q (f s))
    → OnResult Q (o >>= f)
OnResult->>= P Q none f h g = tt
OnResult->>= P Q (some s) f h g = g s h

pub if_cases : (P : Output → Type 0) (b : Bool) (s t : Output) → P s → P t → P (if b then s else t)
if_cases P true s t p q = p
if_cases P false s t p q = q

pub separator_in :
    (kb : Keyboard) (Q : ℕ → Type 0)
    → All Q (kb.mods type_shift)
    → All Q (kb.mods type_control)
    → All Q (separator kb)
unfolding separator
separator_in kb Q shift control = from (kb.mods type_shift) shift
  where
    from :
        (l : List ℕ) → All Q l → All Q (elim l [ [] ↦ kb.mods type_control | k ∷ rest ↦ k ∷ rest ])
    from [] q = control
    from (k ∷ rest) q = q

module _ (kb : Keyboard) (Q : ℕ → Type 0) (P : Output → Type 0)
    (kept : (k : ℕ) (do_press is_by_assign : Bool) (s : Output)
      → Q k
      → P s
      → P (generate_key_event kb k do_press is_by_assign s)) where
  pub press_assigned-kept :
      (mods : List ℕ) (s : Output) → All Q mods → P s → P (press_assigned kb mods s)
  unfolding press_assigned
  press_assigned-kept [] s q p = p
  press_assigned-kept (k ∷ mods) s q p =
      press_assigned-kept mods _ q.1
        (if_cases P (s.is_pressed_by_assign k) _ _ (kept k true false s q.0 p) p)

  pub release_pressed-kept :
      (mods : List ℕ) (s : Output) → All Q mods → P s → P (release_pressed kb mods s)
  unfolding release_pressed
  release_pressed-kept [] s q p = p
  release_pressed-kept (k ∷ mods) s q p =
      release_pressed-kept mods _ q.1
        (if_cases P (s.is_pressed_on_win32 k) _ _ (kept k false false s q.0 p) p)

  pub release_all-kept : (keys : List ℕ) (s : Output) → All Q keys → P s → P (release_all kb keys s)
  unfolding release_all
  release_all-kept [] s q p = p
  release_all-kept (k ∷ keys) s q p =
      release_all-kept keys _ q.1
        (if_cases P (s.is_pressed_on_win32 k) _ _ (kept k false true s q.0 p) p)

  pub click_first-kept : (keys : List ℕ) (s : Output) → All Q keys → P s → P (click_first kb keys s)
  unfolding click_first
  click_first-kept [] s q p = p
  click_first-kept (k ∷ keys) s q p = kept k false false _ q.0 (kept k true false s q.0 p)

  pub press_modifier-kept :
      (mods : List ℕ) (s : Output) → All Q mods → P s → OnResult P (press_modifier kb mods s)
  unfolding press_modifier front_pressed
  press_modifier-kept mods s q p = elim (Bool-cases (any s.is_pressed_on_win32 mods)) [
    | inl y ↦ rw y p
    | inr n ↦ elim (Bool-cases (any s.is_pressed_by_assign mods)) [
      | inl y ↦ rw (n, y) (press_assigned-kept mods s q p)
      | inr m ↦ rw (n, m) (front_kept mods q)
    ]
  ]
    where
      front_kept : (mods : List ℕ) → All Q mods → OnResult P (front_pressed kb mods s)
      front_kept [] q = tt
      front_kept (k ∷ mods) q = kept k true false s q.0 p

  pub avoid_menu-kept : (t : ℕ) (s : Output) → All Q (separator kb) → P s → P (avoid_menu kb t s)
  unfolding avoid_menu
  avoid_menu-kept t s q p = if_cases P _ _ _ (click_first-kept (separator kb) s q p) p

  pub modifier_round-kept :
      (wanted : Modifier) (t : ℕ) (s : Output)
      → All Q (kb.mods t)
      → All Q (separator kb)
      → P s
      → OnResult P (modifier_round kb wanted t s)
  unfolding modifier_round
  modifier_round-kept wanted t s q r p = elim (Bool-cases (is_dontcare wanted t)) [
    | inl y ↦ rw y p
    | inr n ↦ elim (Bool-cases (is_pressed wanted t)) [
      | inl y ↦ rw (n, y) (press_modifier-kept (kb.mods t) s q p)
      | inr m ↦ rw (n, m) (release_pressed-kept (kb.mods t) _ q (avoid_menu-kept t s r p))
    ]
  ]

  module _ (mods_in : (t : ℕ) → All Q (kb.mods t)) where
    pub separator-All : All Q (separator kb)
    separator-All = separator_in kb Q (mods_in type_shift) (mods_in type_control)

    pub modifier_rounds-kept :
        (wanted : Modifier) (n : ℕ) (s : Output) → P s → OnResult P (modifier_rounds kb wanted n s)
    unfolding modifier_rounds
    modifier_rounds-kept wanted zero s p = p
    modifier_rounds-kept wanted (suc n) s p =
        OnResult->>= P P _ _ (modifier_rounds-kept wanted n s p)
          (λ s' p'. modifier_round-kept wanted n s' (mods_in n) separator-All p')

    pub generate_modifier_events-kept :
        (wanted : Modifier) (s : Output) → P s → OnResult P (generate_modifier_events kb wanted s)
    unfolding generate_modifier_events
    generate_modifier_events-kept wanted s p = modifier_rounds-kept wanted _ s p

  pub keyboard_reset_on_win32-kept :
      (s : Output) → All Q kb.all_keys → P s → P (keyboard_reset_on_win32 kb s)
  unfolding keyboard_reset_on_win32
  keyboard_reset_on_win32-kept s q p = release_all-kept kb.all_keys s q p
