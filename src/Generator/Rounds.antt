-- ===== src/Generator/Rounds.antt =====
-- `generateModifierEvents` of src/core/engine/engine_generator.cpp as a whole.
use yamy.Base.{
  ℕ, zero, suc, ◌<◌, ◌≤◌, ◌≡◌, refl, sym, ap, subst, ◌≢◌, true, false, some, [], ◌∷◌, ◌==◌, any,
  All, Bool-cases, ==_iff, inl, inr, arith,
}
use yamy.Modifier.{
  Modifier, type_shift, type_alt, type_control, type_windows, type_basic, is_pressed, is_dontcare,
}
use yamy.ModifiedKey.{same_key}
use yamy.Generator.Keys.{
  Keyboard, Output, generate_key_event, press_modifier, release_pressed, separator, click_first,
  avoid_menu, modifier_round, modifier_rounds, generate_modifier_events,
}
use yamy.Generator.Basic.{
  among, IsKey, IsOff, event_self, release_pressed-IsOff, modifier_round-IsOff,
}
use yamy.Generator.Wanted.{NoneLast, SomeOn, Settled, AreModifiers, on_result}
use yamy.Generator.Asked.{round_settles, round-NoneLast, quiet_round, round-Settled}

module _ (kb : Keyboard) (mods_sound : AreModifiers kb) (wanted : Modifier) where
  -- Before round n.
  record Stage (n : ℕ) (s : Output) : Type 0 where
    alt : n ≤ type_alt → NoneLast (kb.mods type_alt) s
    windows : n ≤ type_windows → NoneLast (kb.mods type_windows) s
    settled : (i : ℕ) → i < n → Settled kb wanted i s

  next-Stage :
      (n : ℕ) (s : Output)
      → n < type_basic
      → Stage n s
      → (t : Output) × (modifier_round kb wanted n s ≡ some t) × Stage (suc n) t
  next-Stage n s lt st =
      let (t, e, own) = round_settles kb mods_sound wanted n s lt in
      let quiet =
        quiet_round kb mods_sound wanted n s (λ q. st.alt (omega (arith, q)))
          (λ q. st.windows (omega (arith, q))) in
      (
        t,
        e,
        record {
          alt = λ le. on_result (NoneLast (kb.mods type_alt)) (modifier_round kb wanted n s) t e (
              round-NoneLast kb mods_sound wanted n type_alt s (λ q. omega (arith, q, le))
                (λ q. omega (arith, q)) (λ q. omega (arith, q)) (st.alt (omega (arith, le))));
          windows = λ le.
              on_result (NoneLast (kb.mods type_windows)) (modifier_round kb wanted n s) t e (
                round-NoneLast kb mods_sound wanted n type_windows s (λ q. omega (arith, q, le))
                  (λ q. omega (arith, q)) (λ q. omega (arith, q)) (st.windows (omega (arith, le))));
          settled = λ i below. elim (Bool-cases (i == n)) [
            | inl y ↦ subst (λ j. Settled kb wanted j t) (sym ((==_iff i n).0 y)) own
            | inr d ↦
                round-Settled kb mods_sound wanted n i s t (λ q. ground (arith, q, d)) quiet e
                  (st.settled i (ground (arith, d, below)))
          ];
        },
      )

  stages :
      (n : ℕ) (s : Output)
      → n ≤ type_basic
      → Stage 0 s
      → (t : Output) × (modifier_rounds kb wanted n s ≡ some t) × Stage n t
  unfolding modifier_rounds
  stages zero s le st = (s, refl, st)
  stages (suc n) s le st =
      let (u, e, before) = stages n s (omega arith) st in
      let (t, f, after) = next-Stage n u (omega arith) before in (t, rw e f, after)

  -- If the modifiers of the keyboard have keys and share none, and no key of Alt or Windows was
  -- generated last, then `generateModifierEvents` gives a result, in which for each of the four basic
  -- modifiers that is cared for some key is pressed if it is asked for, and else none.
  pub generate_modifier_events_lem :
      (s : Output)
      → NoneLast (kb.mods type_alt) s
      → NoneLast (kb.mods type_windows) s
      → (t : Output) × (generate_modifier_events kb wanted s ≡ some t)
        × Settled kb wanted type_shift t
        × Settled kb wanted type_alt t
        × Settled kb wanted type_control t
        × Settled kb wanted type_windows t
  unfolding generate_modifier_events
  generate_modifier_events_lem s alt windows =
      let (t, e, st) = stages type_basic s (omega arith) (record {
        alt = λ le. alt;
        windows = λ le. windows;
        settled = λ i lt. absurd (omega (arith, lt));
      }) in
      (
        t,
        e,
        st.settled 0 (omega arith),
        st.settled 1 (omega arith),
        st.settled 2 (omega arith),
        st.settled 3 (omega arith),
      )

  -- A round gives a result and leaves a key off that is not of its modifier.
  round_off :
      (n k : ℕ) (s : Output)
      → n < type_basic
      → among k (kb.mods n) ≡ false
      → IsOff k s
      → (t : Output) × (modifier_round kb wanted n s ≡ some t) × IsOff k t
  round_off n k s lt out h =
      let (t, e, own) = round_settles kb mods_sound wanted n s lt in
      (
        t,
        e,
        on_result (IsOff k) (modifier_round kb wanted n s) t e
            (modifier_round-IsOff kb mods_sound.are_keys wanted n k s out h),
      )

  shift_first :
      (s : Output)
      → is_dontcare wanted type_shift ≡ false
      → is_pressed wanted type_shift ≡ true
      → SomeOn (kb.mods type_shift) s
      → modifier_round kb wanted type_shift s ≡ some s
  unfolding modifier_round press_modifier
  shift_first s care asked on = rw (care, asked, on) refl

  separator_one : (k : ℕ) → kb.mods type_shift ≡ k ∷ [] → separator kb ≡ k ∷ []
  unfolding separator
  separator_one k keys = ap (λ l. elim l [ [] ↦ kb.mods type_control | j ∷ rest ↦ j ∷ rest ]) keys

  menu_click :
      (k : ℕ) (s : Output)
      → kb.mods type_shift ≡ k ∷ []
      → is_dontcare wanted type_alt ≡ false
      → is_pressed wanted type_alt ≡ false
      → any (λ a. same_key (some a) s.last_generated_key) (kb.mods type_alt) ≡ true
      → (t : Output) × (modifier_round kb wanted type_alt s ≡ some t) × IsOff k t
  unfolding modifier_round avoid_menu click_first
  menu_click k s keys care unasked last =
      let is_key = subst (All (IsKey kb)) keys (mods_sound.are_keys type_shift) in
      let clicked = generate_key_event kb k false false (generate_key_event kb k true false s) in
      (
        release_pressed kb (kb.mods type_alt) clicked,
        rw (care, unasked, last, separator_one k keys) refl,
        release_pressed-IsOff kb k (kb.mods type_alt) clicked (mods_sound.are_keys type_alt)
            (event_self kb k false false (generate_key_event kb k true false s) is_key.0),
      )

  -- If Shift has one key and it is pressed, a key of Alt was generated last, and Shift is asked for
  -- and Alt is not, then the events leave the key of Shift released.
  pub shift_lost :
      (k : ℕ) (s : Output)
      → kb.mods type_shift ≡ k ∷ []
      → SomeOn (kb.mods type_shift) s
      → any (λ a. same_key (some a) s.last_generated_key) (kb.mods type_alt) ≡ true
      → is_dontcare wanted type_shift ≡ false
      → is_pressed wanted type_shift ≡ true
      → is_dontcare wanted type_alt ≡ false
      → is_pressed wanted type_alt ≡ false
      → (t : Output) × (generate_modifier_events kb wanted s ≡ some t) × IsOff k t
  unfolding generate_modifier_events modifier_rounds
  shift_lost k s keys on last care_shift asked care_alt unasked =
      let out = λ (j : ℕ) (ne : type_shift ≢ j).
        (subst (All (λ i. among i (kb.mods j) ≡ false)) keys
          (mods_sound.apart type_shift j ne)).0 in
      let (s1, e1, off1) = menu_click k s keys care_alt unasked last in
      let (s2, e2, off2) =
        round_off type_control k s1 (omega arith) (out type_control (λ q. omega (arith, q))) off1 in
      let (s3, e3, off3) =
        round_off type_windows k s2 (omega arith) (out type_windows (λ q. omega (arith, q))) off2 in
      (s3, rw (shift_first s care_shift asked on, e1, e2) e3, off3)
