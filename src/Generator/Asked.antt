-- ===== src/Generator/Asked.antt =====
-- The rounds of `generateModifierEvents` of src/core/engine/engine_generator.cpp, one after the other.
use yamy.Base.{
  ℕ, ◌<◌, ◌≡◌, refl, sym, ◌∙◌, subst, ◌≢◌, Bool, true, false, some, List, [], ◌∷◌, ◌==◌, All,
  Bool-cases, ==_iff, inl, inr,
}
use yamy.Modifier.{
  Modifier, type_shift, type_alt, type_control, type_windows, type_basic, is_pressed, is_dontcare,
}
use yamy.Generator.Keys.{
  Keyboard, Output, generate_key_event, release_pressed, avoid_menu, modifier_round,
}
use yamy.Generator.Steps.{
  OnResult, press_modifier-kept, release_pressed-kept, modifier_round-kept, separator_in,
}
use yamy.Generator.Basic.{among, IsKey, IsOff, release_pressed-AllOff, modifier_round-IsOff}
use yamy.Generator.Wanted.{
  NoneLast, SomeOn, AsAsked, Settled, AreModifiers, on_result, all_on_result, event-any,
  press_modifier-SomeOn, event-NoneLast,
}

zip_all : (P Q : ℕ → Type 0) (keys : List ℕ) → All P keys → All Q keys → All (λ k. P k × Q k) keys
zip_all P Q [] p q = tt
zip_all P Q (k ∷ keys) p q = ((p.0, q.0), zip_all P Q keys p.1 q.1)

module _ (kb : Keyboard) (mods_sound : AreModifiers kb) (wanted : Modifier) where
  apart_all : (n i : ℕ) → n ≢ i → All (λ k. IsKey kb k × (among k (kb.mods i) ≡ false)) (kb.mods n)
  apart_all n i h = zip_all _ _ (kb.mods n) (mods_sound.are_keys n) (mods_sound.apart n i h)

  -- A round gives a result, in which its modifier is as asked.
  pub round_settles :
      (n : ℕ) (s : Output)
      → n < type_basic
      → (t : Output) × (modifier_round kb wanted n s ≡ some t) × Settled kb wanted n t
  unfolding modifier_round
  round_settles n s lt = elim (Bool-cases (is_dontcare wanted n)) [
    | inl y ↦ (s, rw y refl, rw y tt)
    | inr d ↦ elim (Bool-cases (is_pressed wanted n)) [
      | inl y ↦
          let (t, e, on) =
            press_modifier-SomeOn kb (kb.mods n) s (mods_sound.are_keys n)
              (mods_sound.nonempty n lt) in
          (t, rw (d, y) e, rw (d, y) on)
      | inr r ↦ (
        release_pressed kb (kb.mods n) (avoid_menu kb n s),
        rw (d, r) refl,
        rw (d, r)
            (release_pressed-AllOff kb (kb.mods n) (avoid_menu kb n s) (mods_sound.are_keys n)),
      )
    ]
  ]

  kept :
      (i j : ℕ) (v a : Bool) (s : Output)
      → IsKey kb j × (among j (kb.mods i) ≡ false)
      → SomeOn (kb.mods i) s
      → SomeOn (kb.mods i) (generate_key_event kb j v a s)
  kept i j v a s q p = event-any kb j v a s (kb.mods i) q.0 q.1 ∙ p

  -- Another round that clicks no other key leaves a key of the modifier pressed.
  round-SomeOn :
      (n i : ℕ) (s : Output)
      → n ≢ i
      → avoid_menu kb n s ≡ s
      → SomeOn (kb.mods i) s
      → OnResult (SomeOn (kb.mods i)) (modifier_round kb wanted n s)
  unfolding modifier_round
  round-SomeOn n i s ne quiet h = elim (Bool-cases (is_dontcare wanted n)) [
    | inl y ↦ rw y h
    | inr d ↦ elim (Bool-cases (is_pressed wanted n)) [
      | inl y ↦
          rw (d, y)
            (press_modifier-kept kb (λ k. IsKey kb k × (among k (kb.mods i) ≡ false))
              (SomeOn (kb.mods i)) (kept i) (kb.mods n) s (apart_all n i ne) h)
      | inr r ↦
          rw (d, r, quiet)
            (release_pressed-kept kb (λ k. IsKey kb k × (among k (kb.mods i) ≡ false))
              (SomeOn (kb.mods i)) (kept i) (kb.mods n) s (apart_all n i ne) h)
    ]
  ]

  pub round-NoneLast :
      (n i : ℕ) (s : Output)
      → n ≢ i
      → type_shift ≢ i
      → type_control ≢ i
      → NoneLast (kb.mods i) s
      → OnResult (NoneLast (kb.mods i)) (modifier_round kb wanted n s)
  round-NoneLast n i s ne shift control h =
      modifier_round-kept kb (λ k. among k (kb.mods i) ≡ false) (NoneLast (kb.mods i))
        (λ j v a s' q p. event-NoneLast kb j v a s' (kb.mods i) q p) wanted n s
        (mods_sound.apart n i ne)
        (separator_in kb _ (mods_sound.apart type_shift i shift)
          (mods_sound.apart type_control i control))
        h

  -- No click where no key of the modifier was generated last.
  pub quiet_round :
      (n : ℕ) (s : Output)
      → (n ≡ type_alt → NoneLast (kb.mods type_alt) s)
      → (n ≡ type_windows → NoneLast (kb.mods type_windows) s)
      → avoid_menu kb n s ≡ s
  unfolding avoid_menu
  quiet_round n s alt windows = elim (Bool-cases (n == type_alt)) [
    | inl y ↦
        let e = (==_iff n type_alt).0 y in
        rw (y, subst (λ i. NoneLast (kb.mods i) s) (sym e) (alt e)) refl
    | inr a ↦ elim (Bool-cases (n == type_windows)) [
      | inl y ↦
          let e = (==_iff n type_windows).0 y in
          rw (a, y, subst (λ i. NoneLast (kb.mods i) s) (sym e) (windows e)) refl
      | inr w ↦ rw (a, w) refl
    ]
  ]

  -- Another round leaves a modifier as asked.
  pub round-Settled :
      (n i : ℕ) (s t : Output)
      → n ≢ i
      → avoid_menu kb n s ≡ s
      → modifier_round kb wanted n s ≡ some t
      → Settled kb wanted i s
      → Settled kb wanted i t
  round-Settled n i s t ne quiet e = from (is_dontcare wanted i) (is_pressed wanted i)
    where
      off :
          (keys : List ℕ)
          → All (λ k. among k (kb.mods n) ≡ false) keys
          → All (λ k. IsOff k s) keys
          → All (λ k. OnResult (IsOff k) (modifier_round kb wanted n s)) keys
      off [] a h = tt
      off (k ∷ keys) a h =
          (modifier_round-IsOff kb mods_sound.are_keys wanted n k s a.0 h.0, off keys a.1 h.1)

      from : (d p : Bool) → AsAsked d p (kb.mods i) s → AsAsked d p (kb.mods i) t
      from true p h = tt
      from false true h =
          on_result (SomeOn (kb.mods i)) (modifier_round kb wanted n s) t e
            (round-SomeOn n i s ne quiet h)
      from false false h =
          all_on_result (kb.mods i) (modifier_round kb wanted n s) t e
            (off (kb.mods i) (mods_sound.apart i n (λ q. ne (sym q))) h)
