-- ===== src/Generator/Reached.antt =====
-- The states that the key events of src/core/engine/engine_generator.cpp lead to.
use yamy.Base.{
  ℕ, ◌≡◌, refl, sym, ap, ◌∙◌, subst, Bool, true, false, none, some, List, [], ◌∷◌, no_bits, set_bit,
  pos, ◌==◌, any, All, Bool-cases, ==_iff, ==_self, inl, inr, arith,
}
use yamy.Modifier.{Modifier}
use yamy.ScanCodes.{ScanCode, same_code}
use yamy.Generator.Keys.{
  Keyboard, Mode, mode_init, Output, inject_codes, next_count, is_event, generate_key_event,
  generate_modifier_events, keyboard_reset_on_win32,
}
use yamy.Generator.Steps.{OnResult, generate_modifier_events-kept, keyboard_reset_on_win32-kept}
use yamy.Generator.Held.{
  count_pressed, occurs, next_count-pos, is_sent, generate_key_event-is_pressed,
  generate_key_event-count, generate_key_event-injected, generate_key_event-event, held, IsPlain,
  held-inject_codes,
}

-- The keyboard has the key once.
abbrev pub Listed : Keyboard → ℕ → Type 0
Listed kb k = occurs k kb.all_keys ≡ 1

abbrev pub has_code : Keyboard → ℕ → ScanCode → Bool
has_code kb k c = any (λ d. same_code d c) (kb.scan_codes k)

-- The count is the number of pressed keys.
abbrev pub Counted : Keyboard → Output → Type 0
Counted kb s =
    s.current_key_press_count_on_win32 ≡ pos (count_pressed s.is_pressed_on_win32 kb.all_keys)

-- The codes of a key are held down by the injected inputs exactly if the key's flag is set.
abbrev pub Agrees : Keyboard → Output → Type 0
Agrees kb s =
    (k : ℕ) (c : ScanCode)
    → is_event kb k ≡ false
    → has_code kb k c ≡ true
    → held s.injected c ≡ s.is_pressed_on_win32 k

-- The state of a new engine.
unfoldable pub output_init : Output
output_init = record {
  is_pressed_on_win32 = no_bits;
  is_pressed_by_assign = no_bits;
  current_key_press_count_on_win32 = pos 0;
  last_generated_key = none;
  injected = [];
  recursion_guard = 0;
  mode = mode_init;
}

-- The states that calls lead to, from that of a new engine; the mode may change in between.
pub data Reached (kb : Keyboard) : Output → Type 0 where
  start : Reached kb output_init
  mode_changed : {s : Output} (mode : Mode) → Reached kb s → Reached kb (record s { mode = mode })
  key_event :
      {s : Output} (k : ℕ) (v a : Bool)
      → Listed kb k
      → Reached kb s
      → Reached kb (generate_key_event kb k v a s)
  modifier_events :
      {s t : Output} (wanted : Modifier)
      → generate_modifier_events kb wanted s ≡ some t
      → Reached kb s
      → Reached kb t
  keyboard_reset : {s : Output} → Reached kb s → Reached kb (keyboard_reset_on_win32 kb s)

count_none : (keys : List ℕ) → count_pressed no_bits keys ≡ 0
count_none [] = refl
count_none (k ∷ keys) = omega (arith, count_none keys)

-- What a keyboard has to satisfy: its keys are listed once, its modifiers are keys of it, no scan code
-- has the flag of a release, and no two keys share a code.
pub record IsSound (kb : Keyboard) : Type 0 where
  pub keys_once : All (Listed kb) kb.all_keys
  pub mods_listed : (t : ℕ) → All (Listed kb) (kb.mods t)
  pub plain : (k : ℕ) → All IsPlain (kb.scan_codes k)
  pub apart : (j k : ℕ) (c : ScanCode) → has_code kb j c ≡ true → has_code kb k c ≡ true → j ≡ k

module _ (kb : Keyboard) (sound : IsSound kb) where
  key_event-Counted :
      (k : ℕ) (v a : Bool) (s : Output)
      → Listed kb k
      → Counted kb s
      → Counted kb (generate_key_event kb k v a s)
  key_event-Counted k v a s once h = elim (Bool-cases (is_event kb k)) [
    | inl y ↦ subst (Counted kb) (sym (generate_key_event-event kb k v a s y)) h
    | inr n ↦
        generate_key_event-count kb k v a s n
        ∙ ap (next_count v (s.is_pressed_on_win32 k)) h
        ∙ next_count-pos s.is_pressed_on_win32 k v kb.all_keys once
        ∙ ap (λ b. pos (count_pressed b kb.all_keys))
            (sym (generate_key_event-is_pressed kb k v a s n))
  ]

  sent_agrees :
      (k : ℕ) (v : Bool) (s : Output) (j : ℕ) (c : ScanCode)
      → has_code kb j c ≡ true
      → held s.injected c ≡ s.is_pressed_on_win32 j
      → held (inject_codes v (kb.scan_codes k) s.injected) c ≡ set_bit s.is_pressed_on_win32 k v j
  sent_agrees k v s j c h g =
      held-inject_codes v (kb.scan_codes k) s.injected c (sound.plain k)
      ∙ elim (Bool-cases (has_code kb k c)) [
        | inl y ↦ rw (y, sound.apart k j c y h, ==_self j) refl
        | inr n ↦ elim (Bool-cases (k == j)) [
          | inl e ↦
              let q : has_code kb j c ≡ false =
                subst (λ i. has_code kb i c ≡ false) ((==_iff k j).0 e) n in
              cc
          | inr d ↦ rw (n, d) g
        ]
      ]

  unsent_agrees :
      (k : ℕ) (v : Bool) (s : Output) (j : ℕ)
      → is_sent kb k v s ≡ false
      → s.is_pressed_on_win32 j ≡ set_bit s.is_pressed_on_win32 k v j
  unsent_agrees k v s j n = elim (Bool-cases (k == j)) [
    | inl e ↦ let q = ap s.is_pressed_on_win32 ((==_iff k j).0 e) in ground (arith, q, n, e)
    | inr d ↦ rw d refl
  ]

  key_event-Agrees :
      (k : ℕ) (v a : Bool) (s : Output) → Agrees kb s → Agrees kb (generate_key_event kb k v a s)
  key_event-Agrees k v a s h = elim (Bool-cases (is_event kb k)) [
    | inl y ↦ subst (Agrees kb) (sym (generate_key_event-event kb k v a s y)) h
    | inr n ↦ λ j c event code.
        ap (λ l. held l c) (generate_key_event-injected kb k v a s n)
        ∙ elim (Bool-cases (is_sent kb k v s)) [
          | inl y ↦ rw y (sent_agrees k v s j c code (h j c event code))
          | inr m ↦ rw m (h j c event code ∙ unsent_agrees k v s j m)
        ]
        ∙ sym (ap (λ b. b j) (generate_key_event-is_pressed kb k v a s n))
  ]

  abbrev Kept : Output → Type 0
  Kept s = Counted kb s × Agrees kb s

  key_event-Kept :
      (k : ℕ) (v a : Bool) (s : Output)
      → Listed kb k
      → Kept s
      → Kept (generate_key_event kb k v a s)
  key_event-Kept k v a s once h = (key_event-Counted k v a s once h.0, key_event-Agrees k v a s h.1)

  -- For a keyboard whose keys are listed once and share no scan code, whose modifiers are keys of it and
  -- whose scan codes do not have the flag of a release: in every state that calls of
  -- `generateKeyEvent` with keys of the keyboard, `generateModifierEvents` and `keyboardResetOnWin32`
  -- lead to from a new engine, whatever becomes of the mode in between, the count of pressed keys is the number of keys with the flag
  -- `m_isPressedOnWin32`, and a scan code of a key is held down, as far as the injected inputs tell,
  -- exactly if that flag of the key is set.
  pub Reached-kept : (s : Output) → Reached kb s → Counted kb s × Agrees kb s
  unfolding output_init
  Reached-kept s start = (ap pos (sym (count_none kb.all_keys)), λ k c event code. refl)
  Reached-kept s (key_event {s = s'} k v a once r) =
      key_event-Kept k v a s' once (Reached-kept s' r)
  Reached-kept s (mode_changed {s = s'} mode r) = Reached-kept s' r
  Reached-kept s (modifier_events {s = s'} wanted e r) = subst (OnResult Kept) e (
      generate_modifier_events-kept kb (Listed kb) Kept key_event-Kept sound.mods_listed wanted s'
        (Reached-kept s' r))
  Reached-kept s (keyboard_reset {s = s'} r) =
      keyboard_reset_on_win32-kept kb (Listed kb) Kept key_event-Kept s' sound.keys_once
        (Reached-kept s' r)
