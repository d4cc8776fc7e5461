-- ===== src/Generator/Held.antt =====
-- The flags that src/core/engine/engine_generator.cpp keeps of the keys, against the inputs that were
-- injected and against the number of pressed keys.
use yamy.Base.{
  ℕ, zero, suc, ◌+◌, ◌≡◌, refl, ap, ◌∙◌, subst, Bool, true, false, not, ◌&&◌, ◌||◌, List, [], ◌∷◌,
  Bits, set_bit, pos, inc, dec, ◌==◌, if◌then◌else◌, any, All, Bool-cases, ==_iff, beq, inl, inr,
  arith,
}
use yamy.ModifierState.{KeyboardInputData}
use yamy.ScanCodes.{ScanCode, same_code}
use yamy.Generator.Keys.{
  Keyboard, Output, to_input, inject_codes, next_count, send_key, mark_key, is_event,
  generate_key_event,
}

-- How many keys of the list are pressed, and how often a key stands in it.
abbrev pub count_pressed : Bits → List ℕ → ℕ
count_pressed b [] = 0
count_pressed b (k ∷ keys) = (if b k then 1 else 0) + count_pressed b keys

abbrev pub occurs : ℕ → List ℕ → ℕ
occurs k [] = 0
occurs k (j ∷ keys) = (if k == j then 1 else 0) + occurs k keys

count-set_bit :
    (b : Bits) (k : ℕ) (v : Bool) (keys : List ℕ)
    → count_pressed (set_bit b k v) keys + (if b k then occurs k keys else 0)
      ≡ count_pressed b keys + (if v then occurs k keys else 0)
count-set_bit b k v [] = ground arith
count-set_bit b k v (j ∷ keys) = elim (Bool-cases (k == j)) [
  | inl y ↦ let e : k ≡ j = (==_iff k j).0 y in ground (arith, e, ap b e, count-set_bit b k v keys)
  | inr n ↦ ground (arith, n, count-set_bit b k v keys)
]

-- The count after a key that the keyboard has once.
pub next_count-pos :
    (b : Bits) (k : ℕ) (v : Bool) (keys : List ℕ)
    → occurs k keys ≡ 1
    → next_count v (b k) (pos (count_pressed b keys)) ≡ pos (count_pressed (set_bit b k v) keys)
unfolding next_count inc dec
next_count-pos b k v keys once =
    from (b k) v (count_pressed b keys) (count_pressed (set_bit b k v) keys) (
      subst
        (λ o.
          count_pressed (set_bit b k v) keys + (if b k then o else 0)
          ≡ count_pressed b keys + (if v then o else 0))
        once (count-set_bit b k v keys))
  where
    from :
        (was v : Bool) (m n : ℕ)
        → n + (if was then 1 else 0) ≡ m + (if v then 1 else 0)
        → next_count v was (pos m) ≡ pos n
    from true true m n h = ap pos (omega (arith, h))
    from false false m n h = ap pos (omega (arith, h))
    from false true m n h = ap pos (omega (arith, h))
    from true false zero n h = absurd (omega (arith, h))
    from true false (suc m) n h = ap pos (omega (arith, h))

-- What one call does to the flags, the count and the injected inputs.
abbrev pub is_sent : Keyboard → ℕ → Bool → Output → Bool
is_sent kb k v s = not (not v && not (s.is_pressed_on_win32 k)) || k == kb.sync_key

pub generate_key_event-is_pressed :
    (kb : Keyboard) (k : ℕ) (v a : Bool) (s : Output)
    → is_event kb k ≡ false
    → (generate_key_event kb k v a s).is_pressed_on_win32 ≡ set_bit s.is_pressed_on_win32 k v
unfolding generate_key_event send_key mark_key
generate_key_event-is_pressed kb k v a s e = elim (Bool-cases (is_sent kb k v s)) [
  | inl y ↦ rw (e, y) refl
  | inr n ↦ rw (e, n) refl
]

pub generate_key_event-count :
    (kb : Keyboard) (k : ℕ) (v a : Bool) (s : Output)
    → is_event kb k ≡ false
    → (generate_key_event kb k v a s).current_key_press_count_on_win32
      ≡ next_count v (s.is_pressed_on_win32 k) s.current_key_press_count_on_win32
unfolding generate_key_event send_key mark_key
generate_key_event-count kb k v a s e = elim (Bool-cases (is_sent kb k v s)) [
  | inl y ↦ rw (e, y) refl
  | inr n ↦ rw (e, n) refl
]

pub generate_key_event-injected :
    (kb : Keyboard) (k : ℕ) (v a : Bool) (s : Output)
    → is_event kb k ≡ false
    → (generate_key_event kb k v a s).injected
      ≡ (if is_sent kb k v s then inject_codes v (kb.scan_codes k) s.injected else s.injected)
unfolding generate_key_event send_key mark_key
generate_key_event-injected kb k v a s e = elim (Bool-cases (is_sent kb k v s)) [
  | inl y ↦ rw (e, y) refl
  | inr n ↦ rw (e, n) refl
]

pub generate_key_event-event :
    (kb : Keyboard) (k : ℕ) (v a : Bool) (s : Output)
    → is_event kb k ≡ true
    → generate_key_event kb k v a s ≡ s
unfolding generate_key_event
generate_key_event-event kb k v a s e = rw e refl

-- Is a scan code held down, by the inputs alone? The last input with its code tells.
abbrev is_input_of : KeyboardInputData → ScanCode → Bool
is_input_of i c =
    i.make_code == c.scan && (beq (i.flags 1) (c.flags 1) && beq (i.flags 2) (c.flags 2))

abbrev pub held : List KeyboardInputData → ScanCode → Bool
held [] c = false
held (i ∷ sent) c = let before = held sent c in if is_input_of i c then not (i.flags 0) else before

-- A scan code of the keyboard does not have the flag `BREAK`.
abbrev pub IsPlain : ScanCode → Type 0
IsPlain c = c.flags 0 ≡ false

to_input-same : (v : Bool) (d c : ScanCode) → is_input_of (to_input v d) c ≡ same_code d c
unfolding to_input same_code
to_input-same true d c = refl
to_input-same false d c = refl

to_input-break : (v : Bool) (d : ScanCode) → IsPlain d → not ((to_input v d).flags 0) ≡ v
unfolding to_input
to_input-break true d p = rw p refl
to_input-break false d p = refl

pub held-inject_codes :
    (v : Bool) (codes : List ScanCode) (sent : List KeyboardInputData) (c : ScanCode)
    → All IsPlain codes
    → held (inject_codes v codes sent) c
      ≡ (if any (λ d. same_code d c) codes then v else held sent c)
unfolding inject_codes any
held-inject_codes v [] sent c p = refl
held-inject_codes v (d ∷ codes) sent c p =
    held-inject_codes v codes (to_input v d ∷ sent) c p.1
    ∙ step (same_code d c) (to_input-same v d c)
  where
    step :
        (b : Bool)
        → is_input_of (to_input v d) c ≡ b
        → (if any (λ e. same_code e c) codes then v else held (to_input v d ∷ sent) c)
          ≡ (if b || any (λ e. same_code e c) codes then v else held sent c)
    step true e = rw (e, to_input-break v d p.0) (ground arith)
    step false e = rw e refl
