-- ===== src/Generator/Commands.antt =====
-- The commands Prefix, KeymapPrevPrefix and Repeat of src/core/commands return with the guard as it was,
-- if the key sequences that they run do.
use yamy.Base.{ℕ, zero, suc, ℤ, ◌≡◌, refl, Bool, true, false, none, some, arith}
use yamy.ModifiedKey.{ModifiedKey}
use yamy.Generator.Keys.{Output}
use yamy.Generator.Modes.{set_current_keymap, begin_prefix, repeat_end}
use yamy.Generator.Returns.{Returns, Returns->>=}
use yamy.Generator.Actions.{
  Outcome, done, Setting, Current, Part, part_all, part_up, part_down, search_in_keymap,
  event_events, exec_prev_prefix, exec_prefix, repeat_seq, repeat_up_to, exec_repeat,
}

module _ (setting : Setting) (exec : ℕ → Bool → Current → Output → Output)
    (keyboard_events : Current → Output → Outcome Output)
    (seq : Current → ℕ → Part → Output → Outcome Output) where
  pub prefix-Returns :
      (m : ℕ) (i p : Bool) (c : Current) (s : Output)
      → ((mk : ModifiedKey)
          → mk.key ≡ some setting.prefixed
          → search_in_keymap setting m mk ≡ done none)
      → Returns s.recursion_guard (exec_prefix setting exec keyboard_events seq m i p c s)
  unfolding exec_prefix event_events begin_prefix set_current_keymap
  prefix-Returns m i false c s b = (s, refl, refl)
  prefix-Returns m i true c s b = (
    begin_prefix i (set_current_keymap m true s),
    rw (b (record c.mkey { key = some setting.prefixed }) refl) refl,
    refl,
  )

  pub prev_prefix-Returns :
      (n : ℕ) (c : Current) (s : Output)
      → n ≡ 0
      → Returns s.recursion_guard (exec_prev_prefix setting exec keyboard_events seq n c s)
  unfolding exec_prev_prefix
  prev_prefix-Returns zero c s e = (s, refl, refl)
  prev_prefix-Returns (suc n) c s e = absurd (omega (arith, e))

  module _ (c : Current) (q g : ℕ)
      (returns : (part : Part) (s : Output)
        → s.recursion_guard ≡ g
        → Returns g (seq c q part s)) where
    repeat_seq-Returns :
        (times : ℕ) (s : Output)
        → s.recursion_guard ≡ g
        → Returns g (repeat_seq setting exec keyboard_events seq c q times s)
    unfolding repeat_seq
    repeat_seq-Returns zero s e = returns part_down s e
    repeat_seq-Returns (suc times) s e =
        Returns->>= g _ _ (returns part_all s e) (λ t kept. repeat_seq-Returns times t kept)

    up_to-Returns :
        (times : ℕ) (s : Output)
        → s.recursion_guard ≡ g
        → Returns g (repeat_up_to setting exec keyboard_events seq c q times s)
    unfolding repeat_up_to
    up_to-Returns zero s e = (s, refl, e)
    up_to-Returns (suc times) s e = repeat_seq-Returns times s e

    pub repeat-Returns :
        (max : ℤ) (p : Bool) (s : Output)
        → s.recursion_guard ≡ g
        → Returns g (exec_repeat setting exec keyboard_events seq q max p c s)
    unfolding exec_repeat
    repeat-Returns max false s e = returns part_up s e
    repeat-Returns max true s e = up_to-Returns (repeat_end s.mode.variable max) s e
