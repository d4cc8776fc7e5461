-- ===== src/Generator/Recursion.antt =====
-- The guard of `generateKeyboardEvents` in src/core/engine/engine_generator.cpp against a keymap that
-- calls itself.
use yamy.Base.{
  ℕ, zero, suc, ◌+◌, ◌≤◌, ◌≡◌, refl, ap, ◌∙◌, Bool, true, false, Option, some, [], ◌∷◌, ◌==◌,
  if◌then◌else◌, Bool-cases, inl, inr, arith,
}
use yamy.Modifier.{Modifier, type_up, type_down, is_pressed, press, release, press_if, care}
use yamy.ModifiedKey.{ModifiedKey}
use yamy.Keymap.{KeyAssignment}
use yamy.Generator.Keys.{Output}
use yamy.Generator.Actions.{
  Outcome, done, fault, too_deep, ◌>>=◌, Action, function, keymap, Setting, Current, Part, part_up,
  part_down, max_recursion_count, current_is_pressed, on_or_dontcare, search_in_keymap, with_part,
  exec_command, generate_action_events, press_actions, seq_actions, run_assignment, leave_recursion,
  enter_recursion, keyboard_events_with, generate_key_seq_events, generate_keyboard_events,
}

pressed_part : (p : Bool) (c : Current) → current_is_pressed (with_part p c) ≡ p
unfolding current_is_pressed with_part is_pressed press_if press release care
pressed_part true c = refl
pressed_part false c = refl

>>=-done : {A : Type 0} (o : Outcome A) → (o >>= done) ≡ o
>>=-done (done a) = refl
>>=-done fault = refl
>>=-done too_deep = refl

module _ (setting : Setting) (exec : ℕ → Bool → Current → Output → Output) (m : ℕ)
    (pointer : Option ℕ) (a : KeyAssignment) (wanted : Modifier)
    (found : (mk : ModifiedKey) → mk.key ≡ pointer → search_in_keymap setting m mk ≡ done (some a))
    (up : is_pressed a.modified_key.modifier type_up ≡ false)
    (down : is_pressed a.modified_key.modifier type_down ≡ false)
    (asked : (p : Bool) → on_or_dontcare wanted (if p then type_down else type_up) ≡ true) where
  -- The key in the keymap that calls itself.
  abbrev pub here : ModifiedKey → Current
  here mk = record { keymap = m; mkey = mk }

  -- The call of the keymap by itself.
  abbrev pub call_itself : Action
  call_itself = function (keymap m) wanted

  abbrev part_of : Bool → Part
  part_of p = if p then part_down else part_up

  -- The key that the inner call gets.
  abbrev inner : Bool → ModifiedKey → ModifiedKey
  inner p mk = (with_part p (here mk)).mkey

  -- What a call does behind the guard.
  level :
      (fuel : ℕ) (mk : ModifiedKey) (s : Output)
      → mk.key ≡ pointer
      → (suc s.recursion_guard == max_recursion_count) ≡ false
      → generate_keyboard_events setting exec fuel (here mk) s ≡ (
          generate_key_seq_events setting exec fuel
            (here mk)
            a.key_seq
            (part_of (current_is_pressed (here mk)))
            (enter_recursion s)
          >>= λ t. done (leave_recursion t))
  unfolding generate_keyboard_events keyboard_events_with run_assignment
  level fuel mk s k below = rw (below, found mk k, up, down) refl

  -- What the action does.
  act_itself :
      (fuel : ℕ) (mk : ModifiedKey) (p : Bool) (s : Output)
      → generate_action_events setting exec
          (keyboard_events_with setting exec (generate_key_seq_events setting exec fuel))
          (generate_key_seq_events setting exec fuel)
          (here mk)
          call_itself
          p
          s
        ≡ generate_keyboard_events setting exec fuel (here (inner p mk)) s
  unfolding generate_action_events exec_command with_part generate_keyboard_events
  act_itself fuel mk p s = rw (asked p) refl

  inner-key : (p : Bool) (mk : ModifiedKey) → mk.key ≡ pointer → (inner p mk).key ≡ pointer
  unfolding with_part
  inner-key p mk k = k

  -- At the last level before the limit the guard stops the call, and stays counted up.
  stopped :
      (fuel : ℕ) (mk : ModifiedKey) (s : Output)
      → (suc s.recursion_guard == max_recursion_count) ≡ true
      → generate_keyboard_events setting exec fuel (here mk) s ≡ done (enter_recursion s)
  unfolding generate_keyboard_events keyboard_events_with
  stopped fuel mk s top = rw top refl

  leave-enter : (s : Output) → leave_recursion (enter_recursion s) ≡ s
  unfolding leave_recursion enter_recursion
  leave-enter s = ap (λ g. record s { recursion_guard = g }) (omega arith)

  one_call :
      (fuel : ℕ) (mk : ModifiedKey) (p : Bool) (s : Output)
      → setting.actions a.key_seq ≡ call_itself ∷ []
      → generate_key_seq_events setting exec (suc fuel) (here mk) a.key_seq (part_of p) s
        ≡ generate_keyboard_events setting exec fuel (here (inner p mk)) s
  unfolding generate_key_seq_events seq_actions press_actions
  one_call fuel mk true s e = rw e (>>=-done _ ∙ act_itself fuel mk true s)
  one_call fuel mk false s e = rw e (act_itself fuel mk false s)

  -- Let the search in a keymap find, for the key of the event and whatever modifiers, an assignment for
  -- both parts whose only action is a call of the keymap itself. The recursion is
  -- stopped by the guard: with fuel for the remaining levels the call returns, nothing is generated,
  -- and the guard is left one higher than before the call, since a stopped call does not count it down.
  pub generate_keyboard_events-stopped :
      (d fuel : ℕ) (mk : ModifiedKey) (s : Output)
      → setting.actions a.key_seq ≡ call_itself ∷ []
      → mk.key ≡ pointer
      → d ≤ fuel
      → s.recursion_guard + suc d ≡ max_recursion_count
      → generate_keyboard_events setting exec fuel (here mk) s ≡ done (enter_recursion s)
  unfolding enter_recursion with_part
  generate_keyboard_events-stopped zero fuel mk s e k le g = stopped fuel mk s (ground (arith, g))
  generate_keyboard_events-stopped (suc d) zero mk s e k le g = absurd (omega (arith, le))
  generate_keyboard_events-stopped (suc d) (suc fuel) mk s e k le g =
      let p = current_is_pressed (here mk) in
      level (suc fuel) mk s k (ground (arith, g))
      ∙ ap (λ o. o >>= λ t. done (leave_recursion t))
          (one_call fuel mk p (enter_recursion s) e
            ∙ generate_keyboard_events-stopped d fuel (inner p mk) (enter_recursion s) e k
                (omega (arith, le)) (omega (arith, g)))
      ∙ ap done (leave-enter (enter_recursion s))

  first_call_deep :
      (fuel : ℕ) (mk : ModifiedKey) (s : Output)
      → setting.actions a.key_seq ≡ call_itself ∷ call_itself ∷ []
      → generate_keyboard_events setting exec fuel (here (inner true mk)) s ≡ too_deep
      → generate_key_seq_events setting exec (suc fuel) (here mk) a.key_seq part_down s ≡ too_deep
  unfolding generate_key_seq_events seq_actions press_actions
  first_call_deep fuel mk s e h = rw (e, act_itself fuel mk true s ∙ h) refl

  next_call_deep :
      (fuel : ℕ) (mk : ModifiedKey) (s t : Output)
      → setting.actions a.key_seq ≡ call_itself ∷ call_itself ∷ []
      → generate_keyboard_events setting exec fuel (here (inner true mk)) s ≡ done t
      → generate_keyboard_events setting exec fuel (here (inner false mk)) t ≡ too_deep
      → generate_key_seq_events setting exec (suc fuel) (here mk) a.key_seq part_down s ≡ too_deep
  unfolding generate_key_seq_events seq_actions press_actions
  next_call_deep fuel mk s t e h h' =
      rw (e, act_itself fuel mk true s ∙ h, act_itself fuel mk false t ∙ h') refl

  last_call :
      (fuel : ℕ) (mk : ModifiedKey) (s : Output)
      → setting.actions a.key_seq ≡ call_itself ∷ call_itself ∷ []
      → generate_key_seq_events setting exec (suc fuel) (here mk) a.key_seq part_up s
        ≡ generate_keyboard_events setting exec fuel (here (inner false mk)) s
  unfolding generate_key_seq_events seq_actions
  last_call fuel mk s e = rw e (act_itself fuel mk false s)

  above_guard :
      (s : Output)
      → max_recursion_count ≤ s.recursion_guard
      → (suc s.recursion_guard == max_recursion_count) ≡ false
  above_guard s g = ground (arith, g)

  deep_level :
      (fuel : ℕ) (mk : ModifiedKey) (s : Output)
      → mk.key ≡ pointer
      → (suc s.recursion_guard == max_recursion_count) ≡ false
      → generate_key_seq_events setting exec fuel
          (here mk)
          a.key_seq
          (part_of (current_is_pressed (here mk)))
          (enter_recursion s)
        ≡ too_deep
      → generate_keyboard_events setting exec fuel (here mk) s ≡ too_deep
  deep_level fuel mk s k below h =
      level fuel mk s k below ∙ ap (λ o. o >>= λ t. done (leave_recursion t)) h

  -- With the guard above the limit nothing stops the calls.
  unguarded :
      (fuel : ℕ) (mk : ModifiedKey) (s : Output)
      → setting.actions a.key_seq ≡ call_itself ∷ call_itself ∷ []
      → mk.key ≡ pointer
      → max_recursion_count ≤ s.recursion_guard
      → generate_keyboard_events setting exec fuel (here mk) s ≡ too_deep
  unfolding enter_recursion with_part generate_key_seq_events
  unguarded zero mk s e k g = deep_level zero mk s k (above_guard s g) refl
  unguarded (suc fuel) mk s e k g =
      deep_level (suc fuel) mk s k (above_guard s g)
        (elim (Bool-cases (current_is_pressed (here mk))) [
          | inl y ↦ rw y (
              first_call_deep fuel mk (enter_recursion s) e
                (unguarded fuel (inner true mk) (enter_recursion s) e k (omega (arith, g))))
          | inr n ↦ rw n (
              last_call fuel mk (enter_recursion s) e
              ∙ unguarded fuel (inner false mk) (enter_recursion s) e k (omega (arith, g)))
        ])

  -- Let the search in a keymap find, for the key of the event and whatever modifiers, an assignment for
  -- both parts whose actions are two calls of the keymap itself. The recursion is not
  -- stopped: on a press, with the guard at least two below the limit, the call is deeper than any
  -- fuel, since the first stopped call leaves the guard at the limit and the next one counts past it.
  pub generate_keyboard_events-unbounded :
      (d fuel : ℕ) (mk : ModifiedKey) (s : Output)
      → setting.actions a.key_seq ≡ call_itself ∷ call_itself ∷ []
      → mk.key ≡ pointer
      → current_is_pressed (here mk) ≡ true
      → s.recursion_guard + suc (suc d) ≡ max_recursion_count
      → generate_keyboard_events setting exec fuel (here mk) s ≡ too_deep
  unfolding enter_recursion with_part generate_key_seq_events
  generate_keyboard_events-unbounded d zero mk s e k p g =
      deep_level zero mk s k (ground (arith, g)) refl
  generate_keyboard_events-unbounded zero (suc fuel) mk s e k p g =
      deep_level (suc fuel) mk s k (ground (arith, g)) (
        rw p (
          next_call_deep fuel mk (enter_recursion s) (enter_recursion (enter_recursion s)) e
            (stopped fuel (inner true mk) (enter_recursion s) (ground (arith, g)))
            (unguarded fuel (inner false mk) (enter_recursion (enter_recursion s)) e k
              (omega (arith, g)))))
  generate_keyboard_events-unbounded (suc d) (suc fuel) mk s e k p g =
      deep_level (suc fuel) mk s k (ground (arith, g)) (
        rw p (
          first_call_deep fuel mk (enter_recursion s) e (
            generate_keyboard_events-unbounded d fuel (inner true mk) (enter_recursion s) e k
              (pressed_part true (here mk)) (omega (arith, g)))))
