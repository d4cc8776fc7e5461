-- ===== src/ModifierKeys/Cycles.antt =====
-- A key from its press to its release, in src/core/engine/modifier_key_handler.cpp: a hold, a tap,
-- and a hold that no other event noticed.
use yamy.Base.{
  ℕ, ◌∙◌, ap, ◌-◌, ◌/◌, ◌≤◌, ◌<◌, ◌≡◌, refl, ◌≢◌, true, false, none, some, arith, lookup, Distinct,
}
use yamy.ModifierKeys.Table.{
  KeyState, Handler, idle, waiting, modifier_active, is_modifier_held, is_waiting_for_threshold,
}
use yamy.ModifierKeys.Machine.{
  Reads, press, release, result, result_for, keep_waiting, apply_substitution_release,
  deactivate_modifier, key_event, is_due, check_entry, process_number_key,
  check_and_activate_waiting_modifiers, has_exceeded_threshold,
}
use yamy.ModifierKeys.Entries.{
  due_of, threshold-process, process_at, check_at, process-Distinct, threshold-check,
}

-- Milliseconds between two readings of the clock, as the code counts them.
abbrev pub elapsed_ms : ℕ → ℕ → ℕ
elapsed_ms since now = (now - since) / 1000000

-- The entry of a key that was idle and is pressed at time t.
abbrev pressed_at : ℕ → KeyState → KeyState
pressed_at t s = record s { state = waiting; press_time = t }

press_idle :
    (thr : ℕ) (now : Reads) (s : KeyState)
    → s.state ≡ idle
    → key_event thr press now s ≡ (pressed_at now.first s, keep_waiting)
unfolding key_event
press_idle thr now s h = ground arith

-- A reading at which a waiting key is due is one at which it has been held for the threshold.
is_due-pressed :
    (thr now : ℕ) (t : ℕ) (s : KeyState)
    → (thr ≤ elapsed_ms t now → is_due thr now (pressed_at t s) ≡ true)
      × (elapsed_ms t now < thr → is_due thr now (pressed_at t s) ≡ false)
unfolding is_due has_exceeded_threshold
is_due-pressed thr now t s = ground arith

release_early :
    (thr : ℕ) (now : Reads) (t : ℕ) (s : KeyState)
    → elapsed_ms t now.second < thr
    → s.is_virtual ≡ true
    → s.tap_output ≢ 0
    → key_event thr release now (pressed_at t s) ≡ (
      record (pressed_at t s) { state = idle },
      result apply_substitution_release s.tap_output true,
    )
unfolding key_event has_exceeded_threshold
release_early thr now t s lt v o = ground arith

release_late :
    (thr : ℕ) (now : Reads) (t : ℕ) (s : KeyState)
    → thr ≤ elapsed_ms t now.second
    → key_event thr release now (pressed_at t s)
      ≡ (record (pressed_at t s) { state = idle }, keep_waiting)
unfolding key_event has_exceeded_threshold
release_late thr now t s le = ground arith

release_active :
    (thr : ℕ) (now : Reads) (s : KeyState)
    → s.state ≡ modifier_active
    → s.is_virtual ≡ true
    → key_event thr release now s
      ≡ (record s { state = idle }, result_for deactivate_modifier 0 s.virtual_mod_num true)
unfolding key_event
release_active thr now s a v = ground arith

-- What a query says of a key whose entry is known.
query_at :
    (h : Handler) (k : ℕ) {s : KeyState}
    → lookup k h.key_states ≡ some s
    → (s.state ≡ waiting → (is_waiting_for_threshold h k ≡ true) × (is_modifier_held h k ≡ false))
      × (s.state ≡ modifier_active
          → (is_modifier_held h k ≡ true) × (is_waiting_for_threshold h k ≡ false))
      × (s.state ≡ idle → (is_modifier_held h k ≡ false) × (is_waiting_for_threshold h k ≡ false))
unfolding is_modifier_held is_waiting_for_threshold
query_at h k f = ground arith

check_due :
    (thr now : ℕ) (s : KeyState)
    → is_due thr now s ≡ true
    → s.is_virtual ≡ true
    → (check_entry thr now s ≡ record s { state = modifier_active })
      × (due_of thr now (some s) ≡ some s.virtual_mod_num)
unfolding check_entry
check_due thr now s d v = ground arith

check_not_due :
    (thr now : ℕ) (s : KeyState)
    → is_due thr now s ≡ false
    → (check_entry thr now s ≡ s) × (due_of thr now (some s) ≡ none)
unfolding check_entry
check_not_due thr now s d = ground arith

-- What follows is about one idle virtual trigger, in any handler whose keys are distinct.
module _ (h : Handler) (k : ℕ) (s : KeyState) (down : Reads) (now : ℕ → ℕ) (up : Reads)
    (registered : lookup k h.key_states ≡ some s) (distinct : Distinct h.key_states)
    (at_rest : s.state ≡ idle) (virtual : s.is_virtual ≡ true) where
  h1 : Handler
  h1 = (process_number_key h k press down).0

  after_press :
      (lookup k h1.key_states ≡ some (pressed_at down.first s))
      × ((process_number_key h k press down).1 ≡ keep_waiting)
  unfolding h1
  after_press = process_at h k press down registered (press_idle h.hold_threshold_ms down s at_rest)

  h1-Distinct : Distinct h1.key_states
  unfolding h1
  h1-Distinct = process-Distinct h k press down distinct

  h1-threshold : h1.hold_threshold_ms ≡ h.hold_threshold_ms
  unfolding h1
  h1-threshold = threshold-process h k press down

  h2 : Handler
  h2 = (check_and_activate_waiting_modifiers h1 now).0

  h2-threshold : h2.hold_threshold_ms ≡ h.hold_threshold_ms
  unfolding h2
  h2-threshold = threshold-check h1 now ∙ h1-threshold

  after_check :
      (lookup k h2.key_states
        ≡ some (check_entry h.hold_threshold_ms (now k) (pressed_at down.first s)))
      × (lookup k (check_and_activate_waiting_modifiers h1 now).1
          ≡ due_of h.hold_threshold_ms (now k) (some (pressed_at down.first s)))
  unfolding h1 h2
  after_check =
      rw h1-threshold at (check_at h1 k now (pressed_at down.first s) h1-Distinct after_press.0)

  -- A virtual trigger that is idle, pressed, held until the clock shows the threshold at the next
  -- check, and then released: the press is held back, the check reports exactly its modifier for
  -- this key and marks it held, the release asks to deactivate this modifier, and the key is then
  -- neither held nor waiting.
  pub hold_cycle :
      h.hold_threshold_ms ≤ elapsed_ms down.first (now k)
      → let h1 = (process_number_key h k press down).0 in
        let h2 = (check_and_activate_waiting_modifiers h1 now).0 in
        let h3 = (process_number_key h2 k release up).0 in
        ((process_number_key h k press down).1 ≡ keep_waiting)
        × (is_waiting_for_threshold h1 k ≡ true)
        × (lookup k (check_and_activate_waiting_modifiers h1 now).1 ≡ some s.virtual_mod_num)
        × (is_modifier_held h2 k ≡ true)
        × ((process_number_key h2 k release up).1
            ≡ result_for deactivate_modifier 0 s.virtual_mod_num true)
        × (is_modifier_held h3 k ≡ false)
        × (is_waiting_for_threshold h3 k ≡ false)
  unfolding h1 h2
  hold_cycle le =
      let due = (is_due-pressed h.hold_threshold_ms (now k) down.first s).0 le in
      let (marked, reported) =
        check_due h.hold_threshold_ms (now k) (pressed_at down.first s) due virtual in
      let held = after_check.0 ∙ ap some marked in
      let out = process_at h2 k release up held (
        release_active h2.hold_threshold_ms up
          (record (pressed_at down.first s) { state = modifier_active }) refl virtual) in
      (
        after_press.1,
        ((query_at h1 k after_press.0).0 refl).0,
        after_check.1 ∙ reported,
        ((query_at h2 k held).1 refl).0,
        out.1,
        ((query_at _ k out.0).2 refl).0,
        ((query_at _ k out.0).2 refl).1,
      )

  -- The same trigger, pressed and released before the threshold, with a check in between that comes
  -- before the threshold too: the check reports nothing for this key, and the release returns the
  -- key's tap output as a tap, if it has one; the key is then neither held nor waiting.
  pub tap_cycle :
      elapsed_ms down.first (now k) < h.hold_threshold_ms
      → elapsed_ms down.first up.second < h.hold_threshold_ms
      → s.tap_output ≢ 0
      → let h1 = (process_number_key h k press down).0 in
        let h2 = (check_and_activate_waiting_modifiers h1 now).0 in
        let h3 = (process_number_key h2 k release up).0 in
        (lookup k (check_and_activate_waiting_modifiers h1 now).1 ≡ none)
        × (is_modifier_held h2 k ≡ false)
        × ((process_number_key h2 k release up).1
            ≡ result apply_substitution_release s.tap_output true)
        × (is_modifier_held h3 k ≡ false)
        × (is_waiting_for_threshold h3 k ≡ false)
  unfolding h1 h2
  tap_cycle early lt o =
      let due = (is_due-pressed h.hold_threshold_ms (now k) down.first s).1 early in
      let (kept, unreported) =
        check_not_due h.hold_threshold_ms (now k) (pressed_at down.first s) due in
      let still = after_check.0 ∙ ap some kept in
      let out =
        process_at h2 k release up still
          (release_early h2.hold_threshold_ms up down.first s (rw h2-threshold lt) virtual o) in
      (
        after_check.1 ∙ unreported,
        ((query_at h2 k still).0 refl).1,
        out.1,
        ((query_at _ k out.0).2 refl).0,
        ((query_at _ k out.0).2 refl).1,
      )

  -- The same trigger, held past the threshold and released with no check in between: the release is
  -- suppressed, with neither a tap nor a modifier, and the key is then neither held nor waiting.
  unnoticed_hold :
      h.hold_threshold_ms ≤ elapsed_ms down.first up.second
      → let h1 = (process_number_key h k press down).0 in
        let h2 = (process_number_key h1 k release up).0 in
        ((process_number_key h1 k release up).1 ≡ keep_waiting)
        × (is_modifier_held h2 k ≡ false)
        × (is_waiting_for_threshold h2 k ≡ false)
  unfolding h1
  unnoticed_hold le =
      let out =
        process_at h1 k release up after_press.0
          (release_late h1.hold_threshold_ms up down.first s (rw h1-threshold le)) in
      (out.1, ((query_at _ k out.0).2 refl).0, ((query_at _ k out.0).2 refl).1)
