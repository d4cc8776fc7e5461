-- ===== src/EventProcessor/Held.antt =====
-- A key pressed while a trigger is held, in src/core/engine/engine_event_processor.cpp.
use yamy.Base.{
  ℕ, ◌≤◌, ◌≡◌, refl, ap, ◌∙◌, ◌≢◌, true, false, Option, none, some, [], ◌∷◌, Assoc, lookup,
  Distinct, arith, ==_ne, ◌==◌, if◌then◌else◌,
}
use yamy.ModifierState.{ModifierState, is_modifier_active}
use yamy.ModifierKeys.Table.{KeyState, Handler, waiting}
use yamy.ModifierKeys.Machine.{
  EventType, Reads, not_mine, process_number_key, is_due, has_exceeded_threshold, due_modifiers,
  check_and_activate_waiting_modifiers,
}
use yamy.ModifierKeys.Entries.{due_of, check_found, lookup-due_modifiers, lookup-check_entries}
use yamy.ModifierKeys.Cycles.{elapsed_ms}
use yamy.EventProcessor.{
  EventProcessor, KeyCodes, Clock, ProcessedEvent, outcome, set_handler, apply_rules, act_on,
  layer2_with, layer2_apply_substitution, layer3_yamy_to_evdev, invalid, activate_all, check_with,
  layer1_evdev_to_yamy, finish, process_checked, process_event,
}
use yamy.EventProcessor.Activation.{mentions, is_active-activate_all}

lookup-mentions : (l : Assoc ℕ) (k n : ℕ) → lookup k l ≡ some n → mentions n l ≡ true
unfolding lookup mentions
lookup-mentions [] k n e = cc
lookup-mentions ((j, m) ∷ l) k n e = ground (arith, lookup-mentions l k n)

due_of-waiting :
    (thr now : ℕ) (t : KeyState)
    → t.state ≡ waiting
    → t.is_virtual ≡ true
    → thr ≤ elapsed_ms t.press_time now
    → due_of thr now (some t) ≡ some t.virtual_mod_num
unfolding is_due has_exceeded_threshold
due_of-waiting thr now t w v le = ground arith

-- The flags after the check that an event begins with.
checked_state : Handler → (ℕ → ℕ) → ModifierState → ModifierState
checked_state h now s = activate_all (check_and_activate_waiting_modifiers h now).1 s

checked-active :
    (h : Handler) (now : ℕ → ℕ) (s : ModifierState) (k : ℕ) (t : KeyState)
    → Distinct h.key_states
    → lookup k h.key_states ≡ some t
    → t.state ≡ waiting
    → t.is_virtual ≡ true
    → h.hold_threshold_ms ≤ elapsed_ms t.press_time (now k)
    → is_modifier_active (checked_state h now s) t.virtual_mod_num ≡ true
unfolding checked_state check_and_activate_waiting_modifiers
checked-active h now s k t d f w v le =
    let found =
      lookup-due_modifiers h.hold_threshold_ms now h.key_states k d
      ∙ ap (due_of h.hold_threshold_ms (now k)) f
      ∙ due_of-waiting h.hold_threshold_ms (now k) t w v le in
    let listed =
      lookup-mentions (due_modifiers h.hold_threshold_ms now h.key_states) k t.virtual_mod_num
        found in
    is_active-activate_all t.virtual_mod_num (due_modifiers h.hold_threshold_ms now h.key_states) s
    ∙ ground (arith, listed)

process-unknown :
    (h : Handler) (y : ℕ) (e : EventType) (now : Reads)
    → lookup y h.key_states ≡ none
    → process_number_key h y e now ≡ (h, not_mine)
unfolding process_number_key
process-unknown h y e now n = rw (n, process_number_key) refl

-- A key that is no trigger goes to the rules, with the handler as it was.
layer2-plain :
    (p : EventProcessor) (h : Handler) (s : ModifierState) (y : ℕ) (e : EventType) (now : Reads)
    → lookup y h.key_states ≡ none
    → layer2_with p (some h) (some s) y e now
      ≡ outcome (set_handler p h) (some s) (apply_rules p (some s) y)
unfolding layer2_with act_on apply_rules
layer2-plain p h s y e now n =
    ap (λ c. act_on c.1.action (set_handler p c.0) s c.1 y) (process-unknown h y e now n)

-- What is put out for a code that is no tap.
abbrev pub put_out : KeyCodes → EventType → ℕ → ProcessedEvent
put_out codes type code =
    let evdev = layer3_yamy_to_evdev codes code in
    if evdev == 0 then invalid type else record {
      output_evdev = evdev;
      output_yamy = code;
      type = type;
      valid = true;
      is_tap = false;
    }

-- The processor at the start of an event.
abbrev begun : EventProcessor → EventProcessor
begun p = record p { current_event_is_tap = false }

-- An event of a plain key, after the check.
checked-plain :
    (codes : KeyCodes) (p : EventProcessor) (h : Handler) (s : ModifierState) (j : ℕ)
    (type : EventType) (now : Reads)
    → codes.evdev_to_yamy j ≢ 0
    → lookup (codes.evdev_to_yamy j) h.key_states ≡ none
    → let o = process_checked codes (set_handler (begun p) h, some s) j type now in
      (o.mod_state ≡ some s)
      × (o.value ≡ put_out codes type (apply_rules p (some s) (codes.evdev_to_yamy j)))
unfolding process_checked layer1_evdev_to_yamy layer2_apply_substitution finish apply_rules
checked-plain codes p h s j type now nz none_there = rw (==_ne (codes.evdev_to_yamy j) 0 nz) (
    rw (layer2-plain (set_handler (begun p) h) h s (codes.evdev_to_yamy j) type now none_there)
      (refl, refl))

not_registered :
    (h : Handler) (now : ℕ → ℕ) (y : ℕ)
    → lookup y h.key_states ≡ none
    → lookup y (check_and_activate_waiting_modifiers h now).0.key_states ≡ none
unfolding check_and_activate_waiting_modifiers
not_registered h now y n =
    lookup-check_entries h.hold_threshold_ms now h.key_states y
    ∙ ap (check_found h.hold_threshold_ms (now y)) n

event-plain :
    (codes : KeyCodes) (p : EventProcessor) (q : Option Handler) (h : Handler) (s : ModifierState)
    (j : ℕ) (type : EventType) (clock : Clock)
    → q ≡ some h
    → codes.evdev_to_yamy j ≢ 0
    → lookup (codes.evdev_to_yamy j) h.key_states ≡ none
    → let o =
        process_checked codes (check_with (begun p) q (some s) clock.checks) j type clock.reads in
      let s' = checked_state h clock.checks s in
      (o.mod_state ≡ some s')
      × (o.value ≡ put_out codes type (apply_rules p (some s') (codes.evdev_to_yamy j)))
unfolding check_with checked_state
event-plain codes p q h s j type clock e nz n =
    let (h2, due) = check_and_activate_waiting_modifiers h clock.checks in
    rw e (
      checked-plain codes p h2 (activate_all due s) j type clock.reads nz
        (not_registered h clock.checks (codes.evdev_to_yamy j) n))

-- A trigger of a virtual modifier has been pressed and now waits. Then an event of a key that is no
-- trigger comes, which has a YAMY code, and the clock shows for the trigger that it has been held for
-- the threshold: the modifier's flag is set before the rules are asked, so what is put out for the
-- key is what the rules make of its code in a state in which the modifier is active, and this state
-- stays.
pub held_modifier_applies :
    (codes : KeyCodes) (p : EventProcessor) (h : Handler) (s : ModifierState) (k : ℕ) (t : KeyState)
    (j : ℕ) (type : EventType) (clock : Clock)
    → p.modifier_handler ≡ some h
    → Distinct h.key_states
    → lookup k h.key_states ≡ some t
    → t.state ≡ waiting
    → t.is_virtual ≡ true
    → h.hold_threshold_ms ≤ elapsed_ms t.press_time (clock.checks k)
    → codes.evdev_to_yamy j ≢ 0
    → lookup (codes.evdev_to_yamy j) h.key_states ≡ none
    → let o = process_event codes p (some s) j type clock in
      (s' : ModifierState) × (o.mod_state ≡ some s')
      × (is_modifier_active s' t.virtual_mod_num ≡ true)
      × (o.value ≡ put_out codes type (apply_rules p (some s') (codes.evdev_to_yamy j)))
unfolding process_event
held_modifier_applies codes p h s k t j type clock hp d f w v le nz n =
    let (kept, out) = event-plain codes p p.modifier_handler h s j type clock hp nz n in
    (checked_state h clock.checks s, kept, checked-active h clock.checks s k t d f w v le, out)
