-- ===== src/EventProcessor/Synced.antt =====
-- The two halves of the modal modifiers agree: the triggers that
-- src/core/engine/modifier_key_handler.cpp holds active, and the flags M00-MFF that
-- src/core/engine/engine_event_processor.cpp keeps for them in the `ModifierState`.
pub mod Check
pub mod Process
pub mod Events
pub mod Shared
use yamy.Base.{
  ℕ, subst, ◌<◌, ◌≡◌, refl, sym, ap, ◌∙◌, ◌≢◌, ◌⊎◌, inl, inr, Bool, true, false, ◌&&◌, ◌||◌, Option,
  none, some, List, [], ◌∷◌, Assoc, lookup, Distinct, arith, ◌==◌, if◌then◌else◌, Bool-cases,
  Option-cases,
}
use native.Mathlib.Decide.{ℕ_discrete}
use yamy.ModifierState.{ModifierState, is_modifier_active}
use yamy.ModifierKeys.Table.{KeyState, Handler, is_active, waiting, modifier_active}
use yamy.ModifierKeys.Machine.{
  EventType, Reads, NumberKeyResult, key_event, is_due, check_entry, due_modifiers,
  process_number_key, check_and_activate_waiting_modifiers, not_mine,
}
use yamy.ModifierKeys.Entries.{
  check_found, lookup-check_entries, lookup-process, result-process, process-Distinct,
  check-Distinct,
}
use yamy.EventProcessor.{
  EventProcessor, KeyCodes, Clock, Outcome, activate_all, process_event, process_checked,
  check_with, layer2_apply_substitution, layer2_with, act_on, set_handler, finish,
  layer1_evdev_to_yamy,
}
use yamy.EventProcessor.Activation.{
  mentions, is_active-activate_all, act_state, act_on-mod_state, switched, is_active-act_state,
  key_event-virtual, key_event-hardware, key_event-keeps,
}

-- No two virtual triggers stand for the same modifier.
abbrev pub OneTrigger : Assoc KeyState → Type 0
OneTrigger m =
    (j k : ℕ) (s t : KeyState)
    → lookup j m ≡ some s
    → lookup k m ≡ some t
    → s.is_virtual ≡ true
    → t.is_virtual ≡ true
    → s.virtual_mod_num ≡ t.virtual_mod_num
    → j ≡ k

-- The handler and the state agree: the flag of each virtual trigger's modifier, which is a byte, is
-- set exactly while the trigger is held active.
pub record Synced (h : Handler) (s : ModifierState) : Type 0 where
  pub distinct : Distinct h.key_states
  pub one : OneTrigger h.key_states
  pub byte :
      (k : ℕ) (t : KeyState)
      → lookup k h.key_states ≡ some t
      → t.is_virtual ≡ true
      → t.virtual_mod_num < 256
  pub agree :
      (k : ℕ) (t : KeyState)
      → lookup k h.key_states ≡ some t
      → t.is_virtual ≡ true
      → is_modifier_active s t.virtual_mod_num ≡ is_active t.state
