-- ===== src/Examples/Triggers.antt =====
-- Examples for src/core/engine/modifier_key_handler.cpp and engine_event_processor.cpp: Caps Lock
-- (58) as the trigger of M00 with Enter (28) as its tap, Tab (15) as the trigger of M01.
use yamy.Base.{
  ℕ, ◌+◌, ◌*◌, ◌≡◌, refl, true, false, none, some, List, [], ◌∷◌, arith, lookup, Distinct, no_bits,
}
use yamy.ModifierState.{ModifierState, is_modifier_active}
use yamy.ModifierKeys.Table.{
  KeyState, Handler, handler_init, idle, waiting, modifier_active, hw_none, is_modifier_held,
  is_waiting_for_threshold,
}
use yamy.ModifierKeys.Machine.{
  press, release, Reads, result, result_for, keep_waiting, apply_substitution_release,
  deactivate_modifier, process_number_key, check_and_activate_waiting_modifiers,
}
use yamy.ModifierKeys.Cycles.{hold_cycle, tap_cycle}
use yamy.ModifierKeys.Reachable.{
  Call, registers_trigger, processes, checks, resets, run, Inv, run-init-Inv,
}
use yamy.EventProcessor.{EventProcessor, KeyCodes, Clock, process_event, layer2_with, apply_rules}
use yamy.EventProcessor.Held.{put_out, held_modifier_applies}
use yamy.EventProcessor.Output.{IsOutput, process_event-IsOutput}
use yamy.EventProcessor.Synced.{OneTrigger, Synced}
use yamy.EventProcessor.Synced.Shared.{release_shared}
use yamy.EventProcessor.Synced.Events.{SyncedPair, process_event-Synced}

abbrev caps : KeyState
caps = record {
  state = idle;
  press_time = 0;
  target_modifier = hw_none;
  is_virtual = true;
  virtual_mod_num = 0;
  tap_output = 28;
}

abbrev tab : KeyState
tab = record caps { virtual_mod_num = 1; tap_output = 0 }

abbrev handler : Handler
handler = record {
  number_to_modifier = [];
  key_states = (58, caps) ∷ (15, tab) ∷ [];
  virtual_modifiers = [];
  hold_threshold_ms = 200;
}

-- One second after the start of the clock, and the given number of milliseconds later.
abbrev after : ℕ → ℕ
after ms = 1000000000 + ms * 1000000

abbrev reads : ℕ → Reads
reads ms = record { first = after ms; second = after ms }

abbrev pressed : Handler
pressed = (process_number_key handler 58 press (reads 0)).0

abbrev checked : ℕ → Handler
checked ms = (check_and_activate_waiting_modifiers pressed (λ k. after ms)).0

abbrev released : ℕ → ℕ → Handler
released ms ms' = (process_number_key (checked ms) 58 release (reads ms')).0

caps-registered : lookup 58 handler.key_states ≡ some caps
unfolding lookup
caps-registered = refl

handler-Distinct : Distinct handler.key_states
unfolding lookup
handler-Distinct = (refl, (refl, tt))

hold_cycle_example :
    ((process_number_key handler 58 press (reads 0)).1 ≡ keep_waiting)
    × (is_waiting_for_threshold pressed 58 ≡ true)
    × (lookup 58 (check_and_activate_waiting_modifiers pressed (λ k. after 250)).1 ≡ some 0)
    × (is_modifier_held (checked 250) 58 ≡ true)
    × ((process_number_key (checked 250) 58 release (reads 400)).1
        ≡ result_for deactivate_modifier 0 0 true)
    × (is_modifier_held (released 250 400) 58 ≡ false)
    × (is_waiting_for_threshold (released 250 400) 58 ≡ false)
hold_cycle_example =
    hold_cycle handler 58 caps (reads 0) (λ k. after 250) (reads 400) caps-registered
      handler-Distinct refl refl (omega arith)

tap_cycle_example :
    (lookup 58 (check_and_activate_waiting_modifiers pressed (λ k. after 50)).1 ≡ none)
    × (is_modifier_held (checked 50) 58 ≡ false)
    × ((process_number_key (checked 50) 58 release (reads 120)).1
        ≡ result apply_substitution_release 28 true)
    × (is_modifier_held (released 50 120) 58 ≡ false)
    × (is_waiting_for_threshold (released 50 120) 58 ≡ false)
tap_cycle_example =
    tap_cycle handler 58 caps (reads 0) (λ k. after 50) (reads 120) caps-registered handler-Distinct
      refl refl (omega arith) (omega arith) (omega arith)

abbrev calls : List Call
calls =
    registers_trigger 58 0 28
    ∷ processes 58 press (reads 0)
    ∷ checks (λ k. after 250)
    ∷ processes 58 release (reads 400)
    ∷ resets
    ∷ []

run-init-Inv_example : Inv (run (handler_init 200) calls)
run-init-Inv_example = run-init-Inv 200 calls

-- Key codes that only move a code by 1000, and no rules.
abbrev codes : KeyCodes
codes = record { evdev_to_yamy = λ c. c; yamy_to_evdev = λ c. c + 1000 }

abbrev processor : EventProcessor
processor = record {
  modifier_handler = some handler;
  current_event_is_tap = false;
  lookup_table = record { buckets = [] };
}

abbrev state : ModifierState
state = record { bits = no_bits; has_callback = false }

abbrev clock : ℕ → Clock
clock ms = record { checks = λ k. after ms; reads = reads ms }

handler-OneTrigger : OneTrigger handler.key_states
unfolding lookup
handler-OneTrigger j k s t fj fk sv tv same = ground arith

handler-Synced : Synced handler state
unfolding lookup is_modifier_active
handler-Synced = record {
  distinct = handler-Distinct;
  one = handler-OneTrigger;
  byte = λ k t f v. ground arith;
  agree = λ k t f v. ground arith;
}

process_event-Synced_example :
    SyncedPair
      (process_event codes processor (some state) 58 press (clock 0)).processor
      (process_event codes processor (some state) 58 press (clock 0)).mod_state
process_event-Synced_example =
    process_event-Synced codes processor (some state) 58 press (clock 0)
      (handler, state, refl, refl, handler-Synced)

process_event-IsOutput_example :
    IsOutput codes press (process_event codes processor (some state) 30 press (clock 0)).value
process_event-IsOutput_example =
    process_event-IsOutput codes processor (some state) 30 press (clock 0)

-- Caps Lock and Tab both as triggers of M00, both held.
abbrev held_caps : KeyState
held_caps = record caps { state = modifier_active }

abbrev shared : Handler
shared = record handler { key_states = (58, held_caps) ∷ (15, held_caps) ∷ [] }

shared-caps : lookup 58 shared.key_states ≡ some held_caps
unfolding lookup
shared-caps = refl

shared-tab : lookup 15 shared.key_states ≡ some held_caps
unfolding lookup
shared-tab = refl

release_shared_example :
    (h' : Handler) × (s' : ModifierState) × ((layer2_with processor
        (some shared)
        (some state)
        58
        release
        (reads 0)).processor.modifier_handler
      ≡ some h')
    × ((layer2_with processor (some shared) (some state) 58 release (reads 0)).mod_state ≡ some s')
    × (is_modifier_held h' 15 ≡ true)
    × (is_modifier_active s' 0 ≡ false)
release_shared_example =
    release_shared processor shared state 15 58 held_caps held_caps (reads 0) shared-caps shared-tab
      (omega arith) refl refl refl refl (omega arith)

-- Caps Lock is down since the start, and A (30) is pressed 250 ms later.
abbrev down_caps : KeyState
down_caps = record caps { state = waiting; press_time = after 0 }

abbrev waiting_handler : Handler
waiting_handler = record handler { key_states = (58, down_caps) ∷ (15, tab) ∷ [] }

abbrev waiting_processor : EventProcessor
waiting_processor = record processor { modifier_handler = some waiting_handler }

down-registered : lookup 58 waiting_handler.key_states ≡ some down_caps
unfolding lookup
down-registered = refl

a-unregistered : lookup 30 waiting_handler.key_states ≡ none
unfolding lookup
a-unregistered = refl

held_modifier_applies_example :
    (s' : ModifierState) × ((process_event codes waiting_processor
        (some state)
        30
        press
        (clock 250)).mod_state
      ≡ some s')
    × (is_modifier_active s' 0 ≡ true)
    × ((process_event codes waiting_processor (some state) 30 press (clock 250)).value
        ≡ put_out codes press (apply_rules waiting_processor (some s') 30))
held_modifier_applies_example =
    held_modifier_applies codes waiting_processor waiting_handler state 58 down_caps 30 press
      (clock 250) refl handler-Distinct down-registered refl refl (omega arith) (omega arith)
      a-unregistered
