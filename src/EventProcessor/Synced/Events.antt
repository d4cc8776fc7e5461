-- ===== src/EventProcessor/Synced/Events.antt =====
-- A whole event of src/core/engine/engine_event_processor.cpp keeps the triggers and the flags in
-- agreement.
use yamy.Base.{ℕ, ◌≡◌, refl, inl, inr, false, Option, some, ◌==◌, Bool-cases}
use yamy.ModifierState.{ModifierState}
use yamy.ModifierKeys.Table.{Handler}
use yamy.ModifierKeys.Machine.{EventType, Reads, process_number_key}
use yamy.EventProcessor.{
  EventProcessor, KeyCodes, Clock, process_event, process_checked, check_with,
  layer2_apply_substitution, layer2_with, set_handler, finish, layer1_evdev_to_yamy,
}
use yamy.EventProcessor.Activation.{act_state, act_on-mod_state}
use yamy.EventProcessor.Synced.{Synced}
use yamy.EventProcessor.Synced.Check.{check-Synced}
use yamy.EventProcessor.Synced.Process.{process-Synced}

-- A processor and a state, both there, that agree.
abbrev pub SyncedPair : EventProcessor → Option ModifierState → Type 0
SyncedPair p o =
    (h : Handler) × (s : ModifierState) × (p.modifier_handler ≡ some h) × (o ≡ some s) × Synced h s

check_with-Synced :
    (p : EventProcessor) (q : Option Handler) (o : Option ModifierState) (h : Handler)
    (s : ModifierState) (now : ℕ → ℕ)
    → q ≡ some h
    → o ≡ some s
    → Synced h s
    → let c = check_with p q o now in SyncedPair c.0 c.1
unfolding check_with
check_with-Synced p q o h s now hq ho v = rw (hq, ho) (_, _, refl, refl, check-Synced h s now v)

layer2-Synced :
    (p : EventProcessor) (h : Handler) (s : ModifierState) (y : ℕ) (e : EventType) (now : Reads)
    → Synced h s
    → let o = layer2_with p (some h) (some s) y e now in SyncedPair o.processor o.mod_state
unfolding layer2_with
layer2-Synced p h s y e now v =
    let (h', r) = process_number_key h y e now in
    let (state, handler) = act_on-mod_state r.action (set_handler p h') s r y in
    (h', act_state r.action s r, handler, state, process-Synced h s y e now v)

checked-Synced :
    (codes : KeyCodes) (p : EventProcessor) (o : Option ModifierState) (k : ℕ) (e : EventType)
    (now : Reads)
    → SyncedPair p o
    → let q = process_checked codes (p, o) k e now in SyncedPair q.processor q.mod_state
unfolding process_checked finish layer2_apply_substitution layer2_with
checked-Synced codes p o k e now (h, s, hp, ho, v) =
    elim (Bool-cases (layer1_evdev_to_yamy codes k == 0)) [
      | inl y ↦ rw y (h, s, hp, ho, v)
      | inr n ↦ rw (n, hp, ho) (layer2-Synced p h s (layer1_evdev_to_yamy codes k) e now v)
    ]

-- Whatever the key, the type of event and the clock, and whatever the key codes and the rules: where
-- a processor's handler and a modifier state agree before an event, they agree after it. So the flag
-- M00-MFF of every virtual trigger is set exactly while the trigger is held active, as long as no two
-- triggers stand for one modifier.
pub process_event-Synced :
    (codes : KeyCodes) (p : EventProcessor) (o : Option ModifierState) (k : ℕ) (e : EventType)
    (clock : Clock)
    → SyncedPair p o
    → let q = process_event codes p o k e clock in SyncedPair q.processor q.mod_state
unfolding process_event
process_event-Synced codes p o k e clock (h, s, hp, ho, v) =
    let p' = record p { current_event_is_tap = false } in
    let c = check_with p' p'.modifier_handler o clock.checks in
    checked-Synced codes c.0 c.1 k e clock.reads
      (check_with-Synced p' p'.modifier_handler o h s clock.checks hp ho v)
