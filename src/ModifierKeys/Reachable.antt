-- ===== src/ModifierKeys/Reachable.antt =====
-- Every state of the handler of src/core/engine/modifier_key_handler.cpp that its calls can lead to.
use yamy.Base.{
  ℕ, ◌<◌, ◌≡◌, refl, ◌≢◌, inl, inr, false, Option, none, some, List, [], ◌∷◌, map, arith, Assoc,
  lookup, Distinct, insert-Distinct, AllValues, get_or, lookup-AllValues, insert-AllValues,
  Option-cases,
}
use yamy.ModifierKeys.Table.{
  KeyState, Handler, HardwareModifier, NumberKeyState, idle, waiting, modifier_active, tap_detected,
  u8, key_state_init, handler_init, register_number_modifier, register_virtual_modifier,
  register_virtual_modifiers_from_map, register_virtual_modifier_trigger, reset, virtual_code,
  is_modifier_held, is_waiting_for_threshold, is_virtual_modifier, reset_entry,
}
use yamy.ModifierKeys.Machine.{
  EventType, Reads, key_event, process_number_key, check_entry, check_entries, is_due,
  check_and_activate_waiting_modifiers,
}
use yamy.ModifierKeys.Entries.{check-Distinct}

-- The transition diagram of one key.
infix 40 ◌⟶◌
pub data ◌⟶◌ : NumberKeyState → NumberKeyState → Type 0 where
  stay : {s : NumberKeyState} → s ⟶ s
  push : idle ⟶ waiting
  hold : waiting ⟶ modifier_active
  let_go : waiting ⟶ idle
  unhold : modifier_active ⟶ idle

-- Away from `TAP_DETECTED`, every event at every time and every check moves a key along an edge of
-- the diagram: a modifier becomes active only from the waiting state, and no edge leads to
-- `TAP_DETECTED`.
key_event_follows :
    (thr : ℕ) (e : EventType) (now : Reads) (t : ℕ) (s : KeyState)
    → s.state ≢ tap_detected
    → (s.state ⟶ (key_event thr e now s).0.state) × (s.state ⟶ (check_entry thr t s).state)
unfolding key_event check_entry is_due
key_event_follows thr e now t s h =
    (grind (arith, stay, push, hold, let_go, unhold), grind (arith, stay, push, hold))

-- The calls of the class; a modifier number is a byte.
pub data Call : Type 0 where
  registers_number : ℕ → HardwareModifier → Call
  registers_virtual : ℕ → ℕ → Call
  registers_map : Assoc ℕ → Call
  registers_trigger : ℕ → ℕ → ℕ → Call
  processes : ℕ → EventType → Reads → Call
  checks : (ℕ → ℕ) → Call
  resets : Call

unfoldable pub step : Handler → Call → Handler
step h (registers_number k m) = register_number_modifier h k m
step h (registers_virtual code tap) = register_virtual_modifier h code tap
step h (registers_map m) = register_virtual_modifiers_from_map h m
step h (registers_trigger k n tap) = register_virtual_modifier_trigger h k (u8 n) tap
step h (processes k e now) = (process_number_key h k e now).0
step h (checks now) = (check_and_activate_waiting_modifiers h now).0
step h resets = reset h

unfoldable pub run : Handler → List Call → Handler
unfolding step
run h [] = h
run h (c ∷ cs) = run (step h c) cs

pub record IsSound (s : KeyState) : Type 0 where
  pub no_tap : s.state ≢ tap_detected
  pub byte : s.virtual_mod_num < 256

pub record Inv (h : Handler) : Type 0 where
  pub distinct : Distinct h.key_states
  pub sound : AllValues IsSound h.key_states

init-IsSound : IsSound key_state_init
unfolding key_state_init
init-IsSound = ground arith

found-IsSound :
    {h : Handler} (k : ℕ) → Inv h → IsSound (get_or key_state_init (lookup k h.key_states))
found-IsSound {h} k v = elim (Option-cases (lookup k h.key_states)) [
  | inl e ↦ rw e init-IsSound
  | inr (s, e) ↦ rw e (lookup-AllValues IsSound k h.key_states v.sound e)
]

key_event-IsSound :
    (thr : ℕ) (e : EventType) (now : Reads) (s : KeyState)
    → IsSound s
    → IsSound (key_event thr e now s).0
unfolding key_event
key_event-IsSound thr e now s v = ground arith

check_entries-IsSound :
    (thr : ℕ) (now : ℕ → ℕ) (m : Assoc KeyState)
    → AllValues IsSound m
    → AllValues IsSound (check_entries thr now m)
unfolding check_entries check_entry
check_entries-IsSound thr now [] a = tt
check_entries-IsSound thr now ((k, s) ∷ m) a =
    (ground (arith, a.0), check_entries-IsSound thr now m a.1)

reset-Distinct :
    (m : Assoc KeyState) (k : ℕ)
    → (lookup k m ≡ none → lookup k (map reset_entry m) ≡ none)
      × (Distinct m → Distinct (map reset_entry m))
unfolding lookup
reset-Distinct [] k = (λ e. refl, λ d. tt)
reset-Distinct ((j, s) ∷ m) k = (
  λ e. ground (arith, (reset-Distinct m k).0),
  λ d. ((reset-Distinct m j).0 d.0, (reset-Distinct m j).1 d.1),
)

reset-IsSound : (m : Assoc KeyState) → AllValues IsSound m → AllValues IsSound (map reset_entry m)
reset-IsSound [] a = tt
reset-IsSound ((k, s) ∷ m) a = (ground (arith, a.0), reset-IsSound m a.1)

register_virtual-Inv :
    (h : Handler) (code tap : ℕ) → Inv h → Inv (register_virtual_modifier h code tap)
unfolding register_virtual_modifier
register_virtual-Inv h code tap v = record {
  distinct = insert-Distinct code _ h.key_states v.distinct;
  sound =
      insert-AllValues IsSound code _ h.key_states
        (record { no_tap = (found-IsSound code v).no_tap; byte = omega arith }) v.sound;
}

register_map-Inv :
    (h : Handler) (m : Assoc ℕ) → Inv h → Inv (register_virtual_modifiers_from_map h m)
unfolding register_virtual_modifiers_from_map
register_map-Inv h [] v = v
register_map-Inv h ((n, tap) ∷ m) v =
    register_map-Inv (register_virtual_modifier h (virtual_code n) tap) m
      (register_virtual-Inv h (virtual_code n) tap v)

process-Inv :
    (h : Handler) (k : ℕ) (e : EventType) (now : Reads)
    → Inv h
    → Inv (process_number_key h k e now).0
unfolding process_number_key
process-Inv h k e now v = elim (Option-cases (lookup k h.key_states)) [
  | inl n ↦ rw (n, process_number_key) v
  | inr (s, f) ↦
      rw (f, process_number_key)
        (record {
          distinct = insert-Distinct k _ h.key_states v.distinct;
          sound =
              insert-AllValues IsSound k _ h.key_states
                (key_event-IsSound h.hold_threshold_ms e now s
                  (lookup-AllValues IsSound k h.key_states v.sound f))
                v.sound;
        })
]

step-Inv : (h : Handler) (c : Call) → Inv h → Inv (step h c)
unfolding step register_number_modifier register_virtual_modifier_trigger reset key_state_init
    check_and_activate_waiting_modifiers
step-Inv h (registers_number k m) v = record {
  distinct = insert-Distinct k _ h.key_states v.distinct;
  sound = insert-AllValues IsSound k _ h.key_states (ground arith) v.sound;
}
step-Inv h (registers_virtual code tap) v = register_virtual-Inv h code tap v
step-Inv h (registers_map m) v = register_map-Inv h m v
step-Inv h (registers_trigger k n tap) v = record {
  distinct = insert-Distinct k _ h.key_states v.distinct;
  sound = insert-AllValues IsSound k _ h.key_states (ground arith) v.sound;
}
step-Inv h (processes k e now) v = process-Inv h k e now v
step-Inv h (checks now) v = record {
  distinct = check-Distinct h now v.distinct;
  sound = check_entries-IsSound h.hold_threshold_ms now h.key_states v.sound;
}
step-Inv h resets v = record {
  distinct = (reset-Distinct h.key_states 0).1 v.distinct;
  sound = reset-IsSound h.key_states v.sound;
}

pub run-Inv : (h : Handler) (cs : List Call) → Inv h → Inv (run h cs)
unfolding run
run-Inv h [] v = v
run-Inv h (c ∷ cs) v = run-Inv (step h c) cs (step-Inv h c v)

-- Whatever the hold threshold, and whatever calls are made in whatever order and at whatever times,
-- the keys of the handler stay distinct, every modifier number is a byte, and no key is ever in the
-- state `TAP_DETECTED`.
pub run-init-Inv : (thr : ℕ) (cs : List Call) → Inv (run (handler_init thr) cs)
unfolding handler_init
run-init-Inv thr cs = run-Inv _ cs (record { distinct = tt; sound = tt })

abbrev reset_found : Option KeyState → Option KeyState
reset_found none = none
reset_found (some s) = some (record s { state = idle })

lookup-reset :
    (m : Assoc KeyState) (k : ℕ) → lookup k (map reset_entry m) ≡ reset_found (lookup k m)
unfolding lookup
lookup-reset [] k = refl
lookup-reset ((j, t) ∷ m) k = ground (arith, lookup-reset m k)

-- A reset lets every key go: no key is held and none waits, and the registered keys and the hold
-- threshold stay.
pub reset_lets_go :
    (h : Handler) (k : ℕ)
    → (is_modifier_held (reset h) k ≡ false)
      × (is_waiting_for_threshold (reset h) k ≡ false)
      × (is_virtual_modifier (reset h) k ≡ is_virtual_modifier h k)
      × ((reset h).hold_threshold_ms ≡ h.hold_threshold_ms)
unfolding is_modifier_held is_waiting_for_threshold is_virtual_modifier reset
reset_lets_go h k = ground (arith, lookup-reset h.key_states k)
