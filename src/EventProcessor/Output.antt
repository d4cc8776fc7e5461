-- ===== src/EventProcessor/Output.antt =====
-- What `EventProcessor::processEvent` of src/core/engine/engine_event_processor.cpp may return.
use yamy.Base.{ℕ, ◌≡◌, refl, ◌≢◌, ◌⊎◌, inl, inr, true, false, Option, arith, ◌==◌, Bool-cases}
use yamy.ModifierState.{ModifierState}
use yamy.ModifierKeys.Machine.{EventType, Reads}
use yamy.EventProcessor.{
  EventProcessor, KeyCodes, ProcessedEvent, Clock, Outcome, is_virtual_key, is_modifier, is_lock,
  invalid, finish, layer3_yamy_to_evdev, process_event, check_with, layer1_evdev_to_yamy,
  process_checked,
}

-- A result is either the invalid one for this type of event, or a valid one: an evdev code that is
-- not 0 and is the code of its YAMY code, which is in none of the three ranges of virtual codes.
abbrev pub IsOutput : KeyCodes → EventType → ProcessedEvent → Type 0
IsOutput codes type r =
    (r.type ≡ type)
    × ((r ≡ invalid type)
        ⊎ ((r.valid ≡ true)
            × (r.output_evdev ≢ 0)
            × (r.output_evdev ≡ codes.yamy_to_evdev r.output_yamy)
            × (is_virtual_key r.output_yamy ≡ false)
            × (is_modifier r.output_yamy ≡ false)
            × (is_lock r.output_yamy ≡ false)))

finish-IsOutput :
    (codes : KeyCodes) (type : EventType) (o : Outcome ℕ)
    → IsOutput codes type (finish codes type o).value
unfolding finish layer3_yamy_to_evdev
finish-IsOutput codes type o = ground arith

checked-IsOutput :
    (codes : KeyCodes) (c : EventProcessor × Option ModifierState) (k : ℕ) (type : EventType)
    (now : Reads)
    → IsOutput codes type (process_checked codes c k type now).value
unfolding process_checked
checked-IsOutput codes c k type now = elim (Bool-cases (layer1_evdev_to_yamy codes k == 0)) [
  | inl y ↦ rw y (refl, inl refl)
  | inr n ↦ rw n (finish-IsOutput codes type _)
]

-- Whatever the rules, the modifier keys, the state and the clock, an event keeps its type; it is
-- either suppressed, with all codes 0 and no tap, or put out under the evdev code of a YAMY code that
-- is no virtual key, no modal modifier and no lock.
pub process_event-IsOutput :
    (codes : KeyCodes) (p : EventProcessor) (s : Option ModifierState) (k : ℕ) (type : EventType)
    (clock : Clock)
    → IsOutput codes type (process_event codes p s k type clock).value
unfolding process_event
process_event-IsOutput codes p s k type clock =
    checked-IsOutput codes (check_with _ p.modifier_handler s clock.checks) k type clock.reads
