-- ===== src/Engine/ModeKept.antt =====
-- What is injected for a processed event, in src/core/engine/engine_generator.cpp, leaves the keymap and
-- the rest of the mode as they were.
use yamy.Base.{
  ℕ, ◌≡◌, refl, ◌∙◌, Bool, true, false, not, ◌&&◌, Option, none, some, ◌==◌, Bool-cases, inl, inr,
}
use yamy.EventProcessor.{ProcessedEvent}
use yamy.Generator.Keys.{Keyboard, Output, is_event, generate_key_event, send_key, mark_key}
use yamy.Generator.Held.{is_sent}
use yamy.Engine.Begin.{key_for_code, output_key, click, inject_key, inject_processed}

event-mode :
    (kb : Keyboard) (k : ℕ) (v a : Bool) (s : Output)
    → (generate_key_event kb k v a s).mode ≡ s.mode
unfolding generate_key_event send_key mark_key
event-mode kb k v a s = elim (Bool-cases (is_event kb k)) [
  | inl y ↦ rw y refl
  | inr n ↦ elim (Bool-cases (is_sent kb k v s)) [ inl y ↦ rw (n, y) refl | inr m ↦ rw (n, m) refl ]
]

click-mode : (kb : Keyboard) (o : Option ℕ) (s : Output) → (click kb o s).mode ≡ s.mode
unfolding click
click-mode kb none s = refl
click-mode kb (some k) s = event-mode kb k false false _ ∙ event-mode kb k true false s

inject_key-mode :
    (kb : Keyboard) (o : Option ℕ) (v : Bool) (s : Output) → (inject_key kb o v s).mode ≡ s.mode
unfolding inject_key
inject_key-mode kb none v s = refl
inject_key-mode kb (some k) v s = event-mode kb k v false s

pub inject_processed-mode :
    (kb : Keyboard) (key : Option ℕ) (v : Bool) (r : ProcessedEvent) (s : Output)
    → (inject_processed kb key v r s).mode ≡ s.mode
unfolding inject_processed
inject_processed-mode kb key v r s = elim (Bool-cases (r.output_evdev == 0)) [
  | inl y ↦ rw y refl
  | inr n ↦ elim (Bool-cases (r.is_tap && (r.valid && not (r.output_yamy == 0)))) [
    | inl t ↦ rw (n, t) (click-mode kb (key_for_code kb r.output_yamy) s)
    | inr m ↦ rw (n, m) (inject_key-mode kb (output_key kb key r) v s)
  ]
]
