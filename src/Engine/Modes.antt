-- ===== src/Engine/Modes.antt =====
-- The branches of a turn in src/core/engine/engine_keyboard_handler.cpp, which keep the count of pressed
-- keys.
use yamy.Engine.Results.{OnDone, OnDone->>=, OnDone-if}
use yamy.Base.{
  ℕ, suc, ◌≡◌, refl, sym, ap, ◌∙◌, Bool, true, false, Option, none, some, pos, ◌==◌, if◌then◌else◌,
  Bool-cases, inl, inr, ltb, ◌%◌, ◌^◌,
}
use yamy.Modifier.{modifier_init}
use yamy.ModifiedKey.{same_key}
use yamy.Keymap.{
  AssignMode, am_not_modifier, am_normal, am_true, am_one_shot, am_one_shot_repeatable,
  KeyAssignment,
}
use yamy.EventProcessor.{KeyCodes, EventProcessor, Clock}
use yamy.Generator.Keys.{Keyboard, Output, next_count, generate_modifier_events}
use yamy.Generator.Held.{count_pressed, next_count-pos}
use yamy.Generator.Actions.{Outcome, done, fault, too_deep, lift, Setting, Current}
use yamy.Engine.Begin.{
  Engine, by_processor, run_found, early_search, begin_generating_keyboard_events,
}
use yamy.Engine.Kept.{IsListed}
use yamy.Engine.Handler.{
  is_positive, Thread, InputEvent, inject_input, inject_e1, note_key, forget_one_shot, begin_in,
  one_shot_press, one_shot_release, one_shot, plain_key, by_mode, end_turn,
}

-- Which keys are pressed does not change.
abbrev pub SamePressed : Engine → Engine → Type 0
SamePressed e e' = e'.pressed.key_is_pressed ≡ e.pressed.key_is_pressed

-- The count is the number of keys with the flag `m_isPressed`.
abbrev pub ThreadCounted : Keyboard → Thread → Type 0
ThreadCounted kb th =
    th.current_key_press_count ≡ pos (count_pressed th.engine.pressed.key_is_pressed kb.all_keys)

pub note_key-ThreadCounted :
    (kb : Keyboard) (key : Option ℕ) (is_down : Bool) (th : Thread)
    → IsListed kb key
    → ThreadCounted kb th
    → ThreadCounted kb (note_key key is_down th)
unfolding note_key
note_key-ThreadCounted kb none is_down th l h = h
note_key-ThreadCounted kb (some k) is_down th l h =
    ap (next_count is_down (th.engine.pressed.key_is_pressed k)) h
    ∙ next_count-pos th.engine.pressed.key_is_pressed k is_down kb.all_keys l

module _ (codes : KeyCodes) (setting : Setting) (exec : ℕ → Bool → Current → Output → Output)
    (by_keymaps : Current → Engine → Outcome Engine)
    (keymaps_keep : (c : Current) (e : Engine) → OnDone (SamePressed e) (by_keymaps c e)) where
  by_processor-OnDone :
      (p : Option EventProcessor) (c : Current) (evdev_code : ℕ) (clock : Clock) (e : Engine)
      → OnDone (SamePressed e) (by_processor codes setting exec by_keymaps p c evdev_code clock e)
  unfolding by_processor
  by_processor-OnDone none c evdev_code clock e = keymaps_keep c e
  by_processor-OnDone (some p) c evdev_code clock e =
      OnDone-if (SamePressed e) (evdev_code == 0) _ _ (keymaps_keep c e) (refl)

  any_outcome : {A : Type 0} (o : Outcome A) → OnDone (λ a. Unit {0}) o
  any_outcome (done a) = tt
  any_outcome fault = tt
  any_outcome too_deep = tt

  run_found-OnDone :
      (fuel : ℕ) (found : Option KeyAssignment) (c : Current) (evdev_code : ℕ) (clock : Clock)
      (e : Engine)
      → OnDone
          (SamePressed e)
          (run_found codes setting exec by_keymaps fuel found c evdev_code clock e)
  unfolding run_found
  run_found-OnDone fuel none c evdev_code clock e =
      by_processor-OnDone e.event_processor c evdev_code clock e
  run_found-OnDone fuel (some a) c evdev_code clock e =
      OnDone->>= (λ s. Unit {0}) (SamePressed e) _ (λ s. done (record e { output = s }))
        (any_outcome _) (λ s u. refl)

  begin-OnDone :
      (fuel : ℕ) (c : Current) (evdev_code : ℕ) (is_modifier : Bool) (clock : Clock) (e : Engine)
      → OnDone (SamePressed e) (
          begin_generating_keyboard_events codes setting exec by_keymaps fuel c evdev_code
            is_modifier clock e)
  unfolding begin_generating_keyboard_events
  begin-OnDone fuel c evdev_code is_modifier clock e =
      OnDone->>= (λ found. Unit {0}) (SamePressed e)
        (early_search codes setting exec by_keymaps c is_modifier e)
        (λ found. run_found codes setting exec by_keymaps fuel found c evdev_code clock e)
        (any_outcome (early_search codes setting exec by_keymaps c is_modifier e))
        (λ found u. run_found-OnDone fuel found c evdev_code clock e)

  module _ (fuel delay : ℕ) where
    abbrev Good : Thread → Type 0
    Good th = ThreadCounted setting.keyboard th

    begin_in-OnDone :
        (c : Current) (ev : InputEvent) (is_modifier : Bool) (clock : Clock) (th : Thread)
        → Good th
        → OnDone Good (begin_in codes setting exec by_keymaps fuel delay c ev is_modifier clock th)
    unfolding begin_in
    begin_in-OnDone c ev is_modifier clock th h =
        OnDone->>= (SamePressed th.engine) Good
          (begin_generating_keyboard_events codes setting exec by_keymaps fuel c ev.evdev_code
            is_modifier clock th.engine)
          (λ e. done (record th { engine = e }))
          (begin-OnDone fuel c ev.evdev_code is_modifier clock th.engine)
          (λ e s. (h ∙ ap (λ b. pos (count_pressed b setting.keyboard.all_keys)) (sym s)))

    one_shot_press-OnDone :
        (am : AssignMode) (c : Current) (ev : InputEvent) (clock : Clock) (th : Thread)
        → Good th
        → OnDone Good (one_shot_press codes setting exec by_keymaps fuel delay am c ev clock th)
    unfolding one_shot_press
    one_shot_press-OnDone am_not_modifier c ev clock th h = h
    one_shot_press-OnDone am_normal c ev clock th h = h
    one_shot_press-OnDone am_true c ev clock th h = h
    one_shot_press-OnDone am_one_shot c ev clock th h = h
    one_shot_press-OnDone am_one_shot_repeatable c ev clock th h =
        elim (Bool-cases (same_key th.one_shot_key.key c.mkey.key)) [
          | inr n ↦ rw n h
          | inl y ↦ elim (Bool-cases (ltb th.one_shot_repeatable_repeat_count delay)) [
            | inl z ↦ rw (y, z) h
            | inr z ↦
                rw (y, z)
                  (OnDone->>= Good Good
                    (begin_in codes setting exec by_keymaps fuel delay c ev false clock th)
                    (λ t. done (record t {
                      one_shot_repeatable_repeat_count =
                          suc th.one_shot_repeatable_repeat_count % 2 ^ 32;
                    }))
                    (begin_in-OnDone c ev false clock th h) (λ t g. g))
          ]
        ]

    one_shot_release-OnDone :
        (key : Option ℕ) (c : Current) (ev : InputEvent) (clock clock' : Clock) (th : Thread)
        → Good th
        → OnDone Good
            (one_shot_release codes setting exec by_keymaps fuel delay key c ev clock clock' th)
    unfolding one_shot_release
    one_shot_release-OnDone none c ev clock clock' th h = h
    one_shot_release-OnDone (some k) c ev clock clock' th h =
        OnDone->>= Good Good _ _ (begin_in-OnDone _ ev false clock th h)
          (λ t g. begin_in-OnDone _ ev false clock' t g)

    one_shot-OnDone :
        (am : AssignMode) (c : Current) (ev : InputEvent) (clock clock' : Clock) (th : Thread)
        → Good th
        → OnDone Good (one_shot codes setting exec by_keymaps fuel delay am c ev clock clock' th)
    unfolding one_shot forget_one_shot
    one_shot-OnDone am c ev clock clock' th h =
        OnDone-if Good _ _ _ (one_shot_press-OnDone am c ev clock th h) (
          OnDone->>= Good Good _ _
            (one_shot_release-OnDone th.one_shot_key.key c ev clock clock' th h) (λ t g. g))

    pub inject_e1-Good : (ev : InputEvent) (th : Thread) → Good th → Good (inject_e1 ev.kid th)
    unfolding inject_e1 inject_input
    inject_e1-Good ev th h = elim (Bool-cases (ev.kid.flags 2)) [ inl y ↦ rw y h | inr n ↦ rw n h ]

    plain_key-OnDone :
        (key : Option ℕ) (is_modifier : Bool) (c : Current) (ev : InputEvent) (clock : Clock)
        (th : Thread)
        → Good th
        → OnDone Good
            (plain_key codes setting exec by_keymaps fuel delay key is_modifier c ev clock th)
    unfolding plain_key forget_one_shot
    plain_key-OnDone none is_modifier c ev clock th h = (inject_e1-Good ev th h)
    plain_key-OnDone (some k) is_modifier c ev clock th h =
        begin_in-OnDone c ev is_modifier clock _ (forgotten ev.is_key_down)
      where
        forgotten : (b : Bool) → Good (if b then forget_one_shot th else th)
        forgotten true = h
        forgotten false = h

    pub by_mode-OnDone :
        (am : AssignMode) (is_modifier : Bool) (c : Current) (ev : InputEvent)
        (clock clock' : Clock) (th : Thread)
        → Good th
        → OnDone Good
            (by_mode codes setting exec by_keymaps fuel delay am is_modifier c ev clock clock' th)
    unfolding by_mode
    by_mode-OnDone am_true is_modifier c ev clock clock' th h = h
    by_mode-OnDone am_one_shot is_modifier c ev clock clock' th h =
        one_shot-OnDone am_one_shot c ev clock clock' th h
    by_mode-OnDone am_one_shot_repeatable is_modifier c ev clock clock' th h =
        one_shot-OnDone am_one_shot_repeatable c ev clock clock' th h
    by_mode-OnDone am_normal is_modifier c ev clock clock' th h =
        plain_key-OnDone c.mkey.key is_modifier c ev clock th h
    by_mode-OnDone am_not_modifier is_modifier c ev clock clock' th h =
        plain_key-OnDone c.mkey.key is_modifier c ev clock th h

    pub end_turn-OnDone :
        (th : Thread) → Good th → OnDone Good (end_turn codes setting exec by_keymaps fuel delay th)
    unfolding end_turn
    end_turn-OnDone th h = elim (Bool-cases (is_positive th.current_key_press_count)) [
      | inl y ↦ rw y h
      | inr n ↦ rw n (
          OnDone->>= (λ s. Unit {0}) Good
            (lift (generate_modifier_events setting.keyboard modifier_init th.engine.output))
            (λ s. done (record th { engine = record th.engine { output = s } })) (any_outcome _)
            (λ s u. h))
    ]
