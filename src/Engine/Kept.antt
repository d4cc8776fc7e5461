-- ===== src/Engine/Kept.antt =====
-- The event processor's way through `beginGeneratingKeyboardEvents` of
-- src/core/engine/engine_generator.cpp.
use yamy.Base.{
  ℕ, ◌≡◌, refl, ap, ◌∙◌, subst, Bool, true, false, not, ◌&&◌, Option, none, some, List, [], ◌∷◌,
  ◌==◌, if◌then◌else◌, find_if, All, get_or, Bool-cases, inl, inr, arith,
}
use yamy.Modifier.{type_down, is_pressed}
use yamy.EventProcessor.{KeyCodes, EventProcessor, ProcessedEvent, Clock, process_event}
use yamy.ModifierKeys.Machine.{EventType}
use yamy.Generator.Keys.{Keyboard, Output}
use yamy.Generator.Actions.{Outcome, done, Setting, Current}
use yamy.Generator.Reached.{Listed, IsSound, Counted, Agrees, Reached, key_event, Reached-kept}
use yamy.Engine.ModeKept.{inject_processed-mode}
use yamy.Engine.Begin.{
  Engine, key_for_code, output_key, click, inject_key, inject_processed, starts_with, input_yamy,
  run_found, early_search, by_processor, begin_generating_keyboard_events,
}

-- What is found in a list has what all its entries have.
pub find_if-All :
    (P : ℕ → Type 0) (p : ℕ → Bool) (l : List ℕ) (k : ℕ) → All P l → find_if p l ≡ some k → P k
unfolding find_if
find_if-All P p [] k a e = cc
find_if-All P p (x ∷ l) k a e = elim (Bool-cases (p x)) [
  | inl y ↦ let q : x ≡ k = ground (arith, e, y) in subst P q a.0
  | inr n ↦ find_if-All P p l k a.1 (rw (n, find_if) at e)
]

-- The key behind a pointer, if there is one, is a key of the keyboard.
abbrev pub IsListed : Keyboard → Option ℕ → Type 0
IsListed kb none = Unit
IsListed kb (some k) = Listed kb k

module _ (kb : Keyboard) (sound : IsSound kb) where
  key_for_code-IsListed : (yamy : ℕ) → IsListed kb (key_for_code kb yamy)
  unfolding key_for_code
  key_for_code-IsListed yamy =
      from (find_if (λ k. starts_with yamy (kb.scan_codes k)) kb.all_keys) refl
    where
      from :
          (o : Option ℕ)
          → find_if (λ k. starts_with yamy (kb.scan_codes k)) kb.all_keys ≡ o
          → IsListed kb o
      from none e = tt
      from (some k) e = find_if-All (Listed kb) _ kb.all_keys k sound.keys_once e

  output_key-IsListed :
      (key : Option ℕ) (r : ProcessedEvent) → IsListed kb key → IsListed kb (output_key kb key r)
  unfolding output_key
  output_key-IsListed key r h =
      elim (Bool-cases
        ((r.valid && not (r.output_yamy == 0)) && not (r.output_yamy == input_yamy kb key))) [
          | inl y ↦
              rw y (from (key_for_code kb r.output_yamy) (key_for_code-IsListed r.output_yamy))
          | inr n ↦ rw n h
        ]
    where
      from : (o : Option ℕ) → IsListed kb o → IsListed kb (elim o [ none ↦ key | some k ↦ some k ])
      from none g = h
      from (some k) g = g

  click-Reached :
      (o : Option ℕ) (s : Output) → IsListed kb o → Reached kb s → Reached kb (click kb o s)
  unfolding click
  click-Reached none s l r = r
  click-Reached (some k) s l r = key_event k false false l (key_event k true false l r)

  inject_key-Reached :
      (o : Option ℕ) (v : Bool) (s : Output)
      → IsListed kb o
      → Reached kb s
      → Reached kb (inject_key kb o v s)
  unfolding inject_key
  inject_key-Reached none v s l r = r
  inject_key-Reached (some k) v s l r = key_event k v false l r

  inject_processed-Reached :
      (key : Option ℕ) (v : Bool) (r : ProcessedEvent) (s : Output)
      → IsListed kb key
      → Reached kb s
      → Reached kb (inject_processed kb key v r s)
  unfolding inject_processed
  inject_processed-Reached key v r s l h = elim (Bool-cases (r.output_evdev == 0)) [
    | inl y ↦ rw y h
    | inr n ↦ elim (Bool-cases (r.is_tap && (r.valid && not (r.output_yamy == 0)))) [
      | inl t ↦
          rw (n, t)
            (click-Reached (key_for_code kb r.output_yamy) s (key_for_code-IsListed r.output_yamy)
              h)
      | inr m ↦
          rw (n, m) (inject_key-Reached (output_key kb key r) v s (output_key-IsListed key r l) h)
    ]
  ]

module _ (codes : KeyCodes) (setting : Setting) (exec : ℕ → Bool → Current → Output → Output)
    (by_keymaps : Current → Engine → Outcome Engine) where
  pub begin-by_processor :
      (fuel : ℕ) (c : Current) (evdev_code : ℕ) (is_modifier : Bool) (clock : Clock) (e : Engine)
      (p : EventProcessor)
      → early_search codes setting exec by_keymaps c is_modifier e ≡ done none
      → e.event_processor ≡ some p
      → begin_generating_keyboard_events codes setting exec by_keymaps fuel c evdev_code is_modifier
          clock e
        ≡ by_processor codes setting exec by_keymaps (some p) c evdev_code clock e
  unfolding begin_generating_keyboard_events run_found
  begin-by_processor fuel c evdev_code is_modifier clock e p early there =
      rw early (ap (λ o. by_processor codes setting exec by_keymaps o c evdev_code clock e) there)

  -- For a sound keyboard, an event of one of its keys with an evdev code, where there is an event
  -- processor and the early search finds nothing: the call returns, whatever the fuel, and leaves the
  -- keymap and the rest of the mode alone, and if the output was reached by calls of the generator from a new engine, then so
  -- is the new one, so that in it the count and the flags agree with what was injected.
  pub begin-Reached :
      (fuel : ℕ) (c : Current) (evdev_code : ℕ) (is_modifier : Bool) (clock : Clock) (e : Engine)
      (p : EventProcessor)
      → IsSound setting.keyboard
      → IsListed setting.keyboard c.mkey.key
      → early_search codes setting exec by_keymaps c is_modifier e ≡ done none
      → e.event_processor ≡ some p
      → (evdev_code == 0) ≡ false
      → Reached setting.keyboard e.output
      → (e' : Engine) × (begin_generating_keyboard_events codes setting exec by_keymaps fuel c
            evdev_code is_modifier clock e
          ≡ done e')
        × (e'.output.mode ≡ e.output.mode)
        × Reached setting.keyboard e'.output
        × Counted setting.keyboard e'.output
        × Agrees setting.keyboard e'.output
  unfolding by_processor
  begin-Reached fuel c evdev_code is_modifier clock e p sound listed early there code reached =
      let pressed = is_pressed c.mkey.modifier type_down in
      let r =
        process_event codes p (some e.modifier_state) evdev_code
          (if pressed then EventType.press else EventType.release) clock in
      let after = inject_processed setting.keyboard c.mkey.key pressed r.value e.output in
      let after_reached =
        inject_processed-Reached setting.keyboard sound c.mkey.key pressed r.value e.output listed
          reached in
      let kept = Reached-kept setting.keyboard sound after after_reached in
      (
        record e {
          event_processor = some r.processor;
          modifier_state = get_or e.modifier_state r.mod_state;
          output = after;
        },
        begin-by_processor fuel c evdev_code is_modifier clock e p early there ∙ rw code refl,
        inject_processed-mode setting.keyboard c.mkey.key pressed r.value e.output,
        after_reached,
        kept.0,
        kept.1,
      )

  -- What one event injects.
  pub begin-processed :
      (fuel : ℕ) (c : Current) (evdev_code : ℕ) (is_modifier : Bool) (clock : Clock) (e : Engine)
      (p : EventProcessor)
      → early_search codes setting exec by_keymaps c is_modifier e ≡ done none
      → e.event_processor ≡ some p
      → (evdev_code == 0) ≡ false
      → (e' : Engine) × (begin_generating_keyboard_events codes setting exec by_keymaps fuel c
            evdev_code is_modifier clock e
          ≡ done e')
        × (e'.output
            ≡ inject_processed setting.keyboard c.mkey.key
                (is_pressed c.mkey.modifier type_down)
                (process_event codes p
                  (some e.modifier_state)
                  evdev_code
                  (if is_pressed c.mkey.modifier type_down
                    then EventType.press
                    else EventType.release)
                  clock).value
                e.output)
        × (e'.output.mode ≡ e.output.mode)
        × (e'.pressed ≡ e.pressed)
  unfolding by_processor
  begin-processed fuel c evdev_code is_modifier clock e p early there code =
      let r =
        process_event codes p (some e.modifier_state) evdev_code
          (if is_pressed c.mkey.modifier type_down then EventType.press else EventType.release)
          clock in
      (
        record e {
          event_processor = some r.processor;
          modifier_state = get_or e.modifier_state r.mod_state;
          output =
              inject_processed setting.keyboard c.mkey.key (is_pressed c.mkey.modifier type_down)
                r.value e.output;
        },
        begin-by_processor fuel c evdev_code is_modifier clock e p early there ∙ rw code refl,
        refl,
        inject_processed-mode setting.keyboard c.mkey.key (is_pressed c.mkey.modifier type_down)
            r.value e.output,
        refl,
      )
