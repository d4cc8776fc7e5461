-- ===== src/Engine/Translated.antt =====
-- A release that `beginGeneratingKeyboardEvents` of src/core/engine/engine_generator.cpp translates
-- otherwise than the press.
use yamy.Base.{ℕ, ◌≡◌, refl, ap, ◌∙◌, Bool, true, false, Option, none, some, ◌==◌, if◌then◌else◌}
use yamy.Modifier.{type_down, is_pressed}
use yamy.ModifierState.{ModifierState}
use yamy.EventProcessor.{KeyCodes, EventProcessor, ProcessedEvent, Clock, process_event}
use yamy.ModifierKeys.Machine.{EventType}
use yamy.Generator.Keys.{Keyboard, Output, generate_key_event}
use yamy.Generator.Actions.{Outcome, done, Setting, Current}
use yamy.Generator.Basic.{IsKey, IsOn, event_self, event_other}
use yamy.Engine.Begin.{
  Engine, output_key, inject_key, inject_processed, early_search, begin_generating_keyboard_events,
  build_physical_modified_key,
}
use yamy.Engine.Kept.{begin-processed}

-- A processed event of the physical key that puts out key k.
abbrev pub PutsOut : Keyboard → Option ℕ → ℕ → ProcessedEvent → Type 0
PutsOut kb key k r =
    ((r.output_evdev == 0) ≡ false) × (r.is_tap ≡ false) × (output_key kb key r ≡ some k)

inject-PutsOut :
    (kb : Keyboard) (key : Option ℕ) (k : ℕ) (v : Bool) (r : ProcessedEvent) (s : Output)
    → PutsOut kb key k r
    → inject_processed kb key v r s ≡ generate_key_event kb k v false s
unfolding inject_processed inject_key
inject-PutsOut kb key k v r s h = simp (h.0, h.1) (ap (λ o. inject_key kb o v s) h.2)

module _ (codes : KeyCodes) (setting : Setting) (exec : ℕ → Bool → Current → Output → Output)
    (by_keymaps : Current → Engine → Outcome Engine) where
  one_event :
      (fuel : ℕ) (c : Current) (v : Bool) (evdev_code : ℕ) (is_modifier : Bool) (clock : Clock)
      (e : Engine) (p : EventProcessor) (k : ℕ)
      → is_pressed c.mkey.modifier type_down ≡ v
      → early_search codes setting exec by_keymaps c is_modifier e ≡ done none
      → e.event_processor ≡ some p
      → (evdev_code == 0) ≡ false
      → PutsOut setting.keyboard c.mkey.key k
          (process_event codes p
            (some e.modifier_state)
            evdev_code
            (if v then EventType.press else EventType.release)
            clock).value
      → (e' : Engine) × (begin_generating_keyboard_events codes setting exec by_keymaps fuel c
            evdev_code is_modifier clock e
          ≡ done e')
        × (e'.output ≡ generate_key_event setting.keyboard k v false e.output)
        × (e'.output.mode ≡ e.output.mode)
        × (e'.pressed ≡ e.pressed)
  one_event fuel c v evdev_code is_modifier clock e p k is_v early there code out =
      let r = λ (w : Bool).
        (process_event codes p (some e.modifier_state) evdev_code
          (if w then EventType.press else EventType.release) clock).value in
      let (e', d, o, m, q) =
        begin-processed codes setting exec by_keymaps fuel c evdev_code is_modifier clock e p early
          there code in
      (
        e',
        d,
        o
            ∙ ap (λ w. inject_processed setting.keyboard c.mkey.key w (r w) e.output) is_v
            ∙ inject-PutsOut setting.keyboard c.mkey.key k v (r v) e.output out,
        m,
        q,
      )

  -- The engine with another modifier state and event processor, as other keys leave it.
  abbrev pub meanwhile : ModifierState → EventProcessor → Engine → Engine
  meanwhile s p e = record e { modifier_state = s; event_processor = some p }

  -- Where the early search finds nothing: if the press of a key is translated to key a, and its
  -- release, under the modifier state of a later moment, to another key b, then after both calls key a
  -- is still pressed on the output side.
  pub begin-translated :
      (fuel : ℕ) (down up : Current) (evdev_code : ℕ) (is_modifier : Bool) (clock clock' : Clock)
      (e : Engine) (p p' : EventProcessor) (later : ModifierState) (a b : ℕ)
      → is_pressed down.mkey.modifier type_down ≡ true
      → is_pressed up.mkey.modifier type_down ≡ false
      → early_search codes setting exec by_keymaps down is_modifier e ≡ done none
      → early_search codes setting exec by_keymaps up is_modifier (meanwhile later p' e) ≡ done none
      → e.event_processor ≡ some p
      → (evdev_code == 0) ≡ false
      → PutsOut setting.keyboard down.mkey.key a
          (process_event codes p (some e.modifier_state) evdev_code EventType.press clock).value
      → PutsOut setting.keyboard up.mkey.key b
          (process_event codes p' (some later) evdev_code EventType.release clock').value
      → IsKey setting.keyboard a
      → IsKey setting.keyboard b
      → (b == a) ≡ false
      → (e1 : Engine) × (e2 : Engine) × (begin_generating_keyboard_events codes setting exec
            by_keymaps fuel down evdev_code is_modifier clock e
          ≡ done e1)
        × (begin_generating_keyboard_events codes setting exec by_keymaps fuel up evdev_code
              is_modifier clock'
              (meanwhile later p' e1)
            ≡ done e2)
        × IsOn a e2.output
  unfolding early_search build_physical_modified_key
  begin-translated fuel down up evdev_code is_modifier clock clock' e p p' later a b pressed
        released early early' there code out out' key_a key_b ne =
      let (e1, d1, o1, k1, q1) =
        one_event fuel down true evdev_code is_modifier clock e p a pressed early there code out in
      let es = early_search codes setting exec by_keymaps up is_modifier in
      let early1 : es (meanwhile later p' e1) ≡ done none =
        ap (λ m. es (record (meanwhile later p' e1) { output = record e1.output { mode = m } })) k1
        ∙ ap
            (λ q. es (record (meanwhile later p' e1) {
              output = record e1.output { mode = e.output.mode };
              pressed = q;
            }))
            q1
        ∙ early' in
      let (e2, d2, o2, k2, q2) =
        one_event fuel up false evdev_code is_modifier clock' (meanwhile later p' e1) p' b released
          early1 refl code out' in
      (
        e1,
        e2,
        d1,
        d2,
        ap (λ s. s.is_pressed_on_win32 a) o2
            ∙ event_other setting.keyboard b a false false e1.output key_b ne
            ∙ ap (λ s. s.is_pressed_on_win32 a) o1
            ∙ event_self setting.keyboard a true false e.output key_a,
      )
