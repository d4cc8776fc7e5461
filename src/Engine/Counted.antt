-- ===== src/Engine/Counted.antt =====
-- The count of pressed keys in src/core/engine/engine_keyboard_handler.cpp.
use yamy.Engine.Modes.{
  SamePressed, ThreadCounted, note_key-ThreadCounted, by_mode-OnDone, inject_e1-Good,
  end_turn-OnDone,
}
use yamy.Engine.Results.{OnDone, OnDone->>=, OnDone-if}
use yamy.Base.{
  ℕ, ◌≡◌, refl, Bool, true, false, not, Option, none, some, if◌then◌else◌, All, find_if,
}
use yamy.EventProcessor.{KeyCodes, Clock}
use yamy.Generator.Keys.{Output}
use yamy.Generator.Reached.{Listed}
use yamy.Generator.Actions.{Outcome, done, Setting, Current}
use yamy.Engine.Begin.{Engine}
use yamy.Engine.Kept.{IsListed, find_if-All}
use yamy.Engine.Handler.{
  Thread, InputEvent, inject_input, inject_e1, update_last_pressed_key, pass_on, key_of,
  prefix_key_of, note_key, with_key, without_key, searched, keyboard_handler,
}

module _ (codes : KeyCodes) (setting : Setting) (exec : ℕ → Bool → Current → Output → Output)
    (by_keymaps : Current → Engine → Outcome Engine)
    (keymaps_keep : (c : Current) (e : Engine) → OnDone (SamePressed e) (by_keymaps c e))
    (fuel delay : ℕ) where
  abbrev Good : Thread → Type 0
  Good th = ThreadCounted setting.keyboard th

  with_key-OnDone :
      (key : Option ℕ) (ev : InputEvent) (clock clock' : Clock) (th : Thread)
      → IsListed setting.keyboard key
      → Good th
      → OnDone Good (with_key codes setting exec by_keymaps fuel delay key ev clock clock' th)
  unfolding with_key
  with_key-OnDone key ev clock clock' th l h =
      let noted = note_key key ev.is_key_down th in
      let g = note_key-ThreadCounted setting.keyboard key ev.is_key_down th l h in
      OnDone->>= Good Good _ _
        (OnDone-if Good noted.is_log_mode _ _
          ((inject_e1-Good codes setting exec by_keymaps keymaps_keep fuel delay ev noted g))
          (by_mode-OnDone codes setting exec by_keymaps keymaps_keep fuel delay _ _ _ ev clock
            clock' noted g))
        (end_turn-OnDone codes setting exec by_keymaps keymaps_keep fuel delay)

  module _ (keys_once : All (Listed setting.keyboard) setting.keyboard.all_keys) where
    found-IsListed :
        (p : ℕ → Bool) → IsListed setting.keyboard (find_if p setting.keyboard.all_keys)
    found-IsListed p = from (find_if p setting.keyboard.all_keys) refl
      where
        from :
            (o : Option ℕ) → find_if p setting.keyboard.all_keys ≡ o → IsListed setting.keyboard o
        from none e = tt
        from (some k) e =
            find_if-All (Listed setting.keyboard) p setting.keyboard.all_keys k keys_once e

    searched-OnDone :
        (key : Option ℕ) (ev : InputEvent) (clock clock' : Clock) (th : Thread)
        → IsListed setting.keyboard key
        → Good th
        → OnDone Good (searched codes setting exec by_keymaps fuel delay key ev clock clock' th)
    unfolding searched without_key
    searched-OnDone (some k) ev clock clock' th l h =
        with_key-OnDone (some k) ev clock clock' th l h
    searched-OnDone none ev clock clock' th l h = from (prefix_key_of setting.keyboard ev.kid)
      where
        from :
            (o : Option ℕ)
            → OnDone Good
                (without_key codes setting exec by_keymaps fuel delay o ev clock clock' th)
        from none = with_key-OnDone none ev clock clock' th tt h
        from (some k) =
            OnDone-if Good ev.is_mouse_event _ (done th)
              (with_key-OnDone none ev clock clock' th tt h) h

    if_Good : (b : Bool) (t u : Thread) → Good t → Good u → Good (if b then t else u)
    if_Good true t u g g' = g
    if_Good false t u g g' = g'

    pass_on-Good : (ev : InputEvent) (th : Thread) → Good th → Good (pass_on ev.kid th)
    unfolding pass_on update_last_pressed_key inject_input
    pass_on-Good ev th h =
        if_Good th.is_log_mode (inject_e1 ev.kid th) (inject_input ev.kid th)
          (inject_e1-Good codes setting exec by_keymaps keymaps_keep fuel delay ev th h) h

    -- For a keyboard that lists its keys once, and a way through the keymaps that does not change
    -- which keys are pressed: if the count of pressed keys is the number of keys with the flag
    -- `m_isPressed` before a turn of the handler, it is so after
    -- every turn that returns, whatever the event and the mode
    -- of the key.
    pub keyboard_handler-ThreadCounted :
        (ev : InputEvent) (clock clock' : Clock) (th : Thread)
        → ThreadCounted setting.keyboard th
        → OnDone
            (ThreadCounted setting.keyboard)
            (keyboard_handler codes setting exec by_keymaps fuel delay ev clock clock' th)
    unfolding keyboard_handler key_of
    keyboard_handler-ThreadCounted ev clock clock' th h =
        OnDone-if Good (not th.is_enabled) (done (pass_on ev.kid th))
          (searched codes setting exec by_keymaps fuel delay (key_of setting.keyboard ev.kid) ev
            clock clock' th)
          (pass_on-Good ev th h)
          (searched-OnDone (key_of setting.keyboard ev.kid) ev clock clock' th (found-IsListed _) h)
