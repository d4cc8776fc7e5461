-- ===== src/Examples/Turns.antt =====
-- An example for the handler of src/core/engine/engine_keyboard_handler.cpp: key 5 is pressed.
use yamy.Base.{refl, true, false, no_bits, pos}
use yamy.Modifier.{modifier_init}
use yamy.ModifiedKey.{no_key}
use yamy.Generator.Actions.{Outcome, done, Current}
use yamy.Engine.Begin.{Engine}
use yamy.Engine.Handler.{Thread, InputEvent, keyboard_handler}
use yamy.Engine.Results.{OnDone}
use yamy.Engine.Modes.{SamePressed, ThreadCounted}
use yamy.Engine.Counted.{keyboard_handler-ThreadCounted}
use yamy.Examples.Generated.{five_keys, five_keys-IsSound}
use yamy.Examples.Recursing.{setting_of, layered, no_command}
use yamy.Examples.Engines.{codes, engine, clock}

abbrev thread : Thread
thread = record {
  engine = engine;
  is_enabled = true;
  is_log_mode = false;
  modifier_for_next_key = modifier_init;
  one_shot_key = no_key;
  one_shot_repeatable_repeat_count = 0;
  current_key_press_count = pos 0;
}

abbrev key_event : InputEvent
key_event = record {
  kid = record { make_code = 5; flags = no_bits };
  evdev_code = 5;
  is_key_down = true;
  is_mouse_event = false;
}

abbrev as_before : Current → Engine → Outcome Engine
as_before c e = done e

keymaps_keep : (c : Current) (e : Engine) → OnDone (SamePressed e) (as_before c e)
keymaps_keep c e = refl

keyboard_handler-ThreadCounted_example : OnDone (ThreadCounted five_keys) (
    keyboard_handler codes
      (setting_of layered)
      no_command
      as_before
      1
      10
      key_event
      clock
      clock
      thread)
keyboard_handler-ThreadCounted_example =
    keyboard_handler-ThreadCounted codes (setting_of layered) no_command as_before keymaps_keep 1 10
      five_keys-IsSound.keys_once key_event clock clock thread refl
