-- ===== src/Engine/Handler.antt =====
-- One turn of `keyboardHandler` for Linux in src/core/engine/engine_keyboard_handler.cpp, for an event
-- that was taken from the queue. The engine has a setting, and a current keymap.
use yamy.Base.{
  ℕ, zero, suc, ◌%◌, ◌^◌, Bool, true, false, not, ◌&&◌, Option, none, some, List, [], ◌∷◌, set_bit,
  ℤ, pos, negsuc, ltb, find_if, if◌then◌else◌,
}
use yamy.Modifier.{Modifier, modifier_init, type_up, type_down, press, release, add}
use yamy.ModifiedKey.{ModifiedKey, no_key, of_key, same_key}
use yamy.ModifierState.{KeyboardInputData}
use yamy.ScanCodes.{ScanCode, is_same_scan_code, is_prefix_scan_code}
use yamy.Keymap.{
  AssignMode, am_not_modifier, am_normal, am_true, am_one_shot, am_one_shot_repeatable,
}
use yamy.Keyboard.{says_yes}
use yamy.EventProcessor.{KeyCodes, Clock}
use yamy.Generator.Keys.{Keyboard, Output, next_count, generate_modifier_events}
use yamy.Generator.Actions.{Outcome, done, lift, ◌>>=◌, Setting, Current}
use yamy.Engine.Modifiers.{get_current_modifiers, fix_modifier_key}
use yamy.Engine.Begin.{Engine, begin_generating_keyboard_events}

-- What the thread keeps beside the engine's own state.
pub record Thread : Type 0 where
  pub engine : Engine
  pub is_enabled : Bool
  pub is_log_mode : Bool
  pub modifier_for_next_key : Modifier
  pub one_shot_key : ModifiedKey
  pub one_shot_repeatable_repeat_count : ℕ  -- uint32
  pub current_key_press_count : ℤ

pub record InputEvent : Type 0 where
  pub kid : KeyboardInputData
  pub evdev_code : ℕ  -- uint16
  pub is_key_down : Bool
  pub is_mouse_event : Bool

unfoldable pub inject_input : KeyboardInputData → Thread → Thread
inject_input kid th = record th {
  engine = record th.engine {
    output = record th.engine.output { injected = kid ∷ th.engine.output.injected };
  };
}

-- The flag E1 is bit 2.
unfoldable pub inject_e1 : KeyboardInputData → Thread → Thread
inject_e1 kid th = if kid.flags 2 then inject_input kid th else th

unfoldable pub update_last_pressed_key : Option ℕ → Thread → Thread
update_last_pressed_key key th = record th {
  engine = record th.engine {
    pressed = record th.engine.pressed {
      last_but_one_key = th.engine.pressed.last_pressed_key;
      last_pressed_key = key;
    };
  };
}

-- A disabled engine passes events on.
unfoldable pub pass_on : KeyboardInputData → Thread → Thread
pass_on kid th =
    update_last_pressed_key none (if th.is_log_mode then inject_e1 kid th else inject_input kid th)

-- `searchKey` and `searchPrefixKey` for a key with the one scan code of the event.
abbrev pub code_of : KeyboardInputData → List ScanCode
code_of kid = record { scan = kid.make_code; flags = kid.flags } ∷ []

unfoldable pub key_of : Keyboard → KeyboardInputData → Option ℕ
key_of kb kid =
    find_if (λ k. says_yes (is_same_scan_code (kb.scan_codes k) (code_of kid))) kb.all_keys

unfoldable pub prefix_key_of : Keyboard → KeyboardInputData → Option ℕ
prefix_key_of kb kid =
    find_if (λ k. says_yes (is_prefix_scan_code (kb.scan_codes k) (code_of kid))) kb.all_keys

-- The count of pressed keys and the flag of the key.
unfoldable pub note_key : Option ℕ → Bool → Thread → Thread
note_key none is_down th = th
note_key (some k) is_down th = record th {
  current_key_press_count =
      next_count is_down (th.engine.pressed.key_is_pressed k) th.current_key_press_count;
  engine = record th.engine {
    pressed = record th.engine.pressed {
      key_is_pressed = set_bit th.engine.pressed.key_is_pressed k is_down;
    };
  };
}

abbrev pub modified : Option ℕ → ModifiedKey
modified none = no_key
modified (some k) = of_key k

-- What a prefix key makes of the modified key and of the mode.
unfoldable pub prefix_mode : Thread → Bool → AssignMode → AssignMode
prefix_mode th is_modifier am =
    let mode = th.engine.output.mode in
    if mode.is_prefix && (is_modifier && mode.does_ignore_modifier_for_prefix) then am_true else am

unfoldable pub prefix_key : Thread → ModifiedKey → ModifiedKey
prefix_key th mk =
    let mode = th.engine.output.mode in
    if mode.is_prefix && mode.does_edit_next_modifier
    then record mk { modifier = add th.modifier_for_next_key mk.modifier }
    else mk

unfoldable pub forget_one_shot : Thread → Thread
forget_one_shot th = record th { one_shot_key = record th.one_shot_key { key = none } }

abbrev pub is_positive : ℤ → Bool
is_positive (pos zero) = false
is_positive (pos (suc n)) = true
is_positive (negsuc n) = false

module _ (codes : KeyCodes) (setting : Setting) (exec : ℕ → Bool → Current → Output → Output)
    (by_keymaps : Current → Engine → Outcome Engine) (fuel one_shot_repeatable_delay : ℕ) where
  -- `beginGeneratingKeyboardEvents` on the engine of the thread.
  unfoldable pub begin_in : Current → InputEvent → Bool → Clock → Thread → Outcome Thread
  begin_in c ev is_modifier clock th =
      begin_generating_keyboard_events codes setting exec by_keymaps fuel c ev.evdev_code
        is_modifier clock th.engine
      >>= λ e. done (record th { engine = e })

  -- The press of a one shot modifier.
  unfoldable pub one_shot_press :
      AssignMode → Current → InputEvent → Clock → Thread → Outcome Thread
  one_shot_press am_one_shot_repeatable c ev clock th =
      let count = th.one_shot_repeatable_repeat_count in
      if same_key th.one_shot_key.key c.mkey.key
      then ((if ltb count one_shot_repeatable_delay then done th else begin_in c ev false clock th)
          >>= λ t. done (record t { one_shot_repeatable_repeat_count = suc count % 2 ^ 32 }))
      else done (record th { one_shot_key = c.mkey; one_shot_repeatable_repeat_count = 0 })
  one_shot_press am c ev clock th =
      done (record th { one_shot_key = c.mkey; one_shot_repeatable_repeat_count = 0 })

  -- Its release: the press and the release of the key, if no other one was pressed in between.
  unfoldable pub one_shot_release :
      Option ℕ → Current → InputEvent → Clock → Clock → Thread → Outcome Thread
  one_shot_release none c ev clock clock' th = done th
  one_shot_release (some k) c ev clock clock' th =
      let m = th.one_shot_key.modifier in
      let down : Current = record c {
        mkey = record c.mkey { modifier = press (release m type_up) type_down };
      } in
      let up : Current = record c {
        mkey = record c.mkey { modifier = release (press m type_up) type_down };
      } in
      begin_in down ev false clock th >>= begin_in up ev false clock'

  unfoldable pub one_shot :
      AssignMode → Current → InputEvent → Clock → Clock → Thread → Outcome Thread
  one_shot am c ev clock clock' th =
      if ev.is_key_down
      then one_shot_press am c ev clock th
      else one_shot_release th.one_shot_key.key c ev clock clock' th >>= λ t.
          done (record (forget_one_shot t) { one_shot_repeatable_repeat_count = 0 })

  -- The branches for a key that is no true and no one shot modifier.
  unfoldable pub plain_key :
      Option ℕ → Bool → Current → InputEvent → Clock → Thread → Outcome Thread
  plain_key none is_modifier c ev clock th = done (inject_e1 ev.kid th)
  plain_key (some k) is_modifier c ev clock th =
      begin_in c ev is_modifier clock (if ev.is_key_down then forget_one_shot th else th)

  unfoldable pub by_mode :
      AssignMode → Bool → Current → InputEvent → Clock → Clock → Thread → Outcome Thread
  by_mode am_true is_modifier c ev clock clock' th = done th
  by_mode am_one_shot is_modifier c ev clock clock' th = one_shot am_one_shot c ev clock clock' th
  by_mode am_one_shot_repeatable is_modifier c ev clock clock' th =
      one_shot am_one_shot_repeatable c ev clock clock' th
  by_mode am_normal is_modifier c ev clock clock' th =
      plain_key c.mkey.key is_modifier c ev clock th
  by_mode am_not_modifier is_modifier c ev clock clock' th =
      plain_key c.mkey.key is_modifier c ev clock th

  -- The end of a turn: with no key pressed all modifiers are released.
  unfoldable pub end_turn : Thread → Outcome Thread
  end_turn th =
      if is_positive th.current_key_press_count
      then done th
      else lift (generate_modifier_events setting.keyboard modifier_init th.engine.output) >>= λ s.
          done (record th { engine = record th.engine { output = s } })

  -- The part with a key, or with none that the keyboard knows.
  unfoldable pub with_key : Option ℕ → InputEvent → Clock → Clock → Thread → Outcome Thread
  with_key key ev clock clock' th =
      let noted = note_key key ev.is_key_down th in
      let current : ModifiedKey = record (modified key) {
        modifier = get_current_modifiers noted.engine.pressed key ev.is_key_down;
      } in
      let (fixed, am, is_modifier) = fix_modifier_key noted.engine.pressed current in
      let c : Current = record {
        keymap = noted.engine.output.mode.current_keymap;
        mkey = prefix_key noted fixed;
      } in
      (if noted.is_log_mode
        then done (inject_e1 ev.kid noted)
        else by_mode (prefix_mode noted is_modifier am) is_modifier c ev clock clock' noted)
      >>= end_turn

  -- Without a key the event may be the beginning of one with more scan codes, and is dropped.
  unfoldable pub without_key : Option ℕ → InputEvent → Clock → Clock → Thread → Outcome Thread
  without_key none ev clock clock' th = with_key none ev clock clock' th
  without_key (some k) ev clock clock' th =
      if ev.is_mouse_event then with_key none ev clock clock' th else done th

  unfoldable pub searched : Option ℕ → InputEvent → Clock → Clock → Thread → Outcome Thread
  searched (some k) ev clock clock' th = with_key (some k) ev clock clock' th
  searched none ev clock clock' th =
      without_key (prefix_key_of setting.keyboard ev.kid) ev clock clock' th

  unfoldable pub keyboard_handler : InputEvent → Clock → Clock → Thread → Outcome Thread
  keyboard_handler ev clock clock' th =
      if not th.is_enabled
      then done (pass_on ev.kid th)
      else searched (key_of setting.keyboard ev.kid) ev clock clock' th
