-- ===== src/Generator/Actions.antt =====
-- `generateActionEvents`, `generateKeySeqEvents` and `generateKeyboardEvents` of
-- src/core/engine/engine_generator.cpp, which call each other. The fuel is the depth of the key
-- sequences.
use yamy.Base.{
  ℕ, zero, suc, ◌-◌, ℤ, Bool, true, false, ◌||◌, Option, none, some, List, [], ◌∷◌, ◌==◌,
  if◌then◌else◌,
}
use yamy.Modifier.{Modifier, type_up, type_down, is_pressed, add}
use yamy.ModifiedKey.{ModifiedKey}
use yamy.ScanCodes.{ScanCode}
use yamy.Keymap.{KeyAssignment}
use yamy.Generator.Modes.{set_current_keymap, begin_prefix, positive, repeat_end, earlier_keymap}
use yamy.Generator.Keys.{Keyboard, Output, generate_key_event, generate_modifier_events}
pub use yamy.Generator.Parts.{
  Outcome, ◌>>=◌, lift, Command, Action, Keymap, Setting, Current, Part, max_recursion_count,
  search_by_code, done, fault, too_deep, default, keymap_parent, sync, keymap, other,
  keymap_prev_prefix, prefix, repeat, key, key_seq, function, part_all, part_up, part_down,
}
unfoldable pub use yamy.Generator.Parts.{
  current_is_pressed, on_or_dontcare, search_in_keymap, key_event_of, exec_default, with_part,
}

-- The loop of `generateKeySeqEvents` over the actions, for the parts but the release.
unfoldable pub press_actions :
    (Action → Bool → Output → Outcome Output)
    → Bool
    → Action
    → List Action
    → Output
    → Outcome Output
press_actions act is_all a [] s = act a true s >>= λ t. if is_all then act a false t else done t
press_actions act is_all a (b ∷ rest) s =
    act a true s >>= act a false >>= press_actions act is_all b rest

abbrev pub last_action : Action → List Action → Action
last_action a [] = a
last_action a (b ∷ rest) = last_action b rest

unfoldable pub seq_actions :
    (Action → Bool → Output → Outcome Output) → List Action → Part → Output → Outcome Output
seq_actions act [] part s = done s
seq_actions act (a ∷ rest) part_all s = press_actions act true a rest s
seq_actions act (a ∷ rest) part_up s = act (last_action a rest) false s
seq_actions act (a ∷ rest) part_down s = press_actions act false a rest s

unfoldable pub leave_recursion : Output → Output
leave_recursion s = record s { recursion_guard = s.recursion_guard - 1 }

unfoldable pub enter_recursion : Output → Output
enter_recursion s = record s { recursion_guard = suc s.recursion_guard }

-- `Command_Sync::exec`, for the modifiers of the function; the wait for the key is left out.
abbrev pub release_sync : Keyboard → List ScanCode → Output → Output
release_sync kb [] s = s
release_sync kb (sc ∷ rest) s = generate_key_event kb kb.sync_key false false s

unfoldable pub exec_sync : Keyboard → Modifier → Bool → Output → Outcome Output
exec_sync kb m false s = done s
exec_sync kb m true s = lift (generate_modifier_events kb m s) >>= λ t.
    done (if t.mode.is_console_window then t else release_sync kb (kb.scan_codes kb.sync_key) t)

module _ (setting : Setting) (exec : ℕ → Bool → Current → Output → Output) where
  -- A command that does not call the generator; none of them knows the guard.
  unfoldable pub run_other : ℕ → Bool → Current → Output → Output
  run_other f do_press c s = record (exec f do_press c s) { recursion_guard = s.recursion_guard }

  -- `generateEvents`, for an event key.
  unfoldable pub event_events :
      (Current → ℕ → Part → Output → Outcome Output) → Current → ℕ → ℕ → Output → Outcome Output
  event_events seq_events c m event s =
      let here = record c { keymap = m; mkey = record c.mkey { key = some event } } in
      search_in_keymap setting m here.mkey >>= λ found. elim found [
        | none ↦ done s
        | some a ↦ seq_events here a.key_seq part_all s
      ]

  module _ (keyboard_events : Current → Output → Outcome Output)
      (seq_events : Current → ℕ → Part → Output → Outcome Output) where
    -- `Command_KeymapParent::exec` for a keymap with this parent.
    unfoldable pub exec_parent : Option ℕ → Bool → Current → Output → Outcome Output
    exec_parent none do_press c s = exec_default setting.keyboard do_press c s
    exec_parent (some m) do_press c s = keyboard_events (record c { keymap = m }) s

    -- `Command_KeymapPrevPrefix::exec`. The size of the history, from which the number is taken as
    -- an unsigned one, does not bound it: behind the history is a fault.
    unfoldable pub exec_prev_prefix : ℕ → Current → Output → Outcome Output
    exec_prev_prefix zero c s = done s
    exec_prev_prefix (suc n) c s = lift (earlier_keymap n s.mode.keymap_prefix_history) >>= λ m.
        keyboard_events (record c { keymap = m }) s

    -- `Command_Prefix::exec`
    unfoldable pub exec_prefix : ℕ → Bool → Bool → Current → Output → Outcome Output
    exec_prefix m does_ignore false c s = done s
    exec_prefix m does_ignore true c s =
        event_events seq_events c m setting.prefixed (set_current_keymap m true s) >>= λ t.
        done (begin_prefix does_ignore t)

    -- The loop of `Command_Repeat::exec`, and the press behind it.
    unfoldable pub repeat_seq : Current → ℕ → ℕ → Output → Outcome Output
    repeat_seq c q zero s = seq_events c q part_down s
    repeat_seq c q (suc n) s = seq_events c q part_all s >>= repeat_seq c q n

    unfoldable pub repeat_up_to : Current → ℕ → ℕ → Output → Outcome Output
    repeat_up_to c q zero s = done s
    repeat_up_to c q (suc n) s = repeat_seq c q n s

    -- `Command_Repeat::exec`
    unfoldable pub exec_repeat : ℕ → ℤ → Bool → Current → Output → Outcome Output
    exec_repeat q max true c s = repeat_up_to c q (repeat_end s.mode.variable max) s
    exec_repeat q max false c s = seq_events c q part_up s

    unfoldable pub exec_command : Command → Modifier → Bool → Current → Output → Outcome Output
    exec_command default m do_press c s = exec_default setting.keyboard do_press c s
    exec_command keymap_parent m do_press c s =
        exec_parent (setting.keymaps c.keymap).parent_keymap do_press c s
    exec_command sync m do_press c s = exec_sync setting.keyboard m do_press s
    exec_command (keymap n) m do_press c s = keyboard_events (record c { keymap = n }) s
    exec_command (other f) m do_press c s = done (run_other f do_press c s)
    exec_command (keymap_prev_prefix i) m do_press c s = exec_prev_prefix (positive i) c s
    exec_command (prefix n does_ignore) m do_press c s = exec_prefix n does_ignore do_press c s
    exec_command (repeat q max) m do_press c s = exec_repeat q max do_press c s

    -- `generateActionEvents`, branch by branch.
    unfoldable pub key_action : Current → ModifiedKey → Bool → Output → Outcome Output
    key_action c mk false s =
        if on_or_dontcare mk.modifier type_up
        then key_event_of setting.keyboard mk.key false s
        else done s
    key_action c mk true s =
        if on_or_dontcare mk.modifier type_down
        then lift (generate_modifier_events setting.keyboard (add mk.modifier c.mkey.modifier) s)
          >>= key_event_of setting.keyboard mk.key true
        else done s

    unfoldable pub generate_action_events : Current → Action → Bool → Output → Outcome Output
    generate_action_events c (key mk) do_press s = key_action c mk do_press s
    generate_action_events c (key_seq q) do_press s =
        seq_events c q (if do_press then part_down else part_up) s
    generate_action_events c (function f m) do_press s =
        if on_or_dontcare m (if do_press then type_down else type_up)
        then exec_command f m do_press (with_part do_press c) s
        else done s

  -- The body of `generateKeyboardEvents` behind the guard. No command changes the guard but by this
  -- function, so it is above 0 where it is counted down.
  unfoldable pub run_assignment :
      (Current → ℕ → Part → Output → Outcome Output)
      → Current
      → Option KeyAssignment
      → Output
      → Outcome Output
  run_assignment seq_events c none s =
      seq_events c (setting.keymaps c.keymap).default_key_seq
        (if current_is_pressed c then part_down else part_up) s
  run_assignment seq_events c (some a) s =
      seq_events c a.key_seq
        (if is_pressed a.modified_key.modifier type_up
            || is_pressed a.modified_key.modifier type_down
          then part_all
          else (if current_is_pressed c then part_down else part_up))
        s

  unfoldable pub keyboard_events_with :
      (Current → ℕ → Part → Output → Outcome Output) → Current → Output → Outcome Output
  keyboard_events_with seq_events c s =
      if suc s.recursion_guard == max_recursion_count
      then done (enter_recursion s)
      else search_in_keymap setting c.keymap c.mkey >>= λ found.
          run_assignment seq_events c found (enter_recursion s) >>= λ t. done (leave_recursion t)

  unfoldable pub generate_key_seq_events : ℕ → Current → ℕ → Part → Output → Outcome Output
  generate_key_seq_events zero c q part s = too_deep
  generate_key_seq_events (suc fuel) c q part s =
      seq_actions
        (generate_action_events (keyboard_events_with (generate_key_seq_events fuel))
          (generate_key_seq_events fuel) c)
        (setting.actions q) part s

  unfoldable pub generate_keyboard_events : ℕ → Current → Output → Outcome Output
  generate_keyboard_events fuel c s = keyboard_events_with (generate_key_seq_events fuel) c s

  unfoldable pub generate_events : ℕ → Current → ℕ → ℕ → Output → Outcome Output
  generate_events fuel = event_events (generate_key_seq_events fuel)
