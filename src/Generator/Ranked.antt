-- ===== src/Generator/Ranked.antt =====
-- Key sequences and keymaps of src/core/engine/engine_generator.cpp that do not call each other in a
-- circle.
use yamy.Generator.Commands.{prefix-Returns, prev_prefix-Returns, repeat-Returns}
use yamy.Generator.Sequences.{seq_actions-Returns}
use yamy.Base.{
  ℕ, zero, suc, ◌+◌, ◌≤◌, ◌<◌, ◌≡◌, refl, ap, ◌∙◌, subst, ◌≢◌, Bool, true, false, Option, none,
  some, List, [], ◌∷◌, ◌==◌, All, arith,
}
use yamy.Generator.Modes.{positive}
use yamy.Modifier.{type_up, type_down, add}
use yamy.ModifiedKey.{ModifiedKey}
use yamy.ScanCodes.{ScanCode}
use yamy.Keymap.{Assignments, KeyAssignment, search_assignment}
use yamy.Generator.Keys.{Output}
use yamy.Generator.Wanted.{AreModifiers}
use yamy.Generator.Returns.{
  Returns, Returns->>=, Returns-if, modifiers-Returns, sync-Returns, key_event-Returns,
  default-Returns,
}
use yamy.Generator.Actions.{
  Outcome, done, ◌>>=◌, lift, default, keymap_parent, sync, keymap, other, keymap_prev_prefix,
  prefix, repeat, run_other, Action, key, key_seq, function, Setting, Current, Part,
  max_recursion_count, on_or_dontcare, search_by_code, search_in_keymap, with_part, key_event_of,
  exec_parent, exec_command, key_action, generate_action_events, run_assignment, leave_recursion,
  enter_recursion, keyboard_events_with, generate_key_seq_events,
}

-- What keymap m runs for key j has a rank below r.
abbrev pub IsBelow : Setting → (ℕ → ℕ → ℕ) → ℕ → ℕ → ℕ → Type 0
IsBelow setting rank j r m =
    (rank m (setting.keymaps m).default_key_seq < r)
    × ((mk : ModifiedKey) (a : KeyAssignment)
        → search_in_keymap setting m mk ≡ done (some a)
        → mk.key ≡ some j
        → rank m a.key_seq < r)

abbrev IsParentBelow : Setting → (ℕ → ℕ → ℕ) → ℕ → ℕ → Option ℕ → Type 0
IsParentBelow setting rank j r none = Unit
IsParentBelow setting rank j r (some m) = IsBelow setting rank j r m

-- An action of a sequence of rank r, for key j in keymap x: what it calls has a lower rank.
abbrev pub IsRanked : Setting → (ℕ → ℕ → ℕ) → ℕ → ℕ → ℕ → Action → Type 0
IsRanked setting rank j x r (key mk) = (k : ℕ) × (mk.key ≡ some k)
IsRanked setting rank j x r (key_seq q) = rank x q < r
IsRanked setting rank j x r (function default m) = Unit
IsRanked setting rank j x r (function keymap_parent m) =
    IsParentBelow setting rank j r (setting.keymaps x).parent_keymap
IsRanked setting rank j x r (function (keymap m) _) = IsBelow setting rank j r m
IsRanked setting rank j x r (function (other f) _) = Unit
IsRanked setting rank j x r (function sync _) = Unit
IsRanked setting rank j x r (function (repeat q max) _) = rank x q < r
IsRanked setting rank j x r (function (prefix m _) _) =
    (mk : ModifiedKey) → mk.key ≡ some setting.prefixed → search_in_keymap setting m mk ≡ done none
IsRanked setting rank j x r (function (keymap_prev_prefix i) _) = positive i ≡ 0

module _ (setting : Setting) (exec : ℕ → Bool → Current → Output → Output)
    (mods_sound : AreModifiers setting.keyboard) (j : ℕ)
    (coded : setting.keyboard.scan_codes j ≢ []) (rank : ℕ → ℕ → ℕ)
    (ranked : (x q : ℕ) → All (IsRanked setting rank j x (rank x q)) (setting.actions q)) where
  found_code :
      (a : Assignments) (mk : ModifiedKey) (codes : List ScanCode)
      → codes ≢ []
      → (found : Option KeyAssignment) × (search_by_code a mk codes ≡ done found)
  found_code a mk [] h = absurd (h refl)
  found_code a mk (sc ∷ rest) h = (search_assignment a sc.scan mk, refl)

  search_ends :
      (m : ℕ) (mk : ModifiedKey)
      → mk.key ≡ some j
      → (found : Option KeyAssignment) × (search_in_keymap setting m mk ≡ done found)
  unfolding search_in_keymap
  search_ends m mk e =
      let (found, e') =
        found_code (setting.keymaps m).assignments mk (setting.keyboard.scan_codes j) coded in
      (
        found,
        ap
              (λ o. lift o >>= λ k.
                search_by_code (setting.keymaps m).assignments mk (setting.keyboard.scan_codes k))
              e
            ∙ e',
      )

  -- Sequences of rank below n return, within the guard.
  abbrev Below : ℕ → (Current → ℕ → Part → Output → Outcome Output) → Type 0
  Below n seq =
      (c : Current) (q : ℕ) (part : Part) (s : Output)
      → c.mkey.key ≡ some j
      → rank c.keymap q < n
      → rank c.keymap q + s.recursion_guard < max_recursion_count
      → Returns s.recursion_guard (seq c q part s)

  module _ (n : ℕ) (seq : Current → ℕ → Part → Output → Outcome Output) (below : Below n seq) where
    body-Returns :
        (c : Current) (s : Output) (r : ℕ) (found : Option KeyAssignment)
        → search_in_keymap setting c.keymap c.mkey ≡ done found
        → c.mkey.key ≡ some j
        → IsBelow setting rank j r c.keymap
        → r ≤ n
        → r + s.recursion_guard < max_recursion_count
        → Returns
            (suc s.recursion_guard)
            (run_assignment setting exec seq c found (enter_recursion s))
    unfolding run_assignment enter_recursion
    body-Returns c s r none f e b le lt =
        below c (setting.keymaps c.keymap).default_key_seq _ (enter_recursion s) e
          (omega (arith, b.0, le)) (omega (arith, b.0, lt))
    body-Returns c s r (some a) f e b le lt =
        below c a.key_seq _ (enter_recursion s) e (omega (arith, b.1 c.mkey a f e, le))
          (omega (arith, b.1 c.mkey a f e, lt))

    leave-Returns :
        (g : ℕ) (o : Outcome Output)
        → Returns (suc g) o
        → Returns g (o >>= λ t. done (leave_recursion t))
    unfolding leave_recursion
    leave-Returns g o (t, e, kept) = (leave_recursion t, rw e refl, omega (arith, kept))

    keyboard-Returns :
        (c : Current) (s : Output) (r : ℕ)
        → c.mkey.key ≡ some j
        → IsBelow setting rank j r c.keymap
        → r ≤ n
        → r + s.recursion_guard < max_recursion_count
        → Returns s.recursion_guard (keyboard_events_with setting exec seq c s)
    unfolding keyboard_events_with
    keyboard-Returns c s r e b le lt =
        let (found, f) = search_ends c.keymap c.mkey e in
        let open_guard : (suc s.recursion_guard == max_recursion_count) ≡ false =
          ground (arith, b.0, lt) in
        rw (open_guard, f)
          (leave-Returns s.recursion_guard
            (run_assignment setting exec seq c found (enter_recursion s))
            (body-Returns c s r found f e b le lt))

    parent-Returns :
        (o : Option ℕ) (p : Bool) (c : Current) (s : Output) (r : ℕ)
        → c.mkey.key ≡ some j
        → IsParentBelow setting rank j r o
        → r ≤ n
        → r + s.recursion_guard < max_recursion_count
        → Returns s.recursion_guard
            (exec_parent setting exec (keyboard_events_with setting exec seq) seq o p c s)
    unfolding exec_parent
    parent-Returns none p c s r e b le lt = default-Returns setting.keyboard mods_sound p c j s e
    parent-Returns (some m) p c s r e b le lt =
        keyboard-Returns (record c { keymap = m }) s r e b le lt

    key-Returns :
        (c : Current) (mk : ModifiedKey) (k : ℕ) (p : Bool) (s : Output)
        → mk.key ≡ some k
        → Returns s.recursion_guard
            (key_action setting exec (keyboard_events_with setting exec seq) seq c mk p s)
    unfolding key_action
    key-Returns c mk k false s e =
        Returns-if s.recursion_guard (on_or_dontcare mk.modifier type_up) _ _
          (key_event-Returns setting.keyboard mods_sound mk.key k false s e) (s, refl, refl)
    key-Returns c mk k true s e =
        Returns-if s.recursion_guard (on_or_dontcare mk.modifier type_down) _ _
          (Returns->>= s.recursion_guard _ (key_event_of setting.keyboard mk.key true)
            (modifiers-Returns setting.keyboard mods_sound (add mk.modifier c.mkey.modifier) s)
            (λ t kept.
              subst (λ g. Returns g (key_event_of setting.keyboard mk.key true t)) kept
                (key_event-Returns setting.keyboard mods_sound mk.key k true t e)))
          (s, refl, refl)

    action-Returns :
        (c : Current) (r : ℕ) (a : Action) (p : Bool) (s : Output)
        → c.mkey.key ≡ some j
        → r ≤ n
        → r + s.recursion_guard < max_recursion_count
        → IsRanked setting rank j c.keymap r a
        → Returns s.recursion_guard (
            generate_action_events setting exec (keyboard_events_with setting exec seq) seq c a p s)
    unfolding generate_action_events exec_command with_part run_other
    action-Returns c r (key mk) p s e le lt (k, q) = key-Returns c mk k p s q
    action-Returns c r (key_seq q) p s e le lt b =
        below c q _ s e (omega (arith, b, le)) (omega (arith, b, lt))
    action-Returns c r (function default m) p s e le lt b =
        Returns-if s.recursion_guard _ _ _
          (default-Returns setting.keyboard mods_sound p (with_part p c) j s e) (s, refl, refl)
    action-Returns c r (function keymap_parent m) p s e le lt b =
        Returns-if s.recursion_guard _ _ _
          (parent-Returns (setting.keymaps c.keymap).parent_keymap p (with_part p c) s r e b le lt)
          (s, refl, refl)
    action-Returns c r (function (keymap m) _) p s e le lt b =
        Returns-if s.recursion_guard _ _ _
          (keyboard-Returns (record (with_part p c) { keymap = m }) s r e b le lt) (s, refl, refl)
    action-Returns c r (function (other f) _) p s e le lt b =
        Returns-if s.recursion_guard _ _ _
          (run_other setting exec f p (with_part p c) s, refl, refl) (s, refl, refl)
    action-Returns c r (function sync m) p s e le lt b =
        Returns-if s.recursion_guard _ _ _ (sync-Returns setting.keyboard mods_sound m p s)
          (s, refl, refl)
    action-Returns c r (function (repeat q max) _) p s e le lt b =
        Returns-if s.recursion_guard _ _ _
          (repeat-Returns setting exec (keyboard_events_with setting exec seq) seq (with_part p c) q
            s.recursion_guard
            (λ part t kept.
              subst (λ g. Returns g (seq (with_part p c) q part t)) kept
                (below (with_part p c) q part t e (omega (arith, b, le))
                  (omega (arith, b, lt, kept))))
            max p s refl)
          (s, refl, refl)
    action-Returns c r (function (prefix m i) _) p s e le lt b =
        Returns-if s.recursion_guard _ _ _
          (prefix-Returns setting exec (keyboard_events_with setting exec seq) seq m i p
            (with_part p c) s b)
          (s, refl, refl)
    action-Returns c r (function (keymap_prev_prefix i) _) p s e le lt b =
        Returns-if s.recursion_guard _ _ _
          (prev_prefix-Returns setting exec (keyboard_events_with setting exec seq) seq (positive i)
            (with_part p c) s b)
          (s, refl, refl)

  -- Let each key sequence have a rank in each keymap that is above the ranks of the sequences that its
  -- actions name or repeat and of those that the keymaps it calls run for the key. If the modifiers have
  -- keys and share none, the key has a scan code, each key action has a key, no action goes back in the
  -- prefix history, a keymap that is called by a prefix assigns nothing to the event of a prefix, and
  -- the rank and the guard are together below 64, then with fuel above the rank
  -- `generateKeySeqEvents` returns without a fault, and the guard is as before.
  pub generate_key_seq_events-Returns :
      (fuel : ℕ) (c : Current) (q : ℕ) (part : Part) (s : Output)
      → c.mkey.key ≡ some j
      → rank c.keymap q < fuel
      → rank c.keymap q + s.recursion_guard < max_recursion_count
      → Returns s.recursion_guard (generate_key_seq_events setting exec fuel c q part s)
  unfolding generate_key_seq_events
  generate_key_seq_events-Returns zero c q part s e lt g = absurd (omega (arith, lt))
  generate_key_seq_events-Returns (suc fuel) c q part s e lt g =
      seq_actions-Returns s.recursion_guard _ (IsRanked setting rank j c.keymap (rank c.keymap q))
        (λ a p t r kept.
          subst
            (λ h. Returns h (
              generate_action_events setting exec
                (keyboard_events_with setting exec (generate_key_seq_events setting exec fuel))
                (generate_key_seq_events setting exec fuel) c a p t))
            kept
            (action-Returns fuel (generate_key_seq_events setting exec fuel)
              (generate_key_seq_events-Returns fuel) c (rank c.keymap q) a p t e (omega (arith, lt))
              (omega (arith, g, kept)) r))
        (setting.actions q) part s (ranked c.keymap q) refl
