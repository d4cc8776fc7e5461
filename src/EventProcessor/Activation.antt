-- ===== src/EventProcessor/Activation.antt =====
-- The virtual modifiers that `EventProcessor::processEvent` of
-- src/core/engine/engine_event_processor.cpp switches on and off in the `ModifierState`.
use yamy.Base.{
  ℕ, ◌<◌, ◌≡◌, refl, ◌≢◌, Bool, true, false, ◌||◌, Option, none, some, List, [], ◌∷◌, arith, ◌==◌,
  if◌then◌else◌,
}
use yamy.ModifierState.{ModifierState, is_modifier_active, activate_modifier, deactivate_modifier}
use yamy.ModifierKeys.Table.{KeyState, is_active, u8}
use yamy.ModifierKeys.Machine.{
  EventType, Reads, NumberKeyResult, ProcessingAction, activate_modifier as activating,
  deactivate_modifier as deactivating, key_event, is_due, check_entry, due_modifiers,
}
use yamy.ModifierKeys.Machine
use yamy.EventProcessor.{EventProcessor, act_on, activate_all, activate_type, deactivate_type}

-- Is there an entry for modifier n?
unfoldable pub mentions : ℕ → List (ℕ × ℕ) → Bool
mentions n [] = false
mentions n ((scancode, mod_num) ∷ rest) = mod_num == n || mentions n rest

is_active-activate :
    (m n : ℕ) (s : ModifierState)
    → is_modifier_active (activate_modifier s m) n ≡ (m == n || is_modifier_active s n)
unfolding activate_modifier is_modifier_active
is_active-activate m n s = ground arith

is_active-deactivate :
    (m n : ℕ) (s : ModifierState)
    → is_modifier_active (deactivate_modifier s m) n
      ≡ (if m == n then false else is_modifier_active s n)
unfolding deactivate_modifier is_modifier_active
is_active-deactivate m n s = ground arith

pub is_active-activate_all :
    (n : ℕ) (due : List (ℕ × ℕ)) (s : ModifierState)
    → is_modifier_active (activate_all due s) n ≡ (is_modifier_active s n || mentions n due)
unfolding activate_all mentions
is_active-activate_all n [] s = ground arith
is_active-activate_all n ((k, m) ∷ rest) s =
    ground (arith, is_active-activate_all n rest (activate_modifier s m), is_active-activate m n s)

-- The state that the `switch` on an action leaves.
unfoldable pub act_state : ProcessingAction → ModifierState → NumberKeyResult → ModifierState
act_state Machine.activate_modifier s r = activate_type s r.modifier_type
act_state Machine.deactivate_modifier s r = deactivate_type s r.modifier_type
act_state _ s r = s

pub act_on-mod_state :
    (a : ProcessingAction) (p : EventProcessor) (s : ModifierState) (r : NumberKeyResult) (y : ℕ)
    → ((act_on a p s r y).mod_state ≡ some (act_state a s r))
      × ((act_on a p s r y).processor.modifier_handler ≡ p.modifier_handler)
unfolding act_on act_state
act_on-mod_state a p s r y = ground arith

-- What an action does to the flag of modifier n.
abbrev pub switched : ProcessingAction → Option ℕ → ℕ → Bool → Bool
switched Machine.activate_modifier (some m) n b = if u8 m == n then true else b
switched Machine.deactivate_modifier (some m) n b = if u8 m == n then false else b
switched _ _ n b = b

is_active-activate_type :
    (s : ModifierState) (o : Option ℕ) (n : ℕ)
    → is_modifier_active (activate_type s o) n ≡ switched activating o n (is_modifier_active s n)
unfolding activate_type
is_active-activate_type s none n = refl
is_active-activate_type s (some m) n = ground (arith, is_active-activate (u8 m) n s)

is_active-deactivate_type :
    (s : ModifierState) (o : Option ℕ) (n : ℕ)
    → is_modifier_active (deactivate_type s o) n
      ≡ switched deactivating o n (is_modifier_active s n)
unfolding deactivate_type
is_active-deactivate_type s none n = refl
is_active-deactivate_type s (some m) n = is_active-deactivate (u8 m) n s

pub is_active-act_state :
    (a : ProcessingAction) (s : ModifierState) (r : NumberKeyResult) (n : ℕ)
    → is_modifier_active (act_state a s r) n ≡ switched a r.modifier_type n (is_modifier_active s n)
unfolding act_state
is_active-act_state a s r n = ground (
  arith,
  is_active-activate_type s r.modifier_type n,
  is_active-deactivate_type s r.modifier_type n,
)

pub key_event-keeps :
    (thr : ℕ) (e : EventType) (now : Reads) (s : KeyState)
    → ((key_event thr e now s).0.is_virtual ≡ s.is_virtual)
      × ((key_event thr e now s).0.virtual_mod_num ≡ s.virtual_mod_num)
unfolding key_event
key_event-keeps thr e now s = ground arith

-- An event at a virtual trigger keeps its registration, and its result switches the flag of its
-- modifier exactly as the key becomes active or stops being so.
pub key_event-virtual :
    (thr : ℕ) (e : EventType) (now : Reads) (s : KeyState)
    → s.is_virtual ≡ true
    → s.virtual_mod_num < 256
    → let (s', r) = key_event thr e now s in
      (s'.is_virtual ≡ true)
      × (s'.virtual_mod_num ≡ s.virtual_mod_num)
      × (switched r.action r.modifier_type s.virtual_mod_num (is_active s.state)
          ≡ is_active s'.state)
      × ((n : ℕ) (b : Bool) → s.virtual_mod_num ≢ n → switched r.action r.modifier_type n b ≡ b)
unfolding key_event
key_event-virtual thr e now s v lt =
    (ground arith, ground arith, ground arith, λ n b ne. ground arith)

-- An event at a hardware trigger switches no virtual modifier.
pub key_event-hardware :
    (thr : ℕ) (e : EventType) (now : Reads) (s : KeyState) (n : ℕ) (b : Bool)
    → s.is_virtual ≡ false
    → let (s', r) = key_event thr e now s in
      (s'.is_virtual ≡ false) × (switched r.action r.modifier_type n b ≡ b)
unfolding key_event
key_event-hardware thr e now s n b v = ground arith
