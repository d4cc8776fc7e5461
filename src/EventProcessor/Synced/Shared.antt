-- ===== src/EventProcessor/Synced/Shared.antt =====
-- Two triggers for one modifier, in src/core/engine/engine_event_processor.cpp.
use yamy.Base.{ℕ, ◌%◌, ◌≡◌, refl, ap, ◌∙◌, ◌≢◌, ◌<◌, true, false, some, lookup, arith}
use yamy.ModifierState.{ModifierState, deactivate_modifier, is_modifier_active}
use yamy.ModifierKeys.Table.{KeyState, Handler, modifier_active, is_modifier_held}
use yamy.ModifierKeys.Machine.{
  Reads, release, key_event, process_number_key, result_for, deactivate_modifier as deactivating,
  NumberKeyResult,
}
use yamy.ModifierKeys.Entries.{lookup-process, result-process}
use yamy.EventProcessor.{EventProcessor, layer2_with, act_on, deactivate_type, set_handler}

released_active :
    (thr : ℕ) (now : Reads) (t : KeyState)
    → t.is_virtual ≡ true
    → t.state ≡ modifier_active
    → (key_event thr release now t).1 ≡ result_for deactivating 0 t.virtual_mod_num true
unfolding key_event
released_active thr now t tv ta = ground arith

act_on-deactivating :
    (p : EventProcessor) (s : ModifierState) (r : NumberKeyResult) (y n : ℕ)
    → r ≡ result_for deactivating 0 n true
    → n < 256
    → ((act_on r.action p s r y).processor ≡ p)
      × ((act_on r.action p s r y).mod_state ≡ some (deactivate_modifier s n))
unfolding act_on deactivate_type
act_on-deactivating p s r y n e lt =
    let small : n % 256 ≡ n = omega arith in
    rw e (refl, ap (λ m. some (deactivate_modifier s m)) small)

deactivated : (s : ModifierState) (n : ℕ) → is_modifier_active (deactivate_modifier s n) n ≡ false
unfolding deactivate_modifier is_modifier_active
deactivated s n = ground arith

still_held :
    (h : Handler) (j k : ℕ) (t u : KeyState) (now : Reads)
    → lookup k h.key_states ≡ some t
    → lookup j h.key_states ≡ some u
    → k ≢ j
    → u.state ≡ modifier_active
    → is_modifier_held (process_number_key h k release now).0 j ≡ true
unfolding is_modifier_held
still_held h j k t u now fk fj ne ua = ground (arith, lookup-process h k j release now t fk)

-- Two different triggers of the same modifier are both held active. When one of them is released,
-- the flag of the modifier is cleared, although the other one is still held active.
pub release_shared :
    (p : EventProcessor) (h : Handler) (s : ModifierState) (j k : ℕ) (t u : KeyState) (now : Reads)
    → lookup k h.key_states ≡ some t
    → lookup j h.key_states ≡ some u
    → k ≢ j
    → t.is_virtual ≡ true
    → t.state ≡ modifier_active
    → u.state ≡ modifier_active
    → u.virtual_mod_num ≡ t.virtual_mod_num
    → t.virtual_mod_num < 256
    → let o = layer2_with p (some h) (some s) k release now in
      (h' : Handler) × (s' : ModifierState) × (o.processor.modifier_handler ≡ some h')
      × (o.mod_state ≡ some s')
      × (is_modifier_held h' j ≡ true)
      × (is_modifier_active s' u.virtual_mod_num ≡ false)
unfolding layer2_with
release_shared p h s j k t u now fk fj ne tv ta ua same byte =
    let (h', r) = process_number_key h k release now in
    let asked =
      result-process h k release now t fk ∙ released_active h.hold_threshold_ms now t tv ta in
    let (processor, state) =
      act_on-deactivating (set_handler p h') s r k t.virtual_mod_num asked byte in
    (
      h',
      deactivate_modifier s t.virtual_mod_num,
      ap (λ q. q.modifier_handler) processor,
      state,
      still_held h j k t u now fk fj ne ua,
      rw same (deactivated s t.virtual_mod_num),
    )
