-- ===== src/EventProcessor/Synced/Process.antt =====
-- `processNumberKey` (src/core/engine/modifier_key_handler.cpp) and the `switch` on its action keep
-- the triggers and the flags in agreement.
use yamy.Base.{
  ℕ, subst, ◌≡◌, refl, sym, ◌∙◌, ◌≢◌, ◌⊎◌, inl, inr, true, none, some, lookup, arith, ◌==◌,
  if◌then◌else◌, Bool-cases, Option-cases,
}
use yamy.ModifierState.{ModifierState, is_modifier_active}
use yamy.ModifierKeys.Table.{KeyState, Handler, is_active}
use yamy.ModifierKeys.Machine.{
  EventType, Reads, NumberKeyResult, key_event, process_number_key, not_mine,
}
use yamy.ModifierKeys.Entries.{lookup-process, result-process, process-Distinct}
use yamy.EventProcessor.Activation.{
  act_state, switched, is_active-act_state, key_event-virtual, key_event-hardware, key_event-keeps,
}
use yamy.EventProcessor.Synced.{Synced}

process_none :
    (h : Handler) (k : ℕ) (e : EventType) (now : Reads)
    → lookup k h.key_states ≡ none
    → process_number_key h k e now ≡ (h, not_mine)
unfolding process_number_key
process_none h k e now f = ground (arith, f)

-- The handler and the state after the `switch` on the action of a result.
abbrev pub SyncedAfter : ModifierState → Handler × NumberKeyResult → Type 0
SyncedAfter s p = Synced p.0 (act_state p.1.action s p.1)

-- A key that is not registered changes nothing.
process_absent :
    (h : Handler) (s : ModifierState) (k : ℕ) (e : EventType) (now : Reads)
    → lookup k h.key_states ≡ none
    → Synced h s
    → SyncedAfter s (process_number_key h k e now)
unfolding act_state
process_absent h s k e now f v = subst (SyncedAfter s) (sym (process_none h k e now f)) v

-- What follows is about one event at a registered key.
module _ (h : Handler) (s : ModifierState) (k : ℕ) (e : EventType) (now : Reads) (u : KeyState)
    (f : lookup k h.key_states ≡ some u) (v : Synced h s) where
  abbrev u' : KeyState
  u' = (key_event h.hold_threshold_ms e now u).0

  abbrev r : NumberKeyResult
  r = (key_event h.hold_threshold_ms e now u).1

  after_case :
      (j : ℕ) (t : KeyState)
      → (if k == j then some u' else lookup j h.key_states) ≡ some t
      → ((k ≡ j) × (t ≡ u')) ⊎ ((k ≢ j) × (lookup j h.key_states ≡ some t))
  after_case j t g = elim (Bool-cases (k == j)) [
    | inl y ↦ inl (ground arith, ground arith)
    | inr n ↦ inr (ground arith, ground arith)
  ]

  -- The entries afterwards: the one of key k, and the others as they were.
  after :
      (j : ℕ) (t : KeyState)
      → lookup j (process_number_key h k e now).0.key_states ≡ some t
      → ((k ≡ j) × (t ≡ u')) ⊎ ((k ≢ j) × (lookup j h.key_states ≡ some t))
  after j t g = after_case j t (sym (lookup-process h k j e now u f) ∙ g)

  kept : (u'.is_virtual ≡ u.is_virtual) × (u'.virtual_mod_num ≡ u.virtual_mod_num)
  kept = key_event-keeps h.hold_threshold_ms e now u

  -- Each entry afterwards comes from one before with the same registration.
  origin :
      (j : ℕ) (t : KeyState)
      → lookup j (process_number_key h k e now).0.key_states ≡ some t
      → (w : KeyState) × (lookup j h.key_states ≡ some w)
        × (t.is_virtual ≡ w.is_virtual)
        × (t.virtual_mod_num ≡ w.virtual_mod_num)
  origin j t g = elim (after j t g) [
    | inl (same, q) ↦ (u, rw (← same) f, rw q kept.0, rw q kept.1)
    | inr (other, g') ↦ (t, g', refl, refl)
  ]

  -- The flag of a virtual trigger's modifier afterwards.
  flag :
      (j : ℕ) (t : KeyState)
      → lookup j (process_number_key h k e now).0.key_states ≡ some t
      → t.is_virtual ≡ true
      → switched r.action r.modifier_type t.virtual_mod_num (is_modifier_active s t.virtual_mod_num)
        ≡ is_active t.state
  flag j t g virtual = elim (after j t g) [
    | inl (same, q) ↦
        let virtual_u : u.is_virtual ≡ true = sym kept.0 ∙ (rw q at virtual) in
        let (a, num, switch, rest) =
          key_event-virtual h.hold_threshold_ms e now u virtual_u (v.byte k u f virtual_u) in
        rw (q, num, v.agree k u f virtual_u) switch
    | inr (other, g') ↦ elim (Bool-cases u.is_virtual) [
      | inl virtual_u ↦
          let (a, num, switch, rest) =
            key_event-virtual h.hold_threshold_ms e now u virtual_u (v.byte k u f virtual_u) in
          rest t.virtual_mod_num _ (λ same. other (v.one k j u t f g' virtual_u virtual same))
          ∙ v.agree j t g' virtual
      | inr hardware ↦
          (key_event-hardware h.hold_threshold_ms e now u t.virtual_mod_num _ hardware).1
          ∙ v.agree j t g' virtual
    ]
  ]

  process_present : SyncedAfter s (process_number_key h k e now)
  process_present = record {
    distinct = process-Distinct h k e now v.distinct;
    one = λ i j t t' g g' virtual virtual' num.
        let (w, fw, ev, en) = origin i t g in
        let (w', fw', ev', en') = origin j t' g' in
        v.one i j w w' fw fw' (sym ev ∙ virtual) (sym ev' ∙ virtual') (sym en ∙ num ∙ en');
    byte = λ j t g virtual.
        let (w, fw, ev, en) = origin j t g in rw en (v.byte j w fw (sym ev ∙ virtual));
    agree = λ j t g virtual.
        let q = result-process h k e now u f in
        is_active-act_state (process_number_key h k e now).1.action s
          (process_number_key h k e now).1 t.virtual_mod_num
        ∙ (rw q (flag j t g virtual));
  }

pub process-Synced :
    (h : Handler) (s : ModifierState) (k : ℕ) (e : EventType) (now : Reads)
    → Synced h s
    → SyncedAfter s (process_number_key h k e now)
process-Synced h s k e now v = elim (Option-cases (lookup k h.key_states)) [
  | inl f ↦ process_absent h s k e now f v
  | inr (u, f) ↦ process_present h s k e now u f v
]
