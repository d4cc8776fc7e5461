-- ===== src/EventProcessor/Synced/Check.antt =====
-- The check of waiting modifiers (src/core/engine/modifier_key_handler.cpp) keeps the triggers and
-- the flags in agreement.
use yamy.Base.{
  ℕ, ◌≡◌, refl, sym, ◌∙◌, inl, inr, true, ◌&&◌, ◌||◌, Option, none, some, [], ◌∷◌, Assoc, lookup,
  Distinct, arith, ◌==◌, Bool-cases,
}
use yamy.ModifierState.{ModifierState}
use yamy.ModifierKeys.Table.{KeyState, Handler, is_active}
use yamy.ModifierKeys.Machine.{
  is_due, check_entry, due_modifiers, check_and_activate_waiting_modifiers,
}
use yamy.ModifierKeys.Entries.{check_found, lookup-check_entries, check-Distinct}
use yamy.EventProcessor.{activate_all}
use yamy.EventProcessor.Activation.{mentions, is_active-activate_all}
use yamy.EventProcessor.Synced.{Synced}

mentions-cons :
    (thr : ℕ) (now : ℕ → ℕ) (k : ℕ) (t : KeyState) (m : Assoc KeyState) (n : ℕ)
    → mentions n (due_modifiers thr now ((k, t) ∷ m)) ≡ (
        (is_due thr (now k) t && (t.is_virtual && t.virtual_mod_num == n))
        || mentions n (due_modifiers thr now m))
unfolding mentions due_modifiers
mentions-cons thr now k t m n = ground arith

lookup-below :
    (j k : ℕ) (s t : KeyState) (m : Assoc KeyState)
    → lookup j m ≡ none
    → lookup k m ≡ some t
    → lookup k ((j, s) ∷ m) ≡ some t
unfolding lookup
lookup-below j k s t m a f = ground arith

lookup-head : (k : ℕ) (t : KeyState) (m : Assoc KeyState) → lookup k ((k, t) ∷ m) ≡ some t
unfolding lookup
lookup-head k t m = ground arith

-- A modifier that a check reports comes from a due virtual trigger.
mentions-due :
    (thr : ℕ) (now : ℕ → ℕ) (m : Assoc KeyState) (n : ℕ)
    → Distinct m
    → mentions n (due_modifiers thr now m) ≡ true
    → (k : ℕ) × (t : KeyState) × (lookup k m ≡ some t)
      × (is_due thr (now k) t ≡ true)
      × (t.is_virtual ≡ true)
      × (t.virtual_mod_num ≡ n)
unfolding mentions due_modifiers
mentions-due thr now [] n d h = cc
mentions-due thr now ((k, t) ∷ m) n d h =
    elim (Bool-cases (is_due thr (now k) t && (t.is_virtual && t.virtual_mod_num == n))) [
      | inl here ↦ (k, t, lookup-head k t m, ground arith, ground arith, ground arith)
      | inr below ↦
          let (j, s, f, due, virtual, num) =
            mentions-due thr now m n d.1 (ground (arith, mentions-cons thr now k t m n)) in
          (j, s, lookup-below k j t s m d.0 f, due, virtual, num)
    ]

due-mentions :
    (thr : ℕ) (now : ℕ → ℕ) (m : Assoc KeyState) (k : ℕ) (t : KeyState)
    → lookup k m ≡ some t
    → is_due thr (now k) t ≡ true
    → t.is_virtual ≡ true
    → mentions t.virtual_mod_num (due_modifiers thr now m) ≡ true
unfolding mentions due_modifiers lookup
due-mentions thr now [] k t f d v = cc
due-mentions thr now ((j, s) ∷ m) k t f d v = elim (Bool-cases (j == k)) [
  | inl y ↦ ground arith
  | inr n ↦ ground (arith, due-mentions thr now m k t (rw n at f) d v)
]

-- The keys of the triggers after a check, from those before it.
check-found :
    (thr : ℕ) (now : ℕ) (s : KeyState)
    → ((check_entry thr now s).is_virtual ≡ s.is_virtual)
      × ((check_entry thr now s).virtual_mod_num ≡ s.virtual_mod_num)
      × (is_active (check_entry thr now s).state ≡ (is_active s.state || is_due thr now s))
unfolding check_entry is_due
check-found thr now s = ground arith

unchecked :
    (thr now : ℕ) (o : Option KeyState) (t : KeyState)
    → check_found thr now o ≡ some t
    → (s : KeyState) × (o ≡ some s)
      × (t.is_virtual ≡ s.is_virtual)
      × (t.virtual_mod_num ≡ s.virtual_mod_num)
      × (is_active t.state ≡ (is_active s.state || is_due thr now s))
unchecked thr now none t e = cc
unchecked thr now (some s) t e =
    let q : check_entry thr now s ≡ t = ground arith in
    let (a, b, c) = check-found thr now s in (s, refl, rw (← q) a, rw (← q) b, rw (← q) c)

module _ (h : Handler) (s : ModifierState) (now : ℕ → ℕ) (v : Synced h s) where
  before :
      (k : ℕ) (t : KeyState)
      → lookup k (check_and_activate_waiting_modifiers h now).0.key_states ≡ some t
      → (u : KeyState) × (lookup k h.key_states ≡ some u)
        × (t.is_virtual ≡ u.is_virtual)
        × (t.virtual_mod_num ≡ u.virtual_mod_num)
        × (is_active t.state ≡ (is_active u.state || is_due h.hold_threshold_ms (now k) u))
  unfolding check_and_activate_waiting_modifiers
  before k t f =
      unchecked h.hold_threshold_ms (now k) (lookup k h.key_states) t
        (sym (lookup-check_entries h.hold_threshold_ms now h.key_states k) ∙ f)

  -- A trigger's modifier is reported exactly when the trigger is due.
  reported :
      (k : ℕ) (u : KeyState)
      → lookup k h.key_states ≡ some u
      → u.is_virtual ≡ true
      → mentions u.virtual_mod_num (due_modifiers h.hold_threshold_ms now h.key_states)
        ≡ is_due h.hold_threshold_ms (now k) u
  reported k u f virtual = elim (Bool-cases (is_due h.hold_threshold_ms (now k) u)) [
    | inl d ↦ due-mentions h.hold_threshold_ms now h.key_states k u f d virtual ∙ sym d
    | inr nd ↦
        elim (Bool-cases
          (mentions u.virtual_mod_num (due_modifiers h.hold_threshold_ms now h.key_states))) [
            | inr none_due ↦ none_due ∙ sym nd
            | inl found ↦
                let (j, t, ft, due, tv, num) =
                  mentions-due h.hold_threshold_ms now h.key_states u.virtual_mod_num v.distinct
                    found in
                let same = v.one j k t u ft f tv virtual num in cc
          ]
  ]

  pub check-Synced :
      Synced
        (check_and_activate_waiting_modifiers h now).0
        (activate_all (check_and_activate_waiting_modifiers h now).1 s)
  unfolding check_and_activate_waiting_modifiers
  check-Synced = record {
    distinct = check-Distinct h now v.distinct;
    one = λ j k t t' f f' virtual virtual' num.
        let (u, fu, ev, en, ea) = before j t f in
        let (u', fu', ev', en', ea') = before k t' f' in
        v.one j k u u' fu fu' (sym ev ∙ virtual) (sym ev' ∙ virtual') (sym en ∙ num ∙ en');
    byte = λ k t f virtual.
        let (u, fu, ev, en, ea) = before k t f in rw en (v.byte k u fu (sym ev ∙ virtual));
    agree = λ k t f virtual.
        let (u, fu, ev, en, ea) = before k t f in
        let virtual_u = sym ev ∙ virtual in
        rw (en, ea)
          (ground (
            arith,
            is_active-activate_all u.virtual_mod_num
                (due_modifiers h.hold_threshold_ms now h.key_states) s,
            reported k u fu virtual_u,
            v.agree k u fu virtual_u,
          ));
  }
