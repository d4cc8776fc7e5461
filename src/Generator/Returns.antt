-- ===== src/Generator/Returns.antt =====
-- Calls of src/core/engine/engine_generator.cpp that return with the guard as it was.
use yamy.Base.{
  ℕ, zero, suc, ◌≤◌, ◌≡◌, refl, ◌∙◌, subst, Bool, true, false, Option, some, List, [], ◌∷◌,
  if◌then◌else◌, Bool-cases, inl, inr, All, arith,
}
use yamy.Modifier.{Modifier, type_basic}
use yamy.Generator.Keys.{
  Keyboard, Output, is_event, generate_key_event, send_key, mark_key, modifier_rounds,
  generate_modifier_events,
}
use yamy.Generator.Steps.{generate_modifier_events-kept}
use yamy.Generator.Held.{is_sent}
use yamy.Generator.Wanted.{AreModifiers, on_result}
use yamy.Generator.Asked.{round_settles}
use yamy.Generator.Actions.{
  Outcome, done, ◌>>=◌, lift, Current, key_event_of, exec_default, release_sync, exec_sync,
}
use yamy.ScanCodes.{ScanCode}

-- A result with this guard.
abbrev pub Returns : ℕ → Outcome Output → Type 0
Returns g o = (t : Output) × (o ≡ done t) × (t.recursion_guard ≡ g)

pub Returns->>= :
    (g : ℕ) (o : Outcome Output) (f : Output → Outcome Output)
    → Returns g o
    → ((t : Output) → t.recursion_guard ≡ g → Returns g (f t))
    → Returns g (o >>= f)
Returns->>= g o f (t, e, kept) h = let (u, e', kept') = h t kept in (u, rw e e', kept')

pub Returns-if :
    (g : ℕ) (b : Bool) (o p : Outcome Output)
    → Returns g o
    → Returns g p
    → Returns g (if b then o else p)
Returns-if g true o p h h' = h
Returns-if g false o p h h' = h'

event-guard :
    (kb : Keyboard) (k : ℕ) (v a : Bool) (s : Output)
    → (generate_key_event kb k v a s).recursion_guard ≡ s.recursion_guard
unfolding generate_key_event send_key mark_key
event-guard kb k v a s = elim (Bool-cases (is_event kb k)) [
  | inl y ↦ rw y refl
  | inr n ↦ elim (Bool-cases (is_sent kb k v s)) [ inl y ↦ rw (n, y) refl | inr m ↦ rw (n, m) refl ]
]

every : (l : List ℕ) → All (λ k. Unit {0}) l
every [] = tt
every (k ∷ l) = (tt, every l)

module _ (kb : Keyboard) (mods_sound : AreModifiers kb) where
  rounds_end :
      (wanted : Modifier) (n : ℕ) (s : Output)
      → n ≤ type_basic
      → (t : Output) × (modifier_rounds kb wanted n s ≡ some t)
  unfolding modifier_rounds
  rounds_end wanted zero s le = (s, refl)
  rounds_end wanted (suc n) s le =
      let (t, e) = rounds_end wanted n s (omega arith) in
      let (u, f, settled) = round_settles kb mods_sound wanted n t (omega arith) in (u, rw e f)

  pub modifiers-Returns :
      (wanted : Modifier) (s : Output)
      → Returns s.recursion_guard (lift (generate_modifier_events kb wanted s))
  unfolding generate_modifier_events
  modifiers-Returns wanted s =
      let (t, e) = rounds_end wanted type_basic s (omega arith) in
      (
        t,
        rw e refl,
        on_result (λ u. u.recursion_guard ≡ s.recursion_guard)
            (generate_modifier_events kb wanted s) t e
            (generate_modifier_events-kept kb (λ k. Unit {0})
              (λ u. u.recursion_guard ≡ s.recursion_guard)
              (λ k v a u q p. event-guard kb k v a u ∙ p) (λ i. every (kb.mods i)) wanted s refl),
      )

  sync-guard :
      (b : Bool) (codes : List ScanCode) (s : Output)
      → Returns s.recursion_guard (done (if b then s else release_sync kb codes s))
  sync-guard true codes s = (s, refl, refl)
  sync-guard false [] s = (s, refl, refl)
  sync-guard false (sc ∷ rest) s = (
    generate_key_event kb kb.sync_key false false s,
    refl,
    event-guard kb kb.sync_key false false s,
  )

  pub sync-Returns :
      (m : Modifier) (p : Bool) (s : Output) → Returns s.recursion_guard (exec_sync kb m p s)
  unfolding exec_sync
  sync-Returns m false s = (s, refl, refl)
  sync-Returns m true s = Returns->>= s.recursion_guard _ _ (modifiers-Returns m s) (λ t kept.
      subst
        (λ g. Returns g (
          done (
            if t.mode.is_console_window then t else release_sync kb (kb.scan_codes kb.sync_key) t)))
        kept (sync-guard t.mode.is_console_window (kb.scan_codes kb.sync_key) t))

  pub key_event-Returns :
      (pointer : Option ℕ) (k : ℕ) (v : Bool) (s : Output)
      → pointer ≡ some k
      → Returns s.recursion_guard (key_event_of kb pointer v s)
  unfolding key_event_of
  key_event-Returns pointer k v s e =
      (generate_key_event kb k v true s, rw e refl, event-guard kb k v true s)

  pub default-Returns :
      (p : Bool) (c : Current) (k : ℕ) (s : Output)
      → c.mkey.key ≡ some k
      → Returns s.recursion_guard (exec_default kb p c s)
  unfolding exec_default
  default-Returns p c k s e =
      Returns->>= s.recursion_guard _ (key_event_of kb c.mkey.key p)
        (Returns-if s.recursion_guard p _ _ (modifiers-Returns c.mkey.modifier s) (s, refl, refl))
        (λ t kept.
          subst (λ g. Returns g (key_event_of kb c.mkey.key p t)) kept
            (key_event-Returns c.mkey.key k p t e))
