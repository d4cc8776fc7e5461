-- ===== src/ModifierKeys/Entries.antt =====
-- What the calls of src/core/engine/modifier_key_handler.cpp do to the entry of each key.
use yamy.Base.{
  ℕ, ◌≡◌, refl, Option, none, some, [], ◌∷◌, arith, Assoc, lookup, lookup-insert, Distinct,
  insert-Distinct, ◌==◌, if◌then◌else◌, Option-cases, inl, inr,
}
use yamy.ModifierKeys.Table.{KeyState, Handler}
use yamy.ModifierKeys.Machine.{
  EventType, NumberKeyResult, Reads, key_event, process_number_key, is_due, check_entry,
  check_entries, due_modifiers, check_and_activate_waiting_modifiers,
}

abbrev pub check_found : ℕ → ℕ → Option KeyState → Option KeyState
check_found thr now none = none
check_found thr now (some s) = some (check_entry thr now s)

-- The modifier that a found key is to activate.
abbrev pub due_of : ℕ → ℕ → Option KeyState → Option ℕ
due_of thr now none = none
due_of thr now (some s) =
    if is_due thr now s then (if s.is_virtual then some s.virtual_mod_num else none) else none

pub lookup-check_entries :
    (thr : ℕ) (now : ℕ → ℕ) (m : Assoc KeyState) (k : ℕ)
    → lookup k (check_entries thr now m) ≡ check_found thr (now k) (lookup k m)
unfolding lookup check_entries
lookup-check_entries thr now [] k = refl
lookup-check_entries thr now ((j, s) ∷ m) k = ground (arith, lookup-check_entries thr now m k)

due_of_absent :
    (thr : ℕ) (now : ℕ → ℕ) (m : Assoc KeyState) (k : ℕ)
    → lookup k m ≡ none
    → lookup k (due_modifiers thr now m) ≡ none
unfolding lookup due_modifiers
due_of_absent thr now [] k h = refl
due_of_absent thr now ((j, s) ∷ m) k h = ground (arith, due_of_absent thr now m k)

-- Where the keys are distinct, the check reports a key with a virtual modifier exactly when this key
-- is a virtual trigger that is due at the reading made for it, and then with its own modifier.
pub lookup-due_modifiers :
    (thr : ℕ) (now : ℕ → ℕ) (m : Assoc KeyState) (k : ℕ)
    → Distinct m
    → lookup k (due_modifiers thr now m) ≡ due_of thr (now k) (lookup k m)
unfolding lookup due_modifiers
lookup-due_modifiers thr now [] k d = refl
lookup-due_modifiers thr now ((j, s) ∷ m) k d = ground (
  arith,
  due_of_absent thr now m j d.0,
  due_of_absent thr now m k,
  lookup-due_modifiers thr now m k d.1,
)

-- The entry that `processNumberKey` leaves for key j when it is called for key k.
pub lookup-process :
    (h : Handler) (k j : ℕ) (e : EventType) (now : Reads) (s : KeyState)
    → lookup k h.key_states ≡ some s
    → lookup j (process_number_key h k e now).0.key_states
      ≡ (if k == j then some (key_event h.hold_threshold_ms e now s).0 else lookup j h.key_states)
unfolding process_number_key
lookup-process h k j e now s f =
    ground (arith, f, lookup-insert k j (key_event h.hold_threshold_ms e now s).0 h.key_states)

pub result-process :
    (h : Handler) (k : ℕ) (e : EventType) (now : Reads) (s : KeyState)
    → lookup k h.key_states ≡ some s
    → (process_number_key h k e now).1 ≡ (key_event h.hold_threshold_ms e now s).1
unfolding process_number_key
result-process h k e now s f = ground (arith, f)

pub threshold-process :
    (h : Handler) (k : ℕ) (e : EventType) (now : Reads)
    → (process_number_key h k e now).0.hold_threshold_ms ≡ h.hold_threshold_ms
unfolding process_number_key
threshold-process h k e now = ground arith

-- One call at a known key: the entry it leaves there, and its result.
pub process_at :
    (h : Handler) (k : ℕ) (e : EventType) (now : Reads) {s s' : KeyState} {r : NumberKeyResult}
    → lookup k h.key_states ≡ some s
    → key_event h.hold_threshold_ms e now s ≡ (s', r)
    → (lookup k (process_number_key h k e now).0.key_states ≡ some s')
      × ((process_number_key h k e now).1 ≡ r)
process_at h k e now {s} f q =
    ground (arith, lookup-process h k k e now s f, result-process h k e now s f)

pub check_at :
    (h : Handler) (k : ℕ) (now : ℕ → ℕ) (s : KeyState)
    → Distinct h.key_states
    → lookup k h.key_states ≡ some s
    → (lookup k (check_and_activate_waiting_modifiers h now).0.key_states
        ≡ some (check_entry h.hold_threshold_ms (now k) s))
      × (lookup k (check_and_activate_waiting_modifiers h now).1
          ≡ due_of h.hold_threshold_ms (now k) (some s))
unfolding check_and_activate_waiting_modifiers
check_at h k now s d f = ground (
  arith,
  lookup-check_entries h.hold_threshold_ms now h.key_states k,
  lookup-due_modifiers h.hold_threshold_ms now h.key_states k d,
)

pub process-Distinct :
    (h : Handler) (k : ℕ) (e : EventType) (now : Reads)
    → Distinct h.key_states
    → Distinct (process_number_key h k e now).0.key_states
unfolding process_number_key
process-Distinct h k e now d = elim (Option-cases (lookup k h.key_states)) [
  | inl n ↦ rw (n, process_number_key) d
  | inr (s, f) ↦
      rw (f, process_number_key)
        (insert-Distinct k (key_event h.hold_threshold_ms e now s).0 h.key_states d)
]

check_entries-Distinct :
    (thr : ℕ) (now : ℕ → ℕ) (m : Assoc KeyState) → Distinct m → Distinct (check_entries thr now m)
unfolding check_entries
check_entries-Distinct thr now [] d = tt
check_entries-Distinct thr now ((k, s) ∷ m) d =
    (rw (lookup-check_entries thr now m k, d.0), check_entries-Distinct thr now m d.1)

pub check-Distinct :
    (h : Handler) (now : ℕ → ℕ)
    → Distinct h.key_states
    → Distinct (check_and_activate_waiting_modifiers h now).0.key_states
unfolding check_and_activate_waiting_modifiers
check-Distinct h now d = check_entries-Distinct h.hold_threshold_ms now h.key_states d

pub threshold-check :
    (h : Handler) (now : ℕ → ℕ)
    → (check_and_activate_waiting_modifiers h now).0.hold_threshold_ms ≡ h.hold_threshold_ms
unfolding check_and_activate_waiting_modifiers
threshold-check h now = refl
