-- ===== src/ModifierState/Locks.antt =====
-- The locks of src/core/input/modifier_state.cpp and the words that the GUI is told.
use yamy.Base.{
  ◌==◌, if◌then◌else◌, ℕ, zero, suc, ◌+◌, ◌*◌, ◌<◌, ◌≡◌, true, false, not, some, arith,
  if◌then◌else◌, ltb,
}
use native.Mathlib.Decide.{ℕ_discrete}
use yamy.ModifierState.Regions.{std_index-lt}
use yamy.ModifierState.{
  ModifierState, LockBits, is_lock_active, is_modifier_active, lock_bits, notify_gui_locks,
  toggle_lock, std_flag, StdModifier,
}

-- After n rounds exactly the bits of the active locks below n are set.
lock_bits-eq :
    (n : ℕ) (s : ModifierState) (w b : ℕ)
    → b < 32
    → lock_bits n s w b ≡ (if ltb (32 * w + b) n then is_lock_active s (32 * w + b) else false)
unfolding lock_bits
lock_bits-eq zero s w b h = ground arith
lock_bits-eq (suc i) s w b h = elim (ℕ_discrete i (32 * w + b)) [
  | yes e ↦ ground (arith, e, lock_bits-eq i s w b h)
  | no ne ↦ ground (arith, lock_bits-eq i s w b h)
]

-- Whatever the state, a GUI that has registered for it is told the 256 locks: bit b of word w is
-- lock 32 w + b, for each of the 8 words and 32 bits.
pub notify_gui_locks_reports :
    (s : ModifierState) (w b : ℕ)
    → s.has_callback ≡ true
    → w < 8
    → b < 32
    → (words : LockBits) × (notify_gui_locks s ≡ some words)
      × (words w b ≡ is_lock_active s (32 * w + b))
unfolding notify_gui_locks
notify_gui_locks_reports s w b c hw hb =
    (lock_bits 256 s, ground arith, ground (arith, lock_bits-eq 256 s w b hb))

-- `toggleLock` flips the lock that it names and no other one of the 256 locks, leaves every standard
-- modifier and every virtual modifier as it was, and tells the GUI the new locks.
pub toggle_lock_flips :
    (s : ModifierState) (l j : ℕ) (flag : StdModifier)
    → j < 256
    → let s' = (toggle_lock s l).0 in
      (is_lock_active s' j ≡ (if l == j then not (is_lock_active s j) else is_lock_active s j))
      × (is_modifier_active s' j ≡ is_modifier_active s j)
      × (std_flag s' flag ≡ std_flag s flag)
      × ((toggle_lock s l).1 ≡ notify_gui_locks s')
unfolding toggle_lock is_lock_active is_modifier_active std_flag
toggle_lock_flips s l j flag h = ground (arith, std_index-lt flag)
