-- ===== src/ModifiedKey/Virtual.antt =====
-- The virtual modifiers of a `ModifiedKey` (src/core/input/keyboard.h).
use yamy.Base.{
  ℕ, ◌+◌, ◌*◌, ◌/◌, ◌%◌, ◌<◌, ◌≡◌, ◌↔◌, Bool, true, arith, same_bits_iff, all_below_sound,
  all_below_complete, ◌==◌, if◌then◌else◌,
}
use yamy.ModifiedKey.{ModifiedKey, set_virtual_mod, is_virtual_mod_active, same_virtual_mods}

-- `setVirtualMod` sets or clears the flag of the modifier that it names, and no other flag.
pub is_active-set_virtual_mod :
    (mk : ModifiedKey) (m n : ℕ) (active : Bool)
    → is_virtual_mod_active (set_virtual_mod mk m active) n
      ≡ (if m == n then active else is_virtual_mod_active mk n)
unfolding set_virtual_mod is_virtual_mod_active
is_active-set_virtual_mod mk m n active = ground arith

-- The comparison of the eight words compares the 256 virtual modifiers.
pub same_virtual_mods_iff :
    (a b : ModifiedKey)
    → (same_virtual_mods a b ≡ true)
      ↔ ((n : ℕ) → n < 256 → is_virtual_mod_active a n ≡ is_virtual_mod_active b n)
unfolding same_virtual_mods is_virtual_mod_active
same_virtual_mods_iff a b = (
  λ h n lt.
      (same_bits_iff 32 _ _).0 (all_below_sound 8 _ (n / 32) h (omega arith)) (n % 32)
        (omega arith),
  λ h. all_below_complete 8 _ (λ w lw. (same_bits_iff 32 _ _).1 (λ i li.
      let word : (32 * w + i) / 32 ≡ w = omega arith in
      let bit : (32 * w + i) % 32 ≡ i = omega arith in
      let at = h (32 * w + i) (omega arith) in cc)),
)
