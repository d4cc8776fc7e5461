-- ===== src/ModifiedKey.antt =====
-- src/core/input/keyboard.h: class `ModifiedKey`, a key with the modifiers and the virtual modifiers
-- M00-MFF that go with it. A pointer to a key is the number of the key, or `none` for null.
-- `m_virtualMods` is eight words of 32 flags.
pub mod Virtual
use yamy.Base.{
  ℕ, ◌/◌, ◌%◌, ◌≡◌, Bool, true, false, ◌&&◌, Option, none, some, Bits, no_bits, set_bit, same_bits,
  all_below, ◌==◌, if◌then◌else◌,
}
use yamy.Modifier.{Modifier, modifier_init, equals}

abbrev pub Words : Type 0
Words = ℕ → Bits

pub record ModifiedKey : Type 0 where
  pub modifier : Modifier
  pub key : Option ℕ
  pub virtual_mods : Words

-- The three constructors: no key, a key, a key with a modifier.
unfoldable pub no_key : ModifiedKey
no_key = record { modifier = modifier_init; key = none; virtual_mods = λ w. no_bits }

unfoldable pub of_key : ℕ → ModifiedKey
of_key k = record { modifier = modifier_init; key = some k; virtual_mods = λ w. no_bits }

unfoldable pub of_modifier : Modifier → Option ℕ → ModifiedKey
of_modifier m k = record { modifier = m; key = k; virtual_mods = λ w. no_bits }

unfoldable pub set_virtual_mod : ModifiedKey → ℕ → Bool → ModifiedKey
set_virtual_mod mk mod_num active =
    let idx = mod_num / 32 in
    let bit = mod_num % 32 in
    record mk {
      virtual_mods =
          λ w. (if idx == w then set_bit (mk.virtual_mods w) bit active else mk.virtual_mods w);
    }

unfoldable pub is_virtual_mod_active : ModifiedKey → ℕ → Bool
is_virtual_mod_active mk mod_num = mk.virtual_mods (mod_num / 32) (mod_num % 32)

-- Equality of pointers.
abbrev pub same_key : Option ℕ → Option ℕ → Bool
same_key none none = true
same_key (some a) (some b) = a == b
same_key _ _ = false

-- The loop over the eight words.
unfoldable pub same_virtual_mods : ModifiedKey → ModifiedKey → Bool
same_virtual_mods a b = all_below 8 (λ w. same_bits 32 (a.virtual_mods w) (b.virtual_mods w))

-- `operator==`.
unfoldable pub same_modified_key : ModifiedKey → ModifiedKey → Bool
same_modified_key a b =
    equals a.modifier b.modifier && (same_key a.key b.key && same_virtual_mods a b)
