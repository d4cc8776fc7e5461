-- ===== src/VirtualKeymap.antt =====
-- src/core/engine/engine.cpp and engine.h: the keymap of keys under virtual modifiers and locks
-- (`KeymapEntry`, `popcount_array`, `lookupKeymap`, `sortKeymapBySpecificity`, `addKeymapEntry`).
-- `std::sort` is a parameter. A mask is eight words of 32 flags.
pub mod Specificity
pub mod MostSpecific
use yamy.Base.{
  ℕ, zero, suc, ◌+◌, ◌/◌, ◌%◌, ◌≡◌, Bool, true, false, not, ◌&&◌, ◌||◌, List, [], ◌∷◌, ◌++◌, Bits,
  all_below, ltb, ◌==◌, if◌then◌else◌,
}
use yamy.ModifierState.{virtual_offset, lock_offset}
use yamy.ModifiedKey.{Words}

pub record KeymapEntry : Type 0 where
  pub required_mods : Words
  pub required_locks : Words
  pub input_key : ℕ  -- uint16
  pub output_key : ℕ  -- uint16
  pub specificity : ℕ  -- uint8

-- `__builtin_popcount`, over the lowest n flags.
unfoldable pub popcount : ℕ → Bits → ℕ
popcount zero bits = 0
popcount (suc n) bits = popcount n bits + (if bits n then 1 else 0)

-- The sum of the first `count` words, kept in eight bits.
unfoldable pub popcount_array : ℕ → Words → ℕ
popcount_array zero bits = 0
popcount_array (suc i) bits = (popcount_array i bits + popcount 32 (bits i)) % 256

-- `(words[i / 32] >> (i % 32)) & 1`.
abbrev pub required : Words → ℕ → Bool
required words i = words (i / 32) (i % 32)

-- One of the two loops of `lookupKeymap`: every required flag is active.
unfoldable pub all_active : Words → ℕ → Bits → Bool
all_active words offset state = all_below 256 (λ i. not (required words i) || state (offset + i))

unfoldable pub entry_matches : KeymapEntry → ℕ → Bits → Bool
entry_matches e key state =
    (e.input_key == key)
    && (all_active e.required_mods virtual_offset state
        && all_active e.required_locks lock_offset state)

-- `lookupKeymap`: 0 where no entry matches.
unfoldable pub lookup_keymap : List KeymapEntry → ℕ → Bits → ℕ
lookup_keymap [] key state = 0
lookup_keymap (e ∷ entries) key state =
    let rest = lookup_keymap entries key state in
    if entry_matches e key state then e.output_key else rest

-- `addKeymapEntry`.
unfoldable pub add_keymap_entry : List KeymapEntry → ℕ → ℕ → Words → Words → List KeymapEntry
add_keymap_entry entries input_key output_key mods locks =
    entries
    ++ record {
      required_mods = mods;
      required_locks = locks;
      input_key = input_key;
      output_key = output_key;
      specificity = (popcount_array 8 mods + popcount_array 8 locks) % 256;
    }
      ∷ []

-- The comparison that `sortKeymapBySpecificity` hands to `std::sort`.
unfoldable pub more_specific : KeymapEntry → KeymapEntry → Bool
more_specific a b = ltb b.specificity a.specificity

-- `sortKeymapBySpecificity`; `sort` is `std::sort`, which takes the comparison.
unfoldable pub sort_keymap_by_specificity :
    ((KeymapEntry → KeymapEntry → Bool) → List KeymapEntry → List KeymapEntry)
    → List KeymapEntry
    → List KeymapEntry
sort_keymap_by_specificity sort entries = sort more_specific entries
