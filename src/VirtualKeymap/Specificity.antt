-- ===== src/VirtualKeymap/Specificity.antt =====
-- The specificity of an entry of the virtual keymap (src/core/engine/engine.cpp).
use yamy.Base.{ℕ, zero, suc, ◌+◌, ◌*◌, ◌/◌, ◌%◌, ◌≤◌, ◌≡◌, refl, List, [], ◌∷◌, ◌++◌, arith, All}
use yamy.ModifiedKey.{Words}
use yamy.VirtualKeymap.{KeymapEntry, popcount, popcount_array, required, add_keymap_entry}

-- The required flags of a mask, in one row: flag i of word w is number 32 * w + i.
popcount-row :
    (words : Words) (w n : ℕ)
    → n ≤ 32
    → popcount (32 * w + n) (required words)
      ≡ popcount (32 * w) (required words) + popcount n (words w)
unfolding popcount
popcount-row words w zero h =
    let none_left : 32 * w + 0 ≡ 32 * w = omega arith in rw none_left (omega arith)
popcount-row words w (suc n) h =
    let word : (32 * w + n) / 32 ≡ w = omega arith in
    let bit : (32 * w + n) % 32 ≡ n = omega arith in
    let next : 32 * w + suc n ≡ suc (32 * w + n) = omega arith in
    rw next (ground (arith, word, bit, popcount-row words w n (omega arith)))

popcount_array-row :
    (words : Words) (w : ℕ) → popcount_array w words ≡ popcount (32 * w) (required words) % 256
unfolding popcount_array
popcount_array-row words zero = unfold popcount in refl
popcount_array-row words (suc w) =
    let next : 32 * suc w ≡ 32 * w + 32 = omega arith in
    rw next (omega (arith, popcount_array-row words w, popcount-row words w 32 (omega arith)))

-- The number of flags that an entry requires, of the 512, in eight bits.
abbrev pub Counted : KeymapEntry → Type 0
Counted e =
    e.specificity
    ≡ (popcount 256 (required e.required_mods) + popcount 256 (required e.required_locks)) % 256

All-append :
    (P : KeymapEntry → Type 0) (l : List KeymapEntry) (e : KeymapEntry)
    → All P l
    → P e
    → All P (l ++ e ∷ [])
All-append P [] e a p = (p, tt)
All-append P (x ∷ l) e a p = (a.0, All-append P l e a.1 p)

-- Where the specificity of each entry is the number of the virtual modifiers and locks that it
-- requires, modulo 256, it is so after another entry with any keys and masks has been added.
pub add_keymap_entry-Counted :
    (entries : List KeymapEntry) (input_key output_key : ℕ) (mods locks : Words)
    → All Counted entries
    → All Counted (add_keymap_entry entries input_key output_key mods locks)
unfolding add_keymap_entry
add_keymap_entry-Counted entries input_key output_key mods locks counted =
    All-append Counted entries _ counted
      (omega (arith, popcount_array-row mods 8, popcount_array-row locks 8))
