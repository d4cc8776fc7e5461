-- ===== src/Examples/Keymaps.antt =====
-- Examples for the key assignments of src/core/input/keymap.cpp.
use yamy.Base.{◌≡◌, refl, true, false, none, some, [], ◌∷◌, arith, find_if, same_bits, all_below}
use yamy.Modifier.{modifier_init, does_match}
use yamy.ModifiedKey.{
  ModifiedKey, of_key, same_key, set_virtual_mod, is_virtual_mod_active, same_virtual_mods,
}
use yamy.Keymap.{
  KeyAssignment, Assignments, reassign, add_assignment, exact, search_in, search_assignment,
}
use yamy.Keymap.Search.{search-add_assignment, search_in-virtual}

-- Key 3 under M00, and key 3 alone.
abbrev under_m00 : ModifiedKey
under_m00 = set_virtual_mod (of_key 3) 0 true

abbrev empty : Assignments
empty = record { buckets = λ b. [] }

abbrev assigned : KeyAssignment
assigned = record { modified_key = under_m00; key_seq = 7 }

none_there : reassign under_m00 7 [] ≡ none
unfolding reassign
none_there = refl

exact_there : exact under_m00 assigned ≡ true
unfolding exact does_match same_bits all_below same_virtual_mods set_virtual_mod of_key
    modifier_init
exact_there = refl

search-add_assignment_example :
    (search_assignment (add_assignment empty 35 under_m00 7) 35 under_m00 ≡ some assigned)
    × (search_assignment (add_assignment empty 35 under_m00 7) 36 under_m00
        ≡ search_assignment empty 36 under_m00)
search-add_assignment_example =
    search-add_assignment empty 35 under_m00 7 under_m00 36 none_there exact_there (omega arith)

matches_bare : does_match under_m00.modifier modifier_init ≡ true
unfolding does_match same_bits all_below set_virtual_mod of_key modifier_init
matches_bare = refl

on_there : is_virtual_mod_active under_m00 0 ≡ true
unfolding is_virtual_mod_active set_virtual_mod of_key
on_there = refl

off_there : is_virtual_mod_active (of_key 3) 0 ≡ false
unfolding is_virtual_mod_active of_key
off_there = refl

same_key_there : same_key under_m00.key (of_key 3).key ≡ true
unfolding set_virtual_mod of_key
same_key_there = refl

search_in-virtual_example :
    (search_in (assigned ∷ []) (of_key 3) ≡ some assigned) × (exact (of_key 3) assigned ≡ false)
search_in-virtual_example =
    search_in-virtual assigned (of_key 3) 0 same_key_there matches_bare (omega arith) on_there
      off_there

found_there : search_in (assigned ∷ []) under_m00 ≡ some assigned
unfolding search_in find_if exact does_match same_bits all_below same_virtual_mods set_virtual_mod
    of_key modifier_init
found_there = refl
