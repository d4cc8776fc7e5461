-- ===== src/Examples/Keys.antt =====
-- An example for the keys of src/core/input/keyboard.cpp and `setSetting`: a key that is pressed in the
-- old setting, and the same key, not pressed, in the new one.
use yamy.Base.{◌≡◌, Bool, true, false, [], ◌∷◌, no_bits}
use yamy.Keyboard.{Key, HashedKeys, add_key, search_key, carry_flags}
use yamy.Keyboard.Carried.{latest, flagged, search-carry_flags}

abbrev key_with : Bool → Key
key_with pressed = record {
  first_scan_code = record { scan = 0x1E; flags = no_bits };
  other_scan_codes = [];
  is_pressed = pressed;
  is_pressed_on_win32 = pressed;
  is_pressed_by_assign = false;
}

abbrev new_keys : HashedKeys
new_keys = add_key (record { buckets = λ b. [] }) (key_with false)

search-carry_flags_example :
    search_key (carry_flags (key_with true ∷ []) new_keys) (key_with false)
    ≡ flagged (latest (key_with true ∷ []) (key_with false)) (search_key new_keys (key_with false))
search-carry_flags_example = search-carry_flags (key_with true ∷ []) (key_with false) new_keys
