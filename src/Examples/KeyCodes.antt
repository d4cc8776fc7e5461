-- ===== src/Examples/KeyCodes.antt =====
-- An example for the tables of src/platform/linux/keycode_mapping.cpp: the key codes are numbered from
-- 1 in the order of the names.
use yamy.Base.{ℕ, suc, ◌≡◌, ◌≢◌, All, arith}
use yamy.KeyTables.Names.{KeyName, index, index_injective}
use yamy.KeyTables.Evdev.{evdev_to_yamy_map}
use yamy.KeyTables.Lookup.{jp}
use yamy.KeyTables.RoundTrip.{RoundTrip, round_trip}

abbrev code : KeyName → ℕ
code k = suc (index k)

code_apart : (a b : KeyName) → code a ≡ code b → a ≡ b
code_apart a b e = index_injective a b (omega arith)

code_nonzero : (a : KeyName) → code a ≢ 0
code_nonzero a e = omega arith

round_trip_example : All (RoundTrip code code_apart code_nonzero jp) evdev_to_yamy_map
round_trip_example = round_trip code code_apart code_nonzero jp
