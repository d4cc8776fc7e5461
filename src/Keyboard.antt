-- ===== src/Keyboard.antt =====
-- The keys of a keyboard in src/core/input/keyboard.cpp, hashed by the first scan code, and the way
-- `setSetting` of src/core/engine/engine_setting.cpp carries what is pressed to the keys of a new
-- setting. The names of keys are left out.
pub mod Same
pub mod Carried
use yamy.Base.{
  ℕ, ◌%◌, ◌≡◌, Bool, true, false, Option, none, some, List, [], ◌∷◌, ◌++◌, find_if, ◌==◌,
  if◌then◌else◌,
}
use yamy.Modifier.{Modifier, does_match}
use yamy.ModifiedKey.{ModifiedKey, no_key, same_key}
use yamy.ScanCodes.{ScanCode, is_prefix_scan_code, is_same_scan_code}

-- A key of a keyboard has at least one scan code, as `getKeys` asserts.
pub record Key : Type 0 where
  pub first_scan_code : ScanCode
  pub other_scan_codes : List ScanCode
  pub is_pressed : Bool
  pub is_pressed_on_win32 : Bool
  pub is_pressed_by_assign : Bool

abbrev pub scan_codes : Key → List ScanCode
scan_codes k = k.first_scan_code ∷ k.other_scan_codes

-- `m_hashedKeys`, bucket by bucket.
pub record HashedKeys : Type 0 where
  pub buckets : ℕ → List Key

abbrev pub hash : Key → ℕ
hash k = k.first_scan_code.scan % 128

unfoldable pub get_keys : HashedKeys → Key → List Key
get_keys keys k = keys.buckets (hash k)

unfoldable pub add_key : HashedKeys → Key → HashedKeys
add_key keys k = record {
  buckets = λ b. (if hash k == b then k ∷ keys.buckets b else keys.buckets b);
}

-- A comparison that is decided.
abbrev pub says_yes : Option Bool → Bool
says_yes none = false
says_yes (some b) = b

unfoldable pub same : Key → Key → Bool
same this k = says_yes (is_same_scan_code (scan_codes this) (scan_codes k))

unfoldable pub search_in_bucket : List Key → Key → Option Key
search_in_bucket keys k = find_if (λ i. same i k) keys

unfoldable pub search_key : HashedKeys → Key → Option Key
search_key keys k = search_in_bucket (get_keys keys k) k

-- The copies of the flags in `setSetting`.
unfoldable pub with_flags : Key → Key → Key
with_flags old k = record k {
  is_pressed = old.is_pressed;
  is_pressed_on_win32 = old.is_pressed_on_win32;
  is_pressed_by_assign = old.is_pressed_by_assign;
}

-- The flags go to the key that the search finds.
unfoldable pub flag_in_bucket : Key → List Key → List Key
flag_in_bucket old [] = []
flag_in_bucket old (i ∷ keys) =
    let rest = flag_in_bucket old keys in if same i old then with_flags old i ∷ keys else i ∷ rest

unfoldable pub flag_key : Key → HashedKeys → HashedKeys
flag_key old keys = record {
  buckets = λ b. (if hash old == b then flag_in_bucket old (keys.buckets b) else keys.buckets b);
}

-- The loop of `setSetting` over the keys of the old setting.
unfoldable pub carry_flags : List Key → HashedKeys → HashedKeys
carry_flags [] keys = keys
carry_flags (old ∷ rest) keys = carry_flags rest (flag_key old keys)
