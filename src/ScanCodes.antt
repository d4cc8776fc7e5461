-- ===== src/ScanCodes.antt =====
-- The scan codes of a key in src/core/input/keyboard.h and keyboard.cpp: `ScanCode`, and
-- `Key::isSameScanCode` and `Key::isPrefixScanCode`.
pub mod Compared
use yamy.Base.{
  ℕ, Bool, true, false, ◌&&◌, Option, none, some, List, [], ◌∷◌, length, Bits, beq, ◌==◌,
  if◌then◌else◌,
}

-- The flags bit by bit: E0 is bit 1 and E1 is bit 2.
pub record ScanCode : Type 0 where
  pub scan : ℕ  -- uint16
  pub flags : Bits

-- `operator==`, which looks at the flags of the mask E0E1 only.
unfoldable pub same_code : ScanCode → ScanCode → Bool
same_code a b = a.scan == b.scan && (beq (a.flags 1) (b.flags 1) && beq (a.flags 2) (b.flags 2))

-- `isPrefixScanCode`, from the codes of this key and those of the other; `none` is a read behind the
-- last code of this key.
unfoldable pub is_prefix_scan_code : List ScanCode → List ScanCode → Option Bool
is_prefix_scan_code this [] = some true
is_prefix_scan_code [] (k ∷ key) = none
is_prefix_scan_code (c ∷ this) (k ∷ key) =
    let rest = is_prefix_scan_code this key in if same_code c k then rest else some false

-- `isSameScanCode`.
unfoldable pub is_same_scan_code : List ScanCode → List ScanCode → Option Bool
is_same_scan_code this key =
    if length this == length key then is_prefix_scan_code this key else some false
