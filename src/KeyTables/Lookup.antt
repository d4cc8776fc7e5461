-- ===== src/KeyTables/Lookup.antt =====
-- `evdevToYamyKeyCode` and `yamyToEvdevKeyCode` of src/platform/linux/keycode_mapping.cpp, over any
-- values of the key codes. Of the detected layout the code asks only whether it is "jp".
use yamy.Base.{ℕ, Option, none, some, List, [], ◌∷◌, Assoc, lookup, get_or}
use yamy.EventProcessor.{KeyCodes}
use yamy.KeyTables.Names.{KeyName}
use yamy.KeyTables.Evdev.{evdev_to_yamy_map}
use yamy.KeyTables.ScanUs.{scan_to_evdev_map_us}
use yamy.KeyTables.ScanJp.{scan_to_evdev_map_jp}
use yamy.KeyTables.Vk.{yamy_to_evdev_map}

pub data Layout : Type 0 where
  us jp : Layout

-- The first table that is asked on the way back.
unfoldable pub scan_map : Layout → Assoc KeyName
scan_map us = scan_to_evdev_map_us
scan_map jp = scan_to_evdev_map_jp

-- The key that a YAMY code names: by the scan codes, and else by the virtual key codes.
unfoldable pub named_key : Layout → ℕ → Option KeyName
named_key layout yamy_code = elim (lookup yamy_code (scan_map layout)) [
  | none ↦ lookup yamy_code yamy_to_evdev_map
  | some k ↦ some k
]

-- The codes of the Linux headers.
module _ (code : KeyName → ℕ) where
  -- A table whose keys are spelled by their numbers.
  abbrev pub encode : List (KeyName × ℕ) → Assoc ℕ
  encode [] = []
  encode ((k, y) ∷ rest) = (code k, y) ∷ encode rest

  unfoldable pub evdev_to_yamy_key_code : ℕ → ℕ
  evdev_to_yamy_key_code evdev_code = get_or 0 (lookup evdev_code (encode evdev_to_yamy_map))

  abbrev pub code_or_0 : Option KeyName → ℕ
  code_or_0 none = 0
  code_or_0 (some k) = code k

  unfoldable pub yamy_to_evdev_key_code : Layout → ℕ → ℕ
  yamy_to_evdev_key_code layout yamy_code = code_or_0 (named_key layout yamy_code)

  -- The tables as the event processor calls them.
  unfoldable pub linux_key_codes : Layout → KeyCodes
  linux_key_codes layout = record {
    evdev_to_yamy = evdev_to_yamy_key_code;
    yamy_to_evdev = yamy_to_evdev_key_code layout;
  }
