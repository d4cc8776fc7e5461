-- ===== src/KeyTables/RoundTrip.antt =====
-- Which keys survive the way through the tables of src/platform/linux/keycode_mapping.cpp and back.
use yamy.Base.{
  ℕ, ◌≡◌, refl, sym, ap, ◌∙◌, ◌≢◌, Bool, true, false, not, ◌&&◌, ◌||◌, Option, none, some, List, [],
  ◌∷◌, arith, All, lookup, get_or, both_true, ==_iff, ◌==◌, if◌then◌else◌, leb, ==_ne, ==_self,
  Bool-cases, inl, inr,
}
use yamy.KeyTables.Names.{KeyName, index, index_injective}
use yamy.KeyTables.Evdev.{evdev_to_yamy_map}
use yamy.KeyTables.ScanUs.{scan_to_evdev_map_us}
use yamy.KeyTables.ScanJp.{scan_to_evdev_map_jp}
use yamy.KeyTables.Vk.{yamy_to_evdev_map}
use yamy.KeyTables.Lookup.{
  Layout, us, jp, scan_map, named_key, encode, code_or_0, evdev_to_yamy_key_code,
  yamy_to_evdev_key_code,
}

-- The codes that are taken for another key or for none on the way back: those of F13 to F24, of the
-- key between Left Shift and Z, and of Pause.
abbrev pub is_misread : ℕ → Bool
is_misread y = (leb 0x64 y && leb y 0x6E) || ((y == 0x76) || ((y == 0x56) || (y == 0xE11D)))

-- Is this the key?
abbrev names_key : KeyName → Option KeyName → Bool
names_key k none = false
names_key k (some j) = index j == index k

-- The first entry for a key, by its place.
find_key : KeyName → List (KeyName × ℕ) → Option ℕ
find_key k [] = none
find_key k ((j, y) ∷ rest) =
    let behind = find_key k rest in if index j == index k then some y else behind

-- One entry of the table: its key is found, and comes back unless its code is misread.
entry_ok : Layout → KeyName → ℕ → Bool
entry_ok layout k y =
    (get_or 0 (find_key k evdev_to_yamy_map) == y)
    && (if is_misread y
        then not (names_key k (named_key layout y))
        else names_key k (named_key layout y))

all_ok : Layout → List (KeyName × ℕ) → Bool
all_ok layout [] = true
all_ok layout ((k, y) ∷ rest) = entry_ok layout k y && all_ok layout rest

us_ok : all_ok us evdev_to_yamy_map ≡ true
unfolding all_ok entry_ok find_key named_key scan_map lookup index evdev_to_yamy_map
    scan_to_evdev_map_us yamy_to_evdev_map
us_ok = refl

jp_ok : all_ok jp evdev_to_yamy_map ≡ true
unfolding all_ok entry_ok find_key named_key scan_map lookup index evdev_to_yamy_map
    scan_to_evdev_map_jp yamy_to_evdev_map
jp_ok = refl

every_ok : (layout : Layout) → all_ok layout evdev_to_yamy_map ≡ true
every_ok us = us_ok
every_ok jp = jp_ok

-- What comes back for a key with code c: another code, if it is misread, and else its own.
abbrev pub Back : Bool → ℕ → ℕ → Type 0
Back true out c = out ≢ c
Back false out c = out ≡ c

same_place : (j k : KeyName) → (index j == index k) ≡ true → j ≡ k
same_place j k h = index_injective j k ((==_iff (index j) (index k)).0 h)

absurd_place : (j k : KeyName) → (index j == index k) ≡ false → index j ≡ index k → ⊥
absurd_place j k n e = ground arith

module _ (code : KeyName → ℕ) (apart : (a b : KeyName) → code a ≡ code b → a ≡ b)
    (nonzero : (a : KeyName) → code a ≢ 0) where
  same_code_place : (j k : KeyName) → (code j == code k) ≡ (index j == index k)
  same_code_place j k = elim (Bool-cases (index j == index k)) [
    | inl y ↦ rw y (rw (same_place j k y) (==_self (code k)))
    | inr n ↦ rw n (==_ne (code j) (code k) (λ e. absurd_place j k n (ap index (apart j k e))))
  ]

  lookup-encode :
      (k : KeyName) (t : List (KeyName × ℕ)) → lookup (code k) (encode code t) ≡ find_key k t
  unfolding lookup find_key
  lookup-encode k [] = refl
  lookup-encode k ((j, y) ∷ rest) = ground (arith, same_code_place j k, lookup-encode k rest)

  Back-named :
      (k : KeyName) (o : Option KeyName) (misread : Bool)
      → (if misread then not (names_key k o) else names_key k o) ≡ true
      → Back misread (code_or_0 code o) (code k)
  Back-named k none true h = λ e. nonzero k (sym e)
  Back-named k none false h = cc
  Back-named k (some j) true h = λ e. ground (arith, ap index (apart j k e))
  Back-named k (some j) false h = ap code (same_place j k h)

  -- Of an entry of the table: its key's event gets the entry's code, and the way back gives the key's
  -- code again, or another one if the entry's code is misread.
  abbrev pub RoundTrip : Layout → KeyName × ℕ → Type 0
  RoundTrip layout (k, y) =
      (evdev_to_yamy_key_code code (code k) ≡ y)
      × Back (is_misread y)
          (yamy_to_evdev_key_code code layout (evdev_to_yamy_key_code code (code k))) (code k)

  entry-RoundTrip :
      (layout : Layout) (k : KeyName) (y : ℕ) → entry_ok layout k y ≡ true → RoundTrip layout (k, y)
  unfolding entry_ok evdev_to_yamy_key_code yamy_to_evdev_key_code
  entry-RoundTrip layout k y h =
      let (found, kept) = both_true (get_or 0 (find_key k evdev_to_yamy_map) == y) _ h in
      let there =
        ap (get_or 0) (lookup-encode k evdev_to_yamy_map)
        ∙ (==_iff (get_or 0 (find_key k evdev_to_yamy_map)) y).0 found in
      (there, rw there (Back-named k (named_key layout y) (is_misread y) kept))

  all_ok-RoundTrip :
      (layout : Layout) (t : List (KeyName × ℕ)) → all_ok layout t ≡ true → All (RoundTrip layout) t
  unfolding all_ok
  all_ok-RoundTrip layout [] h = tt
  all_ok-RoundTrip layout ((k, y) ∷ rest) h =
      let (first, others) = both_true (entry_ok layout k y) (all_ok layout rest) h in
      (entry-RoundTrip layout k y first, all_ok-RoundTrip layout rest others)

  -- If the key codes of the headers are different from each other and from 0, then for both layouts
  -- and for every entry of the table `evdevToYamyKeyCode` gives the entry's code for the entry's key,
  -- and `yamyToEvdevKeyCode` takes it back to the key's code, except for the codes 0x56, 0x64 to
  -- 0x6E, 0x76 and 0xE11D, which it takes to another code or to none.
  pub round_trip : (layout : Layout) → All (RoundTrip layout) evdev_to_yamy_map
  round_trip layout = all_ok-RoundTrip layout evdev_to_yamy_map (every_ok layout)
