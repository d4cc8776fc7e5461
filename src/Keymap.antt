-- ===== src/Keymap.antt =====
-- src/core/input/keymap.cpp and keymap.h: the key assignments of a `Keymap`, hashed by the first scan
-- code of the key. A `KeySeq` is its number. The default sequence and the parent are left out, and so are
-- `describe` and the clone operations.
pub mod Search
pub mod Modifiers
pub mod Adjusted
use yamy.Base.{
  ℕ, ◌%◌, ◌≡◌, Bool, true, false, ◌&&◌, Option, none, some, List, [], ◌∷◌, find_if, ◌==◌,
  if◌then◌else◌,
}
use yamy.Modifier.{modifier_init, does_match}
use yamy.ModifiedKey.{ModifiedKey, same_key, same_virtual_mods, same_modified_key}

pub record KeyAssignment : Type 0 where
  pub modified_key : ModifiedKey
  pub key_seq : ℕ

pub data AssignOperator : Type 0 where
  ao_new ao_add ao_sub ao_overwrite : AssignOperator

pub data AssignMode : Type 0 where
  am_not_modifier am_normal am_true am_one_shot am_one_shot_repeatable : AssignMode

pub record ModAssignment : Type 0 where
  pub assign_operator : AssignOperator
  pub assign_mode : AssignMode
  pub key : ℕ

-- `m_hashedKeyAssignments`, bucket by bucket.
pub record Assignments : Type 0 where
  pub buckets : ℕ → List KeyAssignment

-- The loop of `addAssignment`: the first assignment of this key gets the sequence; `none` where the
-- key has no assignment.
unfoldable pub reassign : ModifiedKey → ℕ → List KeyAssignment → Option (List KeyAssignment)
reassign mk key_seq [] = none
reassign mk key_seq (a ∷ ka) =
    let rest = reassign mk key_seq ka in
    if same_modified_key a.modified_key mk
    then some (record a { key_seq = key_seq } ∷ ka)
    else elim rest [ none ↦ none | some l ↦ some (a ∷ l) ]

unfoldable pub add_to : List KeyAssignment → ModifiedKey → ℕ → List KeyAssignment
add_to ka mk key_seq = elim (reassign mk key_seq ka) [
  | none ↦ record { modified_key = mk; key_seq = key_seq } ∷ ka
  | some l ↦ l
]

-- `addAssignment`, for a key with the given first scan code; the code asserts that there is one.
unfoldable pub add_assignment : Assignments → ℕ → ModifiedKey → ℕ → Assignments
add_assignment m scan mk key_seq = record m {
  buckets = λ b. (if scan % 32 == b then add_to (m.buckets b) mk key_seq else m.buckets b);
}

-- The test of the first attempt, and that of the second.
unfoldable pub exact : ModifiedKey → KeyAssignment → Bool
exact mk a =
    same_key a.modified_key.key mk.key
    && (does_match a.modified_key.modifier mk.modifier && same_virtual_mods a.modified_key mk)

unfoldable pub base_only : ModifiedKey → KeyAssignment → Bool
base_only mk a =
    same_key a.modified_key.key mk.key && does_match a.modified_key.modifier modifier_init

unfoldable pub search_in : List KeyAssignment → ModifiedKey → Option KeyAssignment
search_in ka mk = elim (find_if (exact mk) ka) [
  | none ↦ find_if (base_only mk) ka
  | some a ↦ some a
]

-- `searchAssignment`, for a key with the given first scan code.
unfoldable pub search_assignment : Assignments → ℕ → ModifiedKey → Option KeyAssignment
search_assignment m scan mk = search_in (m.buckets (scan % 32)) mk
