-- ===== src/Keymap/Modifiers.antt =====
-- src/core/input/keymap.cpp: the modifier assignments of a `Keymap`, `addModifier` and
-- `adjustModifier`, for one modifier type at a time.
use yamy.Base.{ℕ, Bool, Option, none, some, List, [], ◌∷◌, ◌++◌, map, any, ltb, ◌==◌, if◌then◌else◌}
use yamy.Keymap.{
  AssignOperator, ao_new, ao_add, ao_sub, ao_overwrite, AssignMode, am_normal, ModAssignment,
}

abbrev pub assignment : AssignOperator → AssignMode → ℕ → ModAssignment
assignment ao am key = record { assign_operator = ao; assign_mode = am; key = key }

-- The loop of `addModifier`: the first assignment of the key is changed, or a new one goes to the end.
unfoldable pub set_or_append : ModAssignment → List ModAssignment → List ModAssignment
set_or_append ma [] = ma ∷ []
set_or_append ma (i ∷ rest) =
    let behind = set_or_append ma rest in if i.key == ma.key then ma ∷ rest else i ∷ behind

unfoldable pub add_modifier :
    AssignOperator → AssignMode → ℕ → List ModAssignment → List ModAssignment
add_modifier ao_new am key l = assignment ao_new am key ∷ []
add_modifier ao_add am key l = set_or_append (assignment ao_add am key) l
add_modifier ao_sub am key l = set_or_append (assignment ao_sub am key) l
add_modifier ao_overwrite am key l = set_or_append (assignment ao_overwrite am key) l

abbrev pub has_key : ℕ → List ModAssignment → Bool
has_key key l = any (λ m. m.key == key) l

-- `erase` of the first assignment of a key.
unfoldable pub erase_key : ℕ → List ModAssignment → List ModAssignment
erase_key key [] = []
erase_key key (j ∷ rest) =
    let behind = erase_key key rest in if j.key == key then rest else j ∷ behind

abbrev pub with_mode : AssignMode → ModAssignment → ModAssignment
with_mode am j = record j { assign_mode = am }

-- One round of the loop over the assignments of this keymap.
unfoldable pub adjust_by : AssignOperator → AssignMode → ℕ → List ModAssignment → List ModAssignment
adjust_by ao_new am key mos = assignment ao_new am key ∷ []
adjust_by ao_add am key mos = mos ++ assignment ao_new am key ∷ []
adjust_by ao_sub am key mos = erase_key key mos
adjust_by ao_overwrite am key mos = map (with_mode am) mos

unfoldable pub adjust_all : List ModAssignment → List ModAssignment → List ModAssignment
adjust_all [] mos = mos
adjust_all (ma ∷ rest) mos =
    adjust_all rest (adjust_by ma.assign_operator ma.assign_mode ma.key mos)

-- The loop that erases a redundant assignment.
unfoldable pub erase_redundant : List ModAssignment → List ModAssignment
erase_redundant [] = []
erase_redundant (j ∷ rest) =
    let behind = erase_redundant rest in if has_key j.key rest then rest else j ∷ behind

-- The assignments to begin with: those of the parent, or else, for a basic modifier (number below 4),
-- the keys that the keyboard has for it.
unfoldable pub inherited : Option (List ModAssignment) → ℕ → List ℕ → List ModAssignment
inherited (some parent) type mods = parent
inherited none type mods = if ltb type 4 then map (assignment ao_add am_normal) mods else []

-- `adjustModifier` for one type, from the parent's assignments, the keyboard's keys and its own
-- assignments.
unfoldable pub adjust_modifier :
    Option (List ModAssignment) → ℕ → List ℕ → List ModAssignment → List ModAssignment
adjust_modifier parent type mods own = erase_redundant (adjust_all own (inherited parent type mods))
