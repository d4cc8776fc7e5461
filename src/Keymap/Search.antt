-- ===== src/Keymap/Search.antt =====
-- What `searchAssignment` of src/core/input/keymap.cpp finds.
use yamy.Base.{
  ℕ, ◌%◌, ◌<◌, ◌≡◌, refl, sym, ◌∙◌, ◌≢◌, ◌⊎◌, inl, inr, Bool, true, false, none, some, List, [],
  ◌∷◌, arith, find_if, All, Bool-cases, Option-cases, ==_self, ==_ne,
}
use yamy.Modifier.{modifier_init, does_match}
use yamy.ModifiedKey.{ModifiedKey, same_key, same_virtual_mods, is_virtual_mod_active}
use yamy.ModifiedKey.Virtual.{same_virtual_mods_iff}
use yamy.Keymap.{
  KeyAssignment, Assignments, reassign, add_to, add_assignment, exact, base_only, search_in,
  search_assignment,
}

-- A new assignment stands in front of its bucket, and the other buckets stay.
search_in-front :
    (ka : List KeyAssignment) (mk : ModifiedKey) (key_seq : ℕ) (wanted : ModifiedKey)
    → reassign mk key_seq ka ≡ none
    → exact wanted (record { modified_key = mk; key_seq = key_seq }) ≡ true
    → search_in (add_to ka mk key_seq) wanted
      ≡ some (record { modified_key = mk; key_seq = key_seq })
unfolding search_in add_to find_if
search_in-front ka mk key_seq wanted r e = rw (r, add_to) (rw (e, search_in, find_if) refl)

-- An assignment added for a key that had none is found for every key in the same bucket that it
-- matches exactly, whatever other assignments match too; and a search in any other bucket finds what
-- it found before.
pub search-add_assignment :
    (m : Assignments) (scan : ℕ) (mk : ModifiedKey) (key_seq : ℕ) (wanted : ModifiedKey) (other : ℕ)
    → reassign mk key_seq (m.buckets (scan % 32)) ≡ none
    → exact wanted (record { modified_key = mk; key_seq = key_seq }) ≡ true
    → other % 32 ≢ scan % 32
    → (search_assignment (add_assignment m scan mk key_seq) scan wanted
        ≡ some (record { modified_key = mk; key_seq = key_seq }))
      × (search_assignment (add_assignment m scan mk key_seq) other wanted
          ≡ search_assignment m other wanted)
unfolding search_assignment add_assignment
search-add_assignment m scan mk key_seq wanted other r e ne = (
  rw (==_self (scan % 32)) (search_in-front (m.buckets (scan % 32)) mk key_seq wanted r e),
  rw (==_ne (scan % 32) (other % 32) (λ q. ne (sym q))) refl,
)

find_if-passes :
    (p : KeyAssignment → Bool) (l : List KeyAssignment) (a : KeyAssignment)
    → find_if p l ≡ some a
    → p a ≡ true
unfolding find_if
find_if-passes p [] a e = cc
find_if-passes p (x ∷ l) a e = ground (arith, find_if-passes p l a)

some_is_found :
    (p : KeyAssignment → Bool) (x : KeyAssignment) (l : List KeyAssignment)
    → p x ≡ true
    → find_if p (x ∷ l) ≢ none
unfolding find_if
some_is_found p x l y = ground (arith, y)

find_if-none :
    (p : KeyAssignment → Bool) (l : List KeyAssignment)
    → find_if p l ≡ none
    → All (λ a. p a ≡ false) l
unfolding find_if
find_if-none p [] e = tt
find_if-none p (x ∷ l) e = elim (Bool-cases (p x)) [
  | inl y ↦ absurd (some_is_found p x l y e)
  | inr n ↦ (n, find_if-none p l (rw (n, find_if) at e))
]

-- A search finds an assignment of the key alone that either matches the key with its modifiers
-- exactly, or matches the key without any modifier where no assignment of the bucket matches exactly.
pub search_in_sound :
    (ka : List KeyAssignment) (wanted : ModifiedKey) (a : KeyAssignment)
    → search_in ka wanted ≡ some a
    → (exact wanted a ≡ true) ⊎ ((base_only wanted a ≡ true) × All (λ x. exact wanted x ≡ false) ka)
unfolding search_in
search_in_sound ka wanted a e = elim (Option-cases (find_if (exact wanted) ka)) [
  | inl n ↦ inr (
    find_if-passes (base_only wanted) ka a (rw (n, search_in) at e),
    find_if-none (exact wanted) ka n,
  )
  | inr (b, f) ↦ inl (find_if-passes (exact wanted) ka a (f ∙ rw (f, search_in) at e))
]

different_mods :
    (a b : ModifiedKey) (n : ℕ)
    → n < 256
    → is_virtual_mod_active a n ≢ is_virtual_mod_active b n
    → same_virtual_mods a b ≡ false
different_mods a b n lt ne = elim (Bool-cases (same_virtual_mods a b)) [
  | inl y ↦ absurd (ne ((same_virtual_mods_iff a b).0 y n lt))
  | inr no_match ↦ no_match
]

-- The second attempt does not look at the virtual modifiers: the only assignment of a bucket, which
-- asks for a virtual modifier and for no other one, is found for its key also when this virtual
-- modifier is not active.
pub search_in-virtual :
    (a : KeyAssignment) (wanted : ModifiedKey) (n : ℕ)
    → same_key a.modified_key.key wanted.key ≡ true
    → does_match a.modified_key.modifier modifier_init ≡ true
    → n < 256
    → is_virtual_mod_active a.modified_key n ≡ true
    → is_virtual_mod_active wanted n ≡ false
    → (search_in (a ∷ []) wanted ≡ some a) × (exact wanted a ≡ false)
unfolding search_in find_if exact base_only
search_in-virtual a wanted n same matching lt on off =
    let differ = different_mods a.modified_key wanted n lt (ground (arith, on, off)) in
    ground (arith, differ)
