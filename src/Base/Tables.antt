-- ===== src/Base/Tables.antt =====
-- `std::unordered_map` with numeric keys, as an association list. Its order of iteration, which C++
-- leaves open, is that of the list.
use Prim.Native.Nat.{ℕ}
use mathlib.Core.Path.{◌≡◌, refl, subst}
use mathlib.Core.Logic.{inl, inr}
use mathlib.Core.Option.{Option, none, some}
use mathlib.Core.List.{List, [], ◌∷◌}
use native.Mathlib.Omega.{arith}
use yamy.Base.Tests.{◌==◌, if◌then◌else◌, Bool-cases}

abbrev pub Assoc {ℓ} : Type ℓ → Type ℓ
Assoc V = List (ℕ × V)

module _ {ℓ} {V : Type ℓ} where
  unfoldable pub lookup : ℕ → Assoc V → Option V
  lookup key [] = none
  lookup key ((other, value) ∷ rest) =
      let behind = lookup key rest in if other == key then some value else behind

  -- `m[k] = v`
  unfoldable pub insert : ℕ → V → Assoc V → Assoc V
  insert key value [] = (key, value) ∷ []
  insert key value ((other, old) ∷ rest) =
      let behind = insert key value rest in
      if other == key then (key, value) ∷ rest else (other, old) ∷ behind

  pub lookup-insert :
      (k j : ℕ) (v : V) (table : Assoc V)
      → lookup j (insert k v table) ≡ (if k == j then some v else lookup j table)
  unfolding insert lookup
  lookup-insert k j v [] = refl
  lookup-insert k j v (entry ∷ table) = ground (arith, lookup-insert k j v table)

  -- `m[k]`, which makes a default entry where there is none.
  abbrev pub get_or : V → Option V → V
  get_or d none = d
  get_or d (some v) = v

  -- No key has two entries.
  abbrev pub Distinct : Assoc V → Type ℓ
  Distinct [] = Unit
  Distinct ((k, v) ∷ m) = (lookup k m ≡ none) × Distinct m

  pub insert-Distinct : (k : ℕ) (v : V) (m : Assoc V) → Distinct m → Distinct (insert k v m)
  unfolding insert lookup
  insert-Distinct k v [] d = (refl, tt)
  insert-Distinct k v ((j, w) ∷ m) d =
      ground (arith, lookup-insert k j v m, insert-Distinct k v m d.1)

  -- `v` is at key k exactly as `lookup` finds it, so a property of all entries holds of what is
  -- found, and an insertion keeps a property that the new value has.
  abbrev pub AllValues {κ} : (V → Type κ) → Assoc V → Type κ
  AllValues P [] = Unit
  AllValues P ((k, v) ∷ m) = P v × AllValues P m

  pub lookup-AllValues {κ} :
      (P : V → Type κ) (k : ℕ) (m : Assoc V) {v : V} → AllValues P m → lookup k m ≡ some v → P v
  unfolding lookup
  lookup-AllValues P k [] a e = cc
  lookup-AllValues P k ((j, w) ∷ m) {v} a e = elim (Bool-cases (j == k)) [
    | inl y ↦ let q : w ≡ v = ground arith in subst P q a.0
    | inr n ↦ lookup-AllValues P k m a.1 (rw n at e)
  ]

  pub insert-AllValues {κ} :
      (P : V → Type κ) (k : ℕ) (v : V) (m : Assoc V)
      → P v
      → AllValues P m
      → AllValues P (insert k v m)
  unfolding insert
  insert-AllValues P k v [] p a = (p, tt)
  insert-AllValues P k v ((j, w) ∷ m) p a = elim (Bool-cases (j == k)) [
    | inl y ↦ rw y (p, a.1)
    | inr n ↦ rw n (a.0, insert-AllValues P k v m p a.1)
  ]
