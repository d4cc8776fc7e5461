-- ===== src/Base/Flags.antt =====
-- Words and bitsets that the program uses as sets of flags, bit by bit: `w |= 1 << i` and
-- `w &= ~(1 << i)` are `set_bit w i true` and `set_bit w i false`. A comparison of two words of
-- width n compares their bits below n.
use Prim.Native.Nat.{ℕ, zero, suc, ◌<◌}
use mathlib.Core.Path.{◌≡◌, refl}
use mathlib.Core.Logic.{◌≢◌, ◌↔◌}
use mathlib.Core.Bool.{Bool, true, false, not, ◌&&◌, ◌||◌}
use native.Mathlib.Omega.{arith}
use yamy.Base.Tests.{◌==◌, if◌then◌else◌}

abbrev pub Bits : Type 0
Bits = ℕ → Bool

abbrev pub no_bits : Bits
no_bits i = false

abbrev pub set_bit : Bits → ℕ → Bool → Bits
set_bit b i v j = if i == j then v else b j

-- Does the test pass at every number below n?
unfoldable pub all_below : ℕ → (ℕ → Bool) → Bool
all_below zero p = true
all_below (suc n) p = p n && all_below n p

pub all_below_sound : (n : ℕ) (p : ℕ → Bool) (i : ℕ) → all_below n p ≡ true → i < n → p i ≡ true
unfolding all_below
all_below_sound zero p i h lt = absurd (omega arith)
all_below_sound (suc n) p i h lt = ground (arith, all_below_sound n p i)

pub all_below_complete :
    (n : ℕ) (p : ℕ → Bool) → ((i : ℕ) → i < n → p i ≡ true) → all_below n p ≡ true
unfolding all_below
all_below_complete zero p h = refl
all_below_complete (suc n) p h =
    ground (arith, h n (omega arith), all_below_complete n p (λ i lt. h i (omega arith)))

abbrev pub beq : Bool → Bool → Bool
beq true b = b
beq false b = not b

-- `a == b` of two words of width n.
unfoldable pub same_bits : ℕ → Bits → Bits → Bool
same_bits n a b = all_below n (λ i. beq (a i) (b i))

pub beq_sound : (a b : Bool) → beq a b ≡ true → a ≡ b
beq_sound true b h = ground arith
beq_sound false b h = ground arith

pub beq_self : (a : Bool) → beq a a ≡ true
beq_self true = refl
beq_self false = refl

pub same_bits_iff : (n : ℕ) (a b : Bits) → (same_bits n a b ≡ true) ↔ ((i : ℕ) → i < n → a i ≡ b i)
unfolding same_bits
same_bits_iff n a b = (
  λ h i lt. beq_sound (a i) (b i) (all_below_sound n _ i h lt),
  λ h. all_below_complete n _ (λ i lt. ground (arith, h i lt, beq_self (a i))),
)

pub set_bit_self : (b : Bits) (i : ℕ) (v : Bool) → set_bit b i v i ≡ v
set_bit_self b i v = ground arith

pub set_bit_ne : (b : Bits) (i : ℕ) (v : Bool) (j : ℕ) → i ≢ j → set_bit b i v j ≡ b j
set_bit_ne b i v j h = ground arith

-- `b.any()` of a bitset of width n.
unfoldable pub any_below : ℕ → Bits → Bool
any_below zero p = false
any_below (suc n) p = p n || any_below n p

pub any_below_none : (n : ℕ) (p : Bits) (i : ℕ) → any_below n p ≡ false → i < n → p i ≡ false
unfolding any_below
any_below_none zero p i h lt = absurd (omega arith)
any_below_none (suc n) p i h lt = ground (arith, any_below_none n p i)

pub none_below : (n : ℕ) (p : Bits) → ((i : ℕ) → i < n → p i ≡ false) → any_below n p ≡ false
unfolding any_below
none_below zero p h = refl
none_below (suc n) p h =
    ground (arith, h n (omega arith), none_below n p (λ i lt. h i (omega arith)))
