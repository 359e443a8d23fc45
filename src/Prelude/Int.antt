-- ===== src/Prelude/Int.antt =====
-- Go's signed integers, as far as the code adds, subtracts and compares them.
use Prim.Native.Nat.{ℕ, zero, suc, ◌+◌, ◌-◌, ◌≤◌}
use mathlib.Core.Path.{◌≡◌, ap}
use mathlib.Core.Logic.{◌≢◌}
use mathlib.Core.Bool.{Bool, true, false, not}
use native.Mathlib.Omega.{arith}
use memmy.Prelude.Tests.{ltb, leb, ◌==◌, if◌then◌else◌}

-- `negsuc n` is -(n + 1).
pub data ℤ : Type 0 where
  pos : ℕ → ℤ
  negsuc : ℕ → ℤ

-- a - b, as an integer.
abbrev pub sub_ℕ : ℕ → ℕ → ℤ
sub_ℕ a b = if leb b a then pos (a - b) else negsuc (b - a - 1)

abbrev pub pos_part : ℤ → ℕ
pos_part (pos n) = n
pos_part (negsuc n) = 0

abbrev pub neg_part : ℤ → ℕ
neg_part (pos n) = 0
neg_part (negsuc n) = suc n

infixl 65 ◌+ℤ◌
unfoldable pub ◌+ℤ◌ : ℤ → ℤ → ℤ
a +ℤ b = sub_ℕ (pos_part a + pos_part b) (neg_part a + neg_part b)

abbrev pub neg : ℕ → ℤ
neg zero = pos 0
neg (suc n) = negsuc n

-- `a < b`.
abbrev pub int_ltb : ℤ → ℤ → Bool
int_ltb (pos a) (pos b) = ltb a b
int_ltb (pos a) (negsuc b) = false
int_ltb (negsuc a) (pos b) = true
int_ltb (negsuc a) (negsuc b) = ltb b a

-- `a == b`.
abbrev pub int_eqb : ℤ → ℤ → Bool
int_eqb (pos a) (pos b) = a == b
int_eqb (pos a) (negsuc b) = false
int_eqb (negsuc a) (pos b) = false
int_eqb (negsuc a) (negsuc b) = a == b

pub pos_add : (a b : ℕ) → pos a +ℤ pos b ≡ pos (a + b)
unfolding ◌+ℤ◌
pos_add a b = ground arith

pub pos_sub : (a b : ℕ) → b ≤ a → pos a +ℤ neg b ≡ pos (a - b)
unfolding ◌+ℤ◌
pos_sub a zero h = ground arith
pos_sub a (suc b) h = ground arith

pub int_eqb-eq : (a b : ℤ) → int_eqb a b ≡ true → a ≡ b
int_eqb-eq (pos a) (pos b) h = ap pos (ground (arith, h))
int_eqb-eq (pos a) (negsuc b) h = absurd (cc h)
int_eqb-eq (negsuc a) (pos b) h = absurd (cc h)
int_eqb-eq (negsuc a) (negsuc b) h = ap negsuc (ground (arith, h))

pub same_int : (v : ℤ) → not (int_eqb v v) ≢ true
same_int (pos n) h = grind (arith, h)
same_int (negsuc n) h = grind (arith, h)
