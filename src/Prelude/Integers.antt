-- ===== src/Prelude/Integers.antt =====
-- The integers, over the native numbers, and the tests on them.
use Prim.Native.Nat.{ℕ, suc, ◌+◌, ◌-◌}
use mathlib.Core.Path.{◌≡◌}
use mathlib.Core.Bool.{Bool, true, false, not}
use native.Mathlib.Omega.{arith}
use workbench.Prelude.Tests.{ltb, leb, if◌then◌else◌}

-- `negsuc n` is `- (n + 1)`.
pub data ℤ : Type 0 where
  pos negsuc : ℕ → ℤ

abbrev pub add_nat : ℤ → ℕ → ℤ
add_nat (pos a) n = pos (a + n)
add_nat (negsuc a) n = if leb n a then negsuc (a - n) else pos (n - a - 1)

abbrev pub sub_nat : ℤ → ℕ → ℤ
sub_nat (pos a) n = if leb n a then pos (a - n) else negsuc (n - a - 1)
sub_nat (negsuc a) n = negsuc (a + n)

infixl 60 ◌-ℤ◌
abbrev pub ◌-ℤ◌ : ℤ → ℤ → ℤ
x -ℤ pos n = sub_nat x n
x -ℤ negsuc n = add_nat x (suc n)

abbrev pub int_le : ℤ → ℤ → Bool
int_le (pos a) (pos b) = leb a b
int_le (pos a) (negsuc b) = false
int_le (negsuc a) (pos b) = true
int_le (negsuc a) (negsuc b) = leb b a

abbrev pub int_lt : ℤ → ℤ → Bool
int_lt x y = not (int_le y x)

abbrev pub int_min : ℤ → ℤ → ℤ
int_min x y = if int_le x y then x else y

pub int_lt-add_nat : (x : ℤ) (n : ℕ) → int_lt x (add_nat x n) ≡ ltb 0 n
int_lt-add_nat (pos a) n = ground arith
int_lt-add_nat (negsuc a) n = ground arith

pub int_lt-sub_nat : (x : ℤ) (n : ℕ) → int_lt (sub_nat x n) x ≡ ltb 0 n
int_lt-sub_nat (pos a) n = ground arith
int_lt-sub_nat (negsuc a) n = ground arith

-- A gap of at least `n` between two integers.
pub int_le-minus : (x y : ℤ) (n : ℕ) → int_le (pos n) (y -ℤ x) ≡ int_le (add_nat x n) y
int_le-minus (pos a) (pos b) n = ground arith
int_le-minus (pos a) (negsuc b) n = ground arith
int_le-minus (negsuc a) (pos b) n = ground arith
int_le-minus (negsuc a) (negsuc b) n = ground arith

pub int_le_refl : (x : ℤ) → int_le x x ≡ true
int_le_refl (pos n) = ground arith
int_le_refl (negsuc n) = ground arith
