-- ===== src/Base/Int.antt =====
-- Signed integers over the native numbers, and Go's 64-bit `int`.
use fertilesoil.Base.Tests.{ltb, leb, if◌then◌else◌}
use Prim.Native.Nat.{ℕ, suc, ◌+◌, ◌-◌, ◌*◌, ◌%◌, ◌≤◌, ◌<◌}
use mathlib.Core.Path.{◌≡◌}
use mathlib.Core.Bool.{Bool, false, not}
use native.Mathlib.Omega.{arith}

-- `negsuc n` is -(n + 1).
pub data ℤ : Type 0 where
  pos : ℕ → ℤ
  negsuc : ℕ → ℤ

abbrev pub pos_part : ℤ → ℕ
pos_part (pos n) = n
pos_part (negsuc n) = 0

abbrev pub neg_part : ℤ → ℕ
neg_part (pos n) = 0
neg_part (negsuc n) = suc n

-- a - b, as an integer.
abbrev pub sub_ℕ : ℕ → ℕ → ℤ
sub_ℕ a b = if leb b a then pos (a - b) else negsuc (b - a - 1)

infixl 65 ◌+ℤ◌ ◌-ℤ◌
infixl 70 ◌*ℤ◌
unfoldable pub ◌+ℤ◌ : ℤ → ℤ → ℤ
a +ℤ b = sub_ℕ (pos_part a + pos_part b) (neg_part a + neg_part b)

unfoldable pub ◌-ℤ◌ : ℤ → ℤ → ℤ
a -ℤ b = sub_ℕ (pos_part a + neg_part b) (neg_part a + pos_part b)

unfoldable pub ◌*ℤ◌ : ℤ → ℤ → ℤ
a *ℤ b =
    sub_ℕ (pos_part a * pos_part b + neg_part a * neg_part b)
      (pos_part a * neg_part b + neg_part a * pos_part b)

abbrev pub ltb_ℤ : ℤ → ℤ → Bool
ltb_ℤ a b = ltb (pos_part a + neg_part b) (pos_part b + neg_part a)

-- The equality of two integers.
abbrev pub eq_ℤ : ℤ → ℤ → Bool
eq_ℤ a b = if ltb_ℤ a b then false else not (ltb_ℤ b a)

-- 2 ^ 63 and 2 ^ 64.
abbrev pub int_half : ℕ
int_half = 9_223_372_036_854_775_808

abbrev pub int_modulus : ℕ
int_modulus = 18_446_744_073_709_551_616

-- The bits of an integer, and the `int` that they stand for.
abbrev pub to_bits : ℤ → ℕ
to_bits (pos n) = n % int_modulus
to_bits (negsuc n) = int_modulus - 1 - n % int_modulus

abbrev pub of_bits : ℕ → ℤ
of_bits n = if ltb n int_half then pos n else negsuc (int_modulus - 1 - n)

-- The result of an operation on `int`: two's complement.
unfoldable pub wrap64 : ℤ → ℤ
wrap64 z = of_bits (to_bits z)

-- An integer in the range of `int` is kept.
pub wrap64_pos : (n : ℕ) → n < int_half → wrap64 (pos n) ≡ pos n
unfolding wrap64
wrap64_pos n h = ground arith

-- From 2 ^ 63 to 2 ^ 64 the sign turns.
pub wrap64_neg :
    (n : ℕ) → int_half ≤ n → n < int_modulus → wrap64 (pos n) ≡ negsuc (int_modulus - 1 - n)
unfolding wrap64
wrap64_neg n h k = ground arith

pub +ℤ_pos : (a b : ℕ) → pos a +ℤ pos b ≡ pos (a + b)
unfolding ◌+ℤ◌
+ℤ_pos a b = ground arith

pub -ℤ_pos : (a b : ℕ) → b ≤ a → pos a -ℤ pos b ≡ pos (a - b)
unfolding ◌-ℤ◌
-ℤ_pos a b h = ground arith

pub *ℤ_pos : (a b : ℕ) → pos a *ℤ pos b ≡ pos (a * b)
unfolding ◌*ℤ◌
*ℤ_pos a b = ground arith

pub wrap64_negsuc : (n : ℕ) → n < int_half → wrap64 (negsuc n) ≡ negsuc n
unfolding wrap64
wrap64_negsuc n h = ground arith

-- A sum that stays below zero, and its difference from where it began.
pub +ℤ_negsuc : (q z : ℕ) → z ≤ q → negsuc q +ℤ pos z ≡ negsuc (q - z)
unfolding ◌+ℤ◌
+ℤ_negsuc q z h = ground arith

pub -ℤ_negsuc : (q z : ℕ) → z ≤ q → negsuc (q - z) -ℤ negsuc q ≡ pos z
unfolding ◌-ℤ◌
-ℤ_negsuc q z h = ground arith
