-- ===== src/Common/Int.antt =====
-- Signed integers over the native numbers, and the error codes of the kernel.
use Prim.Native.Nat.{ℕ, suc, ◌+◌, ◌-◌}
use mathlib.Core.Bool.{Bool, false}
use pxmod.Common.Tests.{ltb, leb, ◌==◌, if◌then◌else◌}

-- `negsuc n` is -(n + 1).
pub data ℤ : Type 0 where
  pos : ℕ → ℤ
  negsuc : ℕ → ℤ

abbrev pub pos_part : ℤ → ℕ
pos_part (pos n) = n
pos_part (negsuc n) = 0

abbrev pub neg_part : ℤ → ℕ
neg_part (pos n) = 0
neg_part (negsuc n) = suc n

abbrev pub sub_ℕ : ℕ → ℕ → ℤ
sub_ℕ a b = if leb b a then pos (a - b) else negsuc (b - a - 1)

infixl 65 ◌+ℤ◌
abbrev pub ◌+ℤ◌ : ℤ → ℤ → ℤ
a +ℤ b = sub_ℕ (pos_part a + pos_part b) (neg_part a + neg_part b)

-- The number is 0, or below it.
abbrev pub is_zero : ℤ → Bool
is_zero (pos n) = n == 0
is_zero (negsuc n) = false

abbrev pub is_pos : ℤ → Bool
is_pos (pos n) = ltb 0 n
is_pos (negsuc n) = false

abbrev pub eperm : ℤ
eperm = negsuc 0

abbrev pub enoent : ℤ
enoent = negsuc 1

abbrev pub eio : ℤ
eio = negsuc 4

abbrev pub enxio : ℤ
enxio = negsuc 5

abbrev pub eagain : ℤ
eagain = negsuc 10

abbrev pub enomem : ℤ
enomem = negsuc 11

abbrev pub efault : ℤ
efault = negsuc 13

abbrev pub ebusy : ℤ
ebusy = negsuc 15

abbrev pub eexist : ℤ
eexist = negsuc 16

abbrev pub enodev : ℤ
enodev = negsuc 18

abbrev pub einval : ℤ
einval = negsuc 21

abbrev pub eopnotsupp : ℤ
eopnotsupp = negsuc 94

abbrev pub econnaborted : ℤ
econnaborted = negsuc 102

abbrev pub enotconn : ℤ
enotconn = negsuc 106

-- -ERESTARTSYS, which is -512.
abbrev pub erestartsys : ℤ
erestartsys = negsuc 511
