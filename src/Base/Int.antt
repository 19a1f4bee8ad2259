-- ===== src/Base/Int.antt =====
-- Signed integers over the native numbers, under the library's names, and the casts between
-- machine widths that the program makes.
use Prim.Native.Nat.{ℕ, suc, ◌+◌, ◌-◌, ◌%◌, ◌≤◌}
use mathlib.Core.Bool.{Bool}
use autossh_1_4g.Base.Tests.{ltb, leb, if◌then◌else◌}

-- `negsuc n` is -(n + 1).
pub data ℤ : Type 0 where
  pos : ℕ → ℤ
  negsuc : ℕ → ℤ

abbrev pub pos_part : ℤ → ℕ
pos_part (pos n) = n
pos_part (negsuc n) = 0

abbrev pub neg_part : ℤ → ℕ
neg_part (pos n) = 0
neg_part (negsuc n) = suc n

-- a - b, as an integer.
abbrev pub sub_ℕ : ℕ → ℕ → ℤ
sub_ℕ a b = if leb b a then pos (a - b) else negsuc (b - a - 1)

infix 50 ◌≤ℤ◌
abbrev pub ◌≤ℤ◌ : ℤ → ℤ → Type 0
a ≤ℤ b = pos_part a + neg_part b ≤ pos_part b + neg_part a

abbrev pub ltb_ℤ : ℤ → ℤ → Bool
ltb_ℤ a b = ltb (pos_part a + neg_part b) (pos_part b + neg_part a)

-- `n as c_int` for a non-negative n: the low 32 bits, read in two's complement.
abbrev pub c_int_of_ℕ : ℕ → ℤ
c_int_of_ℕ n = let w = n % 4294967296 in if ltb w 2147483648 then pos w else negsuc (4294967295 - w)

-- `n as c_int` of a `c_long`.
abbrev pub c_int : ℤ → ℤ
c_int (pos n) = c_int_of_ℕ n
c_int (negsuc n) = c_int_of_ℕ (4294967295 - n % 4294967296)

-- `n as c_uint` of a `c_int`.
abbrev pub c_uint : ℤ → ℕ
c_uint (pos n) = n % 4294967296
c_uint (negsuc n) = 4294967295 - n % 4294967296
