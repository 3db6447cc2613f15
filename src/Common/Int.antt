-- ===== src/Common/Int.antt =====
-- Whole numbers of either sign, as far as the counters of Redis need them.
use Prim.Native.Nat.{ℕ, suc, ◌+◌, ◌-◌}
use urlfy_cc.Common.Tests.{leb, if◌then◌else◌}

-- `negsuc n` is -(n + 1).
pub data ℤ : Type 0 where
  pos : ℕ → ℤ
  negsuc : ℕ → ℤ

-- a - b
abbrev pub sub_ℕ : ℕ → ℕ → ℤ
sub_ℕ a b = if leb b a then pos (a - b) else negsuc (b - a - 1)

-- z + n and z - n for a natural n.
abbrev pub plus_ℕ : ℤ → ℕ → ℤ
plus_ℕ (pos m) n = pos (m + n)
plus_ℕ (negsuc m) n = sub_ℕ n (suc m)

abbrev pub minus_ℕ : ℤ → ℕ → ℤ
minus_ℕ (pos m) n = sub_ℕ m n
minus_ℕ (negsuc m) n = negsuc (m + n)

-- z, or 0 below it.
abbrev pub pos_part : ℤ → ℕ
pos_part (pos n) = n
pos_part (negsuc n) = 0
