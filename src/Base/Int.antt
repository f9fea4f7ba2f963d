-- ===== src/Base/Int.antt =====
-- Signed integers over the native numbers, for the `int` fields that may be negative.
use Prim.Native.Nat.{ℕ, ◌-◌, ◌%◌, ◌^◌}
use mathlib.Core.Bool.{Bool, true, false}
use powmon.Base.Tests.{ltb, ◌==◌, if◌then◌else◌}

-- `negsuc n` is -(n + 1).
pub data ℤ : Type 0 where
  pos : ℕ → ℤ
  negsuc : ℕ → ℤ

-- `z == n` for a constant of the source
abbrev pub is : ℤ → ℕ → Bool
is (pos m) n = m == n
is (negsuc m) n = false

-- `z > 0`
abbrev pub is_positive : ℤ → Bool
is_positive (pos n) = ltb 0 n
is_positive (negsuc n) = false

-- `z < 0`
abbrev pub is_negative : ℤ → Bool
is_negative (pos n) = false
is_negative (negsuc n) = true

abbrev pub negate : ℕ → ℤ
negate n = if n == 0 then pos 0 else negsuc (n - 1)

-- an `unsigned int` stored in an `int`, which keeps its bits
abbrev pub to_int : ℕ → ℤ
to_int v = let u = v % 2 ^ 32 in if ltb u (2 ^ 31) then pos u else negsuc (2 ^ 32 - 1 - u)

-- -1, the source's mark of an error
abbrev pub minus_one : ℤ
minus_one = negsuc 0
