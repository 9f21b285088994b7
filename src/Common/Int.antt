-- ===== src/Common/Int.antt =====
-- Numbers that may be negative: the replies of Redis.
use Prim.Native.Nat.{ℕ, ◌*◌, ◌-◌, suc}
use mathlib.Core.Bool.{Bool, false}
use apicenter_hehe.Common.Tests.{ltb}

-- `negsuc n` is -(n + 1).
pub data ℤ : Type 0 where
  pos : ℕ → ℤ
  negsuc : ℕ → ℤ

-- `a > 0`
abbrev pub is_positive : ℤ → Bool
is_positive (pos n) = ltb 0 n
is_positive (negsuc n) = false

-- `a * 1000`
abbrev pub thousands : ℤ → ℤ
thousands (pos n) = pos (n * 1000)
thousands (negsuc n) = negsuc (suc n * 1000 - 1)
