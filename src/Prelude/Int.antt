-- ===== src/Prelude/Int.antt =====
-- Signed integers over the native numbers, and two's complement.
use Prim.Native.Nat.{ℕ, ◌-◌, ◌^◌}
use wire_harness.Prelude.Tests.{ltb, if◌then◌else◌}

-- `negsuc n` is -(n + 1).
pub data ℤ : Type 0 where
  pos : ℕ → ℤ
  negsuc : ℕ → ℤ

-- The integer that a `w`-bit pattern stands for.
unfoldable pub signed_of : ℕ → ℕ → ℤ
signed_of w n = if ltb n (2 ^ (w - 1)) then pos n else negsuc (2 ^ w - n - 1)
