-- ===== src/Prelude/Bits.antt =====
-- Bit masks and little-endian words.
use Prim.Native.Nat.{ℕ, ◌+◌, ◌*◌, bit_and}
use mathlib.Core.Bool.{Bool, not}
use mathlib.Core.List.{List, [], ◌∷◌}
use wire_harness.Prelude.Tests.{◌==◌}

-- `word & mask != 0`
abbrev pub has : ℕ → ℕ → Bool
has word mask = not (bit_and word mask == 0)

-- `from_le_bytes`
unfoldable pub from_le : List ℕ → ℕ
from_le [] = 0
from_le (b ∷ bs) = b + 256 * from_le bs
