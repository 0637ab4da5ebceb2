-- ===== src/Tests/AlignRuns.antt =====
-- Runs of `align` of src/compare.rs.
use wire_harness.Prelude.{ℕ, ◌+◌, ◌≡◌, Option, none, some, [], ◌∷◌, ◌==◌, if◌then◌else◌}
use wire_harness.Align.{align, align_pairs}
use wire_harness.Align.Single.{IsBest}
use wire_harness.Align.Cache.{align_pairs-IsBest}
use wire_harness.Align.Output.{firsts, seconds, both, align_complete}

-- The packet 0 of one trace is the packet 1 of the other.
abbrev shifted : ℕ → ℕ → Option ℕ
shifted i j = if i + 1 == j then some 5 else none

align_pairs-IsBest_example : IsBest shifted (0 ∷ 1 ∷ []) (0 ∷ 1 ∷ 2 ∷ []) (align_pairs shifted 2 3)
align_pairs-IsBest_example = align_pairs-IsBest shifted 2 3

align_complete_example :
    (firsts (align shifted 2 3) ≡ 0 ∷ 1 ∷ [])
    × (seconds (align shifted 2 3) ≡ 0 ∷ 1 ∷ 2 ∷ [])
    × (both (align shifted 2 3) ≡ align_pairs shifted 2 3)
align_complete_example = align_complete shifted 2 3
