-- ===== src/Align.antt =====
-- `align` of src/compare.rs: the longest alignment of expected and actual packets, found by
-- divide and conquer over rows of lengths, ties broken by quality.
pub mod Score
pub mod Matching
pub mod Rows
pub mod Split
pub mod Greatest
pub mod Single
pub mod Optimal
pub mod Output
pub mod Cache
use wire_harness.Prelude.{
  ℕ, zero, suc, ◌+◌, ◌-◌, ◌*◌, ◌/◌, ◌^◌, Bool, true, false, ◌&&◌, ◌||◌, Option, none, some, List,
  [], ◌∷◌, ◌++◌, map, ltb, leb, ◌==◌, length, take, drop, get_or, get_elem?, range_from, replicate,
  if◌then◌else◌,
}
use mathlib.Core.List.{reverse}
use Score.{Value, best, plus}

pub max_from {ℓ} : {A : Type ℓ} → (A → A → Bool) → A → List A → A
max_from at_most x [] = x
max_from at_most x (y ∷ ys) = max_from at_most (if at_most x y then y else x) ys

-- `max_by_key`: the last of the greatest, in the order `at_most` of the keys.
pub max_by {ℓ} : {A : Type ℓ} → (A → A → Bool) → List A → Option A
max_by at_most [] = none
max_by at_most (x ∷ xs) = some (max_from at_most x xs)

-- The key of `split`: the sums of the two rows at `i`, and `i`. Both rows have `n + 1` entries, so
-- that the default is not read.
abbrev pub split_value : List Value → List Value → ℕ → ℕ → Value
split_value left right n i = plus (get_or left i (0, 0)) (get_or right (n - i) (0, 0))

abbrev pub split_at_most : List Value → List Value → ℕ → ℕ → ℕ → Bool
split_at_most left right n i j =
    let v = split_value left right n i in
    let w = split_value left right n j in
    ltb v.0 w.0 || (v.0 == w.0 && (ltb v.1 w.1 || (v.1 == w.1 && leb i j)))

-- `(0..=a.len()).max_by_key(…).unwrap()`
pub split_point : List Value → List Value → ℕ → ℕ
split_point left right n = max_from (split_at_most left right n) 0 (range_from 1 n)

-- `row[j + 1]` for each `j`: `diagonal` is the old `row[j]`, `left` the new one, and the old row
-- from `j + 1` on comes as a list.
module _ (score : ℕ → ℕ → Option ℕ) where
  pub cell : ℕ → ℕ → Value → Value → Value → Value
  cell ei ai diagonal left previous =
      let skipped = best left previous in
      elim (score ei ai) [
        | none ↦ skipped
        | some quality ↦ best skipped (plus diagonal (1, quality))
      ]

  pub fill : ℕ → Value → Value → List ℕ → List Value → List Value
  fill ei diagonal left [] row = []
  fill ei diagonal left (ai ∷ a) [] = []
  fill ei diagonal left (ai ∷ a) (previous ∷ row) =
      let here = cell ei ai diagonal left previous in here ∷ fill ei previous here a row

  -- One round of the outer loop. `row[0]` stays.
  pub next_row : ℕ → List ℕ → List Value → List Value
  next_row ei a [] = []
  next_row ei a (first ∷ row) = first ∷ fill ei (0, 0) first a row

  pub rows : List ℕ → List ℕ → List Value → List Value
  rows [] a row = row
  rows (ei ∷ e) a row = rows e a (next_row ei a row)

  -- `lengths`
  pub lengths : List ℕ → List ℕ → List Value
  lengths e a = rows e a (replicate (length a + 1) (0, 0))

  -- The candidates for a single expected packet, the last first.
  pub candidates : ℕ → List ℕ → List (ℕ × ℕ)
  candidates ei [] = []
  candidates ei (ai ∷ a) =
      let rest = candidates ei a in
      elim (score ei ai) [ none ↦ rest | some quality ↦ (ai, quality) ∷ rest ]

  -- The alignment of a single expected packet.
  pub single : ℕ → List ℕ → List (ℕ × ℕ)
  unfolding max_by max_from
  single ei a = elim (max_by (λ p q. leb p.1 q.1) (candidates ei (reverse a))) [
    | none ↦ []
    | some (ai, quality) ↦ (ei, ai) ∷ []
  ]

  -- `lcs`. Each half is shorter than a list of two or more, so that `length e` rounds are enough.
  pub lcs : ℕ → List ℕ → List ℕ → List (ℕ × ℕ)
  lcs zero e a = []
  lcs (suc fuel) [] a = []
  lcs (suc fuel) (x ∷ e) [] = []
  lcs (suc fuel) (x ∷ []) (y ∷ a) = single x (y ∷ a)
  lcs (suc fuel) (x ∷ x' ∷ e) (y ∷ a) =
      let expected = x ∷ x' ∷ e in
      let actual = y ∷ a in
      let middle = length expected / 2 in
      let left = lengths (take middle expected) actual in
      let right = lengths (reverse (drop middle expected)) (reverse actual) in
      let split = split_point left right (length actual) in
      lcs fuel (take middle expected) (take split actual)
      ++ lcs fuel (drop middle expected) (drop split actual)

-- The pairs of `align`, with the packets left out between them. The list ends with the sentinel
-- `(expected, actual)`.
pub gaps : ℕ → ℕ → ℕ → List (ℕ × ℕ) → List (Option ℕ × Option ℕ)
gaps expected ei ai [] = []
gaps expected ei ai ((e, a) ∷ pairs) =
    let rest = gaps expected (e + 1) (a + 1) pairs in
    map (λ i. (some i, none)) (range_from ei (e - ei))
    ++ (map (λ i. (none, some i)) (range_from ai (a - ai))
        ++ ((if ltb e expected then (some e, some a) ∷ [] else []) ++ rest))

-- The cache of scores, row by row, where it has room.
module _ (score : ℕ → ℕ → Option ℕ) where
  pub row_scores : ℕ → List ℕ → List (Option ℕ)
  row_scores i = map (score i)

  pub scores_of : List ℕ → List ℕ → List (Option ℕ)
  scores_of [] a = []
  scores_of (i ∷ e) a = row_scores i a ++ scores_of e a

  pub cached : ℕ → ℕ → Option (List (Option ℕ))
  cached expected actual =
      if ltb (expected * actual) (2 ^ 64) && leb (expected * actual) 1_048_576
      then some (scores_of (range_from 0 expected) (range_from 0 actual))
      else none

  -- The score that the search sees: the cached one where there is a cache.
  pub seen : ℕ → Option (List (Option ℕ)) → ℕ → ℕ → Option ℕ
  seen actual (some scores) i j = get_or scores (i * actual + j) none
  seen actual none i j = score i j

  pub align_pairs : ℕ → ℕ → List (ℕ × ℕ)
  align_pairs expected actual =
      lcs (seen actual (cached expected actual)) expected (range_from 0 expected)
        (range_from 0 actual)

  -- `align`
  pub align : ℕ → ℕ → List (Option ℕ × Option ℕ)
  align expected actual = gaps expected 0 0 (align_pairs expected actual ++ (expected, actual) ∷ [])
