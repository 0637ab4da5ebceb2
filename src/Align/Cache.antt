-- ===== src/Align/Cache.antt =====
-- The bounded score cache of src/compare.rs's `align` changes nothing, so that `align` finds a best
-- matching under the caller's own scores.
use wire_harness.Prelude.{
  ℕ, zero, suc, ◌+◌, ◌*◌, ◌^◌, ◌<◌, ◌≡◌, refl, sym, ap, ◌∙◌, Option, none, some, Bool-cases, inl,
  inr, List, [], ◌∷◌, ◌++◌, All, length, get_or, range_from, ltb, leb, ◌&&◌, arith,
}
use mathlib.Core.Path.{ap₂}
use wire_harness.Align.Score.{plus}
use wire_harness.Align.{row_scores, scores_of, cached, seen, align_pairs}
use wire_harness.Align.Matching.{Matching, done, skip_left, skip_right, pair, value, value-pair}
use wire_harness.Align.Single.{IsBest}
use wire_harness.Align.Optimal.{lcs-IsBest, range_from-All}

module _ {A : Type 0} where
  get_or-append_left :
      (xs ys : List A) (i : ℕ) (d : A) → i < length xs → get_or (xs ++ ys) i d ≡ get_or xs i d
  get_or-append_left [] ys i d h = absurd (omega arith)
  get_or-append_left (x ∷ xs) ys zero d h = refl
  get_or-append_left (x ∷ xs) ys (suc i) d h = get_or-append_left xs ys i d (omega arith)

  get_or-append_right :
      (xs ys : List A) (i j : ℕ) (d : A) → i ≡ length xs + j → get_or (xs ++ ys) i d ≡ get_or ys j d
  get_or-append_right [] ys i j d h = ap (λ k. get_or ys k d) (h ∙ omega arith)
  get_or-append_right (x ∷ xs) ys zero j d h = absurd (omega arith)
  get_or-append_right (x ∷ xs) ys (suc i) j d h = get_or-append_right xs ys i j d (omega arith)

length-range_from : (lo n : ℕ) → length (range_from lo n) ≡ n
length-range_from lo zero = refl
length-range_from lo (suc n) = ap suc (length-range_from (lo + 1) n)

module _ (score : ℕ → ℕ → Option ℕ) where
  length-row_scores : (i : ℕ) (a : List ℕ) → length (row_scores score i a) ≡ length a
  unfolding row_scores
  length-row_scores i [] = refl
  length-row_scores i (x ∷ a) = ap suc (length-row_scores i a)

  get_or-row_scores :
      (i lo n j : ℕ)
      → j < n
      → get_or (row_scores score i (range_from lo n)) j none ≡ score i (lo + j)
  unfolding row_scores
  get_or-row_scores i lo zero j h = absurd (omega arith)
  get_or-row_scores i lo (suc n) zero h = ap (score i) (omega arith)
  get_or-row_scores i lo (suc n) (suc j) h =
      get_or-row_scores i (lo + 1) n j (omega arith) ∙ ap (score i) (omega arith)

  -- Row `i`, column `j` of the table stands at `i * m + j`.
  get_or-scores_of :
      (lo n m i j : ℕ)
      → i < n
      → j < m
      → get_or (scores_of score (range_from lo n) (range_from 0 m)) (i * m + j) none
        ≡ score (lo + i) j
  unfolding scores_of
  get_or-scores_of lo zero m i j h k = absurd (omega arith)
  get_or-scores_of lo (suc n) m zero j h k =
      let row = row_scores score lo (range_from 0 m) in
      let size : length row ≡ m = length-row_scores lo (range_from 0 m) ∙ length-range_from 0 m in
      get_or-append_left row (scores_of score (range_from (lo + 1) n) (range_from 0 m))
        (zero * m + j) none (omega (arith, size))
      ∙ ap (λ t. get_or row t none) (omega arith)
      ∙ get_or-row_scores lo 0 m j k
      ∙ ap₂ score (omega arith) (omega arith)
  get_or-scores_of lo (suc n) m (suc i) j h k =
      let row = row_scores score lo (range_from 0 m) in
      let size : length row ≡ m = length-row_scores lo (range_from 0 m) ∙ length-range_from 0 m in
      get_or-append_right row (scores_of score (range_from (lo + 1) n) (range_from 0 m))
        (suc i * m + j) (i * m + j) none (omega (arith, size))
      ∙ get_or-scores_of (lo + 1) n m i j (omega arith) k
      ∙ ap (λ t. score t j) (omega arith)

  -- On the packets of the two traces the search sees the caller's scores.
  seen-eq :
      (expected actual i j : ℕ)
      → i < expected
      → j < actual
      → seen score actual (cached score expected actual) i j ≡ score i j
  unfolding seen cached
  seen-eq expected actual i j h k =
      elim (Bool-cases (ltb (expected * actual) (2 ^ 64) && leb (expected * actual) 1_048_576)) [
        | inl e ↦
            rw (e, seen)
              (get_or-scores_of 0 expected actual i j h k ∙ ap (λ t. score t j) (omega arith))
        | inr e ↦ rw (e, seen) refl
      ]

-- A change of scores that agrees on the packets at hand.
module _ (f g : ℕ → ℕ → Option ℕ) (n m : ℕ) (same : (i j : ℕ) → i < n → j < m → f i j ≡ g i j) where
  Matching-transfer :
      {e a : List ℕ} {ps : List (ℕ × ℕ)}
      → All (λ i. i < n) e
      → All (λ j. j < m) a
      → Matching f e a ps
      → Matching g e a ps × (value f ps ≡ value g ps)
  unfolding value
  Matching-transfer he ha done = (done, refl)
  Matching-transfer he ha (skip_left p) =
      let (q, v) = Matching-transfer he.1 ha p in (skip_left q, v)
  Matching-transfer he ha (skip_right p) =
      let (q, v) = Matching-transfer he ha.1 p in (skip_right q, v)
  Matching-transfer he ha (pair {x} {y} {ps = qs} q s p) =
      let (r, v) = Matching-transfer he.1 ha.1 p in
      let t : g x y ≡ some q = sym (same x y he.0 ha.0) ∙ s in
      (
        pair q t r,
        value-pair f x y q qs s ∙ ap (λ u. plus u (1, q)) v ∙ sym (value-pair g x y q qs t),
      )

module _ (score : ℕ → ℕ → Option ℕ) (expected actual : ℕ) where
  -- The pairs of an alignment match packets in order, each pair with a score, and no other such
  -- matching has more pairs, or as many and a greater sum of qualities.
  pub align_pairs-IsBest :
      IsBest score (range_from 0 expected) (range_from 0 actual) (align_pairs score expected actual)
  unfolding align_pairs
  align_pairs-IsBest =
      let inner = seen score actual (cached score expected actual) in
      let below_e = range_from-All (λ i. i < expected) 0 expected (λ j l u. omega arith) in
      let below_a = range_from-All (λ i. i < actual) 0 actual (λ j l u. omega arith) in
      let found =
        lcs-IsBest inner expected (range_from 0 expected) (range_from 0 actual)
          (omega (arith, length-range_from 0 expected)) in
      let (matching, same_value) =
        Matching-transfer inner score expected actual (seen-eq score expected actual) below_e
          below_a found.matching in
      record {
        matching = matching;
        greatest = λ ps m.
            let (m', v) =
              Matching-transfer score inner expected actual
                (λ i j h k. sym (seen-eq score expected actual i j h k)) below_e below_a m in
            rw (v, ← same_value) (found.greatest ps m');
      }
