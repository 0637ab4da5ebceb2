-- ===== src/Align/Optimal.antt =====
-- `lcs` of src/compare.rs finds a matching of the greatest value.
use wire_harness.Prelude.{
  ℕ, zero, suc, ◌+◌, ◌-◌, ◌/◌, ◌≤◌, ◌<◌, ◌≡◌, ◌≢◌, refl, sym, ap, ◌∙◌, true, Option, List, [], ◌∷◌,
  ◌++◌, All, length, take, drop, take-append-drop, length-take, length-drop, get_or, range_from,
  arith,
}
use mathlib.Core.Path.{subst, subst₂}
use native.Mathlib.Decide.{ℕ_discrete}
use mathlib.Core.List.{reverse, reverse_aux, reverse-reverse, reverse-append}
use wire_harness.Align.Score.{Value, ◌≼◌, ≼-refl, ≼-trans, plus-mono}
use wire_harness.Align.{lengths, lcs, max_from, split_value, split_at_most, split_point}
use wire_harness.Align.Greatest.{max_from-All, max_from-greatest}
use wire_harness.Align.Matching.{Matching, done, Optimum, Matching-nil_left, Matching-nil_right}
use wire_harness.Align.Rows.{lengths-Optimum}
use wire_harness.Align.Split.{Matching-append, Matching-Cut, value-append, Optimum-reverse}
use wire_harness.Align.Single.{IsBest, single-IsBest}

length-reverse_aux : (xs ys : List ℕ) → length (reverse_aux xs ys) ≡ length xs + length ys
length-reverse_aux [] ys = omega arith
length-reverse_aux (x ∷ xs) ys = omega (arith, length-reverse_aux xs (x ∷ ys))

length-reverse : (xs : List ℕ) → length (reverse xs) ≡ length xs
length-reverse xs = omega (arith, length-reverse_aux xs [])

take-exact : (xs ys : List ℕ) (n : ℕ) → n ≡ length xs → take n (xs ++ ys) ≡ xs
take-exact [] ys zero h = refl
take-exact [] ys (suc n) h = absurd (omega arith)
take-exact (x ∷ xs) ys zero h = absurd (omega arith)
take-exact (x ∷ xs) ys (suc n) h = ap (λ l. x ∷ l) (take-exact xs ys n (omega arith))

-- The row over the reversed list at the far end is about what is behind the split.
reverse-take-reverse :
    (a : List ℕ) (i : ℕ) → i ≤ length a → reverse (take (length a - i) (reverse a)) ≡ drop i a
reverse-take-reverse a i h =
    ap reverse (
      ap (λ l. take (length a - i) l) reversed
      ∙ take-exact (reverse (drop i a)) (reverse (take i a)) (length a - i)
          (omega (arith, length-reverse (drop i a), length-drop i a)))
    ∙ reverse-reverse (drop i a)
  where
    reversed : reverse a ≡ reverse (drop i a) ++ reverse (take i a)
    reversed = ap reverse (sym (take-append-drop i a)) ∙ reverse-append (take i a) (drop i a)

pub All-range_from :
    (P : ℕ → Type 0) (lo n j : ℕ) → All P (range_from lo n) → lo ≤ j → j < lo + n → P j
All-range_from P lo zero j h l u = absurd (omega arith)
All-range_from P lo (suc n) j h l u = elim (ℕ_discrete lo j) [
  | yes e ↦ subst P e h.0
  | no ne ↦ All-range_from P (lo + 1) n j h.1 (omega arith) (omega arith)
]

pub range_from-All :
    (P : ℕ → Type 0) (lo n : ℕ) → ((j : ℕ) → lo ≤ j → j < lo + n → P j) → All P (range_from lo n)
range_from-All P lo zero h = tt
range_from-All P lo (suc n) h = (
  h lo (omega arith) (omega arith),
  range_from-All P (lo + 1) n (λ j l u. h j (omega arith) (omega arith)),
)

module _ (left right : List Value) (n : ℕ) where
  split_point-le : split_point left right n ≤ n
  unfolding split_point
  split_point-le =
      max_from-All (split_at_most left right n) (λ j. j ≤ n) 0 (range_from 1 n) (omega arith)
        (range_from-All (λ j. j ≤ n) 1 n (λ j l u. omega arith))

  -- No other place to split has a greater sum.
  split_point-greatest :
      (j : ℕ)
      → j ≤ n
      → split_value left right n j ≼ split_value left right n (split_point left right n)
  unfolding split_point
  split_point-greatest j h =
      let (first, others) =
        max_from-greatest (split_at_most left right n)
          (λ i j. split_value left right n i ≼ split_value left right n j) (λ i. ≼-refl _)
          (λ i j k. ≼-trans _ _ _) passed failed 0 (range_from 1 n)
          (max_from (split_at_most left right n) 0 (range_from 1 n)) refl in
      elim (ℕ_discrete 0 j) [
        | yes e ↦
            subst
              (λ k.
                split_value left right n k
                ≼ split_value left right n
                    (max_from (split_at_most left right n) 0 (range_from 1 n)))
              e first
        | no ne ↦ All-range_from _ 1 n j others (omega arith) (omega arith)
      ]
    where
      passed :
          (i j : ℕ)
          → split_at_most left right n i j ≡ true
          → split_value left right n i ≼ split_value left right n j
      passed i j p = ground arith

      failed :
          (i j : ℕ)
          → split_at_most left right n i j ≢ true
          → split_value left right n j ≼ split_value left right n i
      failed i j p = ground arith

module _ (score : ℕ → ℕ → Option ℕ) where
  -- The sums of the two rows at a place to split, as greatest values of matchings.
  left-Optimum :
      (e a : List ℕ) (j : ℕ)
      → j ≤ length a
      → Optimum score e (take j a) (get_or (lengths score e a) j (0, 0))
  left-Optimum e a j h = Optimum-reverse score (lengths-Optimum score e a j h)

  right-Optimum :
      (e a : List ℕ) (j : ℕ)
      → j ≤ length a
      → Optimum score e
          (drop j a)
          (get_or (lengths score (reverse e) (reverse a)) (length a - j) (0, 0))
  right-Optimum e a j h =
      subst₂
        (λ l r.
          Optimum score l r (get_or (lengths score (reverse e) (reverse a)) (length a - j) (0, 0)))
        (reverse-reverse e) (reverse-take-reverse a j h)
        (lengths-Optimum score (reverse e) (reverse a) (length a - j)
          (omega (arith, length-reverse a)))

  module _ (e e' a : List ℕ) where
    -- Where the two halves are cut.
    abbrev cut : ℕ
    cut = split_point (lengths score e a) (lengths score (reverse e') (reverse a)) (length a)

    abbrev sums : ℕ → Value
    sums = split_value (lengths score e a) (lengths score (reverse e') (reverse a)) (length a)

    -- A best matching on each side of the cut makes one of the whole.
    join-IsBest :
        (ps qs : List (ℕ × ℕ))
        → IsBest score e (take cut a) ps
        → IsBest score e' (drop cut a) qs
        → IsBest score (e ++ e') a (ps ++ qs)
    join-IsBest ps qs bp bq = record {
      matching =
          subst (λ l. Matching score (e ++ e') l (ps ++ qs)) (take-append-drop cut a)
            (Matching-append score bp.matching bq.matching);
      greatest = λ rs m.
          let c = Matching-Cut score e e' a rs m in
          let l = left-Optimum e a c.at c.at_le in
          let r = right-Optimum e' a c.at c.at_le in
          let at_cut : cut ≤ length a = split_point-le _ _ (length a) in
          let lc = left-Optimum e a cut at_cut in
          let rc = right-Optimum e' a cut at_cut in
          rw (c.pairs_eq, value-append score c.front c.back, value-append score ps qs)
            (≼-trans _ _ _
              (plus-mono _ _ _ _ (l.greatest c.front c.front_matching)
                (r.greatest c.back c.back_matching))
              (≼-trans _ _ _ (split_point-greatest _ _ (length a) c.at c.at_le) (
                plus-mono _ _ _ _ (≼-of lc.attains (bp.greatest lc.pairs lc.matching))
                  (≼-of rc.attains (bq.greatest rc.pairs rc.matching)))));
    }
      where
        ≼-of : {u v w : Value} → u ≡ v → u ≼ w → v ≼ w
        ≼-of {w} p h = subst (λ t. t ≼ w) p h

  nil_left-IsBest : (a : List ℕ) → IsBest score [] a []
  nil_left-IsBest a = record {
    matching = done;
    greatest = λ ps m. rw (Matching-nil_left score m) (≼-refl _);
  }

  nil_right-IsBest : (e : List ℕ) → IsBest score e [] []
  nil_right-IsBest e = record {
    matching = done;
    greatest = λ ps m. rw (Matching-nil_right score m) (≼-refl _);
  }

  -- With as much fuel as there are expected packets `lcs` returns a best matching.
  pub lcs-IsBest :
      (fuel : ℕ) (e a : List ℕ) → length e ≤ fuel → IsBest score e a (lcs score fuel e a)
  unfolding lcs
  lcs-IsBest zero [] a h = nil_left-IsBest a
  lcs-IsBest zero (x ∷ e) a h = absurd (omega arith)
  lcs-IsBest (suc fuel) [] a h = nil_left-IsBest a
  lcs-IsBest (suc fuel) (x ∷ e) [] h = nil_right-IsBest (x ∷ e)
  lcs-IsBest (suc fuel) (x ∷ []) (y ∷ a) h = single-IsBest score x (y ∷ a)
  lcs-IsBest (suc fuel) (x ∷ x' ∷ e) (y ∷ a) h =
      let k : ℕ = length (x ∷ x' ∷ e) / 2 in
      let front = take k (x ∷ x' ∷ e) in
      let back = drop k (x ∷ x' ∷ e) in
      subst (λ l. IsBest score l (y ∷ a) (lcs score (suc fuel) (x ∷ x' ∷ e) (y ∷ a)))
        (take-append-drop k (x ∷ x' ∷ e))
        (join-IsBest front back (y ∷ a) _ _
          (lcs-IsBest fuel front _ (omega (arith, length-take k (x ∷ x' ∷ e))))
          (lcs-IsBest fuel back _ (omega (arith, length-drop k (x ∷ x' ∷ e)))))
