-- ===== src/Align/Output.antt =====
-- What `align` of src/compare.rs returns: every packet once, in order, and the pairs among them.
use wire_harness.Prelude.{
  ℕ, zero, suc, ◌+◌, ◌-◌, ◌≤◌, ◌<◌, ◌≡◌, refl, ap, ◌∙◌, false, Option, none, some, List, [], ◌∷◌,
  ◌++◌, map, range_from, ltb, lt→ltb, arith, if◌then◌else◌,
}
use mathlib.Core.Path.{ap₂, subst}
use mathlib.Core.List.{append-nil}
use wire_harness.Align.{gaps, align, align_pairs}
use wire_harness.Align.Matching.{Matching, done, skip_left, skip_right, pair}
use native.Mathlib.Nat.{zero-add}
use wire_harness.Align.Cache.{align_pairs-IsBest}

-- The expected packets of an alignment, the actual ones, and the pairs.
unfoldable pub firsts : List (Option ℕ × Option ℕ) → List ℕ
firsts [] = []
firsts ((none, a) ∷ ps) = firsts ps
firsts ((some e, a) ∷ ps) = e ∷ firsts ps

unfoldable pub seconds : List (Option ℕ × Option ℕ) → List ℕ
seconds [] = []
seconds ((e, none) ∷ ps) = seconds ps
seconds ((e, some a) ∷ ps) = a ∷ seconds ps

pub both : List (Option ℕ × Option ℕ) → List (ℕ × ℕ)
both [] = []
both ((some e, some a) ∷ ps) = (e, a) ∷ both ps
both ((none, a) ∷ ps) = both ps
both ((some e, none) ∷ ps) = both ps

firsts-append : (xs ys : List (Option ℕ × Option ℕ)) → firsts (xs ++ ys) ≡ firsts xs ++ firsts ys
unfolding firsts
firsts-append [] ys = refl
firsts-append ((none, a) ∷ xs) ys = firsts-append xs ys
firsts-append ((some e, a) ∷ xs) ys = ap (λ l. e ∷ l) (firsts-append xs ys)

seconds-append :
    (xs ys : List (Option ℕ × Option ℕ)) → seconds (xs ++ ys) ≡ seconds xs ++ seconds ys
unfolding seconds
seconds-append [] ys = refl
seconds-append ((e, none) ∷ xs) ys = seconds-append xs ys
seconds-append ((e, some a) ∷ xs) ys = ap (λ l. a ∷ l) (seconds-append xs ys)

both-append : (xs ys : List (Option ℕ × Option ℕ)) → both (xs ++ ys) ≡ both xs ++ both ys
unfolding both
both-append [] ys = refl
both-append ((some e, some a) ∷ xs) ys = ap (λ l. (e, a) ∷ l) (both-append xs ys)
both-append ((none, a) ∷ xs) ys = both-append xs ys
both-append ((some e, none) ∷ xs) ys = both-append xs ys

abbrev left_only : List ℕ → List (Option ℕ × Option ℕ)
left_only = map (λ i. (some i, none))

abbrev right_only : List ℕ → List (Option ℕ × Option ℕ)
right_only = map (λ i. (none, some i))

-- What the two kinds of gap contribute.
gap_left :
    (l : List ℕ)
    → (firsts (left_only l) ≡ l) × (seconds (left_only l) ≡ []) × (both (left_only l) ≡ [])
unfolding firsts seconds both
gap_left [] = (refl, refl, refl)
gap_left (i ∷ l) = let (f, s, b) = gap_left l in (ap (λ l. i ∷ l) f, s, b)

gap_right :
    (l : List ℕ)
    → (firsts (right_only l) ≡ []) × (seconds (right_only l) ≡ l) × (both (right_only l) ≡ [])
unfolding firsts seconds both
gap_right [] = (refl, refl, refl)
gap_right (i ∷ l) = let (f, s, b) = gap_right l in (f, ap (λ l. i ∷ l) s, b)

range_from-append : (lo n m : ℕ) → range_from lo n ++ range_from (lo + n) m ≡ range_from lo (n + m)
range_from-append lo zero m = ap₂ range_from (omega arith) (omega arith)
range_from-append lo (suc n) m =
    ap (λ l. lo ∷ l)
      (ap (λ k. range_from (lo + 1) n ++ range_from k m) {x = lo + suc n} {y = lo + 1 + n}
          (omega arith)
        ∙ range_from-append (lo + 1) n m)
    ∙ ap (range_from lo) {x = suc (n + m)} {y = suc n + m} (omega arith)

-- A gap, one packet, and the rest of the range.
range_from-split :
    (lo at hi : ℕ)
    → lo ≤ at
    → at < hi
    → range_from lo (at - lo) ++ (at ∷ range_from (at + 1) (hi - (at + 1)))
      ≡ range_from lo (hi - lo)
range_from-split lo at hi h k =
    ap (λ l. range_from lo (at - lo) ++ l) rest
    ∙ range_from-append lo (at - lo) (hi - at)
    ∙ ap (range_from lo) (omega arith)
  where
    rest : at ∷ range_from (at + 1) (hi - (at + 1)) ≡ range_from (lo + (at - lo)) (hi - at)
    rest =
        ap₂ range_from {x = at} {y = lo + (at - lo)} {u = suc (hi - (at + 1))} (omega arith)
          (omega arith)

-- Both sides of the pairs ascend from `ei` and `ai`, below the ends.
abbrev InOrder : ℕ → ℕ → ℕ → ℕ → List (ℕ × ℕ) → Type 0
InOrder expected actual ei ai [] = Unit {0}
InOrder expected actual ei ai ((e, a) ∷ ps) =
    (ei ≤ e) × (e < expected) × (ai ≤ a) × (a < actual) × InOrder expected actual (e + 1) (a + 1) ps

module _ (expected actual : ℕ) where
  -- What `align` makes of the pairs, with the sentinel behind them.
  abbrev laid_out : ℕ → ℕ → List (ℕ × ℕ) → List (Option ℕ × Option ℕ)
  laid_out ei ai ps = gaps expected ei ai (ps ++ (expected, actual) ∷ [])

  -- The first round, on the sentinel and on a pair.
  laid_out-nil :
      (ei ai : ℕ)
      → laid_out ei ai []
        ≡ left_only (range_from ei (expected - ei)) ++ right_only (range_from ai (actual - ai))
  unfolding gaps
  laid_out-nil ei ai =
      let stop : ltb expected expected ≡ false = ground arith in
      ap (λ l. left_only (range_from ei (expected - ei)) ++ l)
        (ap
            (λ b.
              right_only (range_from ai (actual - ai))
              ++ ((if b then (some expected, some actual) ∷ [] else []) ++ []))
            stop
          ∙ append-nil _)

  laid_out-cons :
      (ei ai e a : ℕ) (ps : List (ℕ × ℕ))
      → e < expected
      → laid_out ei ai ((e, a) ∷ ps)
        ≡ left_only (range_from ei (e - ei))
          ++ (right_only (range_from ai (a - ai))
              ++ ((some e, some a) ∷ laid_out (e + 1) (a + 1) ps))
  unfolding gaps
  laid_out-cons ei ai e a ps h = rw (lt→ltb e expected h, gaps)

  firsts-laid_out :
      (ei ai : ℕ) (ps : List (ℕ × ℕ))
      → InOrder expected actual ei ai ps
      → firsts (laid_out ei ai ps) ≡ range_from ei (expected - ei)
  unfolding firsts
  firsts-laid_out ei ai [] h =
      rw (laid_out-nil ei ai, firsts-append _ _, (gap_left _).0, (gap_right _).0) (append-nil _)
  firsts-laid_out ei ai ((e, a) ∷ ps) (h, k, h', k', o) =
      rw
        (
          laid_out-cons ei ai e a ps k,
          firsts-append _ _,
          (gap_left _).0,
          firsts-append _ _,
          (gap_right _).0,
        )
        (ap (λ l. range_from ei (e - ei) ++ (e ∷ l)) (firsts-laid_out (e + 1) (a + 1) ps o)
          ∙ range_from-split ei e expected h k)

  seconds-laid_out :
      (ei ai : ℕ) (ps : List (ℕ × ℕ))
      → InOrder expected actual ei ai ps
      → seconds (laid_out ei ai ps) ≡ range_from ai (actual - ai)
  unfolding seconds
  seconds-laid_out ei ai [] h =
      rw (laid_out-nil ei ai, seconds-append _ _, (gap_left _).1, (gap_right _).1) refl
  seconds-laid_out ei ai ((e, a) ∷ ps) (h, k, h', k', o) =
      rw
        (
          laid_out-cons ei ai e a ps k,
          seconds-append _ _,
          (gap_left _).1,
          seconds-append _ _,
          (gap_right _).1,
        )
        (ap (λ l. range_from ai (a - ai) ++ (a ∷ l)) (seconds-laid_out (e + 1) (a + 1) ps o)
          ∙ range_from-split ai a actual h' k')

  both-laid_out :
      (ei ai : ℕ) (ps : List (ℕ × ℕ))
      → InOrder expected actual ei ai ps
      → both (laid_out ei ai ps) ≡ ps
  unfolding both
  both-laid_out ei ai [] h =
      rw (laid_out-nil ei ai, both-append _ _, (gap_left _).2, (gap_right _).2) refl
  both-laid_out ei ai ((e, a) ∷ ps) (h, k, h', k', o) =
      rw
        (
          laid_out-cons ei ai e a ps k,
          both-append _ _,
          (gap_left _).2,
          both-append _ _,
          (gap_right _).2,
        )
        (ap (λ l. (e, a) ∷ l) (both-laid_out (e + 1) (a + 1) ps o))

-- Ascending, from `lo` on and below `hi`.
abbrev Ascends : ℕ → ℕ → List ℕ → Type 0
Ascends lo hi [] = Unit {0}
Ascends lo hi (x ∷ xs) = (lo ≤ x) × (x < hi) × Ascends (x + 1) hi xs

Ascends-weaken : (lo lo' hi : ℕ) (xs : List ℕ) → lo ≤ lo' → Ascends lo' hi xs → Ascends lo hi xs
Ascends-weaken lo lo' hi [] h k = tt
Ascends-weaken lo lo' hi (x ∷ xs) h k = (omega arith, k.1, k.2)

range_from-Ascends : (lo n : ℕ) → Ascends lo (lo + n) (range_from lo n)
range_from-Ascends lo zero = tt
range_from-Ascends lo (suc n) =
    let next : lo + suc n ≡ lo + 1 + n = omega arith in
    (omega arith, omega arith, rw next (range_from-Ascends (lo + 1) n))

Matching-InOrder :
    (score : ℕ → ℕ → Option ℕ) (expected actual ei ai : ℕ) {e a : List ℕ} {ps : List (ℕ × ℕ)}
    → Matching score e a ps
    → Ascends ei expected e
    → Ascends ai actual a
    → InOrder expected actual ei ai ps
Matching-InOrder score expected actual ei ai done he ha = tt
Matching-InOrder score expected actual ei ai (skip_left {x} {e} m) he ha =
    Matching-InOrder score expected actual ei ai m
      (Ascends-weaken ei (x + 1) expected e (omega arith) he.2) ha
Matching-InOrder score expected actual ei ai (skip_right {y} {a} m) he ha =
    Matching-InOrder score expected actual ei ai m he
      (Ascends-weaken ai (y + 1) actual a (omega arith) ha.2)
Matching-InOrder score expected actual ei ai (pair {x} {y} q s m) he ha =
    (he.0, he.1, ha.0, ha.1, Matching-InOrder score expected actual (x + 1) (y + 1) m he.2 ha.2)

-- Every expected packet stands exactly once in an alignment, in order, and so does every actual one;
-- the entries that hold both are the pairs that the search found.
pub align_complete :
    (score : ℕ → ℕ → Option ℕ) (expected actual : ℕ)
    → (firsts (align score expected actual) ≡ range_from 0 expected)
      × (seconds (align score expected actual) ≡ range_from 0 actual)
      × (both (align score expected actual) ≡ align_pairs score expected actual)
unfolding align
align_complete score expected actual =
    let pairs = align_pairs score expected actual in
    let ordered : InOrder expected actual 0 0 pairs =
      Matching-InOrder score expected actual 0 0 (align_pairs-IsBest score expected actual).matching
        (bounded expected) (bounded actual) in
    (
      firsts-laid_out expected actual 0 0 pairs ordered
          ∙ ap (range_from 0) {x = expected - 0} {y = expected} (omega arith),
      seconds-laid_out expected actual 0 0 pairs ordered
          ∙ ap (range_from 0) {x = actual - 0} {y = actual} (omega arith),
      both-laid_out expected actual 0 0 pairs ordered,
    )
  where
    bounded : (n : ℕ) → Ascends 0 n (range_from 0 n)
    bounded n = subst (λ k. Ascends 0 k (range_from 0 n)) (zero-add n) (range_from-Ascends 0 n)
