-- ===== src/Compare/Pairs.antt =====
-- The pairs that a list of src/compare.rs is compared by, when none of its items is left alone.
use wire_harness.Prelude.{
  ℕ, zero, suc, ◌+◌, ◌≤◌, ◌<◌, ◌≡◌, refl, ap, ◌&&◌, ◌||◌, not, ◌==◌, List, [], ◌∷◌, Option, none,
  some, Bool-cases, inl, inr, All, length, map, get_elem?, range_from, arith, if◌then◌else◌,
}
use mathlib.Core.Path.{subst, subst₂}
use wire_harness.Trace.Recorded.{Recorded}
use wire_harness.Compare.Equality.{any_keyed}
use wire_harness.Compare.State.{Comparator, Location, child}
use wire_harness.Compare.Fields.{index_text, item_scores, item_pairs}
use wire_harness.Align.{align}
use wire_harness.Align.Output.{firsts, seconds, align_complete}
use wire_harness.Compare.Same.{Both}

-- What a pair of a list that adds no difference tells.
unfoldable pub PairSame :
    (Location → Recorded → Recorded → Type 0)
    → Location
    → List Recorded
    → List Recorded
    → Option ℕ × Option ℕ
    → Type 0
PairSame R l e a (some i, some j) =
    (x y : Recorded)
    → get_elem? e i ≡ some x
    → get_elem? a j ≡ some y
    → R (child l (index_text i)) x y
PairSame R l e a (some i, none) = ⊥
PairSame R l e a (none, some j) = ⊥
PairSame R l e a (none, none) = Unit

get_elem-some :
    (xs : List Recorded) (i : ℕ) → i < length xs → (x : Recorded) × (get_elem? xs i ≡ some x)
get_elem-some [] i h = absurd (omega arith)
get_elem-some (x ∷ xs) zero h = (x, refl)
get_elem-some (x ∷ xs) (suc i) h = get_elem-some xs i (omega arith)

PairSame-Both :
    (R : Location → Recorded → Recorded → Type 0) (l : Location) (e a : List Recorded) (i : ℕ)
    → i < length e
    → i < length a
    → PairSame R l e a (some i, some i)
    → Both (R (child l (index_text i))) (get_elem? e i) (get_elem? a i)
unfolding PairSame Both
PairSame-Both R l e a i h j p =
    let (x, u) = get_elem-some e i h in let (y, v) = get_elem-some a i j in rw (u, v) (p x y u v)

pub range-Both :
    (R : Location → Recorded → Recorded → Type 0) (l : Location) (e a : List Recorded) (lo n : ℕ)
    → lo + n ≤ length e
    → lo + n ≤ length a
    → All (λ i. PairSame R l e a (some i, some i)) (range_from lo n)
    → All (λ i. Both (R (child l (index_text i))) (get_elem? e i) (get_elem? a i)) (range_from lo n)
range-Both R l e a lo zero h j p = tt
range-Both R l e a lo (suc n) h j (p, ps) = (
  PairSame-Both R l e a lo (omega arith) (omega arith) p,
  range-Both R l e a (lo + 1) n (omega arith) (omega arith) ps,
)

All-map :
    (P : Option ℕ × Option ℕ → Type 0) (is : List ℕ)
    → All P (map (λ i. (some i, some i)) is)
    → All (λ i. P (some i, some i)) is
All-map P [] h = tt
All-map P (i ∷ is) (h, hs) = (h, All-map P is hs)

-- Pairs of every item of both lists, none left alone, are the items of the same index.
pairs-diagonal :
    (R : Location → Recorded → Recorded → Type 0) (l : Location) (e a : List Recorded) (lo n m : ℕ)
    (ps : List (Option ℕ × Option ℕ))
    → All (PairSame R l e a) ps
    → firsts ps ≡ range_from lo n
    → seconds ps ≡ range_from lo m
    → (n ≡ m) × All (λ i. PairSame R l e a (some i, some i)) (range_from lo n)
unfolding firsts seconds PairSame
pairs-diagonal R l e a lo zero zero [] h f g = (refl, tt)
pairs-diagonal R l e a lo zero (suc m) [] h f g = absurd (ground (arith, g))
pairs-diagonal R l e a lo (suc n) m [] h f g = absurd (ground (arith, f))
pairs-diagonal R l e a lo n m ((none, none) ∷ ps) (h, hs) f g =
    pairs-diagonal R l e a lo n m ps hs f g
pairs-diagonal R l e a lo n m ((some i, none) ∷ ps) (h, hs) f g = absurd h
pairs-diagonal R l e a lo n m ((none, some j) ∷ ps) (h, hs) f g = absurd h
pairs-diagonal R l e a lo zero m ((some i, some j) ∷ ps) (h, hs) f g = absurd (ground (arith, f))
pairs-diagonal R l e a lo (suc n) zero ((some i, some j) ∷ ps) (h, hs) f g =
    absurd (ground (arith, g))
pairs-diagonal R l e a lo (suc n) (suc m) ((some i, some j) ∷ ps) (h, hs) f g =
    let i_lo : i ≡ lo = ground (arith, f) in
    let j_lo : j ≡ lo = ground (arith, g) in
    let (same, rest) =
      pairs-diagonal R l e a (lo + 1) n m ps hs (ground (arith, f)) (ground (arith, g)) in
    (ap suc same, (subst₂ (λ i j. PairSame R l e a (some i, some j)) i_lo j_lo h, rest))

pub item_pairs-diagonal :
    (R : Location → Recorded → Recorded → Type 0) (l : Location) (e a : List Recorded)
    (s : Comparator)
    → All (PairSame R l e a) (item_pairs s e a)
    → (length e ≡ length a) × All (λ i. PairSame R l e a (some i, some i)) (range_from 0 (length e))
unfolding item_pairs
item_pairs-diagonal R l e a s h =
    let by_position : List (Option ℕ × Option ℕ) =
      map (λ i. (some i, some i)) (range_from 0 (length e)) in
    let aligned : List (Option ℕ × Option ℕ) = align (item_scores s e a) (length e) (length a) in
    elim (Bool-cases (length e == length a && not (any_keyed e || any_keyed a))) [
      | inl c ↦ (
        ground (arith, c),
        All-map (PairSame R l e a) (range_from 0 (length e))
            (subst (λ b. All (PairSame R l e a) (if b then by_position else aligned)) c h),
      )
      | inr c ↦
          let (f, g, pairs) = align_complete (item_scores s e a) (length e) (length a) in
          pairs-diagonal R l e a 0 (length e) (length a) aligned
            (subst (λ b. All (PairSame R l e a) (if b then by_position else aligned)) c h) f g
    ]
