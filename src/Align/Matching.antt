-- ===== src/Align/Matching.antt =====
-- What the alignment of src/compare.rs is measured against: the common subsequences of two lists
-- of packets, and the greatest value that one has.
use wire_harness.Prelude.{
  ℕ, ◌≡◌, refl, sym, ap, ◌∙◌, Option, none, some, Option-cases, List, [], ◌∷◌, ◌⊎◌, inl, inr, arith,
}
use wire_harness.Align.Score.{
  Value, best, plus, ◌≼◌, ≼-refl, ≼-trans, ≼-best_left, ≼-best_right, best_cases, plus-mono, ≼-zero,
}
use wire_harness.Align.{cell}

module _ (score : ℕ → ℕ → Option ℕ) where
  -- `pairs` matches some of `e`, in order, with some of `a`, in order, each pair with a score.
  pub data Matching : List ℕ → List ℕ → List (ℕ × ℕ) → Type 0 where
    done : {e a : List ℕ} → Matching e a []
    skip_left : {x : ℕ} {e a : List ℕ} {ps : List (ℕ × ℕ)} → Matching e a ps → Matching (x ∷ e) a ps
    skip_right :
        {y : ℕ} {e a : List ℕ} {ps : List (ℕ × ℕ)} → Matching e a ps → Matching e (y ∷ a) ps
    pair :
        {x y : ℕ} {e a : List ℕ} {ps : List (ℕ × ℕ)} (q : ℕ)
        → score x y ≡ some q
        → Matching e a ps
        → Matching (x ∷ e) (y ∷ a) ((x, y) ∷ ps)

  pub quality : ℕ → ℕ → ℕ
  quality x y = elim (score x y) [ none ↦ 0 | some q ↦ q ]

  -- How many pairs, and the sum of their qualities.
  unfoldable pub value : List (ℕ × ℕ) → Value
  unfolding quality
  value [] = (0, 0)
  value ((x, y) ∷ ps) = plus (1, quality x y) (value ps)

  -- `v` is the greatest value of a matching of `e` and `a`.
  pub record Optimum (e a : List ℕ) (v : Value) : Type 0 where
    pub pairs : List (ℕ × ℕ)
    pub matching : Matching e a pairs
    pub attains : value pairs ≡ v
    pub greatest : (ps : List (ℕ × ℕ)) → Matching e a ps → value ps ≼ v

  pub Matching-nil_left : {a : List ℕ} {ps : List (ℕ × ℕ)} → Matching [] a ps → ps ≡ []
  Matching-nil_left done = refl
  Matching-nil_left (skip_right m) = Matching-nil_left m

  pub Matching-nil_right : {e : List ℕ} {ps : List (ℕ × ℕ)} → Matching e [] ps → ps ≡ []
  Matching-nil_right done = refl
  Matching-nil_right (skip_left m) = Matching-nil_right m

  pub Optimum-nil_left : (a : List ℕ) → Optimum [] a (0, 0)
  unfolding value
  Optimum-nil_left a = record {
    pairs = [];
    matching = done;
    attains = refl;
    greatest = λ ps m. rw (Matching-nil_left m) (≼-refl (0, 0));
  }

  pub Optimum-nil_right : (e : List ℕ) → Optimum e [] (0, 0)
  unfolding value
  Optimum-nil_right e = record {
    pairs = [];
    matching = done;
    attains = refl;
    greatest = λ ps m. rw (Matching-nil_right m) (≼-refl (0, 0));
  }

  quality_of : (x y q : ℕ) → score x y ≡ some q → quality x y ≡ q
  unfolding quality
  quality_of x y q h = ground (arith, h)

  pub value-pair :
      (x y q : ℕ) (ps : List (ℕ × ℕ))
      → score x y ≡ some q
      → value ((x, y) ∷ ps) ≡ plus (value ps) (1, q)
  unfolding value plus
  value-pair x y q ps h = ground (arith, h)

  module _ (x y : ℕ) (d l p : Value) where
    left-≼-cell : l ≼ cell score x y d l p
    unfolding cell
    left-≼-cell = elim (Option-cases (score x y)) [
      | inl e ↦ rw (e, cell) (≼-best_left l p)
      | inr (q, e) ↦
          rw (e, cell) (≼-trans _ _ _ (≼-best_left l p) (≼-best_left (best l p) (plus d (1, q))))
    ]

    previous-≼-cell : p ≼ cell score x y d l p
    unfolding cell
    previous-≼-cell = elim (Option-cases (score x y)) [
      | inl e ↦ rw (e, cell) (≼-best_right l p)
      | inr (q, e) ↦
          rw (e, cell) (≼-trans _ _ _ (≼-best_right l p) (≼-best_left (best l p) (plus d (1, q))))
    ]

    pair-≼-cell : (q : ℕ) → score x y ≡ some q → plus d (1, q) ≼ cell score x y d l p
    unfolding cell
    pair-≼-cell q e = rw (e, cell) (≼-best_right (best l p) (plus d (1, q)))

    cell_cases :
        (cell score x y d l p ≡ l)
        ⊎ (cell score x y d l p ≡ p)
        ⊎ ((q : ℕ) × (score x y ≡ some q) × (cell score x y d l p ≡ plus d (1, q)))
    unfolding cell
    cell_cases = elim (Option-cases (score x y)) [
      | inl e ↦ ground (arith, e, best_cases l p)
      | inr (q, e) ↦ elim (best_cases (best l p) (plus d (1, q))) [
        | inl h ↦ ground (arith, e, h, best_cases l p)
        | inr h ↦ inr (inr (q, e, rw (e, cell) h))
      ]
    ]

  module _ (x y : ℕ) (e a : List ℕ) (d l p : Value) where
    cell-greatest :
        Optimum e a d
        → Optimum (x ∷ e) a l
        → Optimum e (y ∷ a) p
        → (ps : List (ℕ × ℕ)) → Matching (x ∷ e) (y ∷ a) ps
        → value ps ≼ cell score x y d l p
    cell-greatest od ol op ps done = unfold value in ≼-zero _
    cell-greatest od ol op ps (skip_left m) =
        ≼-trans _ _ _ (op.greatest ps m) (previous-≼-cell x y d l p)
    cell-greatest od ol op ps (skip_right m) =
        ≼-trans _ _ _ (ol.greatest ps m) (left-≼-cell x y d l p)
    cell-greatest od ol op ps (pair {ps = qs} q h m) = rw (value-pair x y q qs h) (
        ≼-trans _ _ _ (plus-mono _ _ _ _ (od.greatest qs m) (≼-refl (1, q)))
          (pair-≼-cell x y d l p q h))

    -- The recurrence that a row follows.
    pub cell-Optimum :
        Optimum e a d
        → Optimum (x ∷ e) a l
        → Optimum e (y ∷ a) p
        → Optimum (x ∷ e) (y ∷ a) (cell score x y d l p)
    cell-Optimum od ol op = elim (cell_cases x y d l p) [
      | inl h ↦ record {
        pairs = ol.pairs;
        matching = skip_right ol.matching;
        attains = ol.attains ∙ sym h;
        greatest = cell-greatest od ol op;
      }
      | inr (inl h) ↦ record {
        pairs = op.pairs;
        matching = skip_left op.matching;
        attains = op.attains ∙ sym h;
        greatest = cell-greatest od ol op;
      }
      | inr (inr (q, s, h)) ↦ record {
        pairs = (x, y) ∷ od.pairs;
        matching = pair q s od.matching;
        attains = value-pair x y q od.pairs s ∙ ap (λ v. plus v (1, q)) od.attains ∙ sym h;
        greatest = cell-greatest od ol op;
      }
    ]
