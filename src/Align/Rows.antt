-- ===== src/Align/Rows.antt =====
-- `lengths` of src/compare.rs: each entry of the row is the greatest value of a matching.
use wire_harness.Prelude.{
  ℕ, zero, suc, ◌≤◌, ◌≡◌, refl, Option, List, [], ◌∷◌, length, get_or, take, replicate, arith,
}
use native.Mathlib.Numerals.{add-one}
use mathlib.Core.List.{reverse, reverse_aux}
use wire_harness.Align.Score.{Value}
use wire_harness.Align.{fill, next_row, rows, lengths}
use wire_harness.Align.Matching.{Optimum, Optimum-nil_left, Optimum-nil_right, cell-Optimum}

module _ (score : ℕ → ℕ → Option ℕ) where
  -- `row` holds the optima of `re` with `ra`, and with `ra` and ever more of `a`. Both lists run
  -- backwards from the place that the loops have reached.
  abbrev IsRow : List ℕ → List ℕ → List Value → List ℕ → Type 0
  IsRow re ra [] a = ⊥
  IsRow re ra (v ∷ row) [] = Optimum score re ra v × (row ≡ [])
  IsRow re ra (v ∷ row) (y ∷ a) = Optimum score re ra v × IsRow re (y ∷ ra) row a

  IsRow-first :
      {re ra : List ℕ} {v : Value} (row : List Value) (a : List ℕ)
      → IsRow re ra (v ∷ row) a
      → Optimum score re ra v
  IsRow-first row [] h = h.0
  IsRow-first row (y ∷ a) h = h.0

  fill-IsRow :
      (x : ℕ) (re ra : List ℕ) (d l : Value) (a : List ℕ) (row : List Value)
      → IsRow re ra (d ∷ row) a
      → Optimum score (x ∷ re) ra l
      → IsRow (x ∷ re) ra (l ∷ fill score x d l a row) a
  unfolding fill
  fill-IsRow x re ra d l [] row h o = (o, refl)
  fill-IsRow x re ra d l (y ∷ a) [] h o = absurd h.1
  fill-IsRow x re ra d l (y ∷ a) (p ∷ row) h o =
      let here = cell-Optimum score x y re ra d l p h.0 o (IsRow-first row a h.1) in
      (o, fill-IsRow x re (y ∷ ra) p _ a row h.1 here)

  -- The entry at 0 stays (0, 0).
  rows-IsRow :
      (e re a : List ℕ) (row : List Value)
      → IsRow re [] ((0, 0) ∷ row) a
      → IsRow (reverse_aux e re) [] (rows score e a ((0, 0) ∷ row)) a
  unfolding rows next_row
  rows-IsRow [] re a row h = h
  rows-IsRow (x ∷ e) re a row h =
      rows-IsRow e (x ∷ re) a (fill score x (0, 0) (0, 0) a row)
        (fill-IsRow x re [] (0, 0) (0, 0) a row h (Optimum-nil_right score (x ∷ re)))

  start-IsRow : (ra a : List ℕ) → IsRow [] ra (replicate (suc (length a)) (0, 0)) a
  start-IsRow ra [] = (Optimum-nil_left score ra, refl)
  start-IsRow ra (y ∷ a) = (Optimum-nil_left score ra, start-IsRow (y ∷ ra) a)

  IsRow-get_or :
      (re ra : List ℕ) (row : List Value) (a : List ℕ) (i : ℕ)
      → i ≤ length a
      → IsRow re ra row a
      → Optimum score re (reverse_aux (take i a) ra) (get_or row i (0, 0))
  IsRow-get_or re ra [] a i h r = absurd r
  IsRow-get_or re ra (v ∷ row) a zero h r = IsRow-first row a r
  IsRow-get_or re ra (v ∷ row) [] (suc i) h r = absurd (omega arith)
  IsRow-get_or re ra (v ∷ row) (y ∷ a) (suc i) h r =
      IsRow-get_or re (y ∷ ra) row a i (omega arith) r.1

  -- `lengths e a` holds at `i` the greatest value of a matching of `e` with the first `i` of `a`,
  -- both read backwards.
  pub lengths-Optimum :
      (e a : List ℕ) (i : ℕ)
      → i ≤ length a
      → Optimum score (reverse e) (reverse (take i a)) (get_or (lengths score e a) i (0, 0))
  unfolding lengths
  lengths-Optimum e a i h =
      IsRow-get_or (reverse e) [] _ a i h (
        rw (add-one (length a))
          (rows-IsRow e [] a (replicate (length a) (0, 0)) (start-IsRow [] a)))
