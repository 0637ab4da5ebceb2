-- ===== src/Rolls/Binomial.antt =====
-- `binomial_p_upper` and `binomial_p_ratio_upper` of src/rolls.rs. The f64 arithmetic is that of the
-- machine, a parameter.
use wire_harness.Prelude.{
  ℕ, zero, suc, ◌+◌, ◌-◌, ◌^◌, Bool, ◌&&◌, ltb, leb, ◌==◌, List, [], ◌∷◌, Result, ok, ◌>>◌, ensure,
  range_from, if◌then◌else◌,
}
use wire_harness.Rolls.{Error, binomial_input}

-- The operations on f64 that the source uses. `nearest` is the conversion from an integer, `floor_u32`
-- is `floor() as u32`. The constants `1e-6` and `f64::EPSILON` are quotients of integers that f64
-- holds exactly.
pub record Floats : Type 1 where
  pub Float : Type 0
  pub nearest : ℕ → Float
  pub plus : Float → Float → Float
  pub minus : Float → Float → Float
  pub times : Float → Float → Float
  pub over : Float → Float → Float
  pub least : Float → Float → Float
  pub magnitude : Float → Float
  pub at_most : Float → Float → Bool
  pub floor_u32 : Float → ℕ

module _ (floats : Floats) where
  -- The variables of the two loops.
  pub record Sums : Type 0 where
    pub all : floats.Float
    pub lower : floats.Float
    pub upper : floats.Float
    pub mass : floats.Float

  -- `if test { sum += mass }`
  unfoldable pub add_if : Bool → floats.Float → floats.Float → floats.Float
  add_if test sum mass = if test then floats.plus sum mass else sum

  -- `for x in (1..=mode).rev()`. `x` is at most `n`, as the mode of the distribution is.
  unfoldable pub below : ℕ → ℕ → floats.Float → ℕ → Sums → Sums
  unfolding add_if
  below n k p zero s = s
  below n k p (suc y) s =
      let ratio = floats.over (floats.nearest (suc y)) (floats.nearest (n - suc y + 1)) in
      let odds = floats.minus (floats.nearest 1) p in
      let mass = floats.times s.mass (floats.over (floats.times ratio odds) p) in
      below n k p y (record {
        all = floats.plus s.all mass;
        lower = add_if (leb y k) s.lower mass;
        upper = add_if (ltb k (suc y)) s.upper mass;
        mass = mass;
      })

  -- `for x in mode..n`
  unfoldable pub above : ℕ → ℕ → floats.Float → List ℕ → Sums → Sums
  unfolding add_if
  above n k p [] s = s
  above n k p (x ∷ xs) s =
      let ratio = floats.over (floats.nearest (n - x)) (floats.nearest (x + 1)) in
      let odds = floats.minus (floats.nearest 1) p in
      let mass = floats.times s.mass (floats.over (floats.times ratio p) odds) in
      above n k p xs (record {
        all = floats.plus s.all mass;
        lower = add_if (ltb x k) s.lower mass;
        upper = add_if (leb k (x + 1)) s.upper mass;
        mass = mass;
      })

  unfoldable pub epsilon : floats.Float
  epsilon = floats.over (floats.nearest 1) (floats.nearest (2 ^ 52))

  -- The value where the probability is neither 0 nor 1.
  unfoldable pub interior : ℕ → ℕ → ℕ → ℕ → floats.Float
  unfolding below above epsilon
  interior n k numerator denominator =
      let one = floats.nearest 1 in
      let p = floats.over (floats.nearest numerator) (floats.nearest denominator) in
      let mode = floats.floor_u32 (floats.times (floats.plus (floats.nearest n) one) p) in
      let first : Sums = record {
        all = one;
        lower = if leb mode k then one else floats.nearest 0;
        upper = if leb k mode then one else floats.nearest 0;
        mass = one;
      } in
      let down : Sums = below n k p mode first in
      let s : Sums = above n k p (range_from mode (n - mode)) (record down { mass = one }) in
      let tail =
        floats.over (floats.times (floats.nearest 2) (floats.least s.lower s.upper)) s.all in
      let allowance = floats.times (floats.times (floats.nearest 64) (floats.nearest n)) epsilon in
      floats.least (floats.plus tail allowance) one

  unfoldable pub binomial_p_ratio_upper : ℕ → ℕ → ℕ → ℕ → Result Error floats.Float
  unfolding interior
  binomial_p_ratio_upper n k numerator denominator = do
    ensure
        (ltb 0 n
          && leb n 50000
          && leb k n
          && ltb 0 denominator
          && leb denominator (2 ^ 53)
          && leb numerator denominator)
        binomial_input
    if numerator == 0
        then ok (floats.nearest (if k == 0 then 1 else 0))
        else if numerator == denominator
        then ok (floats.nearest (if k == n then 1 else 0))
        else ok (interior n k numerator denominator)

  unfoldable pub binomial_p_upper : ℕ → ℕ → ℕ → Result Error floats.Float
  unfolding binomial_p_ratio_upper
  binomial_p_upper n k basis_points = binomial_p_ratio_upper n k basis_points 10000
