-- ===== src/Align/Greatest.antt =====
-- `max_by_key` as src/compare.rs uses it: the result is an element, and no key is greater.
use wire_harness.Prelude.{◌≡◌, ◌≢◌, Bool, true, Bool-cases, ◌⊎◌, inl, inr, List, [], ◌∷◌, All}
use wire_harness.Align.{max_from}

module _ {A : Type 0} (at_most : A → A → Bool) where
  -- A property of all candidates is one of the result.
  pub max_from-All :
      (P : A → Type 0) (x : A) (xs : List A) → P x → All P xs → P (max_from at_most x xs)
  unfolding max_from
  max_from-All P x [] p h = p
  max_from-All P x (y ∷ ys) p h = elim (Bool-cases (at_most x y)) [
    | inl e ↦ rw e (max_from-All P y ys h.0 h.1)
    | inr e ↦ rw e (max_from-All P x ys p h.1)
  ]

  -- For an order `R` that the test decides.
  module _ (R : A → A → Type 0) (R-refl : (x : A) → R x x)
      (R-trans : (x y z : A) → R x y → R y z → R x z)
      (passed : (x y : A) → at_most x y ≡ true → R x y)
      (failed : (x y : A) → at_most x y ≢ true → R y x) where
    max_from-step :
        (x y : A) (ys : List A) (m : A)
        → max_from at_most x (y ∷ ys) ≡ m
        → ((at_most x y ≡ true) × (max_from at_most y ys ≡ m))
          ⊎ ((at_most x y ≢ true) × (max_from at_most x ys ≡ m))
    unfolding max_from
    max_from-step x y ys m h = elim (Bool-cases (at_most x y)) [
      | inl e ↦ inl (e, rw e at h)
      | inr e ↦ inr ((λ p. cc (p, e)), rw e at h)
    ]

    pub max_from-greatest :
        (x : A) (xs : List A) (m : A) → max_from at_most x xs ≡ m → R x m × All (λ y. R y m) xs
    max_from-greatest x [] m h = (rw (← h) (unfold max_from in R-refl x), tt)
    max_from-greatest x (y ∷ ys) m h = elim (max_from-step x y ys m h) [
      | inl (t, k) ↦
          let (first, others) = max_from-greatest y ys m k in
          (R-trans x y m (passed x y t) first, (first, others))
      | inr (f, k) ↦
          let (first, others) = max_from-greatest x ys m k in
          (first, (R-trans y x m (failed x y f) first, others))
    ]
