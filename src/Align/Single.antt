-- ===== src/Align/Single.antt =====
-- `lcs` of src/compare.rs on a single expected packet.
use wire_harness.Prelude.{
  ℕ, ◌≤◌, ◌≡◌, refl, ◌∙◌, Option, some, Option-cases, List, [], ◌∷◌, All, leb, ◌⊎◌, inl, inr, arith,
}
use mathlib.Core.Path.{subst}
use mathlib.Core.List.{reverse, reverse-reverse}
use wire_harness.Align.Score.{plus, ◌≼◌, ≼-refl, ≼-zero}
use wire_harness.Align.{max_from, max_by, candidates, single}
use wire_harness.Align.Greatest.{max_from-All, max_from-greatest}
use wire_harness.Align.Matching.{
  Matching, done, skip_left, skip_right, pair, value, value-pair, Matching-nil_left,
}
use wire_harness.Align.Split.{Matching-reverse, value-reverse}

module _ (score : ℕ → ℕ → Option ℕ) where
  -- `pairs` is a matching, and none has a greater value.
  pub record IsBest (e a : List ℕ) (pairs : List (ℕ × ℕ)) : Type 0 where
    pub matching : Matching score e a pairs
    pub greatest : (ps : List (ℕ × ℕ)) → Matching score e a ps → value score ps ≼ value score pairs

  module _ (x : ℕ) where
    -- A candidate matches `x` and has the quality of that.
    abbrev Fits : List ℕ → ℕ × ℕ → Type 0
    Fits b c = Matching score (x ∷ []) b ((x, c.0) ∷ []) × (score x c.0 ≡ some c.1)

    All-skip : (y : ℕ) (b : List ℕ) (cs : List (ℕ × ℕ)) → All (Fits b) cs → All (Fits (y ∷ b)) cs
    All-skip y b [] h = tt
    All-skip y b (c ∷ cs) h = ((skip_right h.0.0, h.0.1), All-skip y b cs h.1)

    candidates-Fits : (b : List ℕ) → All (Fits b) (candidates score x b)
    unfolding candidates
    candidates-Fits [] = tt
    candidates-Fits (y ∷ b) = elim (Option-cases (score x y)) [
      | inl e ↦ rw (e, candidates) (All-skip y b _ (candidates-Fits b))
      | inr (q, e) ↦ rw (e, candidates) ((pair q e done, e), All-skip y b _ (candidates-Fits b))
    ]

    candidates-some :
        (y q : ℕ) (b : List ℕ)
        → score x y ≡ some q
        → candidates score x (y ∷ b) ≡ (y, q) ∷ candidates score x b
    unfolding candidates
    candidates-some y q b e = rw (e, candidates)

    candidates-tail :
        (P : ℕ × ℕ → Type 0) (y : ℕ) (b : List ℕ)
        → All P (candidates score x (y ∷ b))
        → All P (candidates score x b)
    unfolding candidates
    candidates-tail P y b h = elim (Option-cases (score x y)) [
      | inl e ↦ rw (e, candidates) at h
      | inr (q, e) ↦
          let h' : All P ((y, q) ∷ candidates score x b) = rw (candidates-some y q b e) at h in h'.1
    ]

    -- What bounds the qualities of the candidates bounds every matching.
    candidates-bound :
        (k : ℕ) {b : List ℕ} {ps : List (ℕ × ℕ)}
        → Matching score (x ∷ []) b ps
        → All (λ c. c.1 ≤ k) (candidates score x b)
        → value score ps ≼ (1, k)
    candidates-bound k done h = unfold value in ≼-zero (1, k)
    candidates-bound k (skip_left m) h =
        rw (Matching-nil_left score m) (unfold value in ≼-zero (1, k))
    candidates-bound k (skip_right {y} {a} m) h =
        candidates-bound k m (candidates-tail (λ c. c.1 ≤ k) y a h)
    candidates-bound k (pair {y} {a} q s m) h =
        let h' : All (λ c. c.1 ≤ k) ((y, q) ∷ candidates score x a) =
          rw (candidates-some y q a s) at h in
        rw (Matching-nil_left score m, value-pair score x y q [] s)
          (unfold value plus in inr (refl, omega (arith, h'.0)))

    candidates-none :
        {b : List ℕ} {ps : List (ℕ × ℕ)}
        → Matching score (x ∷ []) b ps
        → candidates score x b ≡ []
        → ps ≡ []
    candidates-none done h = refl
    candidates-none (skip_left m) h = Matching-nil_left score m
    candidates-none (skip_right {y} {a} m) h = elim (Option-cases (score x y)) [
      | inl e ↦ candidates-none m (unfold candidates in rw (e, candidates) at h)
      | inr (q, e) ↦ cc (candidates-some y q a e)
    ]
    candidates-none (pair {y} {a} q s m) h = cc (candidates-some y q a s)

    best_candidate : (c : ℕ × ℕ) (cs : List (ℕ × ℕ)) → ℕ × ℕ
    best_candidate c cs = max_from (λ p q. leb p.1 q.1) c cs

    single-eq :
        (a : List ℕ) (c : ℕ × ℕ) (cs : List (ℕ × ℕ))
        → candidates score x (reverse a) ≡ c ∷ cs
        → single score x a ≡ (x, (best_candidate c cs).0) ∷ []
    unfolding single best_candidate max_by
    single-eq a c cs h = rw (h, single)

    -- The matchings of the reversed list are those of the list.
    backwards :
        (a : List ℕ) (ps : List (ℕ × ℕ))
        → Matching score (x ∷ []) (reverse a) ps
        → Matching score (x ∷ []) a (reverse ps)
    backwards a ps m =
        subst (λ b. Matching score (x ∷ []) b (reverse ps)) (reverse-reverse a)
          (Matching-reverse score m)

    forwards :
        (a : List ℕ) (ps : List (ℕ × ℕ))
        → Matching score (x ∷ []) a ps
        → Matching score (x ∷ []) (reverse a) (reverse ps)
    forwards a ps m = Matching-reverse score m

    List-cases : (cs : List (ℕ × ℕ)) → (cs ≡ []) ⊎ ((c : ℕ × ℕ) × (r : List (ℕ × ℕ)) × (cs ≡ c ∷ r))
    List-cases [] = inl refl
    List-cases (c ∷ r) = inr (c, r, refl)

    single-none : (a : List ℕ) → candidates score x (reverse a) ≡ [] → single score x a ≡ []
    unfolding single max_by
    single-none a h = rw (h, single)

    value-single : (y q : ℕ) → score x y ≡ some q → value score ((x, y) ∷ []) ≡ (1, q)
    unfolding value plus
    value-single y q s = value-pair score x y q [] s ∙ ground arith

    none-IsBest : (a : List ℕ) → candidates score x (reverse a) ≡ [] → IsBest (x ∷ []) a []
    none-IsBest a e = record {
      matching = done;
      greatest =
          λ ps m. rw (← value-reverse score ps, candidates-none (forwards a ps m) e) (≼-refl _);
    }

    some-IsBest :
        (a : List ℕ) (c : ℕ × ℕ) (cs : List (ℕ × ℕ))
        → candidates score x (reverse a) ≡ c ∷ cs
        → IsBest (x ∷ []) a ((x, (best_candidate c cs).0) ∷ [])
    unfolding best_candidate
    some-IsBest a c cs e =
        let chosen = best_candidate c cs in
        let fits : All (Fits (reverse a)) (c ∷ cs) = rw e at (candidates-Fits (reverse a)) in
        let fit : Fits (reverse a) chosen = max_from-All _ (Fits (reverse a)) c cs fits.0 fits.1 in
        let bound : All (λ d. d.1 ≤ chosen.1) (c ∷ cs) =
          max_from-greatest _ (λ p q. p.1 ≤ q.1) (λ p. omega arith) (λ p q r h k. omega arith)
            (λ p q h. ground arith) (λ p q h. ground arith) c cs chosen refl in
        record {
          matching = backwards a _ fit.0;
          greatest = λ ps m.
              rw (← value-reverse score ps, value-single chosen.0 chosen.1 fit.1)
                (candidates-bound chosen.1 (forwards a ps m) (rw e bound));
        }

    pub single-IsBest : (a : List ℕ) → IsBest (x ∷ []) a (single score x a)
    single-IsBest a = elim (List-cases (candidates score x (reverse a))) [
      | inl e ↦ rw (single-none a e) (none-IsBest a e)
      | inr (c, cs, e) ↦ rw (single-eq a c cs e) (some-IsBest a c cs e)
    ]
