-- ===== src/Align/Split.antt =====
-- Matchings put together, cut in two and reversed.
use wire_harness.Prelude.{
  ℕ, suc, ◌≤◌, ◌≡◌, refl, sym, ap, ◌∙◌, Option, List, [], ◌∷◌, ◌++◌, length, take, drop, arith,
}
use mathlib.Core.Path.{subst₂}
use mathlib.Core.List.{reverse, reverse_aux, reverse-cons, reverse-reverse}
use wire_harness.Align.Score.{Value, plus, plus_assoc, plus_comm, plus-zero}
use wire_harness.Align.Matching.{Matching, done, skip_left, skip_right, pair, value, Optimum}

module _ (score : ℕ → ℕ → Option ℕ) where
  pub value-append :
      (ps qs : List (ℕ × ℕ)) → value score (ps ++ qs) ≡ plus (value score ps) (value score qs)
  unfolding value
  value-append [] qs = sym (plus_comm (0, 0) _ ∙ plus-zero _)
  value-append ((x, y) ∷ ps) qs = rw (value-append ps qs) (sym (plus_assoc _ _ _))

  pub value-reverse : (ps : List (ℕ × ℕ)) → value score (reverse ps) ≡ value score ps
  unfolding value
  value-reverse [] = refl
  value-reverse ((x, y) ∷ ps) =
      rw (reverse-cons (x, y) ps, value-append (reverse ps) ((x, y) ∷ []), value-reverse ps)
        (plus_comm _ _ ∙ ap (λ v. plus v (value score ps)) (plus-zero _))

  Matching-append_skip :
      (e a : List ℕ) {e' a' : List ℕ} {ps : List (ℕ × ℕ)}
      → Matching score e' a' ps
      → Matching score (e ++ e') (a ++ a') ps
  Matching-append_skip [] [] m = m
  Matching-append_skip [] (y ∷ a) m = skip_right (Matching-append_skip [] a m)
  Matching-append_skip (x ∷ e) a m = skip_left (Matching-append_skip e a m)

  pub Matching-append :
      {e a e' a' : List ℕ} {ps qs : List (ℕ × ℕ)}
      → Matching score e a ps
      → Matching score e' a' qs
      → Matching score (e ++ e') (a ++ a') (ps ++ qs)
  Matching-append (done {e} {a}) n = Matching-append_skip e a n
  Matching-append (skip_left m) n = skip_left (Matching-append m n)
  Matching-append (skip_right m) n = skip_right (Matching-append m n)
  Matching-append (pair q s m) n = pair q s (Matching-append m n)

  skip_onto :
      (e a : List ℕ) {re ra : List ℕ} {ps : List (ℕ × ℕ)}
      → Matching score re ra ps
      → Matching score (reverse_aux e re) (reverse_aux a ra) ps
  skip_onto [] [] m = m
  skip_onto [] (y ∷ a) m = skip_onto [] a (skip_right m)
  skip_onto (x ∷ e) a m = skip_onto e a (skip_left m)

  Matching-reverse_aux :
      {e a re ra : List ℕ} {ps qs : List (ℕ × ℕ)}
      → Matching score e a ps
      → Matching score re ra qs
      → Matching score (reverse_aux e re) (reverse_aux a ra) (reverse_aux ps qs)
  Matching-reverse_aux (done {e} {a}) n = skip_onto e a n
  Matching-reverse_aux (skip_left m) n = Matching-reverse_aux m (skip_left n)
  Matching-reverse_aux (skip_right m) n = Matching-reverse_aux m (skip_right n)
  Matching-reverse_aux (pair q s m) n = Matching-reverse_aux m (pair q s n)

  pub Matching-reverse :
      {e a : List ℕ} {ps : List (ℕ × ℕ)}
      → Matching score e a ps
      → Matching score (reverse e) (reverse a) (reverse ps)
  Matching-reverse m = Matching-reverse_aux m done

  -- The optimum does not depend on the direction.
  pub Optimum-reverse :
      {e a : List ℕ} {v : Value} → Optimum score (reverse e) (reverse a) v → Optimum score e a v
  Optimum-reverse {e} {a} {v} o = record {
    pairs = reverse o.pairs;
    matching =
        subst₂ (λ l r. Matching score l r (reverse o.pairs)) (reverse-reverse e) (reverse-reverse a)
          (Matching-reverse o.matching);
    attains = value-reverse o.pairs ∙ o.attains;
    greatest = λ ps m. rw (← value-reverse ps) (o.greatest (reverse ps) (Matching-reverse m));
  }

  -- A matching of two lists joined is cut with the first of them.
  pub record Cut (e e' a : List ℕ) (ps : List (ℕ × ℕ)) : Type 0 where
    pub at : ℕ
    pub front : List (ℕ × ℕ)
    pub back : List (ℕ × ℕ)
    pub at_le : at ≤ length a
    pub pairs_eq : ps ≡ front ++ back
    pub front_matching : Matching score e (take at a) front
    pub back_matching : Matching score e' (drop at a) back

  Cut-from :
      {es a : List ℕ} {ps : List (ℕ × ℕ)}
      → Matching score es a ps
      → (e e' : List ℕ) → Id _ es (e ++ e')
      → Cut e e' a ps
  Cut-from {a} {ps} m [] e' Id.refl = record {
    at = 0;
    front = [];
    back = ps;
    at_le = omega arith;
    pairs_eq = refl;
    front_matching = done;
    back_matching = m;
  }
  Cut-from done (x ∷ e) e' Id.refl = record {
    at = 0;
    front = [];
    back = [];
    at_le = omega arith;
    pairs_eq = refl;
    front_matching = done;
    back_matching = done;
  }
  Cut-from (skip_left m) (x ∷ e) e' Id.refl =
      let c = Cut-from m e e' Id.refl in
      record {
        at = c.at;
        front = c.front;
        back = c.back;
        at_le = c.at_le;
        pairs_eq = c.pairs_eq;
        front_matching = skip_left c.front_matching;
        back_matching = c.back_matching;
      }
  Cut-from (skip_right m) (x ∷ e) e' Id.refl =
      let c = Cut-from m (x ∷ e) e' Id.refl in
      record {
        at = suc c.at;
        front = c.front;
        back = c.back;
        at_le = omega (arith, c.at_le);
        pairs_eq = c.pairs_eq;
        front_matching = skip_right c.front_matching;
        back_matching = c.back_matching;
      }
  Cut-from (pair {y} q s m) (x ∷ e) e' Id.refl =
      let c = Cut-from m e e' Id.refl in
      record {
        at = suc c.at;
        front = (x, y) ∷ c.front;
        back = c.back;
        at_le = omega (arith, c.at_le);
        pairs_eq = ap (λ ps. (x, y) ∷ ps) c.pairs_eq;
        front_matching = pair q s c.front_matching;
        back_matching = c.back_matching;
      }

  pub Matching-Cut :
      (e e' a : List ℕ) (ps : List (ℕ × ℕ)) → Matching score (e ++ e') a ps → Cut e e' a ps
  Matching-Cut e e' a ps m = Cut-from m e e' Id.refl
