-- ===== src/Compare/Finished.antt =====
-- The end of a comparison of src/compare.rs, with the loops of `finish` written out.
use wire_harness.Prelude.{
  suc, ◌+◌, ◌≡◌, ◌↔◌, refl, sym, ap, ◌∙◌, Bool, true, false, List, [], ◌∷◌, ◌++◌, String, map,
  length, ok, Result-cases, Bool-cases, inl, inr, ◌>>=◌, arith,
}
use mathlib.Core.List.{append-nil}
use wire_harness.Compare.State.{Difference, Comparator, difference, difference_as}
use wire_harness.Compare.Report.{
  check_deviations, annotated, notice, notices, report, marked, report-marked, report-none,
}
use wire_harness.Compare.Deviations.{
  DeliberateDeviation, is_rule, applies, check_deviation, annotate, is_used, apply_deviation,
  apply_deviations, finish, count, rule_difference_count, is_match,
}

apply_deviation-marked :
    (v : DeliberateDeviation) (s : Comparator)
    → (apply_deviation v s).differences ≡ marked v s.differences
unfolding apply_deviation marked difference difference_as notice
apply_deviation-marked v s = elim (Bool-cases (is_used v s.differences)) [
  | inl h ↦ rw h (sym (append-nil (map (annotate v) s.differences)))
  | inr h ↦ rw h refl
]

apply_deviations-report :
    (names : List String) (vs : List DeliberateDeviation) (s : Comparator)
    → (apply_deviations names vs s >>= λ t. ok t.differences)
      ≡ (check_deviations names vs >>= λ u. ok (report vs s.differences))
unfolding apply_deviations check_deviations
apply_deviations-report names [] s = ap ok (sym (report-none s.differences))
apply_deviations-report names (v ∷ vs) s = elim (Result-cases (check_deviation names v)) [
  | inl (more, h) ↦ rw h (
      apply_deviations-report more vs (apply_deviation v s)
      ∙ rw (apply_deviation-marked v s, report-marked v vs s.differences) refl)
  | inr (e, h) ↦ rw h refl
]

-- `finish` is the check of the deviations, and then a report: each difference with the deviations
-- that apply to it as it was found, in their order, behind what it had, and after all differences
-- one more for each deviation that applies to none of them.
pub finish-report :
    (vs : List DeliberateDeviation) (s : Comparator)
    → finish vs s ≡ (check_deviations [] vs >>= λ u. ok (report vs s.differences))
unfolding finish
finish-report vs s = apply_deviations-report [] vs s

count-append {ℓ} :
    {A : Type ℓ} (p : A → Bool) (xs ys : List A) → count p (xs ++ ys) ≡ count p xs + count p ys
unfolding count
count-append p [] ys = omega arith
count-append p (x ∷ xs) ys = ground (arith, count-append p xs ys)

rules-annotated :
    (vs : List DeliberateDeviation) (ds : List Difference)
    → rule_difference_count (map (annotated vs) ds) ≡ rule_difference_count ds
unfolding rule_difference_count count annotated
rules-annotated vs [] = refl
rules-annotated vs (d ∷ ds) = ground (arith, rules-annotated vs ds)

rules-notices :
    (vs : List DeliberateDeviation) (ds : List Difference)
    → rule_difference_count (notices vs ds) ≡ length (notices vs ds)
unfolding rule_difference_count count notices notice is_rule
rules-notices [] ds = refl
rules-notices (v ∷ vs) ds = elim (Bool-cases (is_used v ds)) [
  | inl h ↦ rw h (rules-notices vs ds)
  | inr h ↦ rw h (ap suc (rules-notices vs ds))
]

rules-report :
    (vs : List DeliberateDeviation) (ds : List Difference)
    → rule_difference_count (report vs ds) ≡ rule_difference_count ds + length (notices vs ds)
unfolding report rule_difference_count
rules-report vs ds =
    let before : count (λ d. is_rule d.classification) (map (annotated vs) ds)
        ≡ count (λ d. is_rule d.classification) ds =
      unfold rule_difference_count in rules-annotated vs ds in
    let new : count (λ d. is_rule d.classification) (notices vs ds) ≡ length (notices vs ds) =
      unfold rule_difference_count in rules-notices vs ds in
    count-append (λ d. is_rule d.classification) (map (annotated vs) ds) (notices vs ds)
    ∙ omega (arith, before, new)

-- A list of data differences uses no deviation.
unused_on-data :
    (v : DeliberateDeviation) (ds : List Difference)
    → rule_difference_count ds ≡ 0
    → is_used v ds ≡ false
unfolding rule_difference_count count is_used applies
unused_on-data v [] h = refl
unused_on-data v (d ∷ ds) h = ground (arith, h, unused_on-data v ds)

notices_on-data :
    (vs : List DeliberateDeviation) (ds : List Difference)
    → rule_difference_count ds ≡ 0
    → length (notices vs ds) ≡ length vs
unfolding notices
notices_on-data [] ds h = refl
notices_on-data (v ∷ vs) ds h = rw (unused_on-data v ds h, notices_on-data vs ds h) refl

finished :
    (vs : List DeliberateDeviation) (s : Comparator) (found : List Difference)
    → finish vs s ≡ ok found
    → found ≡ report vs s.differences
finished vs s found h = elim (Result-cases (check_deviations [] vs)) [
  | inl (u, k) ↦ ground (arith, sym h ∙ finish-report vs s, k)
  | inr (e, k) ↦ ground (arith, sym h ∙ finish-report vs s, k)
]

-- A finished comparison matches exactly when it was given no deviation and found data differences
-- only: a deviation never turns a rule difference into a match, and one that is not used spoils a
-- match.
pub finish-is_match :
    (vs : List DeliberateDeviation) (s : Comparator) (found : List Difference)
    → finish vs s ≡ ok found
    → (is_match found ≡ true) ↔ ((rule_difference_count s.differences ≡ 0) × (length vs ≡ 0))
unfolding is_match
finish-is_match vs s found h =
    let all = ap rule_difference_count (finished vs s found h) ∙ rules-report vs s.differences in
    (
      (λ m.
          let no_rules : rule_difference_count found ≡ 0 = ground (arith, m) in
          let before : rule_difference_count s.differences ≡ 0 = omega (arith, no_rules, all) in
          (before, omega (arith, notices_on-data vs s.differences before, no_rules, all))),
      λ (d, n). ground (arith, all, d, n, notices_on-data vs s.differences d),
    )
