-- ===== src/Compare/Report.antt =====
-- What `finish` of src/compare.rs makes of a list of differences, without its loops.
use wire_harness.Prelude.{
  ◌≡◌, refl, ap, ◌∙◌, Bool, true, false, ◌&&◌, ◌||◌, List, [], ◌∷◌, ◌++◌, String, none, map, Result,
  ok, Bool-cases, inl, inr, ◌>>=◌, arith, if◌then◌else◌,
}
use mathlib.Core.List.{append-nil, append_assoc, map-append}
use Prim.Native.String.{◌++◌ as str_append}
use wire_harness.Compare.State.{Difference, rule_class, AppliedDeviation}
use wire_harness.Compare.Deviations.{
  Error, DeviationKind, DeliberateDeviation, field_value, unexpected_packet, is_rule, is_opcode,
  kind_applies, applies, check_deviation, applied, annotate, is_used,
}

-- The checks on all deviations, behind deviations of these names.
unfoldable pub check_deviations : List String → List DeliberateDeviation → Result Error (Unit {0})
unfolding check_deviation
check_deviations names [] = ok tt
check_deviations names (v ∷ vs) = do more ← check_deviation names v; check_deviations more vs

-- The deviations that apply to a difference, in their order.
unfoldable pub applying : List DeliberateDeviation → Difference → List AppliedDeviation
unfolding applied applies
applying [] d = []
applying (v ∷ vs) d = if applies v d then applied v ∷ applying vs d else applying vs d

unfoldable pub annotated : List DeliberateDeviation → Difference → Difference
unfolding applying
annotated vs d = record d { deviations = d.deviations ++ applying vs d }

-- The difference that reports an unused deviation.
unfoldable pub notice : DeliberateDeviation → Difference
notice v = record {
  classification = rule_class;
  character = none;
  checkpoint = "";
  stream = none;
  packet_index = none;
  field_path = [];
  opcode = none;
  deviations = [];
  rule = "unused_deviation";
  reason = str_append v.name (str_append ": " v.reason);
  expected = none;
  actual = none;
}

unfoldable pub notices : List DeliberateDeviation → List Difference → List Difference
unfolding notice is_used
notices [] ds = []
notices (v ∷ vs) ds = (if is_used v ds then [] else notice v ∷ []) ++ notices vs ds

-- Each difference with the deviations that apply to it, then the unused deviations.
unfoldable pub report : List DeliberateDeviation → List Difference → List Difference
unfolding annotated notices
report vs ds = map (annotated vs) ds ++ notices vs ds

unfoldable applied_to : Bool → DeliberateDeviation → Difference → Difference
applied_to true v d = record d { deviations = d.deviations ++ applied v ∷ [] }
applied_to false v d = d

annotate-applied_to :
    (v : DeliberateDeviation) (d : Difference) → annotate v d ≡ applied_to (applies v d) v d
unfolding annotate applied_to
annotate-applied_to v d = elim (Bool-cases (applies v d)) [ inl h ↦ rw h refl | inr h ↦ rw h refl ]

kind_applies-applied_to :
    (k : DeviationKind) (v : DeliberateDeviation) (d : Difference)
    → kind_applies k (applied_to true v d) ≡ kind_applies k d
unfolding applied_to kind_applies
kind_applies-applied_to (field_value c o p e a) v d = refl
kind_applies-applied_to (unexpected_packet c o) v d = refl

applies-applied_to :
    (b : Bool) (v w : DeliberateDeviation) (d : Difference)
    → applies w (applied_to b v d) ≡ applies w d
unfolding applied_to applies
applies-applied_to true v w d =
    ap (λ x. is_rule d.classification && x) (kind_applies-applied_to w.kind v d)
applies-applied_to false v w d = refl

applies-annotate :
    (v w : DeliberateDeviation) (d : Difference) → applies w (annotate v d) ≡ applies w d
applies-annotate v w d =
    ap (applies w) (annotate-applied_to v d) ∙ applies-applied_to (applies v d) v w d

applying-annotate :
    (v : DeliberateDeviation) (vs : List DeliberateDeviation) (d : Difference)
    → applying vs (annotate v d) ≡ applying vs d
unfolding applying
applying-annotate v [] d = refl
applying-annotate v (w ∷ vs) d = rw (applies-annotate v w d, applying-annotate v vs d)

annotated-applied_to :
    (b : Bool) (v : DeliberateDeviation) (vs : List DeliberateDeviation) (d : Difference)
    → record (applied_to b v d) { deviations = (applied_to b v d).deviations ++ applying vs d }
      ≡ record d {
        deviations = d.deviations ++ (if b then applied v ∷ applying vs d else applying vs d);
      }
unfolding applied_to
annotated-applied_to true v vs d =
    ap {A = List AppliedDeviation} (λ x. record d { deviations = x })
      (append_assoc d.deviations (applied v ∷ []) (applying vs d))
annotated-applied_to false v vs d = refl

annotated-annotate :
    (v : DeliberateDeviation) (vs : List DeliberateDeviation) (d : Difference)
    → annotated vs (annotate v d) ≡ annotated (v ∷ vs) d
unfolding annotated applying
annotated-annotate v vs d =
    ap {A = List AppliedDeviation}
      (λ x. record (annotate v d) { deviations = (annotate v d).deviations ++ x })
      (applying-annotate v vs d)
    ∙ ap {A = Difference} (λ x. record x { deviations = x.deviations ++ applying vs d })
        (annotate-applied_to v d)
    ∙ annotated-applied_to (applies v d) v vs d

kind_applies-notice :
    (k : DeviationKind) (v : DeliberateDeviation) → kind_applies k (notice v) ≡ false
unfolding notice kind_applies is_opcode
kind_applies-notice (field_value c o p e a) v = ground arith
kind_applies-notice (unexpected_packet c o) v = ground arith

-- No deviation applies to the report of an unused one.
applies-notice : (v w : DeliberateDeviation) → applies w (notice v) ≡ false
unfolding applies
applies-notice v w = rw (kind_applies-notice w.kind v) ground arith

applying-notice :
    (v : DeliberateDeviation) (vs : List DeliberateDeviation) → applying vs (notice v) ≡ []
unfolding applying
applying-notice v [] = refl
applying-notice v (w ∷ vs) = rw (applies-notice v w) (applying-notice v vs)

annotated-notice :
    (v : DeliberateDeviation) (vs : List DeliberateDeviation) → annotated vs (notice v) ≡ notice v
unfolding annotated notice
annotated-notice v vs =
    ap {A = List AppliedDeviation} (λ x. record (notice v) { deviations = x })
      (applying-notice v vs)

-- What one deviation leaves of a list of differences.
unfoldable pub marked : DeliberateDeviation → List Difference → List Difference
unfolding annotate is_used notice
marked v ds = map (annotate v) ds ++ (if is_used v ds then [] else notice v ∷ [])

is_used-append :
    (w : DeliberateDeviation) (xs ys : List Difference)
    → is_used w (xs ++ ys) ≡ (is_used w xs || is_used w ys)
unfolding is_used
is_used-append w [] ys = refl
is_used-append w (x ∷ xs) ys = rw (is_used-append w xs ys) ground arith

is_used-annotate :
    (v w : DeliberateDeviation) (ds : List Difference)
    → is_used w (map (annotate v) ds) ≡ is_used w ds
unfolding is_used
is_used-annotate v w [] = refl
is_used-annotate v w (d ∷ ds) = rw (applies-annotate v w d, is_used-annotate v w ds)

is_used-notice :
    (b : Bool) (v w : DeliberateDeviation) → is_used w (if b then [] else notice v ∷ []) ≡ false
unfolding is_used
is_used-notice true v w = refl
is_used-notice false v w = rw (applies-notice v w)

is_used-marked :
    (v w : DeliberateDeviation) (ds : List Difference) → is_used w (marked v ds) ≡ is_used w ds
unfolding marked
is_used-marked v w ds =
    is_used-append w (map (annotate v) ds) _
    ∙ rw (is_used-annotate v w ds, is_used-notice (is_used v ds) v w) ground arith

notices-marked :
    (v : DeliberateDeviation) (vs : List DeliberateDeviation) (ds : List Difference)
    → notices vs (marked v ds) ≡ notices vs ds
unfolding notices
notices-marked v [] ds = refl
notices-marked v (w ∷ vs) ds = rw (is_used-marked v w ds, notices-marked v vs ds)

annotated-marked :
    (v : DeliberateDeviation) (vs : List DeliberateDeviation) (ds : List Difference)
    → map (annotated vs) (map (annotate v) ds) ≡ map (annotated (v ∷ vs)) ds
annotated-marked v vs [] = refl
annotated-marked v vs (d ∷ ds) = rw (annotated-annotate v vs d, annotated-marked v vs ds)

annotated-notices :
    (b : Bool) (v : DeliberateDeviation) (vs : List DeliberateDeviation)
    → map (annotated vs) (if b then [] else notice v ∷ []) ≡ (if b then [] else notice v ∷ [])
annotated-notices true v vs = refl
annotated-notices false v vs = rw (annotated-notice v vs)

pub report-marked :
    (v : DeliberateDeviation) (vs : List DeliberateDeviation) (ds : List Difference)
    → report vs (marked v ds) ≡ report (v ∷ vs) ds
unfolding report notices marked
report-marked v vs ds =
    let rest = if is_used v ds then [] else notice v ∷ [] in
    ap (λ x. x ++ notices vs (marked v ds)) (map-append (annotated vs) (map (annotate v) ds) rest)
    ∙ rw (annotated-marked v vs ds, annotated-notices (is_used v ds) v vs, notices-marked v vs ds)
        (append_assoc (map (annotated (v ∷ vs)) ds) rest (notices vs ds))

annotated-none : (d : Difference) → annotated [] d ≡ d
unfolding annotated applying
annotated-none d =
    ap {A = List AppliedDeviation} (λ x. record d { deviations = x }) (append-nil d.deviations)

pub report-none : (ds : List Difference) → report [] ds ≡ ds
unfolding report notices
report-none [] = refl
report-none (d ∷ ds) = rw (annotated-none d) (ap (λ x. d ∷ x) (report-none ds))
