-- ===== src/Tests/CompareRuns.antt =====
-- A comparison of src/compare.rs of two objects, each with a GUID and a list.
use wire_harness.Prelude.{ℕ, suc, ◌≡◌, refl, [], ◌∷◌, some, none, length, leb, true, ok, ◌>>=◌, ◌↔◌}
use wire_harness.Trace.Recorded
use wire_harness.Trace.Recorded.{Recorded, RecordedFields, end, entry}
use wire_harness.Trace.Depth.{height}
use wire_harness.Compare.Rules.{Doubles, EquivalenceRules}
use wire_harness.Compare.State.{Location, Comparator, comparator}
use wire_harness.Compare.Fields.{field}
use wire_harness.Compare.Bijection.{Grows}
use wire_harness.Compare.Growth.{field-Grows}
use wire_harness.Compare.Same.{Same}
use wire_harness.Compare.Deviations.{
  DeliberateDeviation, field_value, finish, is_match, rule_difference_count, deviation_count,
}
use wire_harness.Compare.Report.{check_deviations, report}
use wire_harness.Compare.Finished.{finish-report, finish-is_match}
use wire_harness.Compare.Sound.{comparator-Bijective, field-Same}

-- f64 patterns of positive numbers stand in the order of the numbers.
abbrev doubles : Doubles
doubles = record { nearest = λ n. n; minus = λ x y. x; magnitude = λ x. x; at_most = leb }

abbrev rules : EquivalenceRules
rules = record {
  identities = [];
  clocks = [];
  data_fields = [];
  tolerances = [];
  time_tolerance_ms = 50;
  wall_clock_tolerance_ms = 1000;
  random = [];
}

abbrev place : Location
place = record {
  character = none;
  checkpoint = "buy";
  stream = none;
  packet_index = some 0;
  path = "values" ∷ [];
  opcode = some 169;
}

abbrev values : ℕ → ℕ → Recorded
values guid time = Recorded.object (
    entry "owner" (Recorded.guid guid)
      (entry "times" (Recorded.list (Recorded.cons (Recorded.time_ms time) Recorded.nil)) end))

field-Grows_example :
    Grows comparator (field doubles rules (0, 0) 169 place (values 5 100) (values 9 200) comparator)
field-Grows_example =
    field-Grows doubles rules (0, 0) 169 place (values 5 100) (values 9 200) comparator

field-Same_example :
    Same doubles rules
      (0, 0)
      169
      (field doubles rules (0, 0) 169 place (values 5 100) (values 9 120) comparator).expected_guids
      (suc (height (values 5 100)))
      place
      (values 5 100)
      (values 9 120)
unfolding field comparator height
field-Same_example =
    field-Same doubles rules (0, 0) 169 place (values 5 100) (values 9 120) comparator
      comparator-Bijective refl

paired :
    (field doubles rules (0, 0) 169 place (values 5 100) (values 9 120) comparator).expected_guids
    ≡ (5, 9) ∷ []
unfolding field comparator height
paired = refl

late :
    length
      (field doubles rules (0, 0) 169 place (values 5 100) (values 9 200) comparator).differences
    ≡ 1
unfolding field comparator height
late = refl

-- A deviation from the field that differs, and the comparison that finds it.
abbrev deviation : DeliberateDeviation
deviation = record {
  name = "gold";
  reason = "the server rounds";
  source = "wiki";
  kind = field_value "buy" 169 ("values" ∷ []) (Recorded.unsigned 1) (Recorded.unsigned 2);
}

abbrev differing : Comparator
differing =
    field doubles rules (0, 0) 169 place (Recorded.unsigned 1) (Recorded.unsigned 2) comparator

finish-report_example : finish (deviation ∷ []) differing ≡ (
    check_deviations [] (deviation ∷ []) >>= λ u.
    ok (report (deviation ∷ []) differing.differences))
finish-report_example = finish-report (deviation ∷ []) differing

deviated : deviation_count (report (deviation ∷ []) differing.differences) ≡ 1
unfolding field comparator height report deviation_count
deviated = refl

finish-is_match_example :
    (is_match (report (deviation ∷ []) differing.differences) ≡ true)
    ↔ ((rule_difference_count differing.differences ≡ 0) × (length (deviation ∷ []) ≡ 0))
unfolding finish field comparator height report
finish-is_match_example =
    finish-is_match (deviation ∷ []) differing (report (deviation ∷ []) differing.differences) refl
