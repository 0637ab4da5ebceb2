-- ===== src/Compare/Deviations.antt =====
-- How a comparison of src/compare.rs ends: `Comparator::finish` and the counts of a `Comparison`.
use wire_harness.Prelude.{
  ℕ, suc, ◌-◌, Bool, true, false, ◌&&◌, ◌||◌, not, ◌==◌, is_space, List, [], ◌∷◌, ◌++◌, String,
  Option, none, some, map, length, Result, ok, ensure, ◌>>=◌, ◌>>◌, if◌then◌else◌,
}
use package.text.Mathlib.Text.{◌==◌ as str_eq}
use Prim.Native.String.{◌++◌ as str_append}
use Prim.Native.Char.{code}
use wire_harness.Trace.Recorded.{Recorded, identifier, all_chars}
use wire_harness.Compare.Rules.{same_path}
use wire_harness.Compare.Equality.{same_field}
use wire_harness.Compare.State.{
  DifferenceClass, rule_class, data_class, AppliedDeviation, Difference, Location, Comparator,
  difference,
}

pub data DeviationKind : Type 0 where
  field_value : String → ℕ → List String → Recorded → Recorded → DeviationKind
  unexpected_packet : String → ℕ → DeviationKind

pub record DeliberateDeviation : Type 0 where
  pub name : String
  pub reason : String
  pub source : String
  pub kind : DeviationKind

unfoldable pub is_rule : DifferenceClass → Bool
is_rule rule_class = true
is_rule data_class = false

-- `== Some(...)`
unfoldable pub is_opcode : Option ℕ → ℕ → Bool
is_opcode none n = false
is_opcode (some m) n = m == n

unfoldable pub is_field : Option Recorded → Recorded → Bool
unfolding same_field
is_field none f = false
is_field (some g) f = same_field g f

unfoldable pub is_present : Option Recorded → Bool
is_present none = false
is_present (some f) = true

unfoldable pub is_empty {ℓ} : {A : Type ℓ} → List A → Bool
is_empty [] = true
is_empty (x ∷ xs) = false

-- The `match` of `applies`.
unfoldable pub kind_applies : DeviationKind → Difference → Bool
unfolding is_opcode is_field same_path is_present is_empty
kind_applies (field_value checkpoint opcode path expected actual) d =
    str_eq d.checkpoint checkpoint
    && is_opcode d.opcode opcode
    && same_path d.field_path path
    && not (is_empty path)
    && is_field d.expected expected
    && is_field d.actual actual
kind_applies (unexpected_packet checkpoint opcode) d =
    str_eq d.rule "unexpected_packet"
    && str_eq d.checkpoint checkpoint
    && is_opcode d.opcode opcode
    && is_present d.actual

-- `DeliberateDeviation::applies`
unfoldable pub applies : DeliberateDeviation → Difference → Bool
unfolding is_rule kind_applies
applies v d = is_rule d.classification && kind_applies v.kind d

-- `trim().is_empty()`
unfoldable pub is_blank : String → Bool
unfolding all_chars
is_blank s = all_chars (λ c. is_space (code c)) s

pub data Error : Type 0 where
  deviation_name deviation_reason : Error

unfoldable pub named : String → List String → Bool
named n [] = false
named n (m ∷ ms) = str_eq n m || named n ms

-- The two `ensure!`s on a deviation, behind deviations of these names.
unfoldable pub check_deviation : List String → DeliberateDeviation → Result Error (List String)
unfolding identifier named is_blank
check_deviation names v = do
  ensure (identifier v.name && not (named v.name names)) deviation_name
  ensure (not (is_blank v.reason) && not (is_blank v.source)) deviation_reason
  ok (v.name ∷ names)

unfoldable pub applied : DeliberateDeviation → AppliedDeviation
applied v = record { name = v.name; reason = v.reason; source = v.source }

-- The body of the loop over the differences.
unfoldable pub annotate : DeliberateDeviation → Difference → Difference
unfolding applies applied
annotate v d = if applies v d then record d { deviations = d.deviations ++ applied v ∷ [] } else d

-- The flag `used`
unfoldable pub is_used : DeliberateDeviation → List Difference → Bool
unfolding applies
is_used v [] = false
is_used v (d ∷ ds) = applies v d || is_used v ds

abbrev pub nowhere : Location
nowhere = record {
  character = none;
  checkpoint = "";
  stream = none;
  packet_index = none;
  path = [];
  opcode = none;
}

-- What a checked deviation does.
unfoldable pub apply_deviation : DeliberateDeviation → Comparator → Comparator
unfolding annotate is_used difference
apply_deviation v s =
    let marked : Comparator = record s { differences = map (annotate v) s.differences } in
    if is_used v s.differences
    then marked
    else difference nowhere "unused_deviation" (str_append v.name (str_append ": " v.reason)) none
        none marked

-- The loop of `finish`, behind deviations of these names.
unfoldable pub apply_deviations :
    List String → List DeliberateDeviation → Comparator → Result Error Comparator
unfolding check_deviation apply_deviation
apply_deviations names [] s = ok s
apply_deviations names (v ∷ vs) s = do
  more ← check_deviation names v
  apply_deviations more vs (apply_deviation v s)

-- `finish`, whose `Comparison` is the list of its differences.
unfoldable pub finish : List DeliberateDeviation → Comparator → Result Error (List Difference)
unfolding apply_deviations
finish vs s = do t ← apply_deviations [] vs s; ok t.differences

-- `filter(..).count()`
unfoldable pub count {ℓ} : {A : Type ℓ} → (A → Bool) → List A → ℕ
count p [] = 0
count p (x ∷ xs) = let rest = count p xs in if p x then suc rest else rest

unfoldable pub deviation_count : List Difference → ℕ
unfolding count is_empty
deviation_count = count (λ d. not (is_empty d.deviations))

unfoldable pub rule_difference_count : List Difference → ℕ
unfolding count is_rule
rule_difference_count = count (λ d. is_rule d.classification)

unfoldable pub data_difference_count : List Difference → ℕ
unfolding rule_difference_count
data_difference_count ds = length ds - rule_difference_count ds

unfoldable pub is_match : List Difference → Bool
unfolding rule_difference_count
is_match ds = rule_difference_count ds == 0
