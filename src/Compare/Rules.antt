-- ===== src/Compare/Rules.antt =====
-- The rules of src/compare.rs that select a field, and what they allow.
use wire_harness.Prelude.{
  ℕ, ◌+◌, ◌-◌, ◌*◌, ◌%◌, ◌^◌, ℤ, pos, negsuc, Bool, true, false, ◌&&◌, ◌||◌, not, ltb, leb, ◌==◌,
  List, [], ◌∷◌, String, Option, none, some, if◌then◌else◌,
}
use package.text.Mathlib.Text.{◌==◌ as str_eq}
use Prim.Native.Char.{code}
use wire_harness.Decode.Field.{field_name}
use wire_harness.Trace.Recorded.{Recorded, is_finite64}

-- The operations on f64, as bit patterns, that the rules use.
pub record Doubles : Type 0 where
  pub nearest : ℕ → ℕ
  pub minus : ℕ → ℕ → ℕ
  pub magnitude : ℕ → ℕ
  pub at_most : ℕ → ℕ → Bool

unfoldable pub abs_diff : ℕ → ℕ → ℕ
abs_diff a b = (a - b) + (b - a)

unfoldable pub int_leb : ℤ → ℤ → Bool
int_leb (pos a) (pos b) = leb a b
int_leb (pos a) (negsuc b) = false
int_leb (negsuc a) (pos b) = true
int_leb (negsuc a) (negsuc b) = leb b a

unfoldable pub same_path : List String → List String → Bool
same_path [] [] = true
same_path (p ∷ ps) (q ∷ qs) = str_eq p q && same_path ps qs
same_path _ _ = false

unfoldable pub same_name : Option String → Option String → Bool
same_name none none = true
same_name (some a) (some b) = str_eq a b
same_name _ _ = false

pub data RandomRange : Type 0 where
  unsigned : ℕ → ℕ → RandomRange
  signed : ℤ → ℤ → RandomRange
  float : ℕ → ℕ → RandomRange

-- What every rule on a field has: `FieldRule`.
pub record FieldRule : Type 0 where
  pub name : String
  pub reason : String
  pub character : Option String
  pub opcode : ℕ
  pub path : List String

pub record RandomRule : Type 0 where
  pub rule : FieldRule
  pub range : RandomRange

pub record ToleranceRule : Type 0 where
  pub rule : FieldRule
  pub packet_index : Option ℕ
  pub tolerance : ℕ

pub record ClockRule : Type 0 where
  pub rule : FieldRule
  pub tolerance_ms : ℕ

-- The rules of `EquivalenceRules` that the comparison of two fields reads.
pub record EquivalenceRules : Type 0 where
  pub identities : List FieldRule
  pub clocks : List ClockRule
  pub data_fields : List FieldRule
  pub tolerances : List ToleranceRule
  pub time_tolerance_ms : ℕ
  pub wall_clock_tolerance_ms : ℕ
  pub random : List RandomRule

module _ (doubles : Doubles) where
  unfoldable pub is_valid : RandomRange → Bool
  unfolding int_leb
  is_valid (unsigned minimum maximum) = leb minimum maximum
  is_valid (signed minimum maximum) = int_leb minimum maximum
  is_valid (float minimum maximum) =
      is_finite64 minimum && is_finite64 maximum && doubles.at_most minimum maximum

  unfoldable pub contains : RandomRange → Recorded → Bool
  unfolding int_leb
  contains (unsigned minimum maximum) (Recorded.unsigned n) = leb minimum n && leb n maximum
  contains (signed minimum maximum) (Recorded.signed n) = int_leb minimum n && int_leb n maximum
  contains (float minimum maximum) (Recorded.float n) =
      doubles.at_most minimum n && doubles.at_most n maximum
  contains _ _ = false

  -- `ToleranceRule::matches`
  unfoldable pub tolerates : ToleranceRule → Recorded → Recorded → Bool
  unfolding abs_diff
  tolerates r (Recorded.time_ms e) (Recorded.time_ms a) =
      doubles.at_most (doubles.nearest (abs_diff e a)) r.tolerance
  tolerates r (Recorded.unsigned e) (Recorded.unsigned a) =
      doubles.at_most (doubles.nearest (abs_diff e a)) r.tolerance
  tolerates r (Recorded.float e) (Recorded.float a) =
      doubles.at_most (doubles.magnitude (doubles.minus e a)) r.tolerance
  tolerates r _ _ = false

-- The value of a text of decimal digits behind `n`. A byte that is no digit makes `parse` fail.
unfoldable pub digits_from : ℕ → String → Option ℕ
digits_from n String.[] = some n
digits_from n (String.◌∷◌ c s) =
    let rest = digits_from (n * 10 + (code c - 48)) s in
    if leb 48 (code c) && leb (code c) 57 then rest else none

-- `parse::<u16>()` and `parse::<usize>()`: an optional sign, digits, at least one of them, and a
-- value below the bound.
unfoldable pub bounded : ℕ → Option ℕ → Option ℕ
bounded limit none = none
bounded limit (some n) = if ltb n limit then some n else none

unfoldable pub parse_digits : ℕ → String → Option ℕ
unfolding digits_from bounded
parse_digits limit String.[] = none
parse_digits limit (String.◌∷◌ c s) = bounded limit (digits_from 0 (String.◌∷◌ c s))

unfoldable pub parse_unsigned : ℕ → String → Option ℕ
unfolding parse_digits
parse_unsigned limit String.[] = none
parse_unsigned limit (String.◌∷◌ c s) =
    if code c == 43 then parse_digits limit s else parse_digits limit (String.◌∷◌ c s)

-- `strip_prefix`
unfoldable pub strip_prefix : String → String → Option String
strip_prefix String.[] s = some s
strip_prefix (String.◌∷◌ p ps) String.[] = none
strip_prefix (String.◌∷◌ p ps) (String.◌∷◌ c s) =
    let rest = strip_prefix ps s in if code p == code c then rest else none

-- The number of an update field, `field_<n>`.
unfoldable pub field_number : String → Option ℕ
unfolding parse_unsigned strip_prefix
field_number s = elim (strip_prefix "field_" s) [ none ↦ none | some n ↦ parse_unsigned (2 ^ 16) n ]

unfoldable pub high_of : Option ℕ → Option (List String)
unfolding field_name
high_of none = none
high_of (some low) =
    if not (leb 486 low && leb low 710) || not (low % 2 == 0)
    then none
    else some ("objects" ∷ "0" ∷ "values" ∷ field_name (low + 1) ∷ [])

-- `FieldRule::inventory_high_path`
unfoldable pub inventory_high_path : FieldRule → Option (List String)
unfolding same_path field_number high_of
inventory_high_path r = elim r.path [
  | a ∷ b ∷ c ∷ field ∷ [] ↦
      if not (r.opcode == 0x00a9)
        || not (same_path (a ∷ b ∷ c ∷ []) ("objects" ∷ "0" ∷ "values" ∷ []))
      then none
      else high_of (field_number field)
  | _ ↦ none
]
