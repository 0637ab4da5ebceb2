-- ===== src/Compare/Equality.antt =====
-- Recorded fields as src/compare.rs looks at them: equality, shape, and the GUID they are about.
use wire_harness.Prelude.{
  ℕ, zero, suc, ◌*◌, ◌%◌, ◌^◌, max, ℤ, pos, negsuc, Bool, true, false, ◌&&◌, ◌||◌, not, ltb, ◌==◌,
  List, [], ◌∷◌, String, Option, none, some, if◌then◌else◌,
}
use package.text.Mathlib.Text.{◌==◌ as str_eq, is_lt}
use Prim.Native.String.{compare}
use wire_harness.Trace.Recorded
use wire_harness.Trace.Recorded.{Recorded, RecordedItems, RecordedFields}
use wire_harness.Trace.Depth.{height}

unfoldable pub to_list : RecordedItems → List Recorded
to_list Recorded.nil = []
to_list (Recorded.cons r items) = r ∷ to_list items

-- `get` on the map of an object
unfoldable pub find : String → RecordedFields → Option Recorded
find k Recorded.end = none
find k (Recorded.entry j r fs) = if str_eq j k then some r else find k fs

unfoldable pub has_key : String → RecordedFields → Bool
has_key k Recorded.end = false
has_key k (Recorded.entry j r fs) = str_eq j k || has_key k fs

-- Every key of the first map is one of the second.
unfoldable pub keys_within : RecordedFields → RecordedFields → Bool
unfolding has_key
keys_within Recorded.end other = true
keys_within (Recorded.entry k r fs) other = has_key k other && keys_within fs other

-- Insertion into a `BTreeSet` of keys, in their order.
unfoldable pub insert_key : String → List String → List String
insert_key k [] = k ∷ []
insert_key k (j ∷ js) =
    let rest = insert_key k js in
    if str_eq k j then j ∷ js else if is_lt (compare k j) then k ∷ j ∷ js else j ∷ rest

unfoldable pub collect_keys : RecordedFields → List String → List String
unfolding insert_key
collect_keys Recorded.end keys = keys
collect_keys (Recorded.entry k r fs) keys = collect_keys fs (insert_key k keys)

-- `expected.keys().chain(actual.keys()).collect::<BTreeSet<_>>()`
unfoldable pub key_set : RecordedFields → RecordedFields → List String
unfolding collect_keys
key_set e a = collect_keys a (collect_keys e [])

unfoldable pub int_eq : ℤ → ℤ → Bool
int_eq (pos a) (pos b) = a == b
int_eq (negsuc a) (negsuc b) = a == b
int_eq _ _ = false

-- `==` on f64: not on a NaN, and the two zeros are equal.
unfoldable pub is_nan : ℕ → Bool
is_nan n = ltb (2047 * 2 ^ 52) (n % 2 ^ 63)

unfoldable pub float_eq : ℕ → ℕ → Bool
unfolding is_nan
float_eq a b = not (is_nan a) && not (is_nan b) && (a == b || (a % 2 ^ 63 == 0 && b % 2 ^ 63 == 0))

-- The derived `==` on fields. Two maps are equal when they have the same keys and values.
unfoldable mutual
  pub same_field : Recorded → Recorded → Bool
  same_field (Recorded.unsigned e) (Recorded.unsigned a) = e == a
  same_field (Recorded.signed e) (Recorded.signed a) = int_eq e a
  same_field (Recorded.float e) (Recorded.float a) = float_eq e a
  same_field (Recorded.guid e) (Recorded.guid a) = e == a
  same_field (Recorded.time_ms e) (Recorded.time_ms a) = e == a
  same_field (Recorded.wall_clock_ms e) (Recorded.wall_clock_ms a) = e == a
  same_field (Recorded.text_sha256 e) (Recorded.text_sha256 a) = str_eq e a
  same_field (Recorded.list e) (Recorded.list a) = same_items e a
  same_field (Recorded.object e) (Recorded.object a) = keys_within a e && entries_within e a
  same_field _ _ = false

  pub same_items : RecordedItems → RecordedItems → Bool
  same_items Recorded.nil Recorded.nil = true
  same_items (Recorded.cons e es) (Recorded.cons a as') = same_field e a && same_items es as'
  same_items _ _ = false

  pub entries_within : RecordedFields → RecordedFields → Bool
  entries_within Recorded.end other = true
  entries_within (Recorded.entry k r fs) other =
      elim (find k other) [ none ↦ false | some a ↦ same_field r a ] && entries_within fs other

unfoldable pub or_else {ℓ} : {A : Type ℓ} → Option A → Option A → Option A
or_else (some a) other = some a
or_else none other = other

unfoldable pub guid_of : Option Recorded → Option ℕ
guid_of (some (Recorded.guid g)) = some g
guid_of _ = none

-- The first of the fields `guid`, `caster` and `attacker` that is a GUID.
unfoldable pub named_guid : RecordedFields → Option ℕ
unfolding or_else guid_of find
named_guid fs =
    or_else (guid_of (find "guid" fs))
      (or_else (guid_of (find "caster" fs)) (guid_of (find "attacker" fs)))

-- What `subject` takes from `objects`, when it is a list of a single object.
unfoldable pub object_subject : RecordedFields → Option ℕ
unfolding or_else named_guid
object_subject Recorded.end = none
object_subject
      (Recorded.entry k (Recorded.list (Recorded.cons (Recorded.object o) Recorded.nil)) fs) =
    let inner = or_else (named_guid o) (object_subject o) in
    let rest = object_subject fs in if str_eq k "objects" then inner else rest
object_subject (Recorded.entry k _ fs) =
    let rest = object_subject fs in if str_eq k "objects" then none else rest

unfoldable pub subject : RecordedFields → Option ℕ
unfolding or_else named_guid object_subject
subject fs = or_else (named_guid fs) (object_subject fs)

-- `matches!(field, Field::Object(fields) if subject(fields).is_some())`
unfoldable pub is_keyed : Recorded → Bool
unfolding subject
is_keyed (Recorded.object fs) = elim (subject fs) [ none ↦ false | some g ↦ true ]
is_keyed _ = false

unfoldable pub any_keyed : List Recorded → Bool
unfolding is_keyed
any_keyed [] = false
any_keyed (r ∷ rs) = is_keyed r || any_keyed rs

unfoldable pub all_items : (Recorded → Bool) → RecordedItems → Bool
all_items test Recorded.nil = true
all_items test (Recorded.cons r items) = test r && all_items test items

-- The test of every value of the first map with the one that the second has for its key.
unfoldable pub all_values : (Recorded → Recorded → Bool) → RecordedFields → RecordedFields → Bool
all_values test Recorded.end other = true
all_values test (Recorded.entry k r fs) other =
    elim (find k other) [ none ↦ false | some a ↦ test r a ] && all_values test fs other

-- The tests of each list with the first item of the other.
unfoldable pub heads_agree : (Recorded → Recorded → Bool) → RecordedItems → RecordedItems → Bool
unfolding all_items
heads_agree test (Recorded.cons e es) (Recorded.cons a rest) =
    all_items (λ value. test value a) (Recorded.cons e es)
    && all_items (test e) (Recorded.cons a rest)
heads_agree test _ _ = true

-- One level of `data_shape_matches`, with the test of what lies below.
unfoldable pub shape_by : (Recorded → Recorded → Bool) → Recorded → Recorded → Bool
unfolding keys_within all_values all_items heads_agree
shape_by test (Recorded.unsigned e) (Recorded.unsigned a) = true
shape_by test (Recorded.signed e) (Recorded.signed a) = true
shape_by test (Recorded.float e) (Recorded.float a) = true
shape_by test (Recorded.text_sha256 e) (Recorded.text_sha256 a) = true
shape_by test (Recorded.object e) (Recorded.object a) =
    keys_within e a && keys_within a e && all_values test e a
shape_by test (Recorded.list e) (Recorded.list a) =
    all_items (λ value. test value value) e
    && all_items (λ value. test value value) a
    && heads_agree test e a
shape_by test _ _ = false

-- `data_shape_matches` goes down both fields, so that the greater height bounds its rounds.
unfoldable pub shape_rounds : ℕ → Recorded → Recorded → Bool
unfolding shape_by
shape_rounds zero e a = false
shape_rounds (suc n) e a = shape_by (shape_rounds n) e a

unfoldable pub data_shape_matches : Recorded → Recorded → Bool
unfolding shape_rounds
data_shape_matches e a = shape_rounds (suc (max (height e) (height a))) e a
