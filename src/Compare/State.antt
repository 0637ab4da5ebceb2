-- ===== src/Compare/State.antt =====
-- The state of a comparison in src/compare.rs: the GUIDs paired so far, the rules that were used, and
-- the differences found.
use wire_harness.Prelude.{
  ℕ, ◌/◌, ◌^◌, Bool, true, ◌&&◌, ◌||◌, ◌==◌, List, [], ◌∷◌, ◌++◌, String, Option, none, some,
  if◌then◌else◌,
}
use wire_harness.Trace.Recorded.{Recorded}
use wire_harness.Trace.Packets.{Stream}
use wire_harness.Compare.Rules.{same_name}

pub data DifferenceClass : Type 0 where
  rule_class data_class : DifferenceClass

pub record AppliedDeviation : Type 0 where
  pub name : String
  pub reason : String
  pub source : String

pub record Difference : Type 0 where
  pub classification : DifferenceClass
  pub character : Option String
  pub checkpoint : String
  pub stream : Option Stream
  pub packet_index : Option ℕ
  pub field_path : List String
  pub opcode : Option ℕ
  pub deviations : List AppliedDeviation
  pub rule : String
  pub reason : String
  pub expected : Option Recorded
  pub actual : Option Recorded

pub record Location : Type 0 where
  pub character : Option String
  pub checkpoint : String
  pub stream : Option Stream
  pub packet_index : Option ℕ
  pub path : List String
  pub opcode : Option ℕ

unfoldable pub child : Location → String → Location
child l field = record l { path = l.path ++ field ∷ [] }

-- A `BTreeMap` whose entries are only added: the newest one for a key stands first.
module _ {ℓ κ} {K : Type ℓ} {V : Type κ} where
  unfoldable pub get : (K → K → Bool) → K → List (K × V) → Option V
  get same k [] = none
  get same k ((j, v) ∷ m) = if same j k then some v else get same k m

-- The keys of the identity maps, and of the clock origins.
abbrev pub IdentityKey : Type 0
IdentityKey = ℕ × Option String × ℕ

abbrev pub ClockKey : Type 0
ClockKey = ℕ × Option String

unfoldable pub same_identity : IdentityKey → IdentityKey → Bool
same_identity (i, c, n) (j, d, m) = i == j && same_name c d && n == m

unfoldable pub same_clock : ClockKey → ClockKey → Bool
same_clock (i, c) (j, d) = i == j && same_name c d

-- The sets of used rules hold their indices.
pub record Comparator : Type 0 where
  pub expected_guids : List (ℕ × ℕ)
  pub actual_guids : List (ℕ × ℕ)
  pub used_random : List ℕ
  pub identities : List (IdentityKey × ℕ)
  pub reverse_identities : List (IdentityKey × ℕ)
  pub used_identities : List ℕ
  pub clock_origins : List (ClockKey × (ℕ × ℕ))
  pub used_clocks : List ℕ
  pub used_data_fields : List ℕ
  pub used_tolerances : List ℕ
  pub differences : List Difference

unfoldable pub get_guid : ℕ → List (ℕ × ℕ) → Option ℕ
unfolding get
get_guid = get (λ j k. j == k)

-- `map_or(true, |mapped| *mapped == value)`
unfoldable pub absent_or : ℕ → Option ℕ → Bool
absent_or value none = true
absent_or value (some mapped) = mapped == value

unfoldable pub guid_matches : Comparator → ℕ → ℕ → Bool
unfolding get_guid absent_or
guid_matches s expected actual =
    if expected == 0 || actual == 0
    then expected == actual
    else (expected / 2 ^ 48 == actual / 2 ^ 48)
      && absent_or actual (get_guid expected s.expected_guids)
      && absent_or expected (get_guid actual s.actual_guids)

unfoldable pub difference_as :
    DifferenceClass
    → Location
    → String
    → String
    → Option Recorded
    → Option Recorded
    → Comparator
    → Comparator
difference_as class l rule reason expected actual s =
    let found : Difference = record {
      classification = class;
      character = l.character;
      checkpoint = l.checkpoint;
      stream = l.stream;
      packet_index = l.packet_index;
      field_path = l.path;
      opcode = l.opcode;
      deviations = [];
      rule = rule;
      reason = reason;
      expected = expected;
      actual = actual;
    } in
    record s { differences = s.differences ++ found ∷ [] }

-- `difference`
unfoldable pub difference :
    Location → String → String → Option Recorded → Option Recorded → Comparator → Comparator
unfolding difference_as
difference = difference_as rule_class

unfoldable pub pair_guids : ℕ → ℕ → Comparator → Comparator
pair_guids e a s = record s {
  expected_guids = (e, a) ∷ s.expected_guids;
  actual_guids = (a, e) ∷ s.actual_guids;
}

unfoldable pub guid_mismatch : Location → ℕ → ℕ → Comparator → Comparator
unfolding difference
guid_mismatch l e a s =
    difference l "guid_bijection"
      "GUID mapping must preserve type and be one-to-one; zero maps only to zero"
      (some (Recorded.guid e)) (some (Recorded.guid a)) s

-- `guid_field` on the GUIDs `e` and `a`
unfoldable pub guid_field : Location → ℕ → ℕ → Comparator → Comparator
unfolding guid_matches guid_mismatch pair_guids
guid_field l e a s = if guid_matches s e a then pair_guids e a s else guid_mismatch l e a s

-- `comparator`
unfoldable pub comparator : Comparator
comparator = record {
  expected_guids = [];
  actual_guids = [];
  used_random = [];
  identities = [];
  reverse_identities = [];
  used_identities = [];
  clock_origins = [];
  used_clocks = [];
  used_data_fields = [];
  used_tolerances = [];
  differences = [];
}
