-- ===== src/Rolls.antt =====
-- `Counts` and `Specification` of src/rolls.rs: the outcomes of white melee swings.
use wire_harness.Prelude.{
  ℕ, zero, suc, ◌+◌, ◌-◌, ◌%◌, ◌^◌, min, Bool, true, false, ◌&&◌, ◌||◌, not, ltb, leb, ◌==◌, has,
  List, [], ◌∷◌, get_or, Result, ok, err, ◌>>=◌, ◌>>◌, ensure, if◌then◌else◌,
}
use wire_harness.Decode.Field.{Fields, Packet}
use wire_harness.Reading.{is_guid, number, numbers_are}
pub mod Swings
pub mod Binomial
pub mod Recording
pub mod Blocks

-- What the messages of `ensure!`, `bail!` and `context` say.
pub data Error : Type 0 where
  sample_size reference_size reference_characters context levels probability probability_sum : Error
  other_target missing_number ineligible bad_flags conflicting victim_state miss_state : Error
  subdamage avoided overflow out_of_range : Error
  duration character_count level_characters sample_count character_samples block_samples : Error
  block_counts disagrees binomial_input incomplete : Error

-- The array `[u32; 7]`, in the order of `CATEGORIES`.
abbrev pub Counts : Type 0
Counts = List ℕ

unfoldable pub no_counts : Counts
no_counts = 0 ∷ 0 ∷ 0 ∷ 0 ∷ 0 ∷ 0 ∷ 0 ∷ []

unfoldable pub sum : List ℕ → ℕ
sum [] = 0
sum (n ∷ ns) = n + sum ns

-- The sum of the counts, at most `u32::MAX`.
unfoldable pub total : Counts → ℕ
unfolding sum
total counts = min (sum counts) (2 ^ 32 - 1)

pub record Specification : Type 0 where
  pub samples_per_level : ℕ
  pub reference_samples_per_level : ℕ
  pub reference_characters : ℕ
  pub agility : ℕ
  pub weapon_skill : ℕ
  pub defense_skill : ℕ
  pub target_faction : ℕ
  pub target_entry : ℕ
  pub target_levels : ℕ × ℕ
  pub expected_basis_points : List ℕ × List ℕ

unfoldable pub all_at_most : ℕ → List ℕ → Bool
all_at_most bound [] = true
all_at_most bound (n ∷ ns) = leb n bound && all_at_most bound ns

-- The tests on the probabilities of one level. The sum is that of u32 values.
unfoldable pub valid_probabilities : List ℕ → Result Error (Unit {0})
unfolding sum all_at_most
valid_probabilities ps = do
  ensure (all_at_most 10000 ps) probability
  ensure (sum ps % 2 ^ 32 == 10000) probability_sum

unfoldable pub valid_level : ℕ → Bool
valid_level level = leb 1 level && leb level 255

unfoldable pub validate_specification : Specification → Result Error (Unit {0})
unfolding valid_probabilities valid_level
validate_specification spec = do
  ensure (spec.samples_per_level == 50000) sample_size
  ensure (spec.reference_samples_per_level == 2000) reference_size
  ensure (spec.reference_characters == 16) reference_characters
  ensure
      (leb spec.agility 10000
        && leb spec.weapon_skill 1275
        && leb spec.defense_skill 1275
        && ltb 0 spec.target_entry
        && ltb 0 spec.target_faction)
      context
  ensure
      (valid_level spec.target_levels.0
        && valid_level spec.target_levels.1
        && ltb spec.target_levels.0 spec.target_levels.1)
      levels
  valid_probabilities spec.expected_basis_points.0
  valid_probabilities spec.expected_basis_points.1

-- The six outcomes that a swing can report, in the order of `CATEGORIES`.
unfoldable pub outcomes : ℕ → ℕ → List Bool
outcomes flags state =
    has flags 0x10
    ∷ (state == 2)
    ∷ (state == 3)
    ∷ (has flags 0x800 || state == 5)
    ∷ has flags 0x4000
    ∷ has flags 0x80
    ∷ []

-- `iter().filter(|v| **v).count()`
unfoldable pub count_true : List Bool → ℕ
count_true [] = 0
count_true (b ∷ bs) = (if b then 1 else 0) + count_true bs

-- `iter().position(|v| *v)`, and the length of the list where it is `None`
unfoldable pub position : List Bool → ℕ
position [] = 0
position (b ∷ bs) = if b then 0 else suc (position bs)

-- The flags and the victim state of a swing that the sample can count.
unfoldable pub eligible_swing : Fields → Result Error (ℕ × ℕ)
eligible_swing fs = do
  plain ←
      numbers_are missing_number
        (("school", 0) ∷ ("spell", 0) ∷ ("absorbed", 0) ∷ ("resisted", 0) ∷ []) fs
  ensure plain ineligible
  hit_info ← number missing_number "hit_info" fs
  state ← number missing_number "victim_state" fs
  ensure (not (has hit_info (0x4 + 0x8000 + 0x20 + 0x40))) bad_flags
  ok (hit_info, state)

-- The category of a swing with these flags and this victim state. `state` is one of 0 to 3 or 5.
unfoldable pub category_of : ℕ → ℕ → Result Error ℕ
unfolding outcomes count_true position
category_of hit_info state = do
  ensure (leb (count_true (outcomes hit_info state)) 1) conflicting
  ensure (leb state 3 || state == 5) victim_state
  let category = position (outcomes hit_info state)
  ensure (if state == 0 then category == 0 else not (category == 0)) miss_state
  ok category

-- The tests on the damage.
unfoldable pub damage_agrees : ℕ → Fields → Result Error (Unit {0})
damage_agrees category fs = do
  damage ← number missing_number "damage" fs
  part ← number missing_number "subdamage" fs
  ensure (damage == part) subdamage
  if ltb category 3
      then (do
        harmless ← numbers_are missing_number (("damage", 0) ∷ ("blocked", 0) ∷ []) fs
        ensure harmless avoided)
      else ok tt

unfoldable pub classify : Fields → Result Error ℕ
unfolding eligible_swing category_of damage_agrees
classify fs = do
  (hit_info, state) ← eligible_swing fs
  category ← category_of hit_info state
  damage_agrees category fs
  ok category

-- `self.0[category] = self.0[category].checked_add(1)…?`. A category is at most 6, so that it does not
-- run past the seven counts, where the source would panic.
unfoldable pub increment : ℕ → Counts → Result Error Counts
increment i [] = err out_of_range
increment zero (n ∷ ns) = if ltb (n + 1) (2 ^ 32) then ok ((n + 1) ∷ ns) else err overflow
increment (suc i) (n ∷ ns) = increment i ns >>= λ ms. ok (n ∷ ms)

unfoldable pub record_swing : Counts → Fields → ℕ → Result Error Counts
unfolding classify increment
record_swing counts fs target = do
  ensure (is_guid "victim" target fs) other_target
  category ← classify fs
  increment category counts

-- The result, and the counts as they stand then.
unfoldable pub settle : Counts → Result Error Counts → Result Error Bool × Counts
settle counts (ok updated) = (ok true, updated)
settle counts (err e) = (err e, counts)

unfoldable pub observe : Counts → Packet → ℕ → ℕ → Result Error Bool × Counts
unfolding record_swing settle
observe counts p attacker target =
    if not (p.opcode == 0x014a) || not (is_guid "attacker" attacker p.fields)
    then (ok false, counts)
    else settle counts (record_swing counts p.fields target)
