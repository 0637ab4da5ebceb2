-- ===== src/Rolls/Recording.antt =====
-- `CheckRecording` and `compare` of src/rolls.rs.
use wire_harness.Prelude.{
  ℕ, zero, ◌+◌, ◌*◌, ◌/◌, ◌%◌, ◌^◌, Bool, true, false, ◌&&◌, ltb, ◌==◌, List, [], ◌∷◌, String,
  length, Result, ok, ◌>>=◌, ◌>>◌, ensure, if◌then◌else◌,
}
use wire_harness.Rolls.{
  Error, duration, character_count, level_characters, sample_count, character_samples,
  block_samples, block_counts, disagrees, incomplete, Counts, no_counts, total, Specification,
  validate_specification,
}
use wire_harness.Rolls.Binomial.{Floats, binomial_p_upper}

pub record RecordedCharacter : Type 0 where
  pub level : ℕ
  pub counts : Counts
  pub blocks : List Counts

pub record CheckRecording : Type 0 where
  pub classifier_version : ℕ
  pub elapsed_ms : ℕ
  pub characters : List RecordedCharacter

-- `CATEGORIES`
abbrev pub categories : List String
categories = "miss" ∷ "dodge" ∷ "parry" ∷ "block" ∷ "glancing" ∷ "crit" ∷ "hit" ∷ []

-- The parts of a `Difference` that vary: the checkpoint's level and seed slot, the category, and the
-- two counts. The text of its reason is left out.
pub record Difference : Type 0 where
  pub level : ℕ
  pub seed_slot : String
  pub category : String
  pub expected : ℕ
  pub actual : ℕ

-- `for (total, count) in sum.iter_mut().zip(block) { *total += count }` on u32 values
unfoldable pub add_counts : Counts → Counts → Counts
add_counts [] ds = []
add_counts (c ∷ cs) [] = c ∷ cs
add_counts (c ∷ cs) (d ∷ ds) = (c + d) % 2 ^ 32 ∷ add_counts cs ds

unfoldable pub same_counts : Counts → Counts → Bool
same_counts [] [] = true
same_counts (c ∷ cs) (d ∷ ds) = c == d && same_counts cs ds
same_counts _ _ = false

-- The loop over the blocks of a character.
unfoldable pub add_blocks : Counts → List Counts → Result Error Counts
unfolding add_counts total
add_blocks sum_so_far [] = ok sum_so_far
add_blocks sum_so_far (block ∷ blocks) = do
  ensure (total block == 50) block_samples
  add_blocks (add_counts sum_so_far block) blocks

unfoldable pub validate_character : RecordedCharacter → Result Error (Unit {0})
unfolding add_blocks same_counts no_counts
validate_character character = do
  ensure (total character.counts == 250 && length character.blocks == 5) character_samples
  added ← add_blocks no_counts character.blocks
  ensure (same_counts added character.counts) block_counts

unfoldable pub validate_characters : List RecordedCharacter → Result Error (Unit {0})
unfolding validate_character
validate_characters [] = ok tt
validate_characters (c ∷ cs) = do validate_character c; validate_characters cs

-- `characters.iter().filter(|c| c.level == level)`
unfoldable pub at_level : ℕ → List RecordedCharacter → List RecordedCharacter
at_level level [] = []
at_level level (c ∷ cs) = if c.level == level then c ∷ at_level level cs else at_level level cs

-- The sum of the totals, as u64 values: there are eight.
unfoldable pub sum_totals : List RecordedCharacter → ℕ
unfolding total
sum_totals [] = 0
sum_totals (c ∷ cs) = total c.counts + sum_totals cs

unfoldable pub level_counts : Counts → List RecordedCharacter → Counts
unfolding add_counts
level_counts counts [] = counts
level_counts counts (c ∷ cs) = level_counts (add_counts counts c.counts) cs

unfoldable pub validate_level : CheckRecording → Specification → ℕ → Result Error (Unit {0})
unfolding at_level sum_totals validate_characters
validate_level recording spec level = do
  let characters = at_level level recording.characters
  ensure (length characters == 8) level_characters
  ensure (sum_totals characters == spec.reference_samples_per_level) sample_count
  validate_characters characters

module _ (floats : Floats) where
  -- `FAMILY_ALPHA / f64::from(TESTS_PER_SUBMISSION)`: 1e-6 over (7 + 5) * 2 * 3
  unfoldable pub threshold : floats.Float
  threshold =
      floats.over (floats.over (floats.nearest 1) (floats.nearest 1000000))
        (floats.nearest ((7 + 5) * 2 * 3))

  -- The loop over the categories.
  unfoldable pub differences :
      ℕ → String → ℕ → List String → List ℕ → Counts → Result Error (List Difference)
  unfolding threshold binomial_p_upper
  differences level seed_slot samples (name ∷ names) (expected ∷ es) (actual ∷ counts) = do
    p ← binomial_p_upper floats samples actual expected
    more ← differences level seed_slot samples names es counts
    let found : Difference = record {
      level = level;
      seed_slot = seed_slot;
      category = name;
      expected = expected * samples / 10000;
      actual = actual;
    }
    ok (if floats.at_most p threshold then found ∷ more else more)
  differences level seed_slot samples _ _ _ = ok []

  unfoldable pub level_of : Specification → ℕ → ℕ
  level_of spec zero = spec.target_levels.0
  level_of spec _ = spec.target_levels.1

  unfoldable pub expected_of : Specification → ℕ → List ℕ
  expected_of spec zero = spec.expected_basis_points.0
  expected_of spec _ = spec.expected_basis_points.1

  unfoldable pub compare : Specification → Counts → ℕ → String → ℕ → Result Error (List Difference)
  unfolding validate_specification differences total level_of expected_of
  compare spec counts level_index seed_slot samples = do
    validate_specification spec
    ensure (ltb level_index 2 && total counts == samples) incomplete
    differences (level_of spec level_index) seed_slot samples categories
        (expected_of spec level_index) counts

  -- `is_match`: every difference is a `Rule` difference, so there are none.
  unfoldable pub is_match : List Difference → Bool
  is_match [] = true
  is_match (d ∷ ds) = false

  -- The second loop of `validate`, for one level.
  unfoldable pub compare_level : CheckRecording → Specification → ℕ → Result Error (Unit {0})
  unfolding compare level_counts at_level no_counts is_match
  compare_level recording spec index = do
    let counts = level_counts no_counts (at_level (level_of spec index) recording.characters)
    found ← compare spec counts index "reference_check" spec.reference_samples_per_level
    ensure (is_match found) disagrees

  unfoldable pub validate : CheckRecording → Specification → Result Error (Unit {0})
  unfolding validate_level compare_level
  validate recording spec = do
    ensure
        (recording.classifier_version == 1
          && ltb 0 recording.elapsed_ms
          && ltb recording.elapsed_ms (30 * 60 * 1000))
        duration
    ensure (length recording.characters == spec.reference_characters) character_count
    validate_level recording spec spec.target_levels.0
    validate_level recording spec spec.target_levels.1
    compare_level recording spec 0
    compare_level recording spec 1
