-- ===== src/SpellRolls/Recording.antt =====
-- `Specification`, `CheckRecording` and `compare` of src/spell_rolls.rs.
use wire_harness.Prelude.{
  ℕ, zero, suc, ◌+◌, ◌*◌, ◌/◌, ◌%◌, ◌^◌, Bool, true, ◌&&◌, ltb, leb, ◌==◌, List, [], ◌∷◌, String,
  length, take, Result, ok, err, ◌>>=◌, ◌>>◌, ensure, if◌then◌else◌,
}
use wire_harness.Rolls.Binomial.{Floats, epsilon, binomial_p_ratio_upper}
use wire_harness.Rolls.Recording.{Difference, threshold, is_match}
use wire_harness.SpellRolls.Outcomes.{
  Error, allocation, context, probability, probability_sum, provenance, level_characters,
  block_number, block_counts, target_level, binomial, disagrees, Counts, no_counts, validate,
}

pub record Probability : Type 0 where
  pub numerator : ℕ
  pub denominator : ℕ

pub record Specification : Type 0 where
  pub samples_per_level : ℕ
  pub reference_samples_per_level : ℕ
  pub reference_characters : ℕ
  pub spell_id : ℕ
  pub intellect : ℕ
  pub target_entry : ℕ
  pub target_faction : ℕ
  pub target_levels : ℕ × ℕ
  pub expected : List Probability × List Probability

pub record RecordedCharacter : Type 0 where
  pub level : ℕ
  pub counts : Counts
  pub blocks : List Counts

pub record CheckRecording : Type 0 where
  pub classifier_version : ℕ
  pub setup_ms : ℕ
  pub elapsed_ms : ℕ
  pub characters : List RecordedCharacter

-- `CATEGORIES`
abbrev pub categories : List String
categories = "miss" ∷ "resist" ∷ "crit" ∷ "hit" ∷ "partial_resist" ∷ []

-- The array of the counts, in the order of `CATEGORIES`.
unfoldable pub to_list : Counts → List ℕ
to_list c = c.misses ∷ c.resists ∷ c.crits ∷ c.hits ∷ c.partials ∷ []

-- `for (sum, count) in sum.0.iter_mut().zip(block.0) { *sum += count }` on u32 values
unfoldable pub add_counts : Counts → Counts → Counts
add_counts c d = record {
  misses = (c.misses + d.misses) % 2 ^ 32;
  resists = (c.resists + d.resists) % 2 ^ 32;
  crits = (c.crits + d.crits) % 2 ^ 32;
  hits = (c.hits + d.hits) % 2 ^ 32;
  partials = (c.partials + d.partials) % 2 ^ 32;
}

unfoldable pub same_counts : Counts → Counts → Bool
same_counts c d =
    c.misses == d.misses
    && c.resists == d.resists
    && c.crits == d.crits
    && c.hits == d.hits
    && c.partials == d.partials

-- The loop over the blocks of a character.
unfoldable pub add_blocks : Counts → List Counts → Result Error Counts
unfolding add_counts
add_blocks counts [] = ok counts
add_blocks counts (block ∷ blocks) = do
  validate block 50
  add_blocks (add_counts counts block) blocks

unfoldable pub validate_character : RecordedCharacter → Result Error (Unit {0})
unfolding add_blocks same_counts no_counts
validate_character character = do
  validate character.counts 250
  ensure (length character.blocks == 5) block_number
  added ← add_blocks no_counts character.blocks
  ensure (same_counts added character.counts) block_counts

-- The loop over the characters of a level, with the total so far.
unfoldable pub add_characters : Counts → List RecordedCharacter → Result Error Counts
unfolding validate_character add_counts
add_characters counts [] = ok counts
add_characters counts (c ∷ cs) = do
  validate_character c
  add_characters (add_counts counts c.counts) cs

-- `characters.iter().filter(|c| c.level == level)`
unfoldable pub at_level : ℕ → List RecordedCharacter → List RecordedCharacter
at_level level [] = []
at_level level (c ∷ cs) = if c.level == level then c ∷ at_level level cs else at_level level cs

-- The counts of one target level, when they are accepted.
unfoldable pub level_total : CheckRecording → ℕ → Result Error Counts
unfolding at_level add_characters no_counts
level_total recording level = do
  let characters = at_level level recording.characters
  ensure (length characters == 8) level_characters
  add_characters no_counts characters

unfoldable pub valid_level : ℕ → Bool
valid_level level = leb 1 level && leb level 255

unfoldable pub all_valid : List Probability → Bool
all_valid [] = true
all_valid (p ∷ ps) =
    ltb 0 p.denominator
    && leb p.denominator (2 ^ 53)
    && leb p.numerator p.denominator
    && all_valid ps

-- An error of `binomial_p_ratio_upper` as one of this file.
unfoldable pub rolled {ℓ} : {E : Type 0} {A : Type ℓ} → Result E A → Result Error A
rolled (ok a) = ok a
rolled (err e) = err binomial

module _ (floats : Floats) where
  unfoldable pub add_ratios : floats.Float → List Probability → floats.Float
  add_ratios sum [] = sum
  add_ratios sum (p ∷ ps) =
      add_ratios
        (floats.plus sum (floats.over (floats.nearest p.numerator) (floats.nearest p.denominator)))
        ps

  -- The tests on the probabilities of one level. The partial resists are not in the sum.
  unfoldable pub valid_probabilities : List Probability → Result Error (Unit {0})
  unfolding all_valid add_ratios epsilon
  valid_probabilities ps = do
    ensure (all_valid ps) probability
    let sum = add_ratios (floats.nearest 0) (take 4 ps)
    ensure
        (floats.at_most (floats.magnitude (floats.minus sum (floats.nearest 1)))
          (floats.times (floats.nearest 4) (epsilon floats)))
        probability_sum

  unfoldable pub validate_specification : Specification → Result Error (Unit {0})
  unfolding valid_level valid_probabilities
  validate_specification spec = do
    ensure
        (spec.samples_per_level == 50000
          && spec.reference_samples_per_level == 2000
          && spec.reference_characters == 16)
        allocation
    ensure
        (leb 1 spec.spell_id
          && leb spec.spell_id 65535
          && leb spec.intellect 10000
          && ltb 0 spec.target_entry
          && ltb 0 spec.target_faction
          && valid_level spec.target_levels.0
          && valid_level spec.target_levels.1
          && ltb spec.target_levels.0 spec.target_levels.1)
        context
    valid_probabilities spec.expected.0
    valid_probabilities spec.expected.1

  -- The loop over the categories.
  unfoldable pub differences :
      ℕ → String → ℕ → List String → List Probability → List ℕ → Result Error (List Difference)
  unfolding threshold rolled binomial_p_ratio_upper
  differences level seed_slot samples (name ∷ names) (expected ∷ es) (actual ∷ counts) = do
    p ←
        rolled
          (binomial_p_ratio_upper floats samples actual expected.numerator expected.denominator)
    more ← differences level seed_slot samples names es counts
    let found : Difference = record {
      level = level;
      seed_slot = seed_slot;
      category = name;
      expected = expected.numerator * samples / expected.denominator;
      actual = actual;
    }
    ok (if floats.at_most p (threshold floats) then found ∷ more else more)
  differences level seed_slot samples _ _ _ = ok []

  -- What `compare` reads at `level_index`, which is 0 or 1.
  unfoldable pub level_at : Specification → ℕ → ℕ × List Probability
  level_at spec zero = (spec.target_levels.0, spec.expected.0)
  level_at spec (suc _) = (spec.target_levels.1, spec.expected.1)

  unfoldable pub compare : Specification → Counts → ℕ → String → ℕ → Result Error (List Difference)
  unfolding validate_specification differences level_at to_list
  compare spec counts level_index seed_slot samples = do
    validate_specification spec
    ensure (ltb level_index 2) target_level
    validate counts samples
    let (level, expected) = level_at spec level_index
    differences level seed_slot samples categories expected (to_list counts)

  -- One round of the loop over the target levels.
  unfoldable pub check_level : CheckRecording → Specification → ℕ → ℕ → Result Error (Unit {0})
  unfolding level_total compare is_match
  check_level recording spec level_index level = do
    counts ← level_total recording level
    found ← compare spec counts level_index "reference_check" 2000
    ensure (is_match floats found) disagrees

  unfoldable pub check : CheckRecording → Specification → Result Error (Unit {0})
  unfolding validate_specification check_level
  check recording spec = do
    validate_specification spec
    ensure
        (recording.classifier_version == 1
          && ltb 0 recording.setup_ms
          && ltb 0 recording.elapsed_ms
          && ltb recording.elapsed_ms (30 * 60 * 1000)
          && length recording.characters == 16)
        provenance
    check_level recording spec 0 spec.target_levels.0
    check_level recording spec 1 spec.target_levels.1
