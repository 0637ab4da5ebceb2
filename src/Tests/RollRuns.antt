-- ===== src/Tests/RollRuns.antt =====
-- Runs of src/rolls.rs: a dodged swing, and a recording with the same samples for every character.
-- The f64 arithmetic of the recording's test is the one that rejects nothing.
use wire_harness.Prelude.{
  ℕ, ◌≡◌, ◌||◌, refl, false, true, List, [], ◌∷◌, ok, leb, ◌==◌, has, replicate, String, ◌++◌,
}
use wire_harness.Decode.Field.{Fields, Packet, unsigned, guid, end, entry, lookup}
use wire_harness.Reading.{is_guid, number, numbers_are}
use wire_harness.Rolls
use wire_harness.Rolls.{Counts, Specification, category_of, observe}
use wire_harness.Rolls.Binomial
use wire_harness.Rolls.Binomial.{Floats}
use wire_harness.Rolls.Recording
use wire_harness.Rolls.Recording.{RecordedCharacter, CheckRecording, at_level, validate}
use wire_harness.Rolls.Swings.{Effect, category_of-exact, observe-Effect}
use wire_harness.Rolls.Blocks.{ExactLevel, validate-Exact}

dodge_category : category_of 0 2 ≡ ok 1
unfolding category_of Rolls.outcomes Rolls.count_true Rolls.position
dodge_category = refl

category_of-exact_example :
    ((1 == 0) ≡ (2 == 0))
    × ((1 == 0) ≡ has 0 0x10)
    × ((1 == 1) ≡ (2 == 2))
    × ((1 == 2) ≡ (2 == 3))
    × ((1 == 3) ≡ (has 0 0x800 || 2 == 5))
    × ((1 == 4) ≡ has 0 0x4000)
    × ((1 == 5) ≡ has 0 0x80)
    × (leb 1 6 ≡ true)
category_of-exact_example = category_of-exact 0 2 1 dodge_category

abbrev zeros : List String → Fields
zeros [] = end
zeros (name ∷ more) = entry name (unsigned 0) (zeros more)

abbrev dodged : Packet
dodged = record {
  opcode = 0x014a;
  fields = entry "attacker" (guid 7) (
      entry "victim" (guid 9) (
        entry "victim_state" (unsigned 2) (
          zeros (
            "school" ∷ "spell" ∷ "absorbed" ∷ "resisted" ∷ "hit_info" ∷ "damage" ∷ "subdamage"
            ∷ "blocked" ∷ []))));
}

dodge_counted : observe Rolls.no_counts dodged 7 9 ≡ (ok true, 0 ∷ 1 ∷ 0 ∷ 0 ∷ 0 ∷ 0 ∷ 0 ∷ [])
unfolding observe Rolls.record_swing Rolls.classify Rolls.eligible_swing category_of
    Rolls.damage_agrees Rolls.outcomes Rolls.count_true Rolls.position Rolls.increment Rolls.settle
    Rolls.no_counts is_guid number numbers_are lookup
dodge_counted = refl

observe-Effect_example : Effect Rolls.no_counts (observe Rolls.no_counts dodged 7 9)
observe-Effect_example = observe-Effect Rolls.no_counts dodged 7 9

abbrev lenient : Floats
lenient = record {
  Float = Unit {0};
  nearest = λ n. tt;
  plus = λ a b. tt;
  minus = λ a b. tt;
  times = λ a b. tt;
  over = λ a b. tt;
  least = λ a b. tt;
  magnitude = λ a. tt;
  at_most = λ a b. false;
  floor_u32 = λ a. 0;
}

abbrev all_hits : List ℕ
all_hits = 0 ∷ 0 ∷ 0 ∷ 0 ∷ 0 ∷ 0 ∷ 10000 ∷ []

abbrev specification : Specification
specification = record {
  samples_per_level = 50000;
  reference_samples_per_level = 2000;
  reference_characters = 16;
  agility = 20;
  weapon_skill = 300;
  defense_skill = 300;
  target_faction = 14;
  target_entry = 1;
  target_levels = (58, 60);
  expected_basis_points = (all_hits, all_hits);
}

abbrev block : Counts
block = 0 ∷ 0 ∷ 0 ∷ 0 ∷ 0 ∷ 0 ∷ 50 ∷ []

abbrev character_at : ℕ → RecordedCharacter
character_at level = record {
  level = level;
  counts = 0 ∷ 0 ∷ 0 ∷ 0 ∷ 0 ∷ 0 ∷ 250 ∷ [];
  blocks = replicate 5 block;
}

abbrev recording : CheckRecording
recording = record {
  classifier_version = 1;
  elapsed_ms = 60000;
  characters = replicate 8 (character_at 58) ++ replicate 8 (character_at 60);
}

recording_valid : validate lenient recording specification ≡ ok tt
unfolding validate Recording.validate_level Recording.compare_level Recording.at_level
    Recording.sum_totals Recording.validate_characters Recording.validate_character
    Recording.add_blocks Recording.add_counts Recording.same_counts Recording.level_counts
    Recording.compare Recording.differences Recording.is_match Recording.level_of
    Recording.expected_of Rolls.validate_specification Rolls.valid_probabilities Rolls.valid_level
    Rolls.all_at_most Rolls.sum Rolls.total Rolls.no_counts Binomial.binomial_p_upper
    Binomial.binomial_p_ratio_upper
recording_valid = refl

validate-Exact_example :
    ExactLevel (at_level 58 recording.characters) × ExactLevel (at_level 60 recording.characters)
validate-Exact_example = validate-Exact lenient recording specification recording_valid
