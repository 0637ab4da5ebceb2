-- ===== src/Tests/RecordingRuns.antt =====
-- A spell recording with the same samples for every character, and the f64 arithmetic that rejects
-- no count and accepts every sum.
use wire_harness.Prelude.{ℕ, ◌≡◌, refl, List, ◌++◌, ok, replicate, ◌==◌}
use wire_harness.Rolls.Binomial
use wire_harness.Rolls.Binomial.{Floats}
use wire_harness.Rolls.Recording.{is_match, threshold}
use wire_harness.SpellRolls.Outcomes
use wire_harness.SpellRolls.Outcomes.{Counts}
use wire_harness.SpellRolls.Recording
use wire_harness.SpellRolls.Recording.{
  Probability, Specification, RecordedCharacter, CheckRecording, at_level, level_total, check,
}
use wire_harness.SpellRolls.Totals.{plus_characters, check-total}

-- Numbers that are 0 or 1: only a threshold, a quotient of quotients, is 0.
abbrev lenient : Floats
lenient = record {
  Float = ℕ;
  nearest = λ n. n;
  plus = λ a b. 1;
  minus = λ a b. 0;
  times = λ a b. 0;
  over = λ a b. 0;
  least = λ a b. 1;
  magnitude = λ a. a;
  at_most = λ a b. a == b;
  floor_u32 = λ a. 0;
}

abbrev even : Probability
even = record { numerator = 1; denominator = 4 }

abbrev rates : List Probability
rates = replicate 5 even

abbrev specification : Specification
specification = record {
  samples_per_level = 50000;
  reference_samples_per_level = 2000;
  reference_characters = 16;
  spell_id = 133;
  intellect = 300;
  target_entry = 1;
  target_faction = 14;
  target_levels = (58, 60);
  expected = (rates, rates);
}

abbrev block : Counts
block = record { misses = 5; resists = 5; crits = 10; hits = 30; partials = 12 }

abbrev character_at : ℕ → RecordedCharacter
character_at level = record {
  level = level;
  counts = record { misses = 25; resists = 25; crits = 50; hits = 150; partials = 60 };
  blocks = replicate 5 block;
}

abbrev recording : CheckRecording
recording = record {
  classifier_version = 1;
  setup_ms = 10;
  elapsed_ms = 60000;
  characters = replicate 8 (character_at 58) ++ replicate 8 (character_at 60);
}

recording_checked : check lenient recording specification ≡ ok tt
unfolding check Recording.check_level level_total Recording.compare Recording.differences
    Recording.level_at Recording.validate_specification Recording.valid_probabilities
    Recording.all_valid Recording.add_ratios Recording.valid_level Recording.rolled
    Recording.to_list at_level Recording.add_characters Recording.validate_character
    Recording.add_blocks Recording.same_counts Recording.add_counts Outcomes.no_counts
    Outcomes.total Outcomes.validate Binomial.binomial_p_ratio_upper Binomial.interior
    Binomial.epsilon threshold is_match
recording_checked = refl

check-total_example :
    (level_total recording 58
      ≡ ok (plus_characters Outcomes.no_counts (at_level 58 recording.characters)))
    × (level_total recording 60
        ≡ ok (plus_characters Outcomes.no_counts (at_level 60 recording.characters)))
check-total_example = check-total lenient recording specification recording_checked
