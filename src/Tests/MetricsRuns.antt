-- ===== src/Tests/MetricsRuns.antt =====
-- A scrape of src/metrics.rs: a sample with two labels, out of order and with escapes.
use wire_harness.Prelude.{
  ltb, ◌-◌, ◌+◌, ℕ, ◌≡◌, refl, [], ◌∷◌, ◌++◌, List, Option, some, none, ok, err, String,
  if◌then◌else◌,
}
use Prim.Native.Char.{code}
use wire_harness.Metrics.Labels.{
  Text, Labels, parse_labels, out_of_rounds, in_braces, write_labels, split_key, label_value,
  same_text,
}
use wire_harness.Metrics.Samples.{key_end, parse_sample, parse}
use wire_harness.Metrics.Parsed.{parse_labels-write}
use wire_harness.Metrics.Keys.{parse_sample-key}
use wire_harness.Metrics.Scraped.{Scraped, parse-Scraped}
use wire_harness.Metrics.Window.{Floats, Samples, counter_delta, selects, find_sample}
use wire_harness.Metrics.Kept.{Kept, counter_delta-Kept}
use wire_harness.Metrics.Loop.{parse_labels-ends}

abbrev codes : String → Text
codes String.[] = []
codes (String.◌∷◌ c s) = code c ∷ codes s

abbrev labels : Labels
labels = (codes "db", codes "a\"b") ∷ (codes "le", codes "\\") ∷ []

parse_labels-write_example : parse_labels (in_braces (write_labels labels)) ≡ ok labels
unfolding parse_labels
parse_labels-write_example = parse_labels-write (codes "{le=\"\\\\\",db=\"a\\\"b\",}") labels refl

abbrev source : Text
source = codes "rows_total{le=\"\\\\\",db=\"a b\"}"

abbrev key : Text
key = codes "rows_total{db=\"a b\",le=\"\\\\\"}"

-- The pattern of 0.0, for its shortest text
unfoldable zero_only : Text → Option ℕ
unfolding same_text
zero_only s = if same_text s (codes "0") then some 0 else none

parse_sample-key_example :
    ((split_key key).0 ≡ (split_key source).0)
    × (parse_labels (split_key key).1 ≡ parse_labels (split_key source).1)
unfolding key_end parse_sample zero_only
parse_sample-key_example =
    parse_sample-key zero_only (source ++ codes " 0 -1") source (codes " 0 -1") key 0 refl refl

abbrev samples : List (Text × ℕ)
samples = (codes "a", 0) ∷ (codes "b", 0) ∷ []

parse-Scraped_example : Scraped zero_only (codes "# x\nb 0\n\n a 0 7\r\n") samples
unfolding parse zero_only
parse-Scraped_example = parse-Scraped zero_only (codes "# x\nb 0\n\n a 0 7\r\n") samples refl

parse_labels-ends_example : ¬ (parse_labels (codes "{a=\"b\",c=\"\",}") ≡ err out_of_rounds)
parse_labels-ends_example = parse_labels-ends (codes "{a=\"b\",c=\"\",}")

selected : label_value (split_key key).1 (codes "db") ≡ some (codes "a b")
unfolding label_value split_key
selected = refl

-- Patterns below 2 ^ 52 are denormal numbers, which are added and compared as the patterns are.
abbrev floats : Floats
floats = record { plus = λ x y. x + y; minus = λ x y. x - y; less = ltb }

abbrev first_scrape : Samples
first_scrape = (key, 3) ∷ []

abbrev last_scrape : Samples
last_scrape = (key, 8) ∷ []

counter_delta-Kept_example : Kept floats last_scrape key 3
unfolding counter_delta selects find_sample
counter_delta-Kept_example =
    counter_delta-Kept floats first_scrape last_scrape (codes "rows_total")
      ((codes "db", codes "a b") ∷ []) 5 key 3 refl refl refl
