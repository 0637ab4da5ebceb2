-- ===== src/Metrics/Window.antt =====
-- `Snapshot::counter_delta` of src/metrics.rs: a counter's change between two scrapes.
use wire_harness.Prelude.{
  ℕ, Bool, true, false, ◌&&◌, ◌||◌, not, List, [], ◌∷◌, Option, none, some, Result, ok, ensure,
  ◌>>=◌, ◌>>◌, if◌then◌else◌,
}
use wire_harness.Trace.Recorded.{is_finite64}
use wire_harness.Metrics.Labels.{Text, Labels, same_text, split_key, label_value}

-- The operations on f64, as bit patterns. The pattern of 0.0 is 0.
pub record Floats : Type 0 where
  pub plus : ℕ → ℕ → ℕ
  pub minus : ℕ → ℕ → ℕ
  pub less : ℕ → ℕ → Bool

pub data Error : Type 0 where
  missing disappeared reset not_finite : Error

-- The samples of a `Snapshot`, in the order of their keys.
abbrev pub Samples : Type 0
Samples = List (Text × ℕ)

unfoldable pub is_value : Option Text → Text → Bool
unfolding same_text
is_value none wanted = false
is_value (some v) wanted = same_text v wanted

unfoldable pub has_labels : Labels → Text → Bool
unfolding is_value label_value
has_labels [] encoded = true
has_labels ((k, v) ∷ wanted) encoded =
    is_value (label_value encoded k) v && has_labels wanted encoded

-- The closure `selected`, on a key.
unfoldable pub selects : Text → Labels → Text → Bool
unfolding same_text split_key has_labels
selects name wanted key = same_text (split_key key).0 name && has_labels wanted (split_key key).1

unfoldable pub select : (Text → Bool) → Samples → Samples
select test [] = []
select test ((k, v) ∷ m) = let rest = select test m in if test k then (k, v) ∷ rest else rest

unfoldable pub find_sample : Text → Samples → Option ℕ
unfolding same_text
find_sample k [] = none
find_sample k ((j, v) ∷ m) = let rest = find_sample k m in if same_text k j then some v else rest

unfoldable pub is_found : Option ℕ → Bool
is_found none = false
is_found (some v) = true

unfoldable pub some_samples : Samples → Bool
some_samples [] = false
some_samples (x ∷ m) = true

-- The first loop: every key is there later.
unfoldable pub all_kept : Samples → Samples → Bool
unfolding find_sample is_found
all_kept [] after = true
all_kept ((k, v) ∷ m) after = is_found (find_sample k after) && all_kept m after

-- `unwrap_or(0.0)`
unfoldable pub initial_of : Option ℕ → ℕ
initial_of none = 0
initial_of (some v) = v

module _ (floats : Floats) where
  -- The test that makes a measurement invalid.
  unfoldable pub is_invalid : ℕ → ℕ → Bool
  unfolding is_finite64
  is_invalid initial number =
      not (is_finite64 initial)
      || not (is_finite64 number)
      || floats.less initial 0
      || floats.less number initial

  -- The second loop, on the total so far.
  unfoldable pub add_up : Samples → ℕ → Samples → Result Error ℕ
  unfolding find_sample initial_of is_invalid
  add_up before total [] = ok total
  add_up before total ((k, v) ∷ m) = do
    ensure (not (is_invalid (initial_of (find_sample k before)) v)) reset
    add_up before (floats.plus total (floats.minus v (initial_of (find_sample k before)))) m

  unfoldable pub counter_delta : Samples → Samples → Text → Labels → Result Error ℕ
  unfolding selects select some_samples all_kept add_up is_finite64
  counter_delta earlier later name labels =
      let before = select (selects name labels) earlier in
      let after = select (selects name labels) later in
      do
        ensure (some_samples before && some_samples after) missing
        ensure (all_kept before after) disappeared
        total ← add_up before 0 after
        ensure (is_finite64 total) not_finite
        ok total
