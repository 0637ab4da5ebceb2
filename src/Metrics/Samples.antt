-- ===== src/Metrics/Samples.antt =====
-- `parse` and `parse_sample` of src/metrics.rs: the samples of a scrape.
use wire_harness.Prelude.{
  ℕ, ◌+◌, ◌*◌, ◌-◌, ◌^◌, Bool, true, false, ◌&&◌, ◌||◌, not, leb, ◌==◌, is_space, List, [], ◌∷◌,
  Option, none, some, Result, ok, err, ensure, ◌>>=◌, ◌>>◌, if◌then◌else◌,
}
use wire_harness.Metrics.Labels.{
  Text, Error, no_value, metric_name, sample_value, timestamp, suffix, duplicate_sample, ok_or,
  push_front, is_start, split_key, parse_labels, canonical_key, insert_new,
}

-- The key of a line, and what follows it: up to the first space outside quotes.
unfoldable pub key_end : Bool → Bool → Text → Option (Text × Text)
unfolding push_front
key_end inside escaped [] = none
key_end inside true (c ∷ s) = push_front c (key_end inside false s)
key_end inside false (c ∷ s) =
    let behind = key_end inside true s in
    let turned = key_end (not inside) false s in
    let rest = key_end inside false s in
    if inside && c == 92
    then push_front c behind
    else if c == 34
    then push_front c turned
    else if not inside && is_space c
    then some ([], c ∷ s)
    else push_front c rest

unfoldable pub is_metric_start : ℕ → Bool
unfolding is_start
is_metric_start c = is_start c || c == 58

unfoldable pub is_metric_inner : Text → Bool
unfolding is_metric_start
is_metric_inner [] = true
is_metric_inner (c ∷ s) = (is_metric_start c || (leb 48 c && leb c 57)) && is_metric_inner s

unfoldable pub is_metric_name : Text → Bool
unfolding is_metric_start is_metric_inner
is_metric_name [] = false
is_metric_name (c ∷ s) = is_metric_start c && is_metric_inner s

-- A character before the words of what follows it.
unfoldable pub push_word : ℕ → List Text → List Text
push_word c [] = (c ∷ []) ∷ []
push_word c (w ∷ ws) = (c ∷ w) ∷ ws

-- `split_whitespace`
unfoldable pub words : Text → List Text
unfolding push_word
words [] = []
words (c ∷ []) = if is_space c then [] else (c ∷ []) ∷ []
words (c ∷ d ∷ s) =
    let rest = words (d ∷ s) in
    if is_space c then rest else if is_space d then (c ∷ []) ∷ rest else push_word c rest

unfoldable pub digits_from : ℕ → Text → Option ℕ
digits_from n [] = some n
digits_from n (c ∷ s) =
    let rest = digits_from (n * 10 + (c - 48)) s in if leb 48 c && leb c 57 then rest else none

unfoldable pub is_at_most : ℕ → Option ℕ → Bool
is_at_most limit none = false
is_at_most limit (some n) = leb n limit

unfoldable pub has_digits : ℕ → Text → Bool
unfolding digits_from is_at_most
has_digits limit [] = false
has_digits limit (c ∷ s) = is_at_most limit (digits_from 0 (c ∷ s))

-- Whether `parse::<i64>()` succeeds.
unfoldable pub is_i64 : Text → Bool
unfolding has_digits
is_i64 [] = false
is_i64 (c ∷ s) =
    if c == 45
    then has_digits (2 ^ 63) s
    else if c == 43
    then has_digits (2 ^ 63 - 1) s
    else has_digits (2 ^ 63 - 1) (c ∷ s)

unfoldable pub check_suffix : List Text → Result Error (Unit {0})
check_suffix [] = ok tt
check_suffix (w ∷ ws) = err suffix

unfoldable pub check_timestamp : List Text → Result Error (Unit {0})
unfolding is_i64 check_suffix
check_timestamp [] = ok tt
check_timestamp (w ∷ ws) = do ensure (is_i64 w) timestamp; check_suffix ws

-- The lines of a text, without the ends of lines; what follows the last one counts if it is not empty.
unfoldable pub push_line : ℕ → List Text → List Text
push_line c [] = (c ∷ []) ∷ []
push_line c (l ∷ ls) = (c ∷ l) ∷ ls

unfoldable pub lines : Text → List Text
unfolding push_line
lines [] = []
lines (c ∷ s) = let rest = lines s in if c == 10 then [] ∷ rest else push_line c rest

unfoldable pub trim_start : Text → Text
trim_start [] = []
trim_start (c ∷ s) = let rest = trim_start s in if is_space c then rest else c ∷ s

unfoldable pub trim_before : ℕ → Text → Text
trim_before c [] = if is_space c then [] else c ∷ []
trim_before c (d ∷ s) = c ∷ d ∷ s

unfoldable pub trim_end : Text → Text
unfolding trim_before
trim_end [] = []
trim_end (c ∷ s) = trim_before c (trim_end s)

-- A line that is trimmed: whether it is empty or a comment.
unfoldable pub is_skipped : Text → Bool
is_skipped [] = true
is_skipped (c ∷ s) = c == 35

-- `parse::<f64>()` is given: the pattern of the number that a text spells.
module _ (parse_f64 : Text → Option ℕ) where
  unfoldable pub parse_value : List Text → Result Error ℕ
  unfolding ok_or check_timestamp
  parse_value [] = err no_value
  parse_value (w ∷ ws) = do number ← ok_or (parse_f64 w) sample_value; check_timestamp ws; ok number

  unfoldable pub parse_sample : Text → Result Error (Text × ℕ)
  unfolding ok_or key_end split_key is_metric_name parse_labels parse_value words canonical_key
  parse_sample line = do
    (key, rest) ← ok_or (key_end false false line) no_value
    ensure (is_metric_name (split_key key).0) metric_name
    labels ← parse_labels (split_key key).1
    number ← parse_value (words rest)
    ok (canonical_key (split_key key).0 labels, number)

  unfoldable pub parse_line : Text → List (Text × ℕ) → Result Error (List (Text × ℕ))
  unfolding ok_or parse_sample is_skipped insert_new
  parse_line line samples = if is_skipped line then ok samples else (do
    (key, number) ← parse_sample line
    ok_or (insert_new key number samples) duplicate_sample)

  unfoldable pub parse_lines : List Text → List (Text × ℕ) → Result Error (List (Text × ℕ))
  unfolding parse_line trim_start trim_end
  parse_lines [] samples = ok samples
  parse_lines (l ∷ ls) samples = do
    more ← parse_line (trim_start (trim_end l)) samples
    parse_lines ls more

  -- `parse`: the samples in the order of their keys.
  unfoldable pub parse : Text → Result Error (List (Text × ℕ))
  unfolding parse_lines lines
  parse text = parse_lines (lines text) []
