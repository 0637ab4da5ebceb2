-- ===== src/Metrics/Scraped.antt =====
-- The samples that `parse` of src/metrics.rs gives are those of the lines of the scrape.
use wire_harness.Prelude.{
  ℕ, ◌+◌, ◌≡◌, ◌≢◌, refl, sym, ap, ◌∙◌, true, false, List, [], ◌∷◌, Option, none, some, length,
  ◌>>=◌, Result, ok, err, All, Gives, Gives-bind, Gives-mono, Bool-cases, Option-cases, inl, inr,
  arith,
}
use mathlib.Core.Path.{subst}
use wire_harness.Metrics.Labels.{Text, Error, duplicate_sample, ok_or, insert_new}
use wire_harness.Metrics.Order.{Sorted, Holds, insert-Holds}
use wire_harness.Metrics.Parsed.{Gives-ok_or}
use wire_harness.Metrics.Samples.{
  is_skipped, trim_start, trim_end, lines, parse_sample, parse_line, parse_lines, parse,
}
use wire_harness.Metrics.Lines.{LinesOf, lines-LinesOf, Trimmed, trim-Trimmed}
use wire_harness.Metrics.Window.{Samples, find_sample}
use wire_harness.Metrics.Inserted.{Inserted, insert-Inserted}

-- A line without its white space that has no sample: it is blank, or begins with `#`.
unfoldable pub Ignored : Text → Type 0
Ignored [] = Unit
Ignored (c ∷ s) = c ≡ 35

-- No two samples have the same key.
unfoldable pub DistinctKeys : Samples → Type 0
DistinctKeys [] = Unit
DistinctKeys ((k, v) ∷ m) = All (λ (j, w). k ≢ j) m × DistinctKeys m

-- Each of these samples is in the map, with its value.
unfoldable pub AllFound : Samples → Samples → Type 0
unfolding find_sample
AllFound m xs = All (λ (k, v). find_sample k m ≡ some v) xs

AllFresh : Samples → Samples → Type 0
AllFresh m xs = All (λ (k, v). find_sample k m ≡ none) xs

AllFresh-before :
    (k : Text) (v : ℕ) (m n xs : Samples) → Inserted k v m n → AllFresh n xs → AllFresh m xs
unfolding AllFresh
AllFresh-before k v m n [] r h = tt
AllFresh-before k v m n ((j, w) ∷ xs) r (h, hs) = (
  elim (Option-cases (find_sample j m)) [
    | inl e ↦ e
    | inr (u, e) ↦ absurd (ground (arith, sym (r.keeps j u e) ∙ h))
  ],
  AllFresh-before k v m n xs r hs,
)

AllFresh-other :
    (k : Text) (v : ℕ) (n xs : Samples)
    → find_sample k n ≡ some v
    → AllFresh n xs
    → All (λ (j, w). k ≢ j) xs
unfolding AllFresh
AllFresh-other k v n [] f h = tt
AllFresh-other k v n ((j, w) ∷ xs) f (h, hs) = (
  λ e. absurd (ground (arith, sym f ∙ ap (λ x. find_sample x n) e ∙ h)),
  AllFresh-other k v n xs f hs,
)

skipped-Ignored : (l : Text) → is_skipped l ≡ true → Ignored l
unfolding is_skipped Ignored
skipped-Ignored [] h = tt
skipped-Ignored (c ∷ s) h = ground (arith, h)

kept-sample : (l : Text) → is_skipped l ≡ false → ¬ Ignored l
unfolding is_skipped Ignored
kept-sample [] h = absurd (ground (arith, h))
kept-sample (c ∷ s) h = λ e. absurd (ground (arith, h, e))

module _ (parse_f64 : Text → Option ℕ) where
  -- The samples of the lines, in their order: what is left of a line without its white space is passed
  -- over or gives a sample.
  pub data ReadLines : List Text → Samples → Type 0 where
    no_lines : ReadLines [] []
    passed_over :
        {l core : Text} {ls : List Text} {xs : Samples}
        → Trimmed l core
        → Ignored core
        → ReadLines ls xs
        → ReadLines (l ∷ ls) xs
    sampled :
        {l core : Text} {ls : List Text} {xs : Samples} {k : Text} {v : ℕ}
        → Trimmed l core
        → ¬ Ignored core
        → parse_sample parse_f64 core ≡ ok (k, v)
        → ReadLines ls xs
        → ReadLines (l ∷ ls) ((k, v) ∷ xs)

  -- What the lines add to the samples so far.
  record Adds (before : Samples) (ls : List Text) (after : Samples) : Type 0 where
    xs : Samples
    lines_read : ReadLines ls xs
    fresh : AllFresh before xs
    found : AllFound after xs
    distinct : DistinctKeys xs
    keeps : (j : Text) (w : ℕ) → find_sample j before ≡ some w → find_sample j after ≡ some w
    longer : length after ≡ length before + length xs

  Adds-none : (m : Samples) → Adds m [] m
  unfolding AllFresh AllFound DistinctKeys
  Adds-none m = record {
    xs = [];
    lines_read = no_lines;
    fresh = tt;
    found = tt;
    distinct = tt;
    keeps = λ j w f. f;
    longer = omega arith;
  }

  Adds-passed :
      (l : Text) (ls : List Text) (m after : Samples)
      → Ignored (trim_start (trim_end l))
      → Adds m ls after
      → Adds m (l ∷ ls) after
  Adds-passed l ls m after i a = record {
    xs = a.xs;
    lines_read = passed_over (trim-Trimmed l) i a.lines_read;
    fresh = a.fresh;
    found = a.found;
    distinct = a.distinct;
    keeps = a.keeps;
    longer = a.longer;
  }

  Adds-sampled :
      (l : Text) (ls : List Text) (k : Text) (v : ℕ) (m n after : Samples)
      → ¬ Ignored (trim_start (trim_end l))
      → parse_sample parse_f64 (trim_start (trim_end l)) ≡ ok (k, v)
      → Inserted k v m n
      → Adds n ls after
      → Adds m (l ∷ ls) after
  Adds-sampled l ls k v m n after i p r a = record {
    xs = (k, v) ∷ a.xs;
    lines_read = sampled (trim-Trimmed l) i p a.lines_read;
    fresh = unfold AllFresh in (r.fresh, unfold AllFresh in AllFresh-before k v m n a.xs r a.fresh);
    found = unfold AllFound in (a.keeps k v r.found, unfold AllFound in a.found);
    distinct = unfold DistinctKeys in (AllFresh-other k v n a.xs r.found a.fresh, a.distinct);
    keeps = λ j w f. a.keeps j w (r.keeps j w f);
    longer = omega (arith, a.longer, r.longer);
  }

  Gives-sample : (r : Result Error (Text × ℕ)) → Gives (λ x. r ≡ ok x) r
  unfolding Gives
  Gives-sample (ok x) = refl
  Gives-sample (err e) = tt

  -- What one line with a sample does to the samples so far.
  Step : Text → Samples → Samples → Type 0
  Step line m n =
      (k : Text) × ((v : ℕ) × ((parse_sample parse_f64 line ≡ ok (k, v))
          × (Sorted n × Inserted k v m n)))

  Holds-Step :
      (line k : Text) (v : ℕ) (m : Samples) (o : Option Samples)
      → parse_sample parse_f64 line ≡ ok (k, v)
      → Holds Sorted o
      → Holds (Inserted k v m) o
      → Holds (Step line m) o
  unfolding Holds Step
  Holds-Step line k v m none e s r = tt
  Holds-Step line k v m (some n) e s r = (k, (v, (e, (s, r))))

  sample-Step :
      (line : Text) (m : Samples)
      → Sorted m
      → Gives
          (Step line m)
          (parse_sample parse_f64 line >>= λ (k, v). ok_or (insert_new k v m) duplicate_sample)
  sample-Step line m s =
      Gives-bind (λ x. parse_sample parse_f64 line ≡ ok x) (Step line m)
        (parse_sample parse_f64 line) _ (Gives-sample _)
        λ (k, v) e. Gives-ok_or (Step line m) (insert_new k v m) duplicate_sample (
          Holds-Step line k v m (insert_new k v m) e (insert-Holds k v m s)
            (insert-Inserted k v m s))

  parse_lines-Adds :
      (ls : List Text) (m : Samples) → Sorted m → Gives (Adds m ls) (parse_lines parse_f64 ls m)
  unfolding parse_lines parse_line Step
  parse_lines-Adds [] m s = unfold Gives in Adds-none m
  parse_lines-Adds (l ∷ ls) m s = elim (Bool-cases (is_skipped (trim_start (trim_end l)))) [
    | inl i ↦ rw i (
        Gives-mono (Adds m ls) (Adds m (l ∷ ls)) (parse_lines parse_f64 ls m)
          (λ after a. Adds-passed l ls m after (skipped-Ignored _ i) a) (parse_lines-Adds ls m s))
    | inr i ↦ rw i (
        Gives-bind (Step (trim_start (trim_end l)) m) (Adds m (l ∷ ls)) _ _
          (sample-Step (trim_start (trim_end l)) m s)
          λ n step.
            let (k, (v, (e, (t, r)))) = step in
            Gives-mono (Adds n ls) (Adds m (l ∷ ls)) (parse_lines parse_f64 ls n)
              (λ after a. Adds-sampled l ls k v m n after (kept-sample _ i) e r a)
              (parse_lines-Adds ls n t))
  ]

  -- The samples of a scrape are those of the text's lines: no two lines have the same key, each line's sample
  -- is there with the line's value, and there are as many samples as lines with one.
  pub record Scraped (text : Text) (samples : Samples) : Type 0 where
    pub text_lines : List Text
    pub split : LinesOf text text_lines
    pub read_samples : Samples
    pub lines_read : ReadLines text_lines read_samples
    pub distinct : DistinctKeys read_samples
    pub found : AllFound samples read_samples
    pub as_many : length samples ≡ length read_samples

  -- When a scrape is accepted, every line of it, without its white space, is blank, or begins with
  -- `#`, or is a sample; no two of these samples have the same key, each is found under its key with
  -- its own value, and there are no others: a key that stands twice is neither overwritten nor
  -- passed over.
  pub parse-Scraped :
      (text : Text) (samples : Samples) → parse parse_f64 text ≡ ok samples → Scraped text samples
  unfolding parse Gives Sorted
  parse-Scraped text samples h =
      let a : Adds [] (lines text) samples =
        subst (Gives (Adds [] (lines text))) h (parse_lines-Adds (lines text) [] tt) in
      record {
        text_lines = lines text;
        split = lines-LinesOf text;
        read_samples = a.xs;
        lines_read = a.lines_read;
        distinct = a.distinct;
        found = a.found;
        as_many = omega (arith, a.longer);
      }
