-- ===== src/Metrics/Keys.antt =====
-- The keys of the samples that `parse` of src/metrics.rs gives.
use wire_harness.Prelude.{
  ℕ, ◌≡◌, refl, sym, ap, ◌∙◌, true, false, ◌==◌, [], ◌∷◌, ◌++◌, Option, some, Result, ok, err,
  Gives, Gives-bind, Gives-then, Gives-any, arith,
}
use mathlib.Core.Path.{subst}
use wire_harness.Metrics.Labels.{
  Text, Labels, Error, metric_name, ok_or, is_start, split_key, parse_labels, in_braces,
  write_labels, canonical_key,
}
use wire_harness.Metrics.Parsed.{parse_labels-write}
use wire_harness.Metrics.Samples.{
  key_end, is_metric_start, is_metric_inner, is_metric_name, words, parse_value, parse_sample,
}

split_braces : (s : Text) → split_key (in_braces s) ≡ ([], in_braces s)
unfolding split_key in_braces
split_braces [] = refl
split_braces (c ∷ s) = refl

split-inner :
    (name s : Text)
    → is_metric_inner name ≡ true
    → split_key (name ++ in_braces s) ≡ (name, in_braces s)
unfolding split_key is_metric_inner is_metric_start is_start
split-inner [] s h = split_braces s
split-inner (c ∷ name) s h =
    let other : (c == 123) ≡ false = ground (arith, h) in
    rw (other, split-inner name s (ground (arith, h))) refl

metric-inner : (name : Text) → is_metric_name name ≡ true → is_metric_inner name ≡ true
unfolding is_metric_name is_metric_inner
metric-inner [] h = refl
metric-inner (c ∷ name) h = ground (arith, h)

-- A canonical key is split where its name ends.
split-canonical_key :
    (name : Text) (m : Labels)
    → is_metric_name name ≡ true
    → split_key (canonical_key name m) ≡ (name, in_braces (write_labels m))
unfolding canonical_key
split-canonical_key name m h = split-inner name (write_labels m) (metric-inner name h)

Gives-self : {A : Type 0} (r : Result Error A) → Gives (λ x. r ≡ ok x) r
unfolding Gives
Gives-self (ok x) = refl
Gives-self (err e) = tt

module _ (parse_f64 : Text → Option ℕ) where
  -- The name of a sample's key is that of the line, and its labels read as those of the line do.
  KeyOf : Text → Text × ℕ → Type 0
  KeyOf source (key, number) =
      ((split_key key).0 ≡ (split_key source).0)
      × (parse_labels (split_key key).1 ≡ parse_labels (split_key source).1)

  key-canonical :
      (source : Text) (m : Labels) (number : ℕ)
      → is_metric_name (split_key source).0 ≡ true
      → parse_labels (split_key source).1 ≡ ok m
      → KeyOf source (canonical_key (split_key source).0 m, number)
  unfolding KeyOf
  key-canonical source m number h p =
      let e = split-canonical_key (split_key source).0 m h in
      (
        ap (λ x. x.0) e,
        ap (λ x. parse_labels x.1) e ∙ parse_labels-write (split_key source).1 m p ∙ sym p,
      )

  parse_sample-Gives :
      (line source rest : Text)
      → key_end false false line ≡ some (source, rest)
      → Gives (KeyOf source) (parse_sample parse_f64 line)
  unfolding parse_sample ok_or Gives
  parse_sample-Gives line source rest h = rw h (
      Gives-then (KeyOf source) (is_metric_name (split_key source).0) metric_name _ λ named.
        Gives-bind (λ m. parse_labels (split_key source).1 ≡ ok m) (KeyOf source)
          (parse_labels (split_key source).1) _ (Gives-self _)
          λ m p.
            Gives-bind (λ x. Unit) (KeyOf source) (parse_value parse_f64 (words rest)) _
              (Gives-any _) λ number u. key-canonical source m number named p)

  -- The key that a line's sample gets has the name of the line's own key, and the labels that are
  -- read from it are those of the line, in whatever order the line writes them.
  pub parse_sample-key :
      (line source rest key : Text) (number : ℕ)
      → key_end false false line ≡ some (source, rest)
      → parse_sample parse_f64 line ≡ ok (key, number)
      → ((split_key key).0 ≡ (split_key source).0)
        × (parse_labels (split_key key).1 ≡ parse_labels (split_key source).1)
  parse_sample-key line source rest key number h p =
      unfold KeyOf in
      unfold Gives in subst (Gives (KeyOf source)) p (parse_sample-Gives line source rest h)
