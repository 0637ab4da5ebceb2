-- ===== src/Metrics/Kept.antt =====
-- What a counter's change in src/metrics.rs says of the counter's series.
use wire_harness.Prelude.{
  ℕ, ◌≡◌, refl, sym, ap, ◌∙◌, Bool, true, false, ◌&&◌, not, [], ◌∷◌, some, Option-cases, Bool-cases,
  inl, inr, All, ok, Gives, Gives-bind, Gives-then, Gives-mono, arith,
}
use mathlib.Core.Path.{subst}
use wire_harness.Trace.Recorded.{is_finite64}
use wire_harness.Metrics.Labels.{Text, Labels, same_text}
use wire_harness.Metrics.Window.{
  Floats, missing, disappeared, reset, not_finite, Samples, selects, select, find_sample, is_found,
  some_samples, all_kept, initial_of, is_invalid, add_up, counter_delta,
}

pub same_text-eq : (s t : Text) → same_text s t ≡ true → s ≡ t
unfolding same_text
same_text-eq [] [] h = refl
same_text-eq [] (d ∷ t) h = absurd (ground (arith, h))
same_text-eq (c ∷ s) [] h = absurd (ground (arith, h))
same_text-eq (c ∷ s) (d ∷ t) h =
    let head : c ≡ d = ground (arith, h) in
    let tail : s ≡ t = same_text-eq s t (ground (arith, h)) in
    ap (λ x. x ∷ s) head ∙ ap (λ l. d ∷ l) tail

-- A key that is selected is found among the selected samples as among all.
find-select :
    (test : Text → Bool) (k : Text) (m : Samples)
    → test k ≡ true
    → find_sample k (select test m) ≡ find_sample k m
unfolding find_sample select
find-select test k [] h = refl
find-select test k ((j, v) ∷ m) h = elim (Bool-cases (same_text k j)) [
  | inl same ↦
      let tested : test j ≡ true = ap test (sym (same_text-eq k j same)) ∙ h in
      rw (tested, same) refl
  | inr other ↦ elim (Bool-cases (test j)) [
    | inl t ↦ rw (t, other) (find-select test k m h)
    | inr t ↦ rw (t, other) (find-select test k m h)
  ]
]

kept-found :
    (k : Text) (w : ℕ) (m after : Samples)
    → all_kept m after ≡ true
    → find_sample k m ≡ some w
    → is_found (find_sample k after) ≡ true
unfolding all_kept find_sample
kept-found k w [] after h f = absurd (ground (arith, f))
kept-found k w ((j, v) ∷ m) after h f = elim (Bool-cases (same_text k j)) [
  | inl same ↦ ap (λ x. is_found (find_sample x after)) (same_text-eq k j same) ∙ ground (arith, h)
  | inr other ↦ kept-found k w m after (ground (arith, h)) (ground (arith, f, other))
]

module _ (floats : Floats) where
  -- No sample of the second loop is invalid.
  AllValid : Samples → Samples → Type 0
  AllValid before m =
      All (λ (k, v). is_invalid floats (initial_of (find_sample k before)) v ≡ false) m

  add_up-AllValid :
      (before m : Samples) (total : ℕ)
      → Gives (λ n. AllValid before m) (add_up floats before total m)
  unfolding add_up AllValid
  add_up-AllValid before [] total = unfold Gives in tt
  add_up-AllValid before ((k, v) ∷ m) total =
      let next = floats.plus total (floats.minus v (initial_of (find_sample k before))) in
      Gives-then _ (not (is_invalid floats (initial_of (find_sample k before)) v)) reset _ λ h.
        Gives-mono (λ n. AllValid before m) _ (add_up floats before next m)
          (λ n all. (ground (arith, h), all)) (add_up-AllValid before m next)

  found-valid :
      (before m : Samples) (k : Text) (v : ℕ)
      → AllValid before m
      → find_sample k m ≡ some v
      → is_invalid floats (initial_of (find_sample k before)) v ≡ false
  unfolding AllValid find_sample
  found-valid before [] k v h f = absurd (ground (arith, f))
  found-valid before ((j, u) ∷ m) k v (h, hs) f = elim (Bool-cases (same_text k j)) [
    | inl same ↦
        let u_v : u ≡ v = ground (arith, f, same) in
        subst (λ x. is_invalid floats (initial_of (find_sample k before)) x ≡ false) u_v
          (subst (λ x. is_invalid floats (initial_of (find_sample x before)) u ≡ false)
            (sym (same_text-eq k j same)) h)
    | inr other ↦ found-valid before m k v hs (ground (arith, f, other))
  ]

  -- What a series of the counter did, from `w` on: it stands in the later scrape with a value that is
  -- finite and not below `w`, which is finite and not negative.
  unfoldable pub Kept : Samples → Text → ℕ → Type 0
  unfolding find_sample is_finite64
  Kept later k w =
      (v : ℕ) × ((find_sample k later ≡ some v)
        × ((is_finite64 w ≡ true)
            × ((is_finite64 v ≡ true) × ((floats.less w 0 ≡ false) × (floats.less v w ≡ false)))))

  valid-facts :
      (w v : ℕ)
      → is_invalid floats w v ≡ false
      → (is_finite64 w ≡ true)
        × ((is_finite64 v ≡ true) × ((floats.less w 0 ≡ false) × (floats.less v w ≡ false)))
  unfolding is_invalid
  valid-facts w v h =
      (ground (arith, h), (ground (arith, h), (ground (arith, h), ground (arith, h))))

  found_later :
      (before after : Samples) (k : Text) (w : ℕ)
      → all_kept before after ≡ true
      → AllValid before after
      → find_sample k before ≡ some w
      → (v : ℕ) × ((find_sample k after ≡ some v) × (is_invalid floats w v ≡ false))
  unfolding is_found initial_of
  found_later before after k w kept valid f = elim (Option-cases (find_sample k after)) [
    | inl n ↦ absurd (ground (arith, sym (kept-found k w before after kept f) ∙ ap is_found n))
    | inr (v, e) ↦ (
      v,
      (
        e,
        subst (λ x. is_invalid floats x v ≡ false) (ap initial_of f)
            (found-valid before after k v valid e),
      ),
    )
  ]

  AllKept : Samples → Samples → Text → Labels → ℕ → Type 0
  AllKept earlier later name labels total =
      (k : Text) (w : ℕ)
      → selects name labels k ≡ true
      → find_sample k earlier ≡ some w
      → Kept later k w

  delta-Gives :
      (earlier later : Samples) (name : Text) (labels : Labels)
      → Gives (AllKept earlier later name labels) (counter_delta floats earlier later name labels)
  unfolding counter_delta Kept Gives AllKept
  delta-Gives earlier later name labels =
      let test = selects name labels in
      let before = select test earlier in
      let after = select test later in
      let R = AllKept earlier later name labels in
      Gives-then R (some_samples before && some_samples after) missing _ λ some_there.
        Gives-then R (all_kept before after) disappeared _ λ kept.
          Gives-bind (λ n. AllValid before after) R (add_up floats before 0 after) _
            (add_up-AllValid before after 0)
            λ total valid. Gives-then R (is_finite64 total) not_finite _ λ finite. λ k w chosen f.
              let (v, (e, ok_v)) =
                found_later before after k w kept valid (find-select test k earlier chosen ∙ f) in
              (v, (sym (find-select test k later chosen) ∙ e, valid-facts w v ok_v))

  -- When a counter's change is given, no series of the counter with the selected labels was lost or
  -- reset: each that stood in the earlier scrape stands in the later one, both values are finite, the
  -- first is not negative, and the second is not below the first.
  pub counter_delta-Kept :
      (earlier later : Samples) (name : Text) (labels : Labels) (total : ℕ) (k : Text) (w : ℕ)
      → counter_delta floats earlier later name labels ≡ ok total
      → selects name labels k ≡ true
      → find_sample k earlier ≡ some w
      → Kept later k w
  unfolding AllKept Gives
  counter_delta-Kept earlier later name labels total k w h =
      subst (Gives (AllKept earlier later name labels)) h (delta-Gives earlier later name labels) k
        w
