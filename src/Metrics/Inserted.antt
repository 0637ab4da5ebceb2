-- ===== src/Metrics/Inserted.antt =====
-- What an insertion into the samples of src/metrics.rs does to the samples that are found.
use wire_harness.Prelude.{
  ℕ, ◌+◌, ◌≡◌, refl, sym, ap, ◌∙◌, true, false, [], ◌∷◌, none, some, length, Bool-cases, inl, inr,
  arith,
}
use wire_harness.Metrics.Labels.{Text, text_lt, insert_new, same_text}
use wire_harness.Metrics.Order.{Sorted, AllAfter, AllAfter-trans, Holds, Holds-if, Holds-put_first}
use wire_harness.Metrics.Window.{Samples, find_sample}
use wire_harness.Metrics.Kept.{same_text-eq}

pub same_text_refl : (k : Text) → same_text k k ≡ true
unfolding same_text
same_text_refl [] = refl
same_text_refl (c ∷ s) = ground (arith, same_text_refl s)

pub lt-different : (j k : Text) → text_lt j k ≡ true → same_text j k ≡ false
unfolding text_lt same_text
lt-different j [] h = absurd (ground (arith, h))
lt-different [] (d ∷ t) h = refl
lt-different (c ∷ s) (d ∷ t) h = ground (arith, h, lt-different s t)

pub gt-different : (j k : Text) → text_lt j k ≡ true → same_text k j ≡ false
unfolding text_lt same_text
gt-different j [] h = absurd (ground (arith, h))
gt-different [] (d ∷ t) h = refl
gt-different (c ∷ s) (d ∷ t) h = ground (arith, h, gt-different s t)

pub AllAfter-absent : (k : Text) (m : Samples) → AllAfter k m → find_sample k m ≡ none
unfolding AllAfter find_sample
AllAfter-absent k [] h = refl
AllAfter-absent k ((j, v) ∷ m) (h, hs) = rw (lt-different k j h) (AllAfter-absent k m hs)

-- What an insertion that is accepted does to a map.
pub record Inserted (k : Text) (v : ℕ) (m n : Samples) : Type 0 where
  pub fresh : find_sample k m ≡ none
  pub found : find_sample k n ≡ some v
  pub keeps : (j : Text) (w : ℕ) → find_sample j m ≡ some w → find_sample j n ≡ some w
  pub longer : length n ≡ 1 + length m

pub Inserted-first :
    (k : Text) (v : ℕ) (m : Samples) → find_sample k m ≡ none → Inserted k v m ((k, v) ∷ m)
unfolding find_sample
Inserted-first k v m h = record {
  fresh = h;
  found = rw (same_text_refl k) refl;
  keeps = λ j w f. elim (Bool-cases (same_text j k)) [
    | inl e ↦ absurd (ground (arith, sym f ∙ ap (λ x. find_sample x m) (same_text-eq j k e) ∙ h))
    | inr e ↦ rw e f
  ];
  longer = omega arith;
}

pub Inserted-behind :
    (k i : Text) (v w : ℕ) (m n : Samples)
    → text_lt i k ≡ true
    → Inserted k v m n
    → Inserted k v ((i, w) ∷ m) ((i, w) ∷ n)
unfolding find_sample
Inserted-behind k i v w m n h r = record {
  fresh = rw (gt-different i k h) r.fresh;
  found = rw (gt-different i k h) r.found;
  keeps = λ j u f. elim (Bool-cases (same_text j i)) [
    | inl e ↦ ground (arith, f, e)
    | inr e ↦ rw e (r.keeps j u (ground (arith, f, e)))
  ];
  longer = omega (arith, r.longer);
}

pub Sorted-absent :
    (k i : Text) (w : ℕ) (m : Samples)
    → text_lt k i ≡ true
    → Sorted ((i, w) ∷ m)
    → find_sample k ((i, w) ∷ m) ≡ none
unfolding Sorted
Sorted-absent k i w m h (g, gs) =
    AllAfter-absent k ((i, w) ∷ m) (unfold AllAfter in (h, AllAfter-trans k i m h g))

pub insert-Inserted :
    (k : Text) (v : ℕ) (m : Samples) → Sorted m → Holds (Inserted k v m) (insert_new k v m)
unfolding insert_new
insert-Inserted k v [] s = unfold Holds in Inserted-first k v [] (unfold find_sample in refl)
insert-Inserted k v ((i, w) ∷ m) s =
    Holds-if (Inserted k v ((i, w) ∷ m)) _ _ (text_lt k i)
      (λ q. unfold Holds in Inserted-first k v ((i, w) ∷ m) (Sorted-absent k i w m q s))
      (λ q.
        Holds-if (Inserted k v ((i, w) ∷ m)) _ _ (text_lt i k)
          (λ p.
            let rest = insert-Inserted k v m (unfold Sorted in s.1) in
            Holds-put_first (Inserted k v m) (Inserted k v m) (Inserted k v ((i, w) ∷ m)) (i, w)
              (insert_new k v m) (λ n x y. Inserted-behind k i v w m n p x) rest rest)
          (λ p. unfold Holds in tt))
