-- ===== src/Metrics/Parsed.antt =====
-- What the labels are that `parse_labels` of src/metrics.rs gives.
use wire_harness.Prelude.{
  ℕ, zero, suc, ◌≡◌, true, false, [], ◌∷◌, Option, none, some, length, Gives, Gives-bind,
  Gives-then, Gives-any, ok,
}
use mathlib.Core.Path.{subst}
use wire_harness.Metrics.Labels.{
  Text, Labels, Error, equals, label_name, unquoted, duplicate, braces, ok_or, split_once,
  is_label_name, strip_first, quoted, text_lt, insert_new, parse_label, after_label, label_rounds,
  strip_braces, parse_labels, write_labels, in_braces,
}
use wire_harness.Metrics.Order.{Sorted, Holds, Holds-if, Holds-put_first, insert-Holds}
use wire_harness.Metrics.RoundTrip.{AllNamed, parse-write_labels}

pub Gives-ok_or {ℓ} :
    {A : Type ℓ} (P : A → Type 0) (o : Option A) (e : Error) → Holds P o → Gives P (ok_or o e)
unfolding Gives ok_or Holds
Gives-ok_or P none e h = tt
Gives-ok_or P (some x) e h = h

-- The keys ascend, and are names of labels.
unfoldable pub Canonical : Labels → Type 0
Canonical m = Sorted m × AllNamed m

-- Of labels, and what follows them.
CanonicalLabels : Labels × Text → Type 0
CanonicalLabels (m, rest) = Canonical m

insert-AllNamed :
    (k v : Text) (m : Labels)
    → is_label_name k ≡ true
    → AllNamed m
    → Holds AllNamed (insert_new k v m)
unfolding insert_new AllNamed Holds
insert-AllNamed k v [] h hs = (h, tt)
insert-AllNamed k v ((j, w) ∷ m) h (g, gs) =
    let rest = insert-AllNamed k v m h gs in
    Holds-if AllNamed _ _ (text_lt k j) (λ q. (h, (g, gs)))
      (λ q.
        Holds-if AllNamed _ _ (text_lt j k)
          (λ p.
            Holds-put_first AllNamed AllNamed AllNamed (j, w) (insert_new k v m) (λ n x y. (g, x))
              rest rest)
          (λ p. tt))

Holds-both {ℓ} :
    {A : Type ℓ} (P Q : A → Type 0) (o : Option A)
    → Holds P o
    → Holds Q o
    → Holds (λ x. P x × Q x) o
unfolding Holds
Holds-both P Q none h k = tt
Holds-both P Q (some x) h k = (h, k)

insert-Canonical :
    (k v : Text) (m : Labels)
    → is_label_name k ≡ true
    → Canonical m
    → Holds Canonical (insert_new k v m)
unfolding Canonical
insert-Canonical k v m h (s, n) =
    Holds-both Sorted AllNamed (insert_new k v m) (insert-Holds k v m s) (insert-AllNamed k v m h n)

parse_label-Canonical :
    (text : Text) (m : Labels) → Canonical m → Gives CanonicalLabels (parse_label text m)
unfolding parse_label Gives CanonicalLabels
parse_label-Canonical text m c =
    Gives-bind (λ x. Unit) CanonicalLabels (ok_or (split_once 61 text) equals) _ (Gives-any _)
      λ (key, quote) u. Gives-then CanonicalLabels (is_label_name key) label_name _ λ named.
        Gives-bind (λ x. Unit) CanonicalLabels (ok_or (strip_first 34 quote) unquoted) _
          (Gives-any _)
          λ encoded u'.
            Gives-bind (λ x. Unit) CanonicalLabels (quoted false encoded) _ (Gives-any _)
              λ (decoded, rest) u''.
                Gives-bind Canonical CanonicalLabels (ok_or (insert_new key decoded m) duplicate) _
                  (Gives-ok_or Canonical (insert_new key decoded m) duplicate
                    (insert-Canonical key decoded m named c))
                  λ more g. g

label_rounds-Canonical :
    (n : ℕ) (text : Text) (m : Labels) → Canonical m → Gives Canonical (label_rounds n text m)
unfolding label_rounds
label_rounds-Canonical n [] m c = unfold Gives in c
label_rounds-Canonical zero (a ∷ s) m c = unfold Gives in tt
label_rounds-Canonical (suc n) (a ∷ s) m c =
    Gives-bind CanonicalLabels Canonical (parse_label (a ∷ s) m) _
      (parse_label-Canonical (a ∷ s) m c)
      λ (more, rest) g.
        Gives-bind (λ x. Unit) Canonical (after_label rest) _ (Gives-any _)
          λ left u. label_rounds-Canonical n left more (unfold CanonicalLabels in g)

no_labels-Canonical : Canonical []
unfolding Canonical Sorted AllNamed
no_labels-Canonical = (tt, tt)

parse_labels-Canonical : (text : Text) → Gives Canonical (parse_labels text)
unfolding parse_labels
parse_labels-Canonical [] = unfold Gives in no_labels-Canonical
parse_labels-Canonical (c ∷ s) =
    Gives-bind (λ x. Unit) Canonical (ok_or (strip_braces (c ∷ s)) braces) _ (Gives-any _)
      λ body u. label_rounds-Canonical (length body) body [] no_labels-Canonical

pub parsed-Canonical : (text : Text) (m : Labels) → parse_labels text ≡ ok m → Canonical m
parsed-Canonical text m h = unfold Gives in subst (Gives Canonical) h (parse_labels-Canonical text)

-- The labels that are read from a text, written in their order and in braces as the key of a sample
-- has them, read back as the same labels.
pub parse_labels-write :
    (text : Text) (m : Labels)
    → parse_labels text ≡ ok m
    → parse_labels (in_braces (write_labels m)) ≡ ok m
parse_labels-write text m h =
    let good : Sorted m × AllNamed m = unfold Canonical in parsed-Canonical text m h in
    parse-write_labels m good.0 good.1
