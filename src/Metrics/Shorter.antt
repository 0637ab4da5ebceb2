-- ===== src/Metrics/Shorter.antt =====
-- What a round of the loop of `parse_labels` in src/metrics.rs leaves of its text.
use wire_harness.Prelude.{
  ℕ, ◌+◌, ◌≤◌, Bool, true, false, ◌==◌, [], ◌∷◌, Option, none, some, length, Result, ok, err, Gives,
  Gives-bind, Gives-then, Gives-any, arith, if◌then◌else◌,
}
use wire_harness.Metrics.Labels.{
  Text, Labels, Error, equals, label_name, unquoted, duplicate, comma, ok_or, split_once,
  push_front, is_label_name, strip_first, unescape, unescaped, prepend, quoted, insert_new,
  parse_label, after_label,
}
use wire_harness.Metrics.Order.{Holds}
use wire_harness.Metrics.Parsed.{Gives-ok_or}

pub Holds-at_if {ℓ} :
    {A : Type ℓ} (P : A → Type 0) (b : Bool) (x y : Option A)
    → Holds P x
    → Holds P y
    → Holds P (if b then x else y)
Holds-at_if P true x y h k = h
Holds-at_if P false x y h k = k

pub Gives-at_if {ℓ} :
    {A : Type ℓ} (P : A → Type 0) (b : Bool) (x y : Result Error A)
    → Gives P x
    → Gives P y
    → Gives P (if b then x else y)
Gives-at_if P true x y h k = h
Gives-at_if P false x y h k = k

-- Less than a text is left.
unfoldable pub Shorter : Text → Text → Type 0
Shorter s rest = 1 + length rest ≤ length s

unfoldable pub ShorterSecond {ℓ} : {A : Type ℓ} → Text → A × Text → Type 0
unfolding Shorter
ShorterSecond s (x, rest) = Shorter s rest

pub push_front-Shorter :
    (c : ℕ) (s : Text) (o : Option (Text × Text))
    → Holds (ShorterSecond s) o
    → Holds (ShorterSecond (c ∷ s)) (push_front c o)
unfolding Holds push_front ShorterSecond Shorter
push_front-Shorter c s none h = tt
push_front-Shorter c s (some (k, rest)) h = omega (arith, h)

pub split_once-Shorter : (d : ℕ) (s : Text) → Holds (ShorterSecond s) (split_once d s)
unfolding split_once
split_once-Shorter d [] = unfold Holds in tt
split_once-Shorter d (c ∷ s) =
    Holds-at_if (ShorterSecond (c ∷ s)) (c == d) _ _
      (unfold Holds in unfold ShorterSecond in unfold Shorter in omega arith)
      (push_front-Shorter c s (split_once d s) (split_once-Shorter d s))

pub strip_first-Shorter : (d : ℕ) (s : Text) → Holds (Shorter s) (strip_first d s)
unfolding strip_first Holds Shorter
strip_first-Shorter d [] = tt
strip_first-Shorter d (c ∷ s) =
    Holds-at_if (Shorter (c ∷ s)) (c == d) (some s) none (omega arith) tt

pub prepend-Shorter :
    (c d : ℕ) (s : Text) (r : Result Error (Text × Text))
    → Gives (ShorterSecond s) r
    → Gives (ShorterSecond (d ∷ s)) (prepend c r)
unfolding Gives prepend ShorterSecond Shorter
prepend-Shorter c d s (ok (t, rest)) h = omega (arith, h)
prepend-Shorter c d s (err e) h = tt

pub unescaped-Shorter :
    (o : Option ℕ) (d : ℕ) (s : Text) (r : Result Error (Text × Text))
    → Gives (ShorterSecond s) r
    → Gives (ShorterSecond (d ∷ s)) (unescaped o r)
unfolding unescaped
unescaped-Shorter none d s r h = unfold Gives in tt
unescaped-Shorter (some c) d s r h = prepend-Shorter c d s r h

pub longer :
    (c : ℕ) (s : Text) (r : Result Error (Text × Text))
    → Gives (ShorterSecond s) r
    → Gives (ShorterSecond (c ∷ s)) r
unfolding Gives ShorterSecond Shorter
longer c s (ok (t, rest)) h = omega (arith, h)
longer c s (err e) h = tt

pub quote-Shorter :
    (c : ℕ) (s : Text) → Gives {E = Error} {A = Text × Text} (ShorterSecond (c ∷ s)) (ok ([], s))
unfolding Gives ShorterSecond Shorter
quote-Shorter c s = omega arith

pub quoted-Shorter : (behind : Bool) (s : Text) → Gives (ShorterSecond s) (quoted behind s)
unfolding quoted
quoted-Shorter behind [] = unfold Gives in tt
quoted-Shorter true (c ∷ s) =
    unescaped-Shorter (unescape c) c s (quoted false s) (quoted-Shorter false s)
quoted-Shorter false (c ∷ s) =
    Gives-at_if (ShorterSecond (c ∷ s)) (c == 92) _ _
      (longer c s (quoted true s) (quoted-Shorter true s))
      (Gives-at_if (ShorterSecond (c ∷ s)) (c == 34) (ok ([], s)) _ (quote-Shorter c s)
        (prepend-Shorter c c s (quoted false s) (quoted-Shorter false s)))

pub parse_label-Shorter :
    (text : Text) (m : Labels) → Gives (ShorterSecond text) (parse_label text m)
unfolding parse_label Gives ShorterSecond Shorter
parse_label-Shorter text m =
    Gives-bind (ShorterSecond text) (ShorterSecond text) (ok_or (split_once 61 text) equals) _
      (Gives-ok_or (ShorterSecond text) (split_once 61 text) equals (split_once-Shorter 61 text))
      λ (key, quote) h. Gives-then (ShorterSecond text) (is_label_name key) label_name _ λ named.
        Gives-bind (Shorter quote) (ShorterSecond text) (ok_or (strip_first 34 quote) unquoted) _
          (Gives-ok_or (Shorter quote) (strip_first 34 quote) unquoted
            (strip_first-Shorter 34 quote))
          λ encoded h'.
            Gives-bind (ShorterSecond encoded) (ShorterSecond text) (quoted false encoded) _
              (quoted-Shorter false encoded)
              λ (decoded, rest) h''.
                Gives-bind (λ x. Unit) (ShorterSecond text)
                  (ok_or (insert_new key decoded m) duplicate) _ (Gives-any _)
                  λ more u. omega (arith, h, h', h'')

pub after_label-length :
    (rest : Text) → Gives (λ left. length left ≤ length rest) (after_label rest)
unfolding after_label Gives
after_label-length [] = omega arith
after_label-length (c ∷ s) =
    Gives-at_if (λ left. length left ≤ length (c ∷ s)) (c == 44) (ok s) (err comma) (omega arith) tt
