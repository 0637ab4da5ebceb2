-- ===== src/Metrics/Loop.antt =====
-- The loop of `parse_labels` in src/metrics.rs ends.
use wire_harness.Prelude.{
  ℕ, zero, suc, ◌≤◌, ◌≡◌, Bool, true, false, ◌==◌, [], ◌∷◌, Option, none, some, length, Result, ok,
  err, Gives, Gives-any, ◌>>=◌, ensure, arith, if◌then◌else◌,
}
use mathlib.Core.Path.{subst}
use wire_harness.Metrics.Labels.{
  Text, Labels, Error, equals, label_name, unquoted, duplicate, comma, ok_or, split_once,
  is_label_name, strip_first, unescape, unescaped, prepend, quoted, insert_new, parse_label,
  after_label, label_rounds, strip_braces, parse_labels, braces, out_of_rounds,
}
use wire_harness.Metrics.Shorter.{Shorter, ShorterSecond, parse_label-Shorter, after_label-length}

-- An error that the source has.
InSource : Error → Type 0
InSource out_of_rounds = ⊥
InSource e = Unit

-- The rounds were enough: there is a result, or an error that the source has.
Ends {ℓ} : {A : Type ℓ} → Result Error A → Type 0
unfolding InSource
Ends (ok x) = Unit
Ends (err e) = InSource e

Ends-bind {ℓ κ} :
    {A : Type ℓ} {B : Type κ} (P : A → Type 0) (r : Result Error A) (f : A → Result Error B)
    → Ends r
    → Gives P r
    → ((x : A) → P x → Ends (f x))
    → Ends (r >>= f)
unfolding Ends Gives
Ends-bind P (ok x) f h g k = k x g
Ends-bind P (err e) f h g k = h

Ends-ok {ℓ} : {A : Type ℓ} (x : A) → Ends (ok x)
unfolding Ends
Ends-ok x = tt

Ends-ensure : (b : Bool) (e : Error) → InSource e → Ends (ensure b e)
unfolding Ends
Ends-ensure true e h = tt
Ends-ensure false e h = h

Ends-if {ℓ} :
    {A : Type ℓ} (b : Bool) (x y : Result Error A) → Ends x → Ends y → Ends (if b then x else y)
Ends-if true x y h k = h
Ends-if false x y h k = k

Ends-ok_or {ℓ} : {A : Type ℓ} (o : Option A) (e : Error) → InSource e → Ends (ok_or o e)
unfolding ok_or Ends
Ends-ok_or none e h = h
Ends-ok_or (some x) e h = tt

Ends-prepend : (c : ℕ) (r : Result Error (Text × Text)) → Ends r → Ends (prepend c r)
unfolding prepend Ends
Ends-prepend c (ok (t, rest)) h = tt
Ends-prepend c (err e) h = h

Ends-unescaped : (o : Option ℕ) (r : Result Error (Text × Text)) → Ends r → Ends (unescaped o r)
unfolding unescaped
Ends-unescaped none r h = unfold Ends in unfold InSource in tt
Ends-unescaped (some c) r h = Ends-prepend c r h

Ends-quoted : (behind : Bool) (s : Text) → Ends (quoted behind s)
unfolding quoted
Ends-quoted behind [] = unfold Ends in unfold InSource in tt
Ends-quoted true (c ∷ s) = Ends-unescaped (unescape c) (quoted false s) (Ends-quoted false s)
Ends-quoted false (c ∷ s) = Ends-if (c == 92) (quoted true s) _ (Ends-quoted true s) (
    Ends-if (c == 34) (ok ([], s)) _ (Ends-ok ([], s))
      (Ends-prepend c (quoted false s) (Ends-quoted false s)))

Ends-parse_label : (text : Text) (m : Labels) → Ends (parse_label text m)
unfolding parse_label Ends InSource
Ends-parse_label text m =
    Ends-bind (λ x. Unit) (ok_or (split_once 61 text) equals) _ (Ends-ok_or _ equals tt)
      (Gives-any _)
      λ (key, quote) h.
        Ends-bind (λ x. Unit) (ensure (is_label_name key) label_name) _
          (Ends-ensure (is_label_name key) label_name tt) (Gives-any _)
          λ t u.
            Ends-bind (λ x. Unit) (ok_or (strip_first 34 quote) unquoted) _
              (Ends-ok_or _ unquoted tt) (Gives-any _)
              λ encoded v.
                Ends-bind (λ x. Unit) (quoted false encoded) _ (Ends-quoted false encoded)
                  (Gives-any _)
                  λ (decoded, rest) w.
                    Ends-bind (λ x. Unit) (ok_or (insert_new key decoded m) duplicate) _
                      (Ends-ok_or _ duplicate tt) (Gives-any _) λ more z. tt

Ends-after_label : (rest : Text) → Ends (after_label rest)
unfolding after_label Ends InSource
Ends-after_label [] = tt
Ends-after_label (c ∷ s) = Ends-if (c == 44) (ok s) (err comma) tt tt

Ends-label_rounds :
    (n : ℕ) (text : Text) (m : Labels) → length text ≤ n → Ends (label_rounds n text m)
unfolding label_rounds
Ends-label_rounds n [] m h = unfold Ends in tt
Ends-label_rounds zero (c ∷ s) m h = absurd (omega (arith, h))
Ends-label_rounds (suc n) (c ∷ s) m h =
    Ends-bind (ShorterSecond (c ∷ s)) (parse_label (c ∷ s) m) _ (Ends-parse_label (c ∷ s) m)
      (parse_label-Shorter (c ∷ s) m)
      λ (more, rest) p.
        Ends-bind (λ left. length left ≤ length rest) (after_label rest) _ (Ends-after_label rest)
          (after_label-length rest)
          λ left q.
            Ends-label_rounds n left more
              (unfold ShorterSecond in unfold Shorter in omega (arith, h, p, q))

Ends-parse_labels : (text : Text) → Ends (parse_labels text)
unfolding parse_labels
Ends-parse_labels [] = unfold Ends in tt
Ends-parse_labels (c ∷ s) =
    Ends-bind (λ x. Unit) (ok_or (strip_braces (c ∷ s)) braces) _
      (Ends-ok_or _ braces (unfold InSource in tt)) (Gives-any _)
      λ body u. Ends-label_rounds (length body) body [] (omega arith)

-- The loop of `parse_labels` ends on every text: the rounds that it is given, as many as there are
-- characters between the braces, never run out before the text is read or refused.
pub parse_labels-ends : (text : Text) → ¬ (parse_labels text ≡ err out_of_rounds)
parse_labels-ends text h = unfold InSource in unfold Ends in subst Ends h (Ends-parse_labels text)
