-- ===== src/Metrics/RoundTrip.antt =====
-- The key that src/metrics.rs writes for a sample reads back as the labels it was written from.
use wire_harness.Prelude.{
  ℕ, zero, suc, ◌+◌, ◌≤◌, ◌≡◌, refl, sym, ap, ◌∙◌, true, List, [], ◌∷◌, ◌++◌, some, length,
  length-append, All, ok, arith,
}
use mathlib.Core.Path.{subst}
use mathlib.Core.List.{append_assoc, append-nil}
use wire_harness.Metrics.Labels.{
  Text, Labels, ok_or, escape_value, is_label_name, parse_label, strip_first, after_label,
  label_rounds, strip_last, keep_first, strip_braces, parse_labels, write_label, write_labels,
  in_braces,
}
use wire_harness.Metrics.Order.{Sorted, AllAfter, AllBefore, insert-last}
use wire_harness.Metrics.Escapes.{quoted-escape, split-name}

-- Every key is a label's name.
unfoldable pub AllNamed : Labels → Type 0
AllNamed m = All (λ (k, v). is_label_name k ≡ true) m

write_label-append :
    (k v rest : Text) → write_label (k, v) ++ rest ≡ k ++ 61 ∷ 34 ∷ (escape_value v ++ 34 ∷ rest)
unfolding write_label
write_label-append k v rest =
    append_assoc k (61 ∷ 34 ∷ (escape_value v ++ 34 ∷ [])) rest
    ∙ ap (λ x. k ++ 61 ∷ 34 ∷ x) (append_assoc (escape_value v) (34 ∷ []) rest)

-- A written label reads back, behind labels whose keys stand before its own.
parse-write_label :
    (k v rest : Text) (labels : Labels)
    → is_label_name k ≡ true
    → AllBefore k labels
    → parse_label (write_label (k, v) ++ rest) labels ≡ ok (labels ++ (k, v) ∷ [], rest)
unfolding parse_label ok_or strip_first
parse-write_label k v rest labels h b =
    rw
      (
        write_label-append k v rest,
        split-name k (34 ∷ (escape_value v ++ 34 ∷ rest)) h,
        h,
        quoted-escape v rest,
        insert-last k v labels b,
      )
      refl

All-middle {ℓ} :
    {A : Type ℓ} (P : A → Type 0) (xs : List A) (x : A) (ys : List A) → All P (xs ++ x ∷ ys) → P x
All-middle P [] x ys (h, hs) = h
All-middle P (z ∷ zs) x ys (h, hs) = All-middle P zs x ys hs

Sorted-before : (m : Labels) (k v : Text) (n : Labels) → Sorted (m ++ (k, v) ∷ n) → AllBefore k m
unfolding Sorted AllAfter AllBefore
Sorted-before [] k v n h = tt
Sorted-before ((j, w) ∷ m) k v n (h, hs) =
    (All-middle (λ (i, u). _ ≡ true) m (k, v) n h, Sorted-before m k v n hs)

-- What follows a label.
unfoldable more_labels : Labels → Text
more_labels [] = []
more_labels (l ∷ m) = 44 ∷ write_labels (l ∷ m)

write_labels-cons :
    (l : Text × Text) (m : Labels) → write_labels (l ∷ m) ≡ write_label l ++ more_labels m
unfolding write_labels more_labels
write_labels-cons l [] = sym (append-nil (write_label l))
write_labels-cons l (k ∷ m) = refl

after-more_labels : (m : Labels) → after_label (more_labels m) ≡ ok (write_labels m)
unfolding after_label more_labels write_labels
after-more_labels [] = refl
after-more_labels (l ∷ m) = refl

length-more_labels : (m : Labels) → length (write_labels m) ≤ length (more_labels m)
unfolding more_labels write_labels
length-more_labels [] = omega arith
length-more_labels (l ∷ m) = omega arith

length-write_label : (k v : Text) → 1 ≤ length (write_label (k, v))
unfolding write_label
length-write_label k v = omega (arith, length-append k (61 ∷ 34 ∷ (escape_value v ++ 34 ∷ [])))

length-write_labels :
    (k v : Text) (m : Labels) → 1 + length (write_labels m) ≤ length (write_labels ((k, v) ∷ m))
length-write_labels k v m = omega (
  arith,
  length-write_label k v,
  length-more_labels m,
  length-append (write_label (k, v)) (more_labels m),
  ap length (write_labels-cons (k, v) m),
)

round-labels :
    (n : ℕ) (text : Text) (labels more : Labels) (rest left : Text)
    → 1 ≤ length text
    → parse_label text labels ≡ ok (more, rest)
    → after_label rest ≡ ok left
    → label_rounds (suc n) text labels ≡ label_rounds n left more
unfolding label_rounds
round-labels n [] labels more rest left h p q = absurd (omega (arith, h))
round-labels n (c ∷ s) labels more rest left h p q = rw (p, q) refl

rounds-write_labels :
    (n : ℕ) (labels m : Labels)
    → length (write_labels m) ≤ n
    → Sorted (labels ++ m)
    → AllNamed m
    → label_rounds n (write_labels m) labels ≡ ok (labels ++ m)
unfolding AllNamed
rounds-write_labels n labels [] h s w =
    unfold label_rounds in unfold write_labels in ap ok (sym (append-nil labels))
rounds-write_labels zero labels ((k, v) ∷ m) h s (w, ws) =
    absurd (omega (arith, h, length-write_labels k v m))
rounds-write_labels (suc n) labels ((k, v) ∷ m) h s (w, ws) = rw (write_labels-cons (k, v) m) (
    round-labels n (write_label (k, v) ++ more_labels m) labels (labels ++ (k, v) ∷ [])
      (more_labels m) (write_labels m)
      (omega (arith, ap length (write_labels-cons (k, v) m), length-write_labels k v m))
      (parse-write_label k v (more_labels m) labels w (Sorted-before labels k v m s))
      (after-more_labels m)
    ∙ rounds-write_labels n (labels ++ (k, v) ∷ []) m (omega (arith, h, length-write_labels k v m))
        (subst Sorted (sym (append_assoc labels ((k, v) ∷ []) m)) s) ws
    ∙ ap ok (append_assoc labels ((k, v) ∷ []) m))

strip_last-append : (d : ℕ) (s : Text) → strip_last d (s ++ d ∷ []) ≡ some s
unfolding strip_last keep_first
strip_last-append d [] = ground arith
strip_last-append d (c ∷ []) = ground arith
strip_last-append d (c ∷ b ∷ s) = rw (strip_last-append d (b ∷ s)) refl

parse-in_braces :
    (s : Text) → 1 ≤ length s → parse_labels (in_braces s) ≡ label_rounds (length s) s []
unfolding parse_labels in_braces strip_braces strip_first ok_or
parse-in_braces [] h = absurd (omega (arith, h))
parse-in_braces (c ∷ s) h = rw (strip_last-append 125 (c ∷ s)) refl

-- Labels in the order of their keys, with the names of labels, read back from the text of a key.
pub parse-write_labels :
    (m : Labels) → Sorted m → AllNamed m → parse_labels (in_braces (write_labels m)) ≡ ok m
parse-write_labels [] s w = unfold parse_labels in unfold in_braces in unfold write_labels in refl
parse-write_labels ((k, v) ∷ m) s w =
    parse-in_braces (write_labels ((k, v) ∷ m)) (omega (arith, length-write_labels k v m))
    ∙ rounds-write_labels _ [] ((k, v) ∷ m) (omega arith) s w
