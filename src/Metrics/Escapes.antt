-- ===== src/Metrics/Escapes.antt =====
-- What the escapes of src/metrics.rs write is read back.
use wire_harness.Prelude.{
  ℕ, ◌≡◌, refl, sym, ap, ◌∙◌, true, false, ◌==◌, [], ◌∷◌, ◌++◌, some, ok, Bool-cases, inl, inr,
  arith, if◌then◌else◌,
}
use mathlib.Core.List.{append_assoc}
use wire_harness.Metrics.Labels.{
  Text, replace, escape_value, quoted, unescape, unescaped, prepend, split_once, push_front,
  is_start, is_inner, all_inner, is_label_name,
}

replace-append : (d : ℕ) (w s t : Text) → replace d w (s ++ t) ≡ replace d w s ++ replace d w t
unfolding replace
replace-append d w [] t = refl
replace-append d w (c ∷ s) t =
    ap (λ x. (if c == d then w else c ∷ []) ++ x) (replace-append d w s t)
    ∙ sym (append_assoc (if c == d then w else c ∷ []) (replace d w s) (replace d w t))

-- What a character is written as.
unfoldable escape_char : ℕ → Text
escape_char c =
    if c == 92
    then 92 ∷ 92 ∷ []
    else if c == 10
    then 92 ∷ 110 ∷ []
    else if c == 34
    then 92 ∷ 34 ∷ []
    else c ∷ []

escape_char_lem : (c : ℕ) → escape_value (c ∷ []) ≡ escape_char c
unfolding escape_value replace escape_char
escape_char_lem c = elim (Bool-cases (c == 92)) [
  | inl h ↦ let e : c ≡ 92 = ground (arith, h) in rw e refl
  | inr h ↦ elim (Bool-cases (c == 10)) [
    | inl g ↦ let e : c ≡ 10 = ground (arith, g) in rw e refl
    | inr g ↦ elim (Bool-cases (c == 34)) [
      | inl f ↦ let e : c ≡ 34 = ground (arith, f) in rw e refl
      | inr f ↦ rw (h, g, f) refl
    ]
  ]
]

escape-cons : (c : ℕ) (s : Text) → escape_value (c ∷ s) ≡ escape_char c ++ escape_value s
unfolding escape_value
escape-cons c s =
    ap (λ x. replace 34 (92 ∷ 34 ∷ []) (replace 10 (92 ∷ 110 ∷ []) x))
      (replace-append 92 (92 ∷ 92 ∷ []) (c ∷ []) s)
    ∙ ap (replace 34 (92 ∷ 34 ∷ [])) (
        replace-append 10 (92 ∷ 110 ∷ []) (replace 92 (92 ∷ 92 ∷ []) (c ∷ []))
          (replace 92 (92 ∷ 92 ∷ []) s))
    ∙ replace-append 34 (92 ∷ 34 ∷ [])
        (replace 10 (92 ∷ 110 ∷ []) (replace 92 (92 ∷ 92 ∷ []) (c ∷ []))) _
    ∙ ap (λ x. x ++ escape_value s) (unfold escape_value in escape_char_lem c)

quoted-escape_char :
    (c : ℕ) (rest : Text) → quoted false (escape_char c ++ rest) ≡ prepend c (quoted false rest)
unfolding escape_char quoted unescape unescaped
quoted-escape_char c rest = elim (Bool-cases (c == 92)) [
  | inl h ↦ let e : c ≡ 92 = ground (arith, h) in rw e refl
  | inr h ↦ elim (Bool-cases (c == 10)) [
    | inl g ↦ let e : c ≡ 10 = ground (arith, g) in rw e refl
    | inr g ↦ elim (Bool-cases (c == 34)) [
      | inl f ↦ let e : c ≡ 34 = ground (arith, f) in rw e refl
      | inr f ↦ rw (h, g, f) rw (h, f) refl
    ]
  ]
]

-- A written value reads back, up to its closing quote.
pub quoted-escape : (s rest : Text) → quoted false (escape_value s ++ 34 ∷ rest) ≡ ok (s, rest)
unfolding prepend
quoted-escape [] rest = unfold escape_value in unfold replace in unfold quoted in refl
quoted-escape (c ∷ s) rest =
    rw (escape-cons c s, append_assoc (escape_char c) (escape_value s) (34 ∷ rest))
      (quoted-escape_char c (escape_value s ++ 34 ∷ rest) ∙ ap (prepend c) (quoted-escape s rest))

is_inner-other : (c : ℕ) → is_inner c ≡ true → (c == 61) ≡ false
unfolding is_inner is_start
is_inner-other c h = ground (arith, h)

split-inner :
    (key rest : Text) → all_inner key ≡ true → split_once 61 (key ++ 61 ∷ rest) ≡ some (key, rest)
unfolding all_inner split_once push_front
split-inner [] rest h = refl
split-inner (c ∷ key) rest h =
    let first : is_inner c ≡ true = ground (arith, h) in
    let others : all_inner key ≡ true = ground (arith, h) in
    rw (is_inner-other c first, split-inner key rest others) refl

inner-name : (key : Text) → is_label_name key ≡ true → all_inner key ≡ true
unfolding is_label_name all_inner is_inner
inner-name [] h = absurd (ground (arith, h))
inner-name (c ∷ key) h = ground (arith, h)

-- A name is split from what follows the equals sign.
pub split-name :
    (key rest : Text)
    → is_label_name key ≡ true
    → split_once 61 (key ++ 61 ∷ rest) ≡ some (key, rest)
split-name key rest h = split-inner key rest (inner-name key h)
