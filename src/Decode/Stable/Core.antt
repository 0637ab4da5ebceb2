-- ===== src/Decode/Stable/Core.antt =====
-- Actions whose success does not depend on the bytes behind what they read: the ones that read
-- bytes, and the ones that put actions together.
use wire_harness.Prelude.{
  ℕ, zero, suc, ◌/◌, ◌≤◌, ◌≡◌, Bool, true, false, List, [], ◌∷◌, ◌++◌, Option-cases, some,
  Result-cases, inl, inr, ok, length, length-append, take-append, drop-append, arith, if◌then◌else◌,
}
use native.Mathlib.Nat.{le-div_iff_mul-le, div-mul-le_self, le_trans}
use wire_harness.Decode.Body.{
  Error, Parser, ◌>>=◌, pure, fail, ensure, ensure_room, bytes, collect, split_nul, nul_text,
  measured_text,
}

-- `more` bytes behind the input change nothing but the rest.
pub record Stable {A : Type 0} (m : Parser A) : Type 0 where
  pub widen :
      (s : List ℕ) (a : A) (rest more : List ℕ)
      → m s ≡ ok (a, rest)
      → m (s ++ more) ≡ ok (a, rest ++ more)

module _ {A B : Type 0} where
  bind_widen :
      (m : Parser A) (f : A → Parser B)
      → Stable m
      → ((a : A) → Stable (f a))
      → (s : List ℕ) (b : B) (rest more : List ℕ) → (m >>= f) s ≡ ok (b, rest)
      → (m >>= f) (s ++ more) ≡ ok (b, rest ++ more)
  unfolding ◌>>=◌
  bind_widen m f km kf s b rest more h = elim (Result-cases (m s)) [
    | inl ((a, s'), e) ↦ rw (km.widen s a s' more e) ((kf a).widen s' b rest more (rw e at h))
    | inr (x, e) ↦ cc e
  ]

  pub Stable-bind :
      (m : Parser A) (f : A → Parser B) → Stable m → ((a : A) → Stable (f a)) → Stable (m >>= f)
  Stable-bind m f km kf = record { widen = bind_widen m f km kf }

module _ {A : Type 0} where
  pub Stable-pure : (a : A) → Stable (pure a)
  unfolding pure
  Stable-pure a = record { widen = λ s b rest more h. ground arith }

  pub Stable-fail : (e : Error) → Stable (fail {A = A} e)
  unfolding fail
  Stable-fail e = record { widen = λ s b rest more h. cc }

  pub Stable-if : (b : Bool) (m n : Parser A) → Stable m → Stable n → Stable (if b then m else n)
  Stable-if true m n km kn = km
  Stable-if false m n km kn = kn

module _ {A : Type 0} (m : Parser A) (km : Stable m) where
  pub Stable-collect : (n : ℕ) → Stable (collect n m)
  unfolding collect
  Stable-collect zero = Stable-pure []
  Stable-collect (suc n) =
      Stable-bind m _ km
        (λ x. Stable-bind (collect n m) _ (Stable-collect n) (λ xs. Stable-pure (x ∷ xs)))

div_mono : (a b k : ℕ) → a ≤ b → a / k ≤ b / k
div_mono a b zero h = omega arith
div_mono a b (suc k) h =
    (le-div_iff_mul-le (omega arith)).1 (le_trans (div-mul-le_self a (suc k)) h)

pub Stable-ensure : (b : Bool) (e : Error) → Stable (ensure b e)
unfolding ensure
Stable-ensure b e = Stable-if b _ _ (Stable-pure tt) (Stable-fail e)

pub Stable-ensure_room :
    (b : Bool) (count size : ℕ) (e : Error) → Stable (ensure_room b count size e)
unfolding ensure_room
Stable-ensure_room b count size e = record {
  widen = λ s a rest more h.
      ground (arith, length-append s more, div_mono (length s) (length (s ++ more)) size);
}

pub Stable-bytes : (n : ℕ) → Stable (bytes n)
unfolding bytes
Stable-bytes n = record {
  widen = λ s a rest more h.
      ground (arith, length-append s more, take-append n s more, drop-append n s more);
}

split_nul_widen :
    (s front back more : List ℕ)
    → split_nul s ≡ some (front, back)
    → split_nul (s ++ more) ≡ some (front, back ++ more)
unfolding split_nul
split_nul_widen [] front back more h = cc
split_nul_widen (b ∷ s) front back more h = elim (Option-cases (split_nul s)) [
  | inl e ↦ ground arith
  | inr ((f, r), e) ↦ ground (arith, split_nul_widen s f r more e)
]

pub Stable-nul_text : Stable nul_text
unfolding nul_text
Stable-nul_text = record {
  widen = λ s a rest more h. elim (Option-cases (split_nul s)) [
    | inl e ↦ ground (arith, e)
    | inr ((f, r), e) ↦ ground (arith, e, split_nul_widen s f r more e)
  ];
}

pub Stable-measured_text : Stable measured_text
unfolding measured_text
Stable-measured_text = record {
  widen = λ s a rest more h. elim (Result-cases (nul_text s)) [
    | inl ((t, r), e) ↦
        ground
          (arith, Stable-nul_text.widen s t r more e, length-append s more, length-append r more)
    | inr (x, e) ↦ ground (arith, e)
  ];
}

pub ruleset core_rules = (
  Stable-bind, Stable-pure, Stable-fail, Stable-if, Stable-collect, Stable-ensure,
  Stable-ensure_room, Stable-bytes, Stable-nul_text, Stable-measured_text,
)
