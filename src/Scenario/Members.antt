-- ===== src/Scenario/Members.antt =====
-- The members of the sets of `validate_fixtures` in src/scenario.rs.
use wire_harness.Prelude.{
  ℕ, ◌≡◌, ◌≢◌, inl, inr, All, refl, sym, false, List, [], ◌∷◌, ◌++◌, String, arith,
}
use mathlib.Core.Path.{subst}
use mathlib.Core.List.{Memᴰ}
use mathlib.Core.List.Memᴰ
use package.text.Mathlib.TextEquality.{eq_iff}
use wire_harness.Scenario.Fixtures.{has_text, has_number}

-- No member stands twice.
unfoldable pub Distinct {ℓ} : {A : Type ℓ} → List A → Type ℓ
Distinct [] = Unit
Distinct (x ∷ xs) = (¬ Memᴰ x xs) × Distinct xs

-- The members of either list are members of the other: the lists stand for one set.
unfoldable pub SameMembers {ℓ} : {A : Type ℓ} → List A → List A → Type ℓ
SameMembers xs ys = All (λ x. Memᴰ x ys) xs × All (λ y. Memᴰ y xs) ys

pub absent-last {ℓ} :
    {A : Type ℓ} (u t : A) (ts : List A) → ¬ Memᴰ u ts → u ≢ t → Memᴰ u (ts ++ t ∷ []) → ⊥
absent-last u t [] n d m = elim (Memᴰ.cases_cons m) [ inl e ↦ d e | inr h ↦ Memᴰ.not-nil h ]
absent-last u t (s ∷ ts) n d m = elim (Memᴰ.cases_cons m) [
  | inl e ↦ n (Memᴰ.head e)
  | inr h ↦ absent-last u t ts (λ k. n (Memᴰ.tail k)) d h
]

pub Distinct-append {ℓ} :
    {A : Type ℓ} (t : A) (ts : List A) → ¬ Memᴰ t ts → Distinct ts → Distinct (ts ++ t ∷ [])
unfolding Distinct
Distinct-append t [] h d = (Memᴰ.not-nil, tt)
Distinct-append t (u ∷ ts) h (d, ds) = (
  absent-last u t ts d (λ e. h (Memᴰ.head (sym e))),
  Distinct-append t ts (λ m. h (Memᴰ.tail m)) ds,
)

pub absent-text : (s : String) (ts : List String) → has_text s ts ≡ false → ¬ Memᴰ s ts
unfolding has_text
absent-text s [] h m = Memᴰ.not-nil m
absent-text s (t ∷ ts) h m = elim (Memᴰ.cases_cons m) [
  | inl e ↦ absurd (ground (arith, h, eq_iff t s, sym e))
  | inr k ↦ absent-text s ts (ground (arith, h)) k
]

pub absent-number : (n : ℕ) (ns : List ℕ) → has_number n ns ≡ false → ¬ Memᴰ n ns
unfolding has_number
absent-number n [] h m = Memᴰ.not-nil m
absent-number n (k ∷ ks) h m = elim (Memᴰ.cases_cons m) [
  | inl e ↦ absurd (ground (arith, h, e))
  | inr q ↦ absent-number n ks (ground (arith, h)) q
]

pub All-within {ℓ} :
    {A : Type ℓ} (xs ys : List A) → ((x : A) → Memᴰ x xs → Memᴰ x ys) → All (λ x. Memᴰ x ys) xs
All-within [] ys h = tt
All-within (x ∷ xs) ys h = (h x (Memᴰ.head refl), All-within xs ys (λ y m. h y (Memᴰ.tail m)))

pub SameMembers-eq {ℓ} : {A : Type ℓ} (xs ys : List A) → xs ≡ ys → SameMembers xs ys
unfolding SameMembers
SameMembers-eq xs ys e = (
  All-within xs ys (λ x m. subst (λ l. Memᴰ x l) e m),
  All-within ys xs (λ y m. subst (λ l. Memᴰ y l) (sym e) m),
)
