-- ===== src/Prelude/Results.antt =====
-- Fallible code. `Error` is the message that `ensure!`, `bail!` and `context` attach.
use mathlib.Core.Path.{◌≡◌, refl}
use mathlib.Core.Logic.{◌⊎◌, inl, inr}
use mathlib.Core.Bool.{Bool, true, false}

module _ {ℓ κ} where
  pub data Result (E : Type ℓ) (A : Type κ) : Type (ℓ ⊔ κ) where
    ok : A → Result E A
    err : E → Result E A

module _ {ℓ κ} {E : Type ℓ} {A : Type κ} where
  pub Result-cases : (r : Result E A) → ((a : A) × (r ≡ ok a)) ⊎ ((e : E) × (r ≡ err e))
  Result-cases (ok a) = inl (a, refl)
  Result-cases (err e) = inr (e, refl)

  infixl 5 ◌>>=◌ ◌>>◌
  abbrev pub ◌>>=◌ {μ} : {B : Type μ} → Result E A → (A → Result E B) → Result E B
  ok a >>= f = f a
  err e >>= f = err e

  abbrev pub ◌>>◌ {μ} : {B : Type μ} → Result E A → Result E B → Result E B
  r >> s = r >>= λ _. s

-- `ensure!(test, message)`
abbrev pub ensure {ℓ} : {E : Type ℓ} → Bool → E → Result E (Unit {0})
ensure true e = ok tt
ensure false e = err e

-- What holds of a result that is there.
module _ {ℓ κ} {E : Type ℓ} {A : Type κ} where
  unfoldable pub Gives : (A → Type 0) → Result E A → Type 0
  Gives P (ok x) = P x
  Gives P (err e) = Unit

module _ {ℓ κ} {E : Type ℓ} {A : Type κ} where
  pub Gives-bind {μ} :
      {B : Type μ} (P : A → Type 0) (Q : B → Type 0) (r : Result E A) (f : A → Result E B)
      → Gives P r
      → ((x : A) → P x → Gives Q (f x))
      → Gives Q (r >>= f)
  unfolding Gives
  Gives-bind P Q (ok x) f h k = k x h
  Gives-bind P Q (err e) f h k = tt

  pub Gives-then :
      (Q : A → Type 0) (b : Bool) (e : E) (r : Result E A)
      → (b ≡ true → Gives Q r)
      → Gives Q (ensure b e >> r)
  unfolding Gives
  Gives-then Q true e r h = h refl
  Gives-then Q false e r h = tt

  pub Gives-any : (r : Result E A) → Gives (λ x. Unit) r
  unfolding Gives
  Gives-any (ok x) = tt
  Gives-any (err e) = tt

  pub Gives-mono :
      (P Q : A → Type 0) (r : Result E A) → ((x : A) → P x → Q x) → Gives P r → Gives Q r
  unfolding Gives
  Gives-mono P Q (ok x) h k = h x k
  Gives-mono P Q (err e) h k = tt
