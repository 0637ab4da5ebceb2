-- ===== src/Metrics/Order.antt =====
-- The order of the labels of a sample in src/metrics.rs.
use wire_harness.Prelude.{
  ◌≡◌, refl, Bool, true, false, List, [], ◌∷◌, ◌++◌, Option, none, some, All, arith, if◌then◌else◌,
}
use mathlib.Core.Path.{subst}
use wire_harness.Metrics.Labels.{Text, text_lt, insert_new, put_first}

text_lt_trans : (s t u : Text) → text_lt s t ≡ true → text_lt t u ≡ true → text_lt s u ≡ true
unfolding text_lt
text_lt_trans s t [] h k = absurd (ground (arith, k))
text_lt_trans [] t (e ∷ u) h k = refl
text_lt_trans (c ∷ s) [] (e ∷ u) h k = absurd (ground (arith, h))
text_lt_trans (c ∷ s) (d ∷ t) (e ∷ u) h k = ground (arith, h, k, text_lt_trans s t u)

text_lt-asym : (s t : Text) → text_lt s t ≡ true → text_lt t s ≡ false
unfolding text_lt
text_lt-asym s [] h = absurd (ground (arith, h))
text_lt-asym [] (d ∷ t) h = refl
text_lt-asym (c ∷ s) (d ∷ t) h = ground (arith, h, text_lt-asym s t)

-- What holds of an option that is there.
unfoldable pub Holds {ℓ} : {A : Type ℓ} → (A → Type 0) → Option A → Type 0
Holds P none = Unit
Holds P (some x) = P x

pub Holds-if {ℓ} :
    {A : Type ℓ} (P : A → Type 0) (x y : Option A) (b : Bool)
    → (b ≡ true → Holds P x)
    → (b ≡ false → Holds P y)
    → Holds P (if b then x else y)
Holds-if P x y true h k = h refl
Holds-if P x y false h k = k refl

pub Holds-some {ℓ} :
    {A : Type ℓ} (P : A → Type 0) (o : Option A) (x : A) → Holds P o → o ≡ some x → P x
unfolding Holds
Holds-some P o x h e = subst (Holds P) e h

module _ {ℓ} {V : Type ℓ} where
  -- Every key stands before this one, or after it.
  unfoldable pub AllBefore : Text → List (Text × V) → Type 0
  AllBefore k m = All (λ (j, v). text_lt j k ≡ true) m

  unfoldable pub AllAfter : Text → List (Text × V) → Type 0
  AllAfter k m = All (λ (j, v). text_lt k j ≡ true) m

  -- The keys ascend.
  unfoldable pub Sorted : List (Text × V) → Type 0
  unfolding AllAfter
  Sorted [] = Unit
  Sorted ((k, v) ∷ m) = AllAfter k m × Sorted m

  pub insert-last :
      (k : Text) (v : V) (m : List (Text × V))
      → AllBefore k m
      → insert_new k v m ≡ some (m ++ (k, v) ∷ [])
  unfolding insert_new AllBefore put_first
  insert-last k v [] h = refl
  insert-last k v ((j, w) ∷ m) (h, hs) = rw (text_lt-asym j k h, h, insert-last k v m hs) refl

  pub AllAfter-trans :
      (j k : Text) (m : List (Text × V)) → text_lt j k ≡ true → AllAfter k m → AllAfter j m
  unfolding AllAfter
  AllAfter-trans j k [] h hs = tt
  AllAfter-trans j k ((i, v) ∷ m) h (g, gs) = (text_lt_trans j k i h g, AllAfter-trans j k m h gs)

  pub Holds-put_first :
      (P Q R : List (Text × V) → Type 0) (l : Text × V) (o : Option (List (Text × V)))
      → ((m : List (Text × V)) → P m → Q m → R (l ∷ m))
      → Holds P o
      → Holds Q o
      → Holds R (put_first l o)
  unfolding Holds put_first
  Holds-put_first P Q R l none f h k = tt
  Holds-put_first P Q R l (some m) f h k = f m h k

  insert-AllAfter :
      (j k : Text) (v : V) (m : List (Text × V))
      → text_lt j k ≡ true
      → AllAfter j m
      → Holds (AllAfter j) (insert_new k v m)
  unfolding insert_new AllAfter Holds
  insert-AllAfter j k v [] h hs = (h, tt)
  insert-AllAfter j k v ((i, w) ∷ m) h (g, gs) =
      let rest = insert-AllAfter j k v m h gs in
      Holds-if (AllAfter j) _ _ (text_lt k i) (λ q. (h, (g, gs)))
        (λ q.
          Holds-if (AllAfter j) _ _ (text_lt i k)
            (λ p.
              Holds-put_first (AllAfter j) (AllAfter j) (AllAfter j) (i, w) (insert_new k v m)
                (λ n x y. (g, x)) rest rest)
            (λ p. tt))

  pub insert-Holds :
      (k : Text) (v : V) (m : List (Text × V)) → Sorted m → Holds Sorted (insert_new k v m)
  unfolding insert_new Sorted AllAfter Holds
  insert-Holds k v [] h = (tt, tt)
  insert-Holds k v ((i, w) ∷ m) (g, gs) =
      Holds-if Sorted _ _ (text_lt k i) (λ q. ((q, AllAfter-trans k i m q g), (g, gs)))
        (λ q.
          Holds-if Sorted _ _ (text_lt i k)
            (λ p.
              Holds-put_first (AllAfter i) Sorted Sorted (i, w) (insert_new k v m) (λ n x y. (x, y))
                (insert-AllAfter i k v m p g) (insert-Holds k v m gs))
            (λ p. tt))

  pub insert-Sorted :
      (k : Text) (v : V) (m n : List (Text × V)) → Sorted m → insert_new k v m ≡ some n → Sorted n
  insert-Sorted k v m n h e = Holds-some Sorted (insert_new k v m) n (insert-Holds k v m h) e
