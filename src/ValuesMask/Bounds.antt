-- ===== src/ValuesMask/Bounds.antt =====
-- The field indices that src/values_mask.rs reports.
use wire_harness.Prelude.{
  ℕ, zero, suc, ◌+◌, ◌*◌, ◌^◌, ◌≤◌, ◌<◌, ◌≡◌, refl, ap, List, [], ◌∷◌, ◌++◌, All, Option-cases, inl,
  inr, some, length, has, arith,
}
use mathlib.Core.Path.{subst}
use wire_harness.ValuesMask.{
  ◌>>=◌, pure, fail, u8, u32, packed_guid, mask_words, word_fields, mask_fields, block_fields,
  values_object, ValuesUpdate, values_objects, update_header, parse_values_updates,
}
use wire_harness.ValuesMask.Reads.{
  IsByte, Returns, Returns-bind, Returns-pure, Returns-if, Returns-any, Reads-packed_guid,
  Reads-values_object, Reads-update_header,
}

-- The indices are strictly ascending, from `lo` on and below `hi`.
abbrev pub Ascending : ℕ → ℕ → List (ℕ × ℕ) → Type 0
Ascending lo hi [] = Unit {0}
Ascending lo hi ((index, v) ∷ fields) =
    (lo ≤ index) × (index < hi) × Ascending (suc index) hi fields

Ascending-weaken :
    (lo hi hi' : ℕ) (fields : List (ℕ × ℕ))
    → hi ≤ hi'
    → Ascending lo hi fields
    → Ascending lo hi' fields
Ascending-weaken lo hi hi' [] h k = tt
Ascending-weaken lo hi hi' ((index, v) ∷ fields) h k =
    (k.0, omega arith, Ascending-weaken (suc index) hi hi' fields h k.2)

Ascending-snoc :
    (lo index v : ℕ) (fields : List (ℕ × ℕ))
    → lo ≤ index
    → Ascending lo index fields
    → Ascending lo (suc index) (fields ++ (index, v) ∷ [])
Ascending-snoc lo index v [] h k = (h, omega arith, tt)
Ascending-snoc lo index v ((i, w) ∷ fields) h k =
    (k.0, omega arith, Ascending-snoc (suc i) index v fields k.1 k.2)

-- `n` bits from `bit` on add indices below that of the bit behind them.
word_fields-Ascending :
    (n block word bit : ℕ) (fields : List (ℕ × ℕ))
    → Ascending 0 (block * 32 + bit) fields
    → Returns (Ascending 0 (block * 32 + (bit + n))) (word_fields n block word bit fields)
unfolding word_fields
word_fields-Ascending zero block word bit fields k =
    Returns-pure _ fields (Ascending-weaken 0 _ _ fields (omega arith) k)
word_fields-Ascending (suc n) block word bit fields k =
    let next : block * 32 + (bit + suc n) ≡ block * 32 + (bit + 1 + n) = omega arith in
    let shift : suc (block * 32 + bit) ≤ block * 32 + (bit + 1) = omega arith in
    rw next (
      Returns-if _ (has word (2 ^ bit)) _ _
        (Returns-bind (λ _. Unit {0}) _ u32 _ (Returns-any u32)
          (λ v _.
            word_fields-Ascending n block word (bit + 1) (fields ++ (block * 32 + bit, v) ∷ []) (
              Ascending-weaken 0 _ _ (fields ++ (block * 32 + bit, v) ∷ []) shift
                (Ascending-snoc 0 (block * 32 + bit) v fields (omega arith) k))))
        (word_fields-Ascending n block word (bit + 1) fields
          (Ascending-weaken 0 _ _ fields (omega arith) k)))

mask_fields-Ascending :
    (mask : List ℕ) (block : ℕ) (fields : List (ℕ × ℕ))
    → Ascending 0 (block * 32) fields
    → Returns (Ascending 0 ((block + length mask) * 32)) (mask_fields mask block fields)
unfolding mask_fields
mask_fields-Ascending [] block fields k =
    Returns-pure _ fields (Ascending-weaken 0 _ _ fields (omega arith) k)
mask_fields-Ascending (word ∷ mask) block fields k =
    let next : (block + suc (length mask)) * 32 ≡ (block + 1 + length mask) * 32 = omega arith in
    rw next (
      Returns-bind (Ascending 0 (block * 32 + (0 + 32))) _ _ _
        (word_fields-Ascending 32 block word 0 fields
          (Ascending-weaken 0 _ _ fields (omega arith) k))
        (λ fields' k'.
          mask_fields-Ascending mask (block + 1) fields'
            (Ascending-weaken 0 _ _ fields' (omega arith) k')))

length-mask_words : (n : ℕ) → Returns (λ ws. length ws ≡ n) (mask_words n)
unfolding mask_words
length-mask_words zero = Returns-pure _ [] refl
length-mask_words (suc n) =
    Returns-bind (λ _. Unit {0}) _ _ _ (Returns-any u32)
      (λ w _.
        Returns-bind (λ ws. length ws ≡ n) _ _ _ (length-mask_words n)
          (λ ws e. Returns-pure _ (w ∷ ws) (ap suc e)))

-- A mask has at most 255 words.
masked-Ascending :
    (n : ℕ) → n < 256 → Returns (Ascending 0 8160) (mask_words n >>= λ mask. mask_fields mask 0 [])
masked-Ascending n h =
    Returns-bind (λ ws. length ws ≡ n) _ _ _ (length-mask_words n)
      (λ mask e. record {
        holds = λ s fields rest k.
            Ascending-weaken 0 ((0 + length mask) * 32) 8160 fields (omega arith)
              ((mask_fields-Ascending mask 0 [] tt).holds s fields rest k);
      })

block_fields-Ascending :
    (s : List ℕ) (fields : List (ℕ × ℕ)) (rest : List ℕ)
    → block_fields s ≡ some (fields, rest)
    → All IsByte s
    → Ascending 0 8160 fields
unfolding block_fields ◌>>=◌ u8
block_fields-Ascending [] fields rest e h = absurd (ground (arith, e))
block_fields-Ascending (b ∷ s) fields rest e h = (masked-Ascending b h.0).holds s fields rest e

abbrev IsOrdered : ValuesUpdate → Type 0
IsOrdered u = Ascending 0 8160 u.fields

guarded-IsOrdered :
    (s : List ℕ) (u : ValuesUpdate) (rest : List ℕ)
    → (packed_guid >>= λ g. block_fields >>= λ f. pure (record { guid = g; fields = f })) s
      ≡ some (u, rest)
    → All IsByte s
    → IsOrdered u
unfolding ◌>>=◌ pure
guarded-IsOrdered s u rest e h = elim (Option-cases (packed_guid s)) [
  | inl p ↦ absurd (ground (arith, p))
  | inr ((g, r), p) ↦ elim (Option-cases (block_fields r)) [
    | inl q ↦ absurd (ground (arith, p, q))
    | inr ((f, r'), q) ↦
        let fields_eq : f ≡ u.fields = ground (arith, p, q) in
        subst (Ascending 0 8160) fields_eq
          (block_fields-Ascending r f r' q (Reads-packed_guid.bytes s g r p h))
  ]
]

values_object-IsOrdered :
    (s : List ℕ) (u : ValuesUpdate) (rest : List ℕ)
    → values_object s ≡ some (u, rest)
    → All IsByte s
    → IsOrdered u
unfolding values_object ◌>>=◌ u8 fail
values_object-IsOrdered [] u rest e h = absurd (ground (arith, e))
values_object-IsOrdered (b ∷ s) u rest e h = guarded-IsOrdered s u rest (ground (arith, e)) h.1

All-snoc {ℓ κ} :
    {A : Type ℓ} (P : A → Type κ) (xs : List A) (x : A) → All P xs → P x → All P (xs ++ x ∷ [])
All-snoc P [] x h k = (k, tt)
All-snoc P (y ∷ xs) x h k = (h.0, All-snoc P xs x h.1 k)

-- What the loop adds satisfies `P` where every object that is read from bytes does.
values_objects-IsOrdered :
    (n : ℕ) (out : List ValuesUpdate) (s : List ℕ)
    → All IsByte s
    → All IsOrdered out
    → All IsOrdered (values_objects n out s)
unfolding values_objects
values_objects-IsOrdered zero out s h k = k
values_objects-IsOrdered (suc n) out s h k = elim (Option-cases (values_object s)) [
  | inl e ↦ rw (e, values_objects) k
  | inr ((u, r), e) ↦
      rw (e, values_objects)
        (values_objects-IsOrdered n (out ++ u ∷ []) r (Reads-values_object.bytes s u r e h)
          (All-snoc IsOrdered out u k (values_object-IsOrdered s u r e h)))
]

-- In every update that is found in a frame of bytes the field indices are strictly ascending and
-- below 8160, so they fit u16 and the sum that computes them does not overflow.
pub parse_values_updates-Ascending :
    (body : List ℕ)
    → All IsByte body
    → All (λ u. Ascending 0 8160 u.fields) (parse_values_updates body)
unfolding parse_values_updates
parse_values_updates-Ascending body h = elim (Option-cases (update_header body)) [
  | inl e ↦ rw (e, parse_values_updates) tt
  | inr ((count, r), e) ↦
      rw (e, parse_values_updates)
        (values_objects-IsOrdered count [] r (Reads-update_header.bytes body count r e h) tt)
]
