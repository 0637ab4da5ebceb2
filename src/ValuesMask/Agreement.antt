-- ===== src/ValuesMask/Agreement.antt =====
-- The two decoders of the repository read the same from a VALUES block: `Reader` of
-- src/values_mask.rs and `Body` of src/decode.rs.
use wire_harness.Prelude.{
  ℕ, zero, suc, ◌+◌, ◌*◌, ◌^◌, ◌≡◌, refl, List, [], ◌∷◌, ◌++◌, Option, none, some, Bool, true,
  false, Option-cases, inl, inr, from_le, has, bit_or, Result, ok, err, arith, if◌then◌else◌,
}
use native.Mathlib.Nat.{mul_comm}
use mathlib.Core.List.{foldl, foldl-append}
use wire_harness.Decode.Field.{Field, unsigned, guid, object, Fields, end, insert, field_name}
use wire_harness.Decode.Body
use wire_harness.Decode.Body.{Error, Parser, truncated}
use wire_harness.ValuesMask.{
  Reader, ◌>>=◌, pure, u8, u32, guid_bytes, packed_guid, mask_words, word_fields, mask_fields,
  block_fields,
}

-- What the typed decoder answers where the raw one answers `o`.
abbrev pub typed : {A B : Type 0} → (A → B) → Option (A × List ℕ) → Result Error (B × List ℕ)
typed f none = err truncated
typed f (some (a, rest)) = ok (f a, rest)

-- The typed decoder's map of the raw decoder's fields.
add_field : Fields → ℕ × ℕ → Fields
add_field fs (index, v) = insert (field_name index) (unsigned v) fs

unfoldable pub as_fields : List (ℕ × ℕ) → Fields
unfolding add_field
as_fields = foldl add_field end

as_fields-append :
    (fields : List (ℕ × ℕ)) (index v : ℕ)
    → as_fields (fields ++ (index, v) ∷ [])
      ≡ insert (field_name index) (unsigned v) (as_fields fields)
unfolding as_fields
as_fields-append fields index v = rw foldl-append

-- `M` reads what `m` reads, and `f` of it is what `M` makes of it.
abbrev pub Typed : {A B : Type 0} → (A → B) → Parser B → Reader A → Type 0
Typed f M m = (s : List ℕ) → M s ≡ typed f (m s)

module _ {A B C D : Type 0} (f : A → B) (g : C → D) where
  pub Typed-bind :
      (M : Parser B) (m : Reader A) (F : B → Parser D) (k : A → Reader C)
      → Typed f M m
      → ((a : A) → Typed g (F (f a)) (k a))
      → Typed g (Body.◌>>=◌ M F) (m >>= k)
  unfolding Body.◌>>=◌ ◌>>=◌
  Typed-bind M m F k h hk s = elim (Option-cases (m s)) [
    | inl e ↦ ground (arith, h s, e)
    | inr ((a, rest), e) ↦ ground (arith, h s, e, hk a rest)
  ]

module _ {A B : Type 0} (f : A → B) where
  Typed-pure : (a : A) → Typed f (Body.pure (f a)) (pure a)
  unfolding Body.pure pure
  Typed-pure a s = refl

  Typed-if :
      (b : Bool) (M N : Parser B) (m n : Reader A)
      → Typed f M m
      → Typed f N n
      → Typed f (if b then M else N) (if b then m else n)
  Typed-if true M N m n h k = h
  Typed-if false M N m n h k = k

module _ {A B C : Type 0} (f : A → B) (h : B → C) where
  -- A value that is wrapped once it is read.
  pub Typed-map :
      (M : Parser B) (m : Reader A)
      → Typed f M m
      → Typed (λ a. h (f a)) (Body.◌>>=◌ M (λ b. Body.pure (h b))) m
  unfolding Body.◌>>=◌ Body.pure
  Typed-map M m k s = elim (Option-cases (m s)) [
    | inl e ↦ ground (arith, k s, e)
    | inr (p, e) ↦ ground (arith, k s, e)
  ]

pub u8-Typed : Typed (λ b. b) Body.u8 u8
unfolding Body.u8 Body.bytes Body.pure Body.◌>>=◌ u8 from_le
u8-Typed [] = refl
u8-Typed (b ∷ s) = ground arith

pub u32-Typed : Typed (λ n. n) Body.u32 u32
unfolding Body.u32 Body.bytes Body.pure Body.◌>>=◌ u32
u32-Typed s = ground arith

guid_bytes-Typed :
    (n mask i g : ℕ) → Typed (λ x. x) (Body.guid_bytes n mask i g) (guid_bytes n mask i g)
unfolding Body.guid_bytes guid_bytes
guid_bytes-Typed zero mask i g = Typed-pure (λ x. x) g
guid_bytes-Typed (suc n) mask i g = rw (mul_comm i 8) (
    Typed-if (λ x. x) (has mask (2 ^ i)) _ _ _ _
      (Typed-bind (λ b. b) (λ x. x) _ _ _ _ u8-Typed
        (λ b. guid_bytes-Typed n mask (i + 1) (bit_or g (b * 2 ^ (8 * i)))))
      (guid_bytes-Typed n mask (i + 1) g))

pub packed_guid-Typed : Typed guid Body.packed_guid packed_guid
unfolding Body.packed_guid packed_guid
packed_guid-Typed =
    Typed-bind (λ b. b) guid _ _ _ _ u8-Typed
      (λ mask. Typed-map (λ g. g) guid _ _ (guid_bytes-Typed 8 mask 0 0))

mask_words-Typed : (n : ℕ) → Typed (λ ws. ws) (Body.collect n Body.u32) (mask_words n)
unfolding Body.collect mask_words
mask_words-Typed zero = Typed-pure (λ ws. ws) []
mask_words-Typed (suc n) =
    Typed-bind (λ w. w) (λ ws. ws) _ _ _ _ u32-Typed
      (λ w.
        Typed-bind (λ ws. ws) (λ ws. ws) _ _ _ _ (mask_words-Typed n)
          (λ ws. Typed-pure (λ ws. ws) (w ∷ ws)))

-- One field read and entered, and what comes behind it.
put-Typed :
    (fields : List (ℕ × ℕ)) (index : ℕ) (F : Fields → Parser Fields)
    (k : List (ℕ × ℕ) → Reader (List (ℕ × ℕ)))
    → ((fields : List (ℕ × ℕ)) → Typed as_fields (F (as_fields fields)) (k fields))
    → Typed as_fields
        (Body.◌>>=◌ (Body.put (field_name index) Body.unsigned32 (as_fields fields)) F)
        (u32 >>= λ v. k (fields ++ (index, v) ∷ []))
unfolding Body.put Body.unsigned32 Body.◌>>=◌ Body.pure ◌>>=◌
put-Typed fields index F k hk s = elim (Option-cases (u32 s)) [
  | inl e ↦ ground (arith, u32-Typed s, e)
  | inr ((v, rest), e) ↦
      ground (
        arith,
        u32-Typed s,
        e,
        as_fields-append fields index v,
        hk (fields ++ (index, v) ∷ []) rest,
      )
]

word_fields-Typed :
    (n block word bit : ℕ) (fields : List (ℕ × ℕ))
    → Typed as_fields
        (Body.value_bits n block word bit (as_fields fields))
        (word_fields n block word bit fields)
unfolding Body.value_bits word_fields
word_fields-Typed zero block word bit fields = Typed-pure as_fields fields
word_fields-Typed (suc n) block word bit fields =
    Typed-if as_fields (has word (2 ^ bit)) _ _ _ _
      (put-Typed fields (block * 32 + bit) (Body.value_bits n block word (bit + 1))
        (word_fields n block word (bit + 1)) (word_fields-Typed n block word (bit + 1)))
      (word_fields-Typed n block word (bit + 1) fields)

mask_fields-Typed :
    (mask : List ℕ) (block : ℕ) (fields : List (ℕ × ℕ))
    → Typed as_fields
        (Body.value_blocks mask block (as_fields fields))
        (mask_fields mask block fields)
unfolding Body.value_blocks mask_fields
mask_fields-Typed [] block fields = Typed-pure as_fields fields
mask_fields-Typed (word ∷ mask) block fields =
    Typed-bind as_fields as_fields _ _ _ _ (word_fields-Typed 32 block word 0 fields)
      (λ fields'. mask_fields-Typed mask (block + 1) fields')

-- The object that `values` makes of a block's fields.
abbrev pub values_of : List (ℕ × ℕ) → Field
values_of fields = object (as_fields fields)

pub values-Typed : Typed values_of Body.values block_fields
unfolding Body.values block_fields as_fields
values-Typed =
    Typed-bind (λ n. n) values_of _ _ _ _ u8-Typed
      (λ n.
        Typed-bind (λ ws. ws) values_of _ _ _ _ (mask_words-Typed n)
          (λ mask. Typed-map as_fields object _ _ (mask_fields-Typed mask 0 [])))

-- On every input, `values` of the typed decoder and the mask loop of the raw one read the same
-- fields and leave the same rest, or both fail, the typed one with the message for a truncated field.
pub values-block_fields : (s : List ℕ) → Body.values s ≡ typed values_of (block_fields s)
values-block_fields s = values-Typed s
