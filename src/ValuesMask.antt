-- ===== src/ValuesMask.antt =====
-- src/values_mask.rs: the decoder of the leading VALUES blocks of a raw SMSG_UPDATE_OBJECT body.
pub mod Agreement
pub mod Kinds
pub mod Frames
pub mod Reads
pub mod Truncation
pub mod Bounds
use wire_harness.Prelude.{
  ℕ, zero, suc, ◌+◌, ◌*◌, ◌^◌, List, [], ◌∷◌, ◌++◌, Option, none, some, leb, ◌==◌, length, take,
  drop, from_le, has, bit_or, if◌then◌else◌,
}

pub record ValuesUpdate : Type 0 where
  pub guid : ℕ
  pub fields : List (ℕ × ℕ)

-- A method of `Reader` acts on the bytes from the index `i` on; those before it are not read again.
abbrev pub Reader : Type 0 → Type 0
Reader A = List ℕ → Option (A × List ℕ)

infixl 5 ◌>>=◌
unfoldable pub ◌>>=◌ : {A B : Type 0} → Reader A → (A → Reader B) → Reader B
◌>>=◌ m f s = elim (m s) [ none ↦ none | some (a, rest) ↦ f a rest ]

unfoldable pub pure : {A : Type 0} → A → Reader A
pure a s = some (a, s)

unfoldable pub fail : {A : Type 0} → Reader A
fail s = none

unfoldable pub u8 : Reader ℕ
u8 [] = none
u8 (b ∷ s) = some (b, s)

unfoldable pub u32 : Reader ℕ
u32 s = if leb 4 (length s) then some (from_le (take 4 s), drop 4 s) else none

-- The loop of `packed_guid`: the bits from `i` on of the mask.
unfoldable pub guid_bytes : ℕ → ℕ → ℕ → ℕ → Reader ℕ
guid_bytes zero mask i guid = pure guid
guid_bytes (suc n) mask i guid =
    if has mask (2 ^ i)
    then (do b ← u8; guid_bytes n mask (i + 1) (bit_or guid (b * 2 ^ (8 * i))))
    else guid_bytes n mask (i + 1) guid

unfoldable pub packed_guid : Reader ℕ
packed_guid = do mask ← u8; guid_bytes 8 mask 0 0

-- `for _ in 0..n_blocks { … mask.push(w) … }`
unfoldable pub mask_words : ℕ → Reader (List ℕ)
mask_words zero = pure []
mask_words (suc n) = do w ← u32; ws ← mask_words n; pure (w ∷ ws)

-- `for bit in 0..32u16`: `n` more bits of a mask word, from `bit` on.
unfoldable pub word_fields : ℕ → ℕ → ℕ → ℕ → List (ℕ × ℕ) → Reader (List (ℕ × ℕ))
word_fields zero block word bit fields = pure fields
word_fields (suc n) block word bit fields =
    if has word (2 ^ bit)
    then (do v ← u32; word_fields n block word (bit + 1) (fields ++ (block * 32 + bit, v) ∷ []))
    else word_fields n block word (bit + 1) fields

-- `for (block_i, &word) in mask.iter().enumerate()`
unfoldable pub mask_fields : List ℕ → ℕ → List (ℕ × ℕ) → Reader (List (ℕ × ℕ))
mask_fields [] block fields = pure fields
mask_fields (word ∷ mask) block fields = do
  fields ← word_fields 32 block word 0 fields
  mask_fields mask (block + 1) fields

-- The mask and its fields, behind the GUID.
unfoldable pub block_fields : Reader (List (ℕ × ℕ))
block_fields = do n_blocks ← u8; mask ← mask_words n_blocks; mask_fields mask 0 []

-- One round of the loop over the objects; `none` is a `break` or a `return out`.
unfoldable pub values_object : Reader ValuesUpdate
values_object = do
  update_type ← u8
  if update_type == 0
      then (do
        guid ← packed_guid
        fields ← block_fields
        pure (record { guid = guid; fields = fields }))
      else fail

-- `for _ in 0..count`
unfoldable pub values_objects : ℕ → List ValuesUpdate → List ℕ → List ValuesUpdate
values_objects zero out s = out
values_objects (suc n) out s = elim (values_object s) [
  | none ↦ out
  | some (update, rest) ↦ values_objects n (out ++ update ∷ []) rest
]

-- The count and the transport flag.
unfoldable pub update_header : Reader ℕ
update_header = do count ← u32; transport ← u8; pure count

unfoldable pub parse_values_updates : List ℕ → List ValuesUpdate
parse_values_updates body = elim (update_header body) [
  | none ↦ []
  | some (count, rest) ↦ values_objects count [] rest
]
