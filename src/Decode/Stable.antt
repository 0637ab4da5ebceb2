-- ===== src/Decode/Stable.antt =====
-- The readers of src/decode.rs whose success does not depend on the bytes behind what they read.
mod Core
pub use Core.*
use wire_harness.Prelude.{
  ℕ, zero, suc, ◌+◌, ◌*◌, ◌/◌, ◌≤◌, ◌^◌, ◌≡◌, Bool, true, false, List, [], ◌∷◌, ◌++◌, String,
  Option-cases, some, Result-cases, inl, inr, ok, bit_or, length, length-append, take-append,
  drop-append, has, arith, if◌then◌else◌,
}
use native.Mathlib.Nat.{le-div_iff_mul-le, div-mul-le_self, le_trans}
use wire_harness.Decode.Field.{Field, Fields, field_name}
use wire_harness.Decode.Body.{
  Error, Parser, ◌>>=◌, pure, fail, ensure, ensure_room, bytes, u8, u16, u32, u64, collect,
  unsigned8, unsigned16, unsigned32, signed16, signed32, guid64, time32, float32, put, put_each,
  put_if, records, guid_bytes, packed_guid, vector, vectors, value_bits, value_blocks, values,
  split_nul, nul_text, text_field, measured_text, counted_text,
}

pub Stable-u8 : Stable u8
unfolding u8
Stable-u8 = search core_rules

pub Stable-u16 : Stable u16
unfolding u16
Stable-u16 = search core_rules

pub Stable-u32 : Stable u32
unfolding u32
Stable-u32 = search core_rules

pub Stable-u64 : Stable u64
unfolding u64
Stable-u64 = search core_rules

-- The loops over names, mask bits and mask words.
pub Stable-put :
    (name : String) (read : Parser Field) (fs : Fields) → Stable read → Stable (put name read fs)
unfolding put
Stable-put name read fs k = search core_rules

pub Stable-put_each :
    (read : Parser Field) (names : List String) (fs : Fields)
    → Stable read
    → Stable (put_each read names fs)
unfolding put_each
Stable-put_each read [] fs k = Stable-pure fs
Stable-put_each read (name ∷ names) fs k =
    Stable-bind _ _ (Stable-put name read fs k) (λ fs'. Stable-put_each read names fs' k)

pub Stable-put_if :
    (b : Bool) (name : String) (read : Parser Field) (fs : Fields)
    → Stable read
    → Stable (put_if b name read fs)
unfolding put_if
Stable-put_if b name read fs k = Stable-if b _ _ (Stable-put name read fs k) (Stable-pure fs)

Stable-guid_bytes : (n mask i value : ℕ) → Stable (guid_bytes n mask i value)
unfolding guid_bytes
Stable-guid_bytes zero mask i value = Stable-pure value
Stable-guid_bytes (suc n) mask i value =
    Stable-if (has mask (2 ^ i)) _ _
      (Stable-bind u8 _ Stable-u8
        (λ b. Stable-guid_bytes n mask (i + 1) (bit_or value (b * 2 ^ (i * 8)))))
      (Stable-guid_bytes n mask (i + 1) value)

ruleset word_rules = (
  core_rules, Stable-u8, Stable-u16, Stable-u32, Stable-u64, Stable-put, Stable-put_each,
  Stable-put_if, Stable-guid_bytes,
)

pub Stable-unsigned8 : Stable unsigned8
unfolding unsigned8
Stable-unsigned8 = search word_rules

pub Stable-unsigned16 : Stable unsigned16
unfolding unsigned16
Stable-unsigned16 = search word_rules

pub Stable-unsigned32 : Stable unsigned32
unfolding unsigned32
Stable-unsigned32 = search word_rules

pub Stable-signed16 : Stable signed16
unfolding signed16
Stable-signed16 = search word_rules

pub Stable-signed32 : Stable signed32
unfolding signed32
Stable-signed32 = search word_rules

pub Stable-guid64 : Stable guid64
unfolding guid64
Stable-guid64 = search word_rules

pub Stable-time32 : Stable time32
unfolding time32
Stable-time32 = search word_rules

pub Stable-float32 : Stable float32
unfolding float32
Stable-float32 = search word_rules

pub Stable-packed_guid : Stable packed_guid
unfolding packed_guid
Stable-packed_guid = search word_rules

pub Stable-vector : Stable vector
unfolding vector
Stable-vector = search (word_rules, Stable-float32)

pub Stable-text_field : Stable text_field
unfolding text_field
Stable-text_field = search word_rules

pub Stable-counted_text : Stable counted_text
unfolding counted_text
Stable-counted_text = search word_rules depth 8

pub Stable-vectors : Stable vectors
unfolding vectors
Stable-vectors = search (word_rules, Stable-vector) depth 8

pub Stable-records : (count : ℕ) (names : List String) → Stable (records count names)
unfolding records
Stable-records count names = search (word_rules, Stable-unsigned32) depth 8

Stable-value_bits : (n block mask bit : ℕ) (fs : Fields) → Stable (value_bits n block mask bit fs)
unfolding value_bits
Stable-value_bits zero block mask bit fs = Stable-pure fs
Stable-value_bits (suc n) block mask bit fs =
    Stable-if (has mask (2 ^ bit)) _ _
      (Stable-bind _ _ (Stable-put (field_name (block * 32 + bit)) unsigned32 fs Stable-unsigned32)
        (λ fs'. Stable-value_bits n block mask (bit + 1) fs'))
      (Stable-value_bits n block mask (bit + 1) fs)

Stable-value_blocks :
    (masks : List ℕ) (block : ℕ) (fs : Fields) → Stable (value_blocks masks block fs)
unfolding value_blocks
Stable-value_blocks [] block fs = Stable-pure fs
Stable-value_blocks (mask ∷ masks) block fs =
    Stable-bind _ _ (Stable-value_bits 32 block mask 0 fs)
      (λ fs'. Stable-value_blocks masks (block + 1) fs')

pub Stable-values : Stable values
unfolding values
Stable-values = search (word_rules, Stable-value_blocks) depth 8

-- Everything that a packet's decoder is built from.
pub ruleset stable_rules = (
  core_rules, Stable-u8, Stable-u16, Stable-u32, Stable-put, Stable-put_each, Stable-put_if,
  Stable-unsigned8, Stable-unsigned16, Stable-unsigned32, Stable-signed16, Stable-signed32,
  Stable-guid64, Stable-time32, Stable-float32, Stable-packed_guid, Stable-vector, Stable-vectors,
  Stable-text_field, Stable-counted_text, Stable-records, Stable-values,
)
