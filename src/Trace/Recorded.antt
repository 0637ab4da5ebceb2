-- ===== src/Trace/Recorded.antt =====
-- `RecordedField` of src/trace.rs and `identifier` of src/scenario.rs.
use wire_harness.Prelude.{
  ℕ, ◌+◌, ◌/◌, ◌%◌, ◌^◌, Bool, true, ◌&&◌, ◌||◌, not, ltb, leb, ◌==◌, List, String, ℤ, Result, ok,
  ◌>>◌, ensure,
}
use Prim.Native.String.{len, [], ◌∷◌}
use Prim.Native.Char.{Char, code}
use wire_harness.Decode.Field
use wire_harness.Decode.Field.{Field, Items, Fields}

-- What the messages of `ensure!` say.
pub data Error : Type 0 where
  too_deep not_finite field_name server release source_commit database_commit adapter : Error
  schema named guid_count character_guid distinct identity packet_count : Error
  unknown_character named_packet checkpoint opening_order reply_checkpoint stream_name : Error
  malformed_fields : Error

-- A byte of a character that is not ASCII is none of these either.
unfoldable pub identifier_char : Char → Bool
identifier_char c =
    (leb 97 (code c) && leb (code c) 122) || (leb 48 (code c) && leb (code c) 57) || code c == 95

unfoldable pub all_chars : (Char → Bool) → String → Bool
all_chars test [] = true
all_chars test (c ∷ s) = test c && all_chars test s

unfoldable pub identifier : String → Bool
unfolding all_chars identifier_char
identifier s = ltb 0 (len s) && leb (len s) 96 && all_chars identifier_char s

-- `Float` is kept as the 64-bit pattern of the f64.
mutual
  pub data Recorded : Type 0 where
    unsigned : ℕ → Recorded
    signed : ℤ → Recorded
    float : ℕ → Recorded
    guid : ℕ → Recorded
    time_ms : ℕ → Recorded
    wall_clock_ms : ℕ → Recorded
    text_sha256 : String → Recorded
    list : RecordedItems → Recorded
    object : RecordedFields → Recorded

  pub data RecordedItems : Type 0 where
    nil : RecordedItems
    cons : Recorded → RecordedItems → RecordedItems

  pub data RecordedFields : Type 0 where
    end : RecordedFields
    entry : String → Recorded → RecordedFields → RecordedFields

-- `digest` is the SHA-256 of a text as lower-case hex, of the sha2 crate; `widen` is `f64::from` on
-- the patterns of finite f32 values.
module _ (digest : List ℕ → String) (widen : ℕ → ℕ) where
  unfoldable mutual
    pub scrub : Field → Recorded
    scrub (Field.unsigned n) = unsigned n
    scrub (Field.signed n) = signed n
    scrub (Field.float n) = float (widen n)
    scrub (Field.guid n) = guid n
    scrub (Field.time_ms n) = time_ms n
    scrub (Field.wall_clock_ms n) = wall_clock_ms n
    scrub (Field.text bytes) = text_sha256 (digest bytes)
    scrub (Field.list items) = list (scrub_items items)
    scrub (Field.object fs) = object (scrub_fields fs)

    pub scrub_items : Items → RecordedItems
    scrub_items Field.nil = nil
    scrub_items (Field.cons f items) = cons (scrub f) (scrub_items items)

    pub scrub_fields : Fields → RecordedFields
    scrub_fields Field.end = end
    scrub_fields (Field.entry name f fs) = entry name (scrub f) (scrub_fields fs)

-- `is_finite` on f64: the exponent is not all ones.
unfoldable pub is_finite64 : ℕ → Bool
is_finite64 n = not (n / 2 ^ 52 % 2048 == 2047)

unfoldable mutual
  pub validate : ℕ → Recorded → Result Error (Unit {0})
  validate depth (float n) = do ensure (leb depth 32) too_deep; ensure (is_finite64 n) not_finite
  validate depth (list items) = do ensure (leb depth 32) too_deep; validate_items (depth + 1) items
  validate depth (object fs) = do ensure (leb depth 32) too_deep; validate_fields (depth + 1) fs
  validate depth (unsigned n) = ensure (leb depth 32) too_deep
  validate depth (signed n) = ensure (leb depth 32) too_deep
  validate depth (guid n) = ensure (leb depth 32) too_deep
  validate depth (time_ms n) = ensure (leb depth 32) too_deep
  validate depth (wall_clock_ms n) = ensure (leb depth 32) too_deep
  validate depth (text_sha256 s) = ensure (leb depth 32) too_deep

  pub validate_items : ℕ → RecordedItems → Result Error (Unit {0})
  validate_items depth nil = ok tt
  validate_items depth (cons r items) = do validate depth r; validate_items depth items

  pub validate_fields : ℕ → RecordedFields → Result Error (Unit {0})
  validate_fields depth end = ok tt
  validate_fields depth (entry name r fs) = do
    ensure (identifier name) field_name
    validate depth r
    validate_fields depth fs
