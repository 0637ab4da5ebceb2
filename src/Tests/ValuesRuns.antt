-- ===== src/Tests/ValuesRuns.antt =====
-- Runs of the decoders of src/values_mask.rs and src/decode.rs on one frame.
use wire_harness.Prelude.{ℕ, ◌≡◌, ◌++◌, refl, All, List, [], ◌∷◌, map, from_le, ok, arith}
use wire_harness.Decode.Field.{
  Fields, unsigned, guid, object, list, insert, end, entry, to_items, field_name,
}
use wire_harness.Decode.Body
use wire_harness.Decode.Packets.Update.{object_block, update_block, update_object}
use wire_harness.ValuesMask
use wire_harness.ValuesMask.{ValuesUpdate, block_fields, parse_values_updates}
use wire_harness.ValuesMask.Agreement.{typed, values_of, values-block_fields}
use wire_harness.ValuesMask.Kinds.{as_object}
use wire_harness.ValuesMask.Frames.{update_fields, EndsRun, parse_values_updates-leading}
use wire_harness.ValuesMask.Truncation.{parse_values_updates-append}
use wire_harness.ValuesMask.Bounds.{Ascending, parse_values_updates-Ascending}

-- One VALUES object, guid 9, with field 22 (health) at 41.
abbrev mask_bytes : List ℕ
mask_bytes = 1 ∷ 0 ∷ 0 ∷ 0x40 ∷ 0 ∷ 41 ∷ 0 ∷ 0 ∷ 0 ∷ []

abbrev health_frame : List ℕ
health_frame = 1 ∷ 0 ∷ 0 ∷ 0 ∷ 0 ∷ 0 ∷ 1 ∷ 9 ∷ mask_bytes

abbrev health_update : ValuesUpdate
health_update = record { guid = 9; fields = (22, 41) ∷ [] }

parses : parse_values_updates health_frame ≡ health_update ∷ []
unfolding parse_values_updates ValuesMask.values_objects ValuesMask.values_object
    ValuesMask.update_header ValuesMask.packed_guid ValuesMask.guid_bytes ValuesMask.block_fields
    ValuesMask.mask_words ValuesMask.mask_fields ValuesMask.word_fields ValuesMask.u8 ValuesMask.u32
    ValuesMask.pure ValuesMask.fail ValuesMask.◌>>=◌ from_le
parses = refl

abbrev health_fields : Fields
health_fields = entry "has_transport" (unsigned 0) (
    entry "objects"
      (list (
        to_items (
          object (
            entry "kind" (unsigned 0) (
              entry "guid" (guid 9)
                (entry "values" (object (entry "field_22" (unsigned 41) end)) end)))
          ∷ [])))
      end)

reads : update_object health_frame ≡ ok (health_fields, [])
unfolding update_object update_block object_block Body.put Body.put_if Body.unsigned8
    Body.unsigned32 Body.u8 Body.u32 Body.ensure_room Body.collect Body.bytes Body.pure Body.◌>>=◌
    Body.packed_guid Body.guid_bytes Body.values Body.value_blocks Body.value_bits from_le insert
    to_items field_name
reads = refl

parse_values_updates-leading_example :
    (transport : ℕ) × (tail : List Fields) × (health_fields
      ≡ update_fields transport (map as_object (parse_values_updates health_frame) ++ tail))
    × EndsRun tail
parse_values_updates-leading_example =
    parse_values_updates-leading health_frame health_fields [] reads

values-block_fields_example : Body.values mask_bytes ≡ typed values_of (block_fields mask_bytes)
values-block_fields_example = values-block_fields mask_bytes

parse_values_updates-append_example :
    (run : List ValuesUpdate) × (parse_values_updates health_frame
      ≡ parse_values_updates (1 ∷ 0 ∷ 0 ∷ 0 ∷ 0 ∷ 0 ∷ []) ++ run)
parse_values_updates-append_example =
    parse_values_updates-append (1 ∷ 0 ∷ 0 ∷ 0 ∷ 0 ∷ 0 ∷ []) (1 ∷ 9 ∷ mask_bytes)

parse_values_updates-Ascending_example :
    All (λ u. Ascending 0 8160 u.fields) (parse_values_updates health_frame)
parse_values_updates-Ascending_example = parse_values_updates-Ascending health_frame (omega arith)
