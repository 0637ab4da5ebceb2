-- ===== src/Tests/DecodeRuns.antt =====
-- Runs of `decode` of src/decode.rs.
use wire_harness.Prelude.{
  ℕ, ◌≡◌, refl, true, Option, some, List, [], ◌∷◌, ok, err, length, from_le, arith,
}
use wire_harness.Decode.Field.{Packet, unsigned, list, nil, end, entry, insert, to_items}
use wire_harness.Decode.Body
use wire_harness.Decode.Body.{trailing}
use wire_harness.Decode.Packets.Vendor.{buy_bank_slot_result}
use wire_harness.Decode.Packets.Update.{update_object}
use wire_harness.Decode.Dispatch.{
  Inflated, arms, select, decode_plain, decode_inflated, decode_compressed, decode,
}
use wire_harness.Decode.Framing.{decode_plain-append}
use wire_harness.Decode.Compressed.{Accepted, decode_compressed-Accepted}

abbrev slot_result : Packet
slot_result = record { opcode = 0x01ba; fields = entry "result" (unsigned 3) end }

slot_result_decodes : decode_plain 0x01ba (3 ∷ 0 ∷ 0 ∷ 0 ∷ []) ≡ ok slot_result
unfolding decode_plain select arms buy_bank_slot_result Body.put Body.unsigned32 Body.u32 Body.bytes
    Body.pure Body.◌>>=◌ from_le insert
slot_result_decodes = refl

decode_plain-append_example : decode_plain 0x01ba (3 ∷ 0 ∷ 0 ∷ 0 ∷ 7 ∷ []) ≡ err trailing
decode_plain-append_example =
    decode_plain-append 0x01ba (3 ∷ 0 ∷ 0 ∷ 0 ∷ []) slot_result 7 [] (λ e. absurd (omega arith))
      slot_result_decodes

-- A stream that inflates to an object update with no object.
abbrev stored : List ℕ → ℕ → Option Inflated
stored input capacity =
    some (record { stream_end = true; output = 0 ∷ 0 ∷ 0 ∷ 0 ∷ 1 ∷ []; total_in = length input })

abbrev no_objects : Packet
no_objects = record {
  opcode = 0x00a9;
  fields = entry "has_transport" (unsigned 1) (entry "objects" (list nil) end);
}

abbrev compressed : List ℕ
compressed = 5 ∷ 0 ∷ 0 ∷ 0 ∷ 120 ∷ 156 ∷ []

compressed_decodes : decode stored 0x01f6 compressed ≡ ok no_objects
unfolding decode decode_compressed decode_inflated decode_plain select arms update_object Body.put
    Body.unsigned8 Body.u8 Body.u32 Body.ensure_room Body.collect Body.bytes Body.pure Body.◌>>=◌
    from_le insert to_items
compressed_decodes = refl

decode_compressed-Accepted_example : Accepted stored compressed no_objects
decode_compressed-Accepted_example =
    decode_compressed-Accepted stored compressed no_objects compressed_decodes
