-- ===== src/Tests/TraceRuns.antt =====
-- A trace of src/trace.rs with two characters: the opening, then a reply and a reopened stream.
use wire_harness.Prelude.{◌+◌, ◌≤◌, ◌≡◌, ◌↔◌, refl, true, [], ◌∷◌, some, none, ok, String}
use wire_harness.Decode.Field
use wire_harness.Trace.Recorded
use wire_harness.Trace.Recorded.{Recorded, RecordedFields, end, entry}
use wire_harness.Trace.Depth.{height, is_clean, validate_iff}
use wire_harness.Trace.Packets
use wire_harness.Trace.Packets.{
  Stream, Provenance, Header, RecordedPacket, Trace, Observation, golden, validate_trace,
  record_trace, guids,
}
use wire_harness.Trace.Opening.{
  Prefixed, Distinct, validate_trace-Prefixed, validate_trace-Distinct,
}

abbrev nested : Recorded
nested = Recorded.list (Recorded.cons (Recorded.float 0) Recorded.nil)

validate_iff_example :
    (Recorded.validate 31 nested ≡ ok tt) ↔ ((31 + height nested ≤ 32) × (is_clean nested ≡ true))
validate_iff_example = validate_iff 31 nested

abbrev commit : String
commit = "0123456789abcdef0123456789abcdef01234567"

abbrev header : Header
header = record {
  schema_version = 4;
  character_guid = 0;
  characters = ("buyer", 7) ∷ ("viewer", 9) ∷ [];
  scenario = "bank_slot";
  behavior = "bank";
  scenario_sha256 = "00";
  recorded_at_unix_ms = 1;
  origin = golden (record {
    server = "vmangos";
    binary_release = "v1.2/x-y";
    binary_sha256 = "00";
    source_commit = commit;
    database_commit = commit;
  });
}

abbrev packet : String → Stream → RecordedPacket
packet checkpoint stream = record {
  character = some "viewer";
  received_after_ms = none;
  checkpoint = checkpoint;
  stream = stream;
  opcode = 0x01ba;
  fields = entry "values" nested end;
}

abbrev trace : Trace
trace = record {
  header = header;
  packets =
      packet "opening" Stream.opening
      ∷ packet "buy" (Stream.reply "buy")
      ∷ packet "again" Stream.opening
      ∷ [];
}

trace_accepted : validate_trace trace ≡ ok tt
unfolding validate_trace Packets.validate_characters Packets.named_characters Packets.to_set
    Packets.member guids Packets.validate_origin Packets.validate_provenance Packets.hex
    Packets.hex_char Packets.release_char Packets.contains_key Packets.known_character
    Packets.is_unnamed Packets.is_opening Packets.validate_character Packets.validate_order
    Packets.no_fields Packets.validate_stream Packets.validate_packet Packets.validate_packets
    Recorded.identifier Recorded.identifier_char Recorded.all_chars Recorded.validate
    Recorded.is_finite64
trace_accepted = refl

validate_trace-Prefixed_example : Prefixed header trace.packets
validate_trace-Prefixed_example = validate_trace-Prefixed trace trace_accepted

validate_trace-Distinct_example : Distinct (guids trace.header.characters)
validate_trace-Distinct_example = validate_trace-Distinct trace trace_accepted refl

-- The text of a packet is replaced by its digest.
recorded_text :
    record_trace
      (λ bytes. "digest")
      (λ n. n)
      header
      ((record {
        character = some "buyer";
        received_after_ms = some 5;
        checkpoint = "say";
        stream = Stream.unexpected;
        packet = record {
          opcode = 0x96;
          fields = Field.entry "text" (Field.text (104 ∷ 105 ∷ [])) Field.end;
        };
      })
        ∷ [])
    ≡ ok (record {
      header = header;
      packets =
          (record {
            character = some "buyer";
            received_after_ms = some 5;
            checkpoint = "say";
            stream = Stream.unexpected;
            opcode = 0x96;
            fields = entry "text" (Recorded.text_sha256 "digest") end;
          })
          ∷ [];
    })
unfolding record_trace Packets.record_packet Recorded.scrub validate_trace
    Packets.validate_characters Packets.named_characters Packets.to_set Packets.member guids
    Packets.validate_origin Packets.validate_provenance Packets.hex Packets.hex_char
    Packets.release_char Packets.contains_key Packets.known_character Packets.is_unnamed
    Packets.is_opening Packets.validate_character Packets.validate_order Packets.no_fields
    Packets.validate_stream Packets.validate_packet Packets.validate_packets Recorded.identifier
    Recorded.identifier_char Recorded.all_chars Recorded.validate Recorded.is_finite64
recorded_text = refl
