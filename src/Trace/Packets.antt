-- ===== src/Trace/Packets.antt =====
-- `Header`, `Trace::record` and `Trace::validate` of src/trace.rs; `Stream` and `Observation` of
-- src/scenario.rs.
use wire_harness.Prelude.{
  ℕ, Bool, true, false, ◌&&◌, ◌||◌, not, ltb, leb, ◌==◌, List, [], ◌∷◌, map, String, length, Option,
  none, some, Result, ok, ◌>>=◌, ◌>>◌, ensure, if◌then◌else◌,
}
use package.text.Mathlib.Text.{◌==◌ as str_eq}
use Prim.Native.String.{len}
use Prim.Native.Char.{Char, code}
use wire_harness.Decode.Field.{Packet}
use wire_harness.Trace.Recorded
use wire_harness.Trace.Recorded.{
  Error, RecordedFields, identifier, all_chars, validate_fields, scrub_fields,
}

pub data Stream : Type 0 where
  opening : Stream
  reply : String → Stream
  broadcast : String → Stream
  unexpected : Stream
  malformed : Stream

pub record Observation : Type 0 where
  pub character : Option String
  pub received_after_ms : Option ℕ
  pub checkpoint : String
  pub stream : Stream
  pub packet : Packet

pub record Provenance : Type 0 where
  pub server : String
  pub binary_release : String
  pub binary_sha256 : String
  pub source_commit : String
  pub database_commit : String

pub data Origin : Type 0 where
  golden : Provenance → Origin
  candidate : String → Origin

-- `characters` holds the entries of the map, one for each name.
pub record Header : Type 0 where
  pub schema_version : ℕ
  pub character_guid : ℕ
  pub characters : List (String × ℕ)
  pub scenario : String
  pub behavior : String
  pub scenario_sha256 : String
  pub recorded_at_unix_ms : ℕ
  pub origin : Origin

pub record RecordedPacket : Type 0 where
  pub character : Option String
  pub received_after_ms : Option ℕ
  pub checkpoint : String
  pub stream : Stream
  pub opcode : ℕ
  pub fields : RecordedFields

-- The checks of rolls that a trace may hold are read by neither function below.
pub record Trace : Type 0 where
  pub header : Header
  pub packets : List RecordedPacket

unfoldable pub hex_char : Char → Bool
hex_char c = (leb 48 (code c) && leb (code c) 57) || (leb 97 (code c) && leb (code c) 102)

unfoldable pub hex : String → ℕ → Bool
unfolding hex_char all_chars
hex value length = len value == length && all_chars hex_char value

-- ASCII letters and digits, and `._/-`
unfoldable pub release_char : Char → Bool
release_char c =
    (leb 48 (code c) && leb (code c) 57)
    || (leb 65 (code c) && leb (code c) 90)
    || (leb 97 (code c) && leb (code c) 122)
    || code c == 46
    || code c == 95
    || code c == 47
    || code c == 45

unfoldable pub validate_provenance : Provenance → Result Error (Unit {0})
unfolding hex release_char all_chars identifier
validate_provenance p = do
  ensure (identifier p.server) Recorded.server
  ensure
      (ltb 0 (len p.binary_release)
        && leb (len p.binary_release) 160
        && all_chars release_char p.binary_release)
      Recorded.release
  ensure (hex p.source_commit 40) Recorded.source_commit
  ensure (hex p.database_commit 40) Recorded.database_commit

unfoldable pub named_characters : List (String × ℕ) → Bool
named_characters [] = true
named_characters ((id, guid) ∷ more) = identifier id && not (guid == 0) && named_characters more

unfoldable pub member : ℕ → List ℕ → Bool
member n [] = false
member n (m ∷ ms) = n == m || member n ms

-- `collect::<BTreeSet<_>>()`
unfoldable pub to_set : List ℕ → List ℕ
unfolding member
to_set [] = []
to_set (n ∷ ns) = let set = to_set ns in if member n set then set else n ∷ set

unfoldable pub guids : List (String × ℕ) → List ℕ
guids [] = []
guids ((id, guid) ∷ more) = guid ∷ guids more

unfoldable pub contains_key : String → List (String × ℕ) → Bool
contains_key id [] = false
contains_key id ((name, guid) ∷ more) = str_eq name id || contains_key id more

unfoldable pub validate_characters : Header → Result Error (Unit {0})
unfolding named_characters to_set guids
validate_characters h =
    if h.schema_version == 3 then ensure (length h.characters == 0) Recorded.named else (do
      ensure (h.character_guid == 0 && leb 1 (length h.characters) && leb (length h.characters) 16)
          Recorded.guid_count
      ensure (named_characters h.characters) Recorded.character_guid
      ensure (length (to_set (guids h.characters)) == length h.characters) Recorded.distinct)

unfoldable pub validate_origin : Origin → Result Error (Unit {0})
unfolding validate_provenance
validate_origin (golden p) = validate_provenance p
validate_origin (candidate adapter) = ensure (identifier adapter) Recorded.adapter

unfoldable pub known_character : Header → Option String → Bool
unfolding contains_key
known_character h none = false
known_character h (some id) = contains_key id h.characters

unfoldable pub is_unnamed : Option String → Bool
is_unnamed none = true
is_unnamed (some id) = false

unfoldable pub is_opening : Stream → Bool
is_opening opening = true
is_opening _ = false

-- The tests on the character that a packet names.
unfoldable pub validate_character : Header → RecordedPacket → Result Error (Unit {0})
unfolding known_character is_unnamed
validate_character h p =
    if h.schema_version == 4
    then ensure (known_character h p.character) Recorded.unknown_character
    else ensure (is_unnamed p.character) Recorded.named_packet

-- `started` after a packet, when it may stand there.
unfoldable pub validate_order : Header → Bool → RecordedPacket → Result Error Bool
unfolding is_opening
validate_order h started p =
    if str_eq p.checkpoint "opening"
    then (do ensure (not started && is_opening p.stream) Recorded.opening_order; ok started)
    else (do
      ensure (not (is_opening p.stream) || h.schema_version == 4) Recorded.opening_order
      ok true)

unfoldable pub no_fields : RecordedFields → Bool
no_fields Recorded.end = true
no_fields (Recorded.entry name r fs) = false

unfoldable pub validate_stream : RecordedPacket → Stream → Result Error (Unit {0})
unfolding no_fields
validate_stream p opening = ok tt
validate_stream p (reply id) = ensure (str_eq id p.checkpoint) Recorded.reply_checkpoint
validate_stream p (broadcast id) = ensure (identifier id) Recorded.stream_name
validate_stream p malformed = ensure (no_fields p.fields) Recorded.malformed_fields
validate_stream p unexpected = ok tt

-- The body of the loop over the packets.
unfoldable pub validate_packet : Header → Bool → RecordedPacket → Result Error Bool
unfolding validate_character validate_order validate_stream validate_fields
validate_packet h started p = do
  validate_character h p
  ensure (identifier p.checkpoint) Recorded.checkpoint
  now_started ← validate_order h started p
  validate_stream p p.stream
  validate_fields 0 p.fields
  ok now_started

unfoldable pub validate_packets : Header → Bool → List RecordedPacket → Result Error (Unit {0})
unfolding validate_packet
validate_packets h started [] = ok tt
validate_packets h started (p ∷ ps) = do
  now_started ← validate_packet h started p
  validate_packets h now_started ps

unfoldable pub validate_trace : Trace → Result Error (Unit {0})
unfolding validate_characters validate_origin validate_packets
validate_trace t = do
  ensure (t.header.schema_version == 3 || t.header.schema_version == 4) Recorded.schema
  validate_characters t.header
  ensure (identifier t.header.scenario && identifier t.header.behavior) Recorded.identity
  validate_origin t.header.origin
  ensure (leb (length t.packets) 65536) Recorded.packet_count
  validate_packets t.header false t.packets

module _ (digest : List ℕ → String) (widen : ℕ → ℕ) where
  unfoldable pub record_packet : Observation → RecordedPacket
  unfolding scrub_fields
  record_packet o = record {
    character = o.character;
    received_after_ms = o.received_after_ms;
    checkpoint = o.checkpoint;
    stream = o.stream;
    opcode = o.packet.opcode;
    fields = scrub_fields digest widen o.packet.fields;
  }

  -- `Trace::record`
  unfoldable pub record_trace : Header → List Observation → Result Error Trace
  unfolding record_packet validate_trace
  record_trace header observations = do
    let trace : Trace = record { header = header; packets = map record_packet observations }
    validate_trace trace
    ok trace
