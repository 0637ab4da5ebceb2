-- ===== src/Scenario/Observations.antt =====
-- `Observation` of src/scenario.rs: how a received packet is kept.
use wire_harness.Prelude.{
  ℕ, Bool, true, false, ◌&&◌, ◌||◌, not, ◌==◌, List, [], ◌∷◌, String, Option, none, some, Result,
  ok, err, if◌then◌else◌,
}
use package.text.Mathlib.Text.{◌==◌ as str_eq}
use wire_harness.Decode.Field.{Packet, end}
use wire_harness.Decode.Body
use wire_harness.Decode.Dispatch.{Inflated, decode}
use wire_harness.Trace.Packets
use wire_harness.Trace.Packets.{Stream, Observation}
use wire_harness.Scenario.Steps.{SessionAction, connect, reconnect, Step, declared_stream}

pub record UnexpectedPacketRule : Type 0 where
  pub name : String
  pub reason : String
  pub checkpoint : String
  pub character : Option String
  pub opcode : ℕ
  pub subject_guid_high : Option ℕ

unfoldable pub is_unexpected : Stream → Bool
is_unexpected Packets.unexpected = true
is_unexpected _ = false

unfoldable pub is_opening : Stream → Bool
is_opening Packets.opening = true
is_opening _ = false

-- `==` on the names of Characters
unfoldable pub same_character : Option String → Option String → Bool
same_character none none = true
same_character (some a) (some b) = str_eq a b
same_character _ _ = false

unfoldable pub is_connecting : Option SessionAction → Bool
is_connecting (some connect) = true
is_connecting (some reconnect) = true
is_connecting _ = false

-- `opcode == 0x01f6`: the compressed update is kept as the update it is.
unfoldable pub kept_opcode : ℕ → ℕ
kept_opcode opcode = if opcode == 0x01f6 then 0x00a9 else opcode

-- The stream that a step declares, or the opening of the Character that connects.
unfoldable pub observed_stream : Step → Option String → ℕ → Stream
unfolding declared_stream is_unexpected same_character is_connecting
observed_stream step character opcode =
    if is_unexpected (declared_stream step character opcode)
      && same_character character step.character
      && is_connecting step.action
    then Packets.opening
    else declared_stream step character opcode

unfoldable pub has_subject : Option ℕ → Bool
has_subject none = false
has_subject (some high) = true

unfoldable pub covers : Option String → Option String → Bool
unfolding same_character
covers none character = true
covers (some id) character = same_character (some id) character

-- Whether some rule filters the packet by its subject.
unfoldable pub is_filtered : Step → Option String → ℕ → List UnexpectedPacketRule → Bool
unfolding has_subject covers
is_filtered step character opcode [] = false
is_filtered step character opcode (r ∷ rs) =
    (str_eq r.checkpoint step.id
      && r.opcode == opcode
      && has_subject r.subject_guid_high
      && covers r.character character)
    || is_filtered step character opcode rs

abbrev pub bare : ℕ → Packet
bare opcode = record { opcode = opcode; fields = end }

-- `unwrap_or`
unfoldable pub packet_or : Result Body.Error Packet → Packet → Packet
packet_or (ok p) other = p
packet_or (err e) other = other

-- The last `match`: a packet that cannot be decoded is malformed.
unfoldable pub decoded_or_malformed : Result Body.Error Packet → Stream → ℕ → Stream × Packet
decoded_or_malformed (ok p) kept opcode = (kept, p)
decoded_or_malformed (err e) kept opcode = (Packets.malformed, bare opcode)

module _ (inflate : List ℕ → ℕ → Option Inflated) where
  -- `Observation::opening`
  unfoldable pub opening : ℕ → List ℕ → Observation
  unfolding decode packet_or
  opening opcode body = record {
    character = none;
    received_after_ms = none;
    checkpoint = "opening";
    stream = Packets.opening;
    packet = packet_or (decode inflate opcode body) (bare opcode);
  }

  -- The stream and the packet, under the stream that was declared.
  unfoldable pub keep : Stream → Bool → ℕ → ℕ → List ℕ → Stream × Packet
  unfolding is_unexpected is_opening decode packet_or decoded_or_malformed
  keep kept filtered wire_opcode opcode body =
      if is_unexpected kept && not (is_unexpected kept && filtered)
      then (kept, bare opcode)
      else if is_opening kept
      then (kept, packet_or (decode inflate wire_opcode body) (bare opcode))
      else decoded_or_malformed (decode inflate wire_opcode body) kept opcode

  -- `Observation::from_frame_for_rules`
  unfoldable pub from_frame_for_rules :
      Step → Option String → ℕ → List ℕ → List UnexpectedPacketRule → Observation
  unfolding kept_opcode observed_stream is_filtered keep
  from_frame_for_rules step character wire_opcode body rules =
      let opcode = kept_opcode wire_opcode in
      let kept =
        keep (observed_stream step character opcode) (is_filtered step character opcode rules)
          wire_opcode opcode body in
      record {
        character = character;
        received_after_ms = none;
        checkpoint = step.id;
        stream = kept.0;
        packet = kept.1;
      }

  -- `from_frame`, `from_frame_with_rules` and `from_frame_for`
  unfoldable pub from_frame : Step → ℕ → List ℕ → Observation
  unfolding from_frame_for_rules
  from_frame step opcode body = from_frame_for_rules step none opcode body []

  unfoldable pub from_frame_with_rules : Step → ℕ → List ℕ → List UnexpectedPacketRule → Observation
  unfolding from_frame_for_rules
  from_frame_with_rules step opcode body rules = from_frame_for_rules step none opcode body rules

  unfoldable pub from_frame_for : Step → Option String → ℕ → List ℕ → Observation
  unfolding from_frame_for_rules
  from_frame_for step character opcode body = from_frame_for_rules step character opcode body []
