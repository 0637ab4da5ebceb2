-- ===== src/Scenario/Steps.antt =====
-- The steps of a scenario in src/scenario.rs, and the streams that their checkpoints declare.
use wire_harness.Prelude.{
  ℕ, Bool, false, ◌||◌, ◌==◌, List, [], ◌∷◌, String, Option, none, some, if◌then◌else◌,
}
use package.text.Mathlib.Text.{◌==◌ as str_eq}
use wire_harness.Trace.Recorded.{Recorded}
use wire_harness.Trace.Packets
use wire_harness.Trace.Packets.{Stream}
use wire_harness.Scenario.Packets.{ClientPacket}

-- Where a Character walks to, as bit patterns.
pub record Position : Type 0 where
  pub map : ℕ
  pub x : ℕ
  pub y : ℕ
  pub z : ℕ
  pub orientation : ℕ

pub data SessionAction : Type 0 where
  connect disconnect reconnect : SessionAction
  walk : Position → (speed : ℕ) → SessionAction

pub record TimedEvent : Type 0 where
  pub after_ms : ℕ
  pub character : String
  pub action : SessionAction

pub record Expectation : Type 0 where
  pub values_only : Bool
  pub opcode : ℕ
  pub path : List String
  pub value : Recorded
  pub count : ℕ

pub record Broadcast : Type 0 where
  pub opcode : ℕ
  pub stream : String

pub record CharacterCheckpoint : Type 0 where
  pub character : String
  pub replies : List ℕ
  pub broadcasts : List Broadcast
  pub expect : List Expectation
  pub creates : List String

pub record Checkpoint : Type 0 where
  pub expect : List Expectation
  pub window_ms : ℕ
  pub replies : List ℕ
  pub broadcasts : List Broadcast
  pub characters : List CharacterCheckpoint

pub record Step : Type 0 where
  pub id : String
  pub character : Option String
  pub send : Option ClientPacket
  pub action : Option SessionAction
  pub events : List TimedEvent
  pub checkpoint : Checkpoint

unfoldable pub has_opcode : ℕ → List ℕ → Bool
has_opcode n [] = false
has_opcode n (m ∷ ms) = m == n || has_opcode n ms

-- `find(|b| b.opcode == opcode)`
unfoldable pub find_broadcast : ℕ → List Broadcast → Option Broadcast
find_broadcast n [] = none
find_broadcast n (b ∷ bs) = let rest = find_broadcast n bs in if b.opcode == n then some b else rest

unfoldable pub broadcast_or_unexpected : Option Broadcast → Stream
broadcast_or_unexpected none = Packets.unexpected
broadcast_or_unexpected (some b) = Packets.broadcast b.stream

-- `CharacterCheckpoint::stream`
unfoldable pub character_stream : CharacterCheckpoint → String → ℕ → Stream
unfolding has_opcode find_broadcast broadcast_or_unexpected
character_stream c id opcode =
    if has_opcode opcode c.replies
    then Packets.reply id
    else broadcast_or_unexpected (find_broadcast opcode c.broadcasts)

-- `Checkpoint::stream`
unfoldable pub stream : Checkpoint → String → ℕ → Stream
unfolding has_opcode find_broadcast broadcast_or_unexpected
stream c id opcode =
    if has_opcode opcode c.replies
    then Packets.reply id
    else broadcast_or_unexpected (find_broadcast opcode c.broadcasts)

unfoldable pub find_character : String → List CharacterCheckpoint → Option CharacterCheckpoint
find_character id [] = none
find_character id (c ∷ cs) =
    let rest = find_character id cs in if str_eq c.character id then some c else rest

unfoldable pub for_character : Checkpoint → String → Option CharacterCheckpoint
unfolding find_character
for_character c id = find_character id c.characters

-- The stream under the capture of a Character, or the checkpoint's own.
unfoldable pub stream_or : Option CharacterCheckpoint → Checkpoint → String → ℕ → Stream
unfolding character_stream stream
stream_or none c id opcode = stream c id opcode
stream_or (some capture) c id opcode = character_stream capture id opcode

-- What a step declares about an opcode, for a Character.
unfoldable pub declared_stream : Step → Option String → ℕ → Stream
unfolding stream_or for_character
declared_stream step none opcode = stream_or none step.checkpoint step.id opcode
declared_stream step (some id) opcode =
    stream_or (for_character step.checkpoint id) step.checkpoint step.id opcode
