-- ===== src/Scenario/Classified.antt =====
-- What src/scenario.rs keeps of a received packet.
use wire_harness.Prelude.{ℕ, ◌≡◌, ◌≢◌, ◌⊎◌, String, Option, some, Result, ok, err}
use wire_harness.Decode.Field.{Packet, end}
use wire_harness.Decode.Body
use wire_harness.Trace.Packets
use wire_harness.Trace.Packets.{Stream, Observation}
use wire_harness.Scenario.Steps.{SessionAction, connect, reconnect, Step}

-- A step declares no opening and nothing malformed.
unfoldable Declarable : Stream → Type 0
Declarable Packets.opening = ⊥
Declarable Packets.malformed = ⊥
Declarable _ = Unit

-- `opcode` is kept as `kept`: a compressed update is kept as the update it is.
unfoldable pub KeptAs : ℕ → ℕ → Type 0
KeptAs opcode kept = ((opcode ≡ 0x01f6) × (kept ≡ 0x00a9)) ⊎ ((opcode ≢ 0x01f6) × (kept ≡ opcode))

-- The action connects a Character.
unfoldable pub Connects : Option SessionAction → Type 0
Connects (some connect) = Unit
Connects (some reconnect) = Unit
Connects _ = ⊥

-- What a kept stream and packet tell: what the step `declares`, for an opening whether the Character
-- is that of the step and connects, and the packet as it is `decoded`.
unfoldable pub Classified :
    (Stream → Type 0) → Option String → Step → Result Body.Error Packet → Stream → Packet → Type 0
unfolding Connects
Classified declares character step decoded Packets.opening p =
    declares Packets.unexpected × ((character ≡ step.character) × Connects step.action)
Classified declares character step decoded (Packets.reply id) p =
    declares (Packets.reply id) × (decoded ≡ ok p)
Classified declares character step decoded (Packets.broadcast id) p =
    declares (Packets.broadcast id) × (decoded ≡ ok p)
Classified declares character step decoded Packets.unexpected p =
    declares Packets.unexpected × ((p.fields ≡ end) ⊎ (decoded ≡ ok p))
Classified declares character step decoded Packets.malformed p =
    (p.fields ≡ end) × ((e : Body.Error) × (decoded ≡ err e))
