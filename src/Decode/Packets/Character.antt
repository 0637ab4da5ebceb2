-- ===== src/Decode/Packets/Character.antt =====
-- The packets of src/decode.rs about a Character: standings, known spells, position, clock.
use wire_harness.Prelude.{[], ◌∷◌, ◌*◌, map, leb}
use wire_harness.Decode.Field.{Field, Fields, wall_clock_ms, list, object, end, insert, to_items}
use wire_harness.Decode.Body.{
  Parser, ◌>>=◌, ◌>>◌, pure, ensure, faction_count, u16, u32, unsigned8, unsigned16, unsigned32,
  signed16, signed32, guid64, float32, put, put_each, collect, packed_guid,
}
use wire_harness.Decode.Stable.{Stable, stable_rules}
use wire_harness.Decode.Movement.{movement_info, Stable-movement_info}
use wire_harness.Decode.Field.{extend}

standing : Parser Fields
standing = do fs ← put "index" unsigned32 end; put "standing" signed32 fs

-- 0x0124
unfoldable pub faction_standings : Parser Fields
unfolding standing
faction_standings = do
  count ← u32
  ensure (leb count 256) faction_count
  rows ← collect count standing
  pure (insert "standings" (list (to_items (map object rows))) end)

known_spell : Parser Fields
known_spell = do fs ← put "id" unsigned16 end; put "slot" signed16 fs

cooldown : Parser Fields
cooldown = do
  fs ← put_each unsigned16 ("spell" ∷ "item" ∷ "category" ∷ []) end
  put_each signed32 ("recovery" ∷ "category_recovery" ∷ []) fs

-- 0x012a
unfoldable pub initial_spells : Parser Fields
unfolding known_spell cooldown
initial_spells = do
  fs ← put "spec" unsigned8 end
  count ← u16
  spells ← collect count known_spell
  let fs = insert "spells" (list (to_items (map object spells))) fs
  count ← u16
  cooldowns ← collect count cooldown
  pure (insert "cooldowns" (list (to_items (map object cooldowns))) fs)

-- 0x00c7
unfoldable pub teleport_ack : Parser Fields
teleport_ack = do
  fs ← put "guid" packed_guid end
  fs ← put "counter" unsigned32 fs
  (movement, info) ← movement_info
  pure (extend fs info)

-- 0x00c5
unfoldable pub teleport : Parser Fields
teleport = do
  fs ← put "guid" packed_guid end
  (movement, info) ← movement_info
  pure (extend fs info)

-- 0x0236
unfoldable pub verify_world : Parser Fields
verify_world = do
  fs ← put "map" unsigned32 end
  put_each float32 ("x" ∷ "y" ∷ "z" ∷ "orientation" ∷ []) fs

-- 0x01dd
unfoldable pub pong : Parser Fields
pong = put "sequence" unsigned32 end

wall_clock : Parser Field
wall_clock = do seconds ← u32; pure (wall_clock_ms (seconds * 1000))

-- 0x01cf
unfoldable pub query_time : Parser Fields
unfolding wall_clock
query_time = put "time" wall_clock end

-- 0x0301
unfoldable pub run_speed : Parser Fields
run_speed = do fs ← put "guid" packed_guid end; put "speed" float32 fs

-- 0x030d and 0x030e
unfoldable pub root_change : Parser Fields
root_change = put "guid" packed_guid end

-- 0x0156
unfoldable pub client_control : Parser Fields
client_control = do fs ← put "guid" packed_guid end; put "enabled" unsigned8 fs

-- 0x00aa and 0x0215
unfoldable pub object_guid : Parser Fields
object_guid = put "guid" guid64 end

pub Stable-faction_standings : Stable faction_standings
unfolding faction_standings
Stable-faction_standings = search stable_rules depth 20

pub Stable-initial_spells : Stable initial_spells
unfolding initial_spells
Stable-initial_spells = search stable_rules depth 30

pub Stable-teleport_ack : Stable teleport_ack
unfolding teleport_ack
Stable-teleport_ack = search (stable_rules, Stable-movement_info) depth 20

pub Stable-teleport : Stable teleport
unfolding teleport
Stable-teleport = search (stable_rules, Stable-movement_info) depth 20

pub Stable-verify_world : Stable verify_world
unfolding verify_world
Stable-verify_world = search stable_rules depth 20

pub Stable-pong : Stable pong
unfolding pong
Stable-pong = search stable_rules

pub Stable-query_time : Stable query_time
unfolding query_time
Stable-query_time = search stable_rules depth 20

pub Stable-run_speed : Stable run_speed
unfolding run_speed
Stable-run_speed = search stable_rules depth 20

pub Stable-root_change : Stable root_change
unfolding root_change
Stable-root_change = search stable_rules

pub Stable-client_control : Stable client_control
unfolding client_control
Stable-client_control = search stable_rules depth 20

pub Stable-object_guid : Stable object_guid
unfolding object_guid
Stable-object_guid = search stable_rules
