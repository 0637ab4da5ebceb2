-- ===== src/Decode/Packets/Taxi.antt =====
-- The taxi packets of src/decode.rs, and monster movement.
use wire_harness.Prelude.{ℕ, ◌-◌, ◌&&◌, ◌||◌, leb, ◌==◌, has, not, if◌then◌else◌}
use wire_harness.Decode.Field.{Fields, unsigned, list, end, insert, to_items}
use wire_harness.Decode.Body.{
  Parser, ◌>>=◌, ◌>>◌, pure, fail, ensure, taxi_status, taxi_menu as taxi_menu_error, monster_kind,
  linear_spline, u8, u32, unsigned32, guid64, time32, float32, put, collect, packed_guid, vector,
  vectors,
}
use wire_harness.Decode.Stable.{Stable, stable_rules}

-- 0x01ab
unfoldable pub taxi_node_status : Parser Fields
taxi_node_status = do
  fs ← put "guid" guid64 end
  known ← u8
  ensure (leb known 1) taxi_status
  pure (insert "known" (unsigned known) fs)

known_nodes : Fields → Parser Fields
known_nodes fs = do
  fs ← put "guid" guid64 fs
  fs ← put "node" unsigned32 fs
  nodes ← collect 8 unsigned32
  pure (insert "known_nodes" (list (to_items nodes)) fs)

-- 0x01a9
unfoldable pub taxi_menu : Parser Fields
unfolding known_nodes
taxi_menu = do
  show ← u32
  ensure (leb show 1) taxi_menu_error
  let fs = insert "show" (unsigned show) end
  if not (show == 0) then known_nodes fs else pure fs

monster_facing : ℕ → Fields → Parser Fields
monster_facing kind fs =
    if kind == 0 || kind == 1
    then pure fs
    else if kind == 2
    then put "facing_point" vector fs
    else if kind == 3
    then put "facing_target" guid64 fs
    else if kind == 4
    then put "facing_angle" float32 fs
    else fail monster_kind

linear_path : Fields → Parser Fields
linear_path fs = do
  count ← u32
  ensure (leb 1 count && leb count 4096) linear_spline
  fs ← put "destination" vector fs
  offsets ← collect (count - 1) unsigned32
  pure (insert "offsets" (list (to_items offsets)) fs)

monster_path : Fields → Parser Fields
unfolding linear_path
monster_path fs = do
  flags ← u32
  fs ← put "duration" time32 (insert "flags" (unsigned flags) fs)
  if has flags 0x200 then put "points" vectors fs else linear_path fs

-- 0x00dd
unfoldable pub monster_move : Parser Fields
unfolding monster_facing monster_path
monster_move = do
  fs ← put "guid" packed_guid end
  fs ← put "position" vector fs
  fs ← put "spline_id" unsigned32 fs
  kind ← u8
  fs ← monster_facing kind (insert "kind" (unsigned kind) fs)
  if not (kind == 1) then monster_path fs else pure fs

pub Stable-taxi_node_status : Stable taxi_node_status
unfolding taxi_node_status
Stable-taxi_node_status = search stable_rules depth 20

Stable-known_nodes : (fs : Fields) → Stable (known_nodes fs)
unfolding known_nodes
Stable-known_nodes fs = search stable_rules depth 20

pub Stable-taxi_menu : Stable taxi_menu
unfolding taxi_menu
Stable-taxi_menu = search (stable_rules, Stable-known_nodes) depth 20

Stable-monster_facing : (kind : ℕ) (fs : Fields) → Stable (monster_facing kind fs)
unfolding monster_facing
Stable-monster_facing kind fs = search stable_rules depth 20

Stable-linear_path : (fs : Fields) → Stable (linear_path fs)
unfolding linear_path
Stable-linear_path fs = search stable_rules depth 20

Stable-monster_path : (fs : Fields) → Stable (monster_path fs)
unfolding monster_path
Stable-monster_path fs = search (stable_rules, Stable-linear_path) depth 20

pub Stable-monster_move : Stable monster_move
unfolding monster_move
Stable-monster_move = search (stable_rules, Stable-monster_facing, Stable-monster_path) depth 20
