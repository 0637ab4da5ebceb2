-- ===== src/Decode/Packets/Update.antt =====
-- SMSG_UPDATE_OBJECT, 0x00a9, of src/decode.rs.
use wire_harness.Prelude.{ℕ, map, leb, ◌==◌, not, if◌then◌else◌}
use wire_harness.Decode.Field.{Fields, unsigned, list, object, end, insert, to_items}
use wire_harness.Decode.Body.{
  Parser, ◌>>=◌, ◌>>◌, pure, fail, ensure_room, object_count, guid_count, object_kind, u8, u32,
  unsigned8, put, put_if, collect, packed_guid, values,
}
use wire_harness.Decode.Stable.{Stable, stable_rules}
use wire_harness.Decode.Movement.{movement, Stable-movement}

-- Kinds 0 to 3: VALUES, MOVEMENT, CREATE and CREATE2.
unfoldable pub object_block : ℕ → Fields → Parser Fields
object_block kind fs = do
  fs ← put "guid" packed_guid fs
  fs ← put_if (leb 2 kind) "object_type" unsigned8 fs
  fs ← put_if (not (kind == 0)) "movement" movement fs
  put_if (not (kind == 1)) "values" values fs

-- Kinds 4 and 5: the GUIDs of objects out of and near range.
unfoldable pub guid_block : Fields → Parser Fields
guid_block fs = do
  count ← u32
  ensure_room (leb count 4096) count 1 guid_count
  guids ← collect count packed_guid
  pure (insert "guids" (list (to_items guids)) fs)

unfoldable pub update_block : Parser Fields
unfolding object_block guid_block
update_block = do
  kind ← u8
  let fs = insert "kind" (unsigned kind) end
  if leb kind 3
      then object_block kind fs
      else if leb kind 5
      then guid_block fs
      else fail object_kind

-- 0x00a9
unfoldable pub update_object : Parser Fields
unfolding update_block
update_object = do
  count ← u32
  ensure_room (leb count 4096) count 1 object_count
  fs ← put "has_transport" unsigned8 end
  objects ← collect count update_block
  pure (insert "objects" (list (to_items (map object objects))) fs)

Stable-object_block : (kind : ℕ) (fs : Fields) → Stable (object_block kind fs)
unfolding object_block
Stable-object_block kind fs = search (stable_rules, Stable-movement) depth 20

Stable-guid_block : (fs : Fields) → Stable (guid_block fs)
unfolding guid_block
Stable-guid_block fs = search stable_rules depth 20

pub Stable-update_block : Stable update_block
unfolding update_block
Stable-update_block = search (stable_rules, Stable-object_block, Stable-guid_block) depth 20

pub Stable-update_object : Stable update_object
unfolding update_object
Stable-update_object = search (stable_rules, Stable-update_block) depth 20
