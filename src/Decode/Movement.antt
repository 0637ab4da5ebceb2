-- ===== src/Decode/Movement.antt =====
-- The structures of src/decode.rs that several packets share: `movement_info`, `targets`, `movement`.
use wire_harness.Prelude.{ℕ, List, [], ◌∷◌, String, has, if◌then◌else◌}
use wire_harness.Decode.Field.{Field, unsigned, object, Fields, end, insert, extend}
use wire_harness.Decode.Body.{
  Parser, ◌>>=◌, pure, u8, u16, u32, unsigned32, guid64, time32, float32, put, put_each, put_if,
  packed_guid, vector, vectors, text_field,
}
use wire_harness.Decode.Stable.{Stable, stable_rules}

transport : Fields → Parser Fields
transport fs = do
  fs ← put "transport_guid" guid64 fs
  fs ← put "transport_position" vector fs
  put "transport_orientation" float32 fs

-- `movement_info`: the movement flags, and what they call for.
unfoldable pub movement_info : Parser (ℕ × Fields)
unfolding transport
movement_info = do
  movement ← u32
  fs ← put "timestamp" unsigned32 (insert "flags" (unsigned movement) end)
  fs ← put "position" vector fs
  fs ← put "orientation" float32 fs
  fs ← if has movement 0x0200_0000 then transport fs else pure fs
  fs ← put_if (has movement 0x0020_0000) "pitch" float32 fs
  fs ← put "fall_time" time32 fs
  fs ←
      (if has movement 0x2000
        then put_each float32 ("jump_velocity" ∷ "jump_sin" ∷ "jump_cos" ∷ "jump_speed" ∷ []) fs
        else pure fs)
  fs ← put_if (has movement 0x0400_0000) "spline_elevation" float32 fs
  pure (movement, fs)

-- `targets`
unfoldable pub targets : Parser Field
targets = do
  flags ← u16
  fs ← put_if (has flags 0x0002) "unit" packed_guid (insert "flags" (unsigned flags) end)
  fs ← put_if (has flags 0x0880) "object" packed_guid fs
  fs ← put_if (has flags 0x1010) "item" packed_guid fs
  fs ← put_if (has flags 0x20) "source" vector fs
  fs ← put_if (has flags 0x40) "destination" vector fs
  fs ← put_if (has flags 0x2000) "text" text_field fs
  fs ← put_if (has flags 0x8200) "corpse" packed_guid fs
  pure (object fs)

facing : ℕ → Fields → Parser Fields
facing flags fs =
    if has flags 0x0004_0000
    then put "facing_angle" float32 fs
    else if has flags 0x0002_0000
    then put "facing_target" guid64 fs
    else if has flags 0x0001_0000
    then put "facing_point" vector fs
    else pure fs

spline : Fields → Parser Fields
unfolding facing
spline fs = do
  flags ← u32
  fs ← facing flags (insert "spline_flags" (unsigned flags) fs)
  fs ← put "elapsed" time32 fs
  fs ← put "duration" time32 fs
  fs ← put "spline_id" unsigned32 fs
  fs ← put "points" vectors fs
  put "destination" vector fs

abbrev speeds : List String
speeds =
    "walk_speed" ∷ "run_speed" ∷ "back_speed" ∷ "swim_speed" ∷ "swim_back_speed" ∷ "turn_rate" ∷ []

living : Fields → Parser Fields
unfolding movement_info spline
living fs = do
  (movement, info) ← movement_info
  fs ← put_each float32 speeds (extend fs info)
  if has movement 0x0040_0000 then spline fs else pure fs

placed : Fields → Parser Fields
placed fs = do fs ← put "position" vector fs; put "orientation" float32 fs

-- `movement`
unfoldable pub movement : Parser Field
unfolding living placed
movement = do
  flags ← u8
  let fs = insert "update_flags" (unsigned flags) end
  fs ← if has flags 0x20 then living fs else if has flags 0x40 then placed fs else pure fs
  fs ← put_if (has flags 0x08) "high_guid" unsigned32 fs
  fs ← put_if (has flags 0x10) "all" unsigned32 fs
  fs ← put_if (has flags 0x04) "target" packed_guid fs
  fs ← put_if (has flags 0x02) "transport_time" unsigned32 fs
  pure (object fs)

Stable-transport : (fs : Fields) → Stable (transport fs)
unfolding transport
Stable-transport fs = search stable_rules depth 20

pub Stable-movement_info : Stable movement_info
unfolding movement_info
Stable-movement_info = search (stable_rules, Stable-transport) depth 30

pub Stable-targets : Stable targets
unfolding targets
Stable-targets = search stable_rules depth 30

Stable-facing : (flags : ℕ) (fs : Fields) → Stable (facing flags fs)
unfolding facing
Stable-facing flags fs = search stable_rules depth 20

Stable-spline : (fs : Fields) → Stable (spline fs)
unfolding spline
Stable-spline fs = search (stable_rules, Stable-facing) depth 20

Stable-living : (fs : Fields) → Stable (living fs)
unfolding living
Stable-living fs = search (stable_rules, Stable-movement_info, Stable-spline) depth 20

Stable-placed : (fs : Fields) → Stable (placed fs)
unfolding placed
Stable-placed fs = search stable_rules depth 20

pub Stable-movement : Stable movement
unfolding movement
Stable-movement = search (stable_rules, Stable-living, Stable-placed) depth 30
