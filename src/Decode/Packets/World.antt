-- ===== src/Decode/Packets/World.antt =====
-- World-state and weather packets of src/decode.rs.
use wire_harness.Prelude.{◌^◌, Bool, true, false, Option, some, map, leb, ◌==◌, ◌&&◌, ◌||◌, not}
use wire_harness.Decode.Field.{
  Field, Fields, unsigned, float, list, object, end, insert, lookup, to_items,
}
use wire_harness.Decode.Body.{
  Parser, ◌>>=◌, ◌>>◌, pure, ensure, ensure_room, world_state_count, weather_clear, weather_instant,
  u8, u16, unsigned32, signed32, float32, put, collect,
}
use wire_harness.Decode.Stable.{Stable, stable_rules}

world_state : Parser Fields
world_state = do fs ← put "id" unsigned32 end; put "value" signed32 fs

-- 0x02c2
unfoldable pub world_states : Parser Fields
unfolding world_state
world_states = do
  fs ← put "map" unsigned32 end
  fs ← put "zone" unsigned32 fs
  count ← u16
  ensure_room true count 8 world_state_count
  states ← collect count world_state
  pure (insert "states" (list (to_items (map object states))) fs)

-- `field == Field::Unsigned(0)`
is_unsigned_zero : Option Field → Bool
is_unsigned_zero (some (unsigned n)) = n == 0
is_unsigned_zero _ = false

-- `field == Field::Float(0.0)`, which holds of both zeros
is_float_zero : Option Field → Bool
is_float_zero (some (float bits)) = bits == 0 || bits == 2 ^ 31
is_float_zero _ = false

-- Weather type 0 comes with grade and sound 0.
unfoldable pub weather_consistent : Fields → Bool
unfolding is_unsigned_zero is_float_zero
weather_consistent fs =
    not (is_unsigned_zero (lookup "weather_type" fs))
    || (is_float_zero (lookup "grade" fs) && is_unsigned_zero (lookup "sound" fs))

-- 0x02f4
unfoldable pub weather : Parser Fields
unfolding weather_consistent
weather = do
  fs ← put "weather_type" unsigned32 end
  fs ← put "grade" float32 fs
  fs ← put "sound" unsigned32 fs
  ensure (weather_consistent fs) weather_clear
  instant ← u8
  ensure (leb instant 1) weather_instant
  pure (insert "instant" (unsigned instant) fs)

Stable-world_state : Stable world_state
unfolding world_state
Stable-world_state = search stable_rules depth 20

pub Stable-world_states : Stable world_states
unfolding world_states
Stable-world_states = search (stable_rules, Stable-world_state) depth 20

pub Stable-weather : Stable weather
unfolding weather
Stable-weather = search stable_rules depth 20
