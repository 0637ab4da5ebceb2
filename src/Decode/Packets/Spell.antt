-- ===== src/Decode/Packets/Spell.antt =====
-- The spell packets of src/decode.rs.
use wire_harness.Prelude.{ℕ, [], ◌∷◌, map, leb, ◌==◌, has, if◌then◌else◌}
use wire_harness.Decode.Field.{Fields, unsigned, list, object, end, insert, to_items}
use wire_harness.Decode.Body.{
  Parser, ◌>>=◌, ◌>>◌, pure, ensure, effect_count, effect_kind, cast_result as cast_result_error,
  extended_flag, has_more, u8, u16, u32, unsigned8, unsigned32, signed32, guid64, time32, float32,
  put, put_if, collect, records, packed_guid,
}
use wire_harness.Decode.Stable.{Stable, stable_rules}
use wire_harness.Decode.Movement.{targets, Stable-targets}

execute_effect : Parser Fields
execute_effect = do
  kind ← u32
  ensure (kind == 24) effect_kind
  count ← u32
  put "items" (records count ("entry" ∷ [])) (insert "kind" (unsigned kind) end)

-- 0x024c
unfoldable pub spell_execute : Parser Fields
unfolding execute_effect
spell_execute = do
  fs ← put "caster" packed_guid end
  fs ← put "spell" unsigned32 fs
  count ← u32
  ensure (leb count 3) effect_count
  effects ← collect count execute_effect
  pure (insert "effects" (list (to_items (map object effects))) fs)

-- The reason of a failed cast, and up to two arguments where bytes are left.
cast_failure : Fields → Parser Fields
cast_failure fs = do
  fs ← put "reason" unsigned8 fs
  first ← has_more
  fs ← put_if first "argument_1" unsigned32 fs
  second ← has_more
  put_if second "argument_2" unsigned32 fs

-- 0x0130
unfoldable pub cast_result : Parser Fields
unfolding cast_failure
cast_result = do
  fs ← put "spell" unsigned32 end
  result ← u8
  ensure (leb result 2) cast_result_error
  let fs = insert "result" (unsigned result) fs
  if result == 2 then cast_failure fs else pure fs

-- 0x02a6
unfoldable pub spell_failed_other : Parser Fields
spell_failed_other = do fs ← put "guid" guid64 end; put "spell" unsigned32 fs

-- The rolls that an extended damage record carries.
unfoldable pub damage_rolls : ℕ → Fields → Parser Fields
damage_rolls flags fs = do
  fs ← put_if (has flags 1) "crit_roll" float32 fs
  fs ← put_if (has flags 1) "crit_needed" float32 fs
  fs ← put_if (has flags 4) "hit_roll" float32 fs
  put_if (has flags 4) "hit_needed" float32 fs

-- 0x0250
unfoldable pub spell_damage : Parser Fields
unfolding damage_rolls
spell_damage = do
  fs ← put "target" packed_guid end
  fs ← put "caster" packed_guid fs
  fs ← put "spell" unsigned32 fs
  fs ← put "damage" unsigned32 fs
  fs ← put "school" unsigned8 fs
  fs ← put "absorbed" unsigned32 fs
  fs ← put "resisted" signed32 fs
  fs ← put "periodic" unsigned8 fs
  fs ← put "unused" unsigned8 fs
  fs ← put "blocked" unsigned32 fs
  flags ← u32
  let fs = insert "hit_info" (unsigned flags) fs
  extended ← u8
  ensure (leb extended 1) extended_flag
  let fs = insert "extended" (unsigned extended) fs
  if extended == 1 then damage_rolls flags fs else pure fs

miss : Parser Fields
miss = do
  fs ← put "guid" guid64 end
  reason ← u8
  let fs = insert "reason" (unsigned reason) fs
  put_if (reason == 11) "reflect" unsigned8 fs

-- The hits and misses of a cast that was released.
cast_targets : Fields → Parser Fields
unfolding miss
cast_targets fs = do
  hits ← u8
  guids ← collect hits guid64
  let fs = insert "hits" (list (to_items guids)) fs
  misses ← u8
  rows ← collect misses miss
  pure (insert "misses" (list (to_items (map object rows))) fs)

-- 0x0131 and 0x0132
unfoldable pub spell_cast : ℕ → Parser Fields
unfolding cast_targets
spell_cast opcode = do
  fs ← put "cast_item" packed_guid end
  fs ← put "caster" packed_guid fs
  fs ← put "spell" unsigned32 fs
  flags ← u16
  let fs = insert "flags" (unsigned flags) fs
  fs ← if opcode == 0x0131 then put "duration" time32 fs else cast_targets fs
  fs ← put "targets" targets fs
  fs ← put_if (has flags 0x20) "ammo_display" unsigned32 fs
  put_if (has flags 0x20) "ammo_type" unsigned32 fs

Stable-execute_effect : Stable execute_effect
unfolding execute_effect
Stable-execute_effect = search stable_rules depth 20

pub Stable-spell_execute : Stable spell_execute
unfolding spell_execute
Stable-spell_execute = search (stable_rules, Stable-execute_effect) depth 20

pub Stable-spell_failed_other : Stable spell_failed_other
unfolding spell_failed_other
Stable-spell_failed_other = search stable_rules depth 20

Stable-damage_rolls : (flags : ℕ) (fs : Fields) → Stable (damage_rolls flags fs)
unfolding damage_rolls
Stable-damage_rolls flags fs = search stable_rules depth 20

pub Stable-spell_damage : Stable spell_damage
unfolding spell_damage
Stable-spell_damage = search (stable_rules, Stable-damage_rolls) depth 40

Stable-miss : Stable miss
unfolding miss
Stable-miss = search stable_rules depth 20

Stable-cast_targets : (fs : Fields) → Stable (cast_targets fs)
unfolding cast_targets
Stable-cast_targets fs = search (stable_rules, Stable-miss) depth 20

pub Stable-spell_cast : (opcode : ℕ) → Stable (spell_cast opcode)
unfolding spell_cast
Stable-spell_cast opcode = search (stable_rules, Stable-cast_targets, Stable-targets) depth 40
