-- ===== src/Decode/Packets/Combat.antt =====
-- The melee packets of src/decode.rs.
use wire_harness.Prelude.{◌==◌, [], ◌∷◌}
use wire_harness.Decode.Field.{Fields, end}
use wire_harness.Decode.Body.{
  Parser, ◌>>=◌, ◌>>◌, pure, ensure, melee_subrecord, u8, unsigned32, guid64, float32, put,
  put_each, packed_guid,
}
use wire_harness.Decode.Stable.{Stable, stable_rules}

-- 0x017e, 0x014e and 0x01af: a body with no field
unfoldable pub empty_body : Parser Fields
empty_body = pure end

-- 0x013c
unfoldable pub ai_reaction : Parser Fields
ai_reaction = do fs ← put "guid" guid64 end; put "reaction" unsigned32 fs

-- 0x0143
unfoldable pub attack_start : Parser Fields
attack_start = do fs ← put "attacker" guid64 end; put "victim" guid64 fs

-- 0x0144
unfoldable pub attack_stop : Parser Fields
attack_stop = do
  fs ← put "attacker" packed_guid end
  fs ← put "victim" packed_guid fs
  put "dead" unsigned32 fs

-- 0x014a
unfoldable pub attacker_state : Parser Fields
attacker_state = do
  fs ← put "hit_info" unsigned32 end
  fs ← put "attacker" packed_guid fs
  fs ← put "victim" packed_guid fs
  fs ← put "damage" unsigned32 fs
  count ← u8
  ensure (count == 1) melee_subrecord
  fs ← put "school" unsigned32 fs
  fs ← put "subdamage_float" float32 fs
  put_each unsigned32
      ("subdamage" ∷ "absorbed" ∷ "resisted" ∷ "victim_state" ∷ "unknown" ∷ "spell" ∷ "blocked"
        ∷ [])
      fs

-- 0x016e and 0x016f, and 0x01ae
unfoldable pub single_result : Parser Fields
single_result = put "result" unsigned32 end

pub Stable-empty_body : Stable empty_body
unfolding empty_body
Stable-empty_body = search stable_rules

pub Stable-ai_reaction : Stable ai_reaction
unfolding ai_reaction
Stable-ai_reaction = search stable_rules depth 20

pub Stable-attack_start : Stable attack_start
unfolding attack_start
Stable-attack_start = search stable_rules depth 20

pub Stable-attack_stop : Stable attack_stop
unfolding attack_stop
Stable-attack_stop = search stable_rules depth 20

pub Stable-attacker_state : Stable attacker_state
unfolding attacker_state
Stable-attacker_state = search stable_rules depth 30

pub Stable-single_result : Stable single_result
unfolding single_result
Stable-single_result = search stable_rules
