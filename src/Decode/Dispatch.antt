-- ===== src/Decode/Dispatch.antt =====
-- `decode` of src/decode.rs: the match on the opcode, the check that nothing is left of the body,
-- and the compressed form of an object update. The arms themselves are in Packets.
use wire_harness.Prelude.{
  ℕ, ◌+◌, ◌-◌, ◌*◌, Bool, ◌&&◌, Option, none, some, List, [], ◌∷◌, ◌==◌, leb, length, take, drop,
  from_le, Result, ok, err, if◌then◌else◌,
}
use wire_harness.Decode.Field.{Fields, Packet}
use wire_harness.Decode.Body.{
  Error, Parser, fail, unsupported, trailing, compressed_size, compressed_limit, compressed_failed,
  compressed_stream,
}
use wire_harness.Decode.Packets.Vendor.{
  list_inventory, buy_item, buy_failed, sell_item, item_push, buy_bank_slot, buy_bank_slot_result,
}
use wire_harness.Decode.Packets.Chat.{message_chat, name_query, emote, random_roll}
use wire_harness.Decode.Packets.Reward.{offer_reward, request_items, quest_complete, xp_gain}
use wire_harness.Decode.Packets.Quest.{quest_status, quest_list, quest_details, quest_query}
use wire_harness.Decode.Packets.Character.{
  faction_standings, initial_spells, teleport_ack, teleport, verify_world, pong, query_time,
  run_speed, root_change, client_control, object_guid,
}
use wire_harness.Decode.Packets.Spell.{
  spell_execute, cast_result, spell_failed_other, spell_damage, spell_cast,
}
use wire_harness.Decode.Packets.World.{world_states, weather}
use wire_harness.Decode.Packets.Combat.{
  empty_body, ai_reaction, attack_start, attack_stop, attacker_state, single_result,
}
use wire_harness.Decode.Packets.Taxi.{taxi_node_status, taxi_menu, monster_move}
use wire_harness.Decode.Packets.Update.{update_object}

abbrev pub Arm : Type 0
Arm = ℕ × Parser Fields

-- `match opcode`: no opcode stands in two arms.
unfoldable pub select : ℕ → List Arm → Parser Fields
select opcode [] = fail unsupported
select opcode ((o, m) ∷ arms) = if opcode == o then m else select opcode arms

unfoldable pub arms : List Arm
arms =
    (0x019f, list_inventory)
    ∷ (0x01a4, buy_item)
    ∷ (0x01a5, buy_failed)
    ∷ (0x01a1, sell_item)
    ∷ (0x0166, item_push)
    ∷ (0x01b8, buy_bank_slot)
    ∷ (0x01ba, buy_bank_slot_result)
    ∷ (0x0096, message_chat)
    ∷ (0x0051, name_query)
    ∷ (0x0103, emote)
    ∷ (0x01fb, random_roll)
    ∷ (0x018d, offer_reward)
    ∷ (0x018b, request_items)
    ∷ (0x0191, quest_complete)
    ∷ (0x01d0, xp_gain)
    ∷ (0x0183, quest_status)
    ∷ (0x0185, quest_list)
    ∷ (0x0188, quest_details)
    ∷ (0x005d, quest_query)
    ∷ (0x0124, faction_standings)
    ∷ (0x012a, initial_spells)
    ∷ (0x00c7, teleport_ack)
    ∷ (0x00c5, teleport)
    ∷ (0x0236, verify_world)
    ∷ (0x01dd, pong)
    ∷ (0x01cf, query_time)
    ∷ (0x0301, run_speed)
    ∷ (0x030d, root_change)
    ∷ (0x030e, root_change)
    ∷ (0x0156, client_control)
    ∷ (0x00aa, object_guid)
    ∷ (0x0215, object_guid)
    ∷ (0x024c, spell_execute)
    ∷ (0x0130, cast_result)
    ∷ (0x02a6, spell_failed_other)
    ∷ (0x0250, spell_damage)
    ∷ (0x0131, spell_cast 0x0131)
    ∷ (0x0132, spell_cast 0x0132)
    ∷ (0x02c2, world_states)
    ∷ (0x02f4, weather)
    ∷ (0x017e, empty_body)
    ∷ (0x014e, empty_body)
    ∷ (0x01af, empty_body)
    ∷ (0x013c, ai_reaction)
    ∷ (0x0143, attack_start)
    ∷ (0x0144, attack_stop)
    ∷ (0x014a, attacker_state)
    ∷ (0x016e, single_result)
    ∷ (0x016f, single_result)
    ∷ (0x01ae, single_result)
    ∷ (0x01ab, taxi_node_status)
    ∷ (0x01a9, taxi_menu)
    ∷ (0x00dd, monster_move)
    ∷ (0x00a9, update_object)
    ∷ []

-- The part of `decode` from `let mut body = Body(body)` on.
unfoldable pub decode_plain : ℕ → List ℕ → Result Error Packet
decode_plain opcode body = elim (select opcode arms body) [
  | err e ↦ err e
  | ok (fs, []) ↦ ok (record { opcode = opcode; fields = fs })
  | ok (fs, b ∷ rest) ↦ err trailing
]

-- What `decompress_vec` of flate2 leaves: whether it returned `Status::StreamEnd`, the output, and
-- `total_in`.
pub record Inflated : Type 0 where
  pub stream_end : Bool
  pub output : List ℕ
  pub total_in : ℕ

abbrev pub update_limit : ℕ
update_limit = 8 * 1024 * 1024

-- `inflate input capacity` stands for flate2, which is not part of the repository: its answer on
-- the compressed bytes with room for `capacity` bytes, or `none` for an error.
module _ (inflate : List ℕ → ℕ → Option Inflated) where
  -- What is done with the stream that was inflated.
  unfoldable pub decode_inflated : ℕ → ℕ → Option Inflated → Result Error Packet
  decode_inflated declared used none = err compressed_failed
  decode_inflated declared used (some r) =
      if r.stream_end && length r.output == declared && r.total_in == used
      then decode_plain 0x00a9 r.output
      else err compressed_stream

  -- 0x01f6
  unfoldable pub decode_compressed : List ℕ → Result Error Packet
  decode_compressed body =
      let declared = from_le (take 4 body) in
      if leb 4 (length body)
      then if leb declared update_limit
        then decode_inflated declared (length body - 4) (inflate (drop 4 body) (declared + 1))
        else err compressed_limit
      else err compressed_size

  -- `decode`
  unfoldable pub decode : ℕ → List ℕ → Result Error Packet
  decode opcode body = if opcode == 0x01f6 then decode_compressed body else decode_plain opcode body
