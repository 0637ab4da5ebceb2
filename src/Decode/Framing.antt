-- ===== src/Decode/Framing.antt =====
-- `decode` does not depend on what follows the packet that it reads.
use wire_harness.Prelude.{
  ℕ, ◌≡◌, ◌≢◌, refl, Bool-cases, inl, inr, List, [], ◌∷◌, ◌++◌, All, ◌==◌, Result-cases, ok, err,
  arith,
}
use wire_harness.Decode.Field.{Fields, Packet}
use wire_harness.Decode.Body.{unsupported, trailing}
use wire_harness.Decode.Stable.{Stable, Stable-fail}
use wire_harness.Decode.Dispatch.{Arm, select, arms, decode_plain}
use wire_harness.Decode.Packets.Vendor.{
  Stable-list_inventory, Stable-buy_item, Stable-buy_failed, Stable-sell_item, Stable-item_push,
  Stable-buy_bank_slot, Stable-buy_bank_slot_result,
}
use wire_harness.Decode.Packets.Chat.{
  Stable-message_chat, Stable-name_query, Stable-emote, Stable-random_roll,
}
use wire_harness.Decode.Packets.Reward.{
  Stable-offer_reward, Stable-request_items, Stable-quest_complete, Stable-xp_gain,
}
use wire_harness.Decode.Packets.Quest.{
  Stable-quest_status, Stable-quest_list, Stable-quest_details, Stable-quest_query,
}
use wire_harness.Decode.Packets.Character.{
  Stable-faction_standings, Stable-initial_spells, Stable-teleport_ack, Stable-teleport,
  Stable-verify_world, Stable-pong, Stable-query_time, Stable-run_speed, Stable-root_change,
  Stable-client_control, Stable-object_guid,
}
use wire_harness.Decode.Packets.Spell.{
  Stable-spell_execute, Stable-spell_failed_other, Stable-spell_damage, Stable-spell_cast,
}
use wire_harness.Decode.Packets.World.{Stable-world_states, Stable-weather}
use wire_harness.Decode.Packets.Combat.{
  Stable-empty_body, Stable-ai_reaction, Stable-attack_start, Stable-attack_stop,
  Stable-attacker_state, Stable-single_result,
}
use wire_harness.Decode.Packets.Taxi.{
  Stable-taxi_node_status, Stable-taxi_menu, Stable-monster_move,
}
use wire_harness.Decode.Packets.Update.{Stable-update_object}

infixr 20 ◌▹◌
abbrev ◌▹◌ {ℓ κ} : {A : Type ℓ} {B : Type κ} → A → B → A × B
a ▹ b = (a, b)

-- SMSG_CAST_RESULT, the one packet whose fields depend on whether bytes are left.
abbrev pub cast_result_opcode : ℕ
cast_result_opcode = 0x0130

select-Stable :
    (opcode : ℕ) (table : List Arm)
    → opcode ≢ cast_result_opcode
    → All (λ arm. arm.0 ≢ cast_result_opcode → Stable arm.1) table
    → Stable (select opcode table)
unfolding select
select-Stable opcode [] h k = Stable-fail unsupported
select-Stable opcode ((o, m) ∷ table) h k = elim (Bool-cases (opcode == o)) [
  | inl e ↦ rw e (k.0 (λ p. h (ground (arith, e))))
  | inr e ↦ rw e (select-Stable opcode table h k.1)
]

arms-Stable : All (λ arm. arm.0 ≢ cast_result_opcode → Stable arm.1) arms
unfolding arms
arms-Stable =
    (λ _. Stable-list_inventory)
    ▹ (λ _. Stable-buy_item)
    ▹ (λ _. Stable-buy_failed)
    ▹ (λ _. Stable-sell_item)
    ▹ (λ _. Stable-item_push)
    ▹ (λ _. Stable-buy_bank_slot)
    ▹ (λ _. Stable-buy_bank_slot_result)
    ▹ (λ _. Stable-message_chat)
    ▹ (λ _. Stable-name_query)
    ▹ (λ _. Stable-emote)
    ▹ (λ _. Stable-random_roll)
    ▹ (λ _. Stable-offer_reward)
    ▹ (λ _. Stable-request_items)
    ▹ (λ _. Stable-quest_complete)
    ▹ (λ _. Stable-xp_gain)
    ▹ (λ _. Stable-quest_status)
    ▹ (λ _. Stable-quest_list)
    ▹ (λ _. Stable-quest_details)
    ▹ (λ _. Stable-quest_query)
    ▹ (λ _. Stable-faction_standings)
    ▹ (λ _. Stable-initial_spells)
    ▹ (λ _. Stable-teleport_ack)
    ▹ (λ _. Stable-teleport)
    ▹ (λ _. Stable-verify_world)
    ▹ (λ _. Stable-pong)
    ▹ (λ _. Stable-query_time)
    ▹ (λ _. Stable-run_speed)
    ▹ (λ _. Stable-root_change)
    ▹ (λ _. Stable-root_change)
    ▹ (λ _. Stable-client_control)
    ▹ (λ _. Stable-object_guid)
    ▹ (λ _. Stable-object_guid)
    ▹ (λ _. Stable-spell_execute)
    ▹ (λ h. absurd (h refl))
    ▹ (λ _. Stable-spell_failed_other)
    ▹ (λ _. Stable-spell_damage)
    ▹ (λ _. Stable-spell_cast 0x0131)
    ▹ (λ _. Stable-spell_cast 0x0132)
    ▹ (λ _. Stable-world_states)
    ▹ (λ _. Stable-weather)
    ▹ (λ _. Stable-empty_body)
    ▹ (λ _. Stable-empty_body)
    ▹ (λ _. Stable-empty_body)
    ▹ (λ _. Stable-ai_reaction)
    ▹ (λ _. Stable-attack_start)
    ▹ (λ _. Stable-attack_stop)
    ▹ (λ _. Stable-attacker_state)
    ▹ (λ _. Stable-single_result)
    ▹ (λ _. Stable-single_result)
    ▹ (λ _. Stable-single_result)
    ▹ (λ _. Stable-taxi_node_status)
    ▹ (λ _. Stable-taxi_menu)
    ▹ (λ _. Stable-monster_move)
    ▹ (λ _. Stable-update_object)
    ▹ tt

-- Every other packet is read to a fixed end.
packet-Stable : (opcode : ℕ) → opcode ≢ cast_result_opcode → Stable (select opcode arms)
packet-Stable opcode h = select-Stable opcode arms h arms-Stable

pub decode_plain-inv :
    (opcode : ℕ) (body : List ℕ) (p : Packet)
    → decode_plain opcode body ≡ ok p
    → (select opcode arms body ≡ ok (p.fields, [])) × (p.opcode ≡ opcode)
unfolding decode_plain
decode_plain-inv opcode body p h = elim (Result-cases (select opcode arms body)) [
  | inl ((fs, []), e) ↦ ground (arith, e)
  | inl ((fs, b ∷ rest), e) ↦ ground (arith, e)
  | inr (x, e) ↦ ground (arith, e)
]

decode_plain-trailing :
    (opcode : ℕ) (body : List ℕ) (fs : Fields) (b : ℕ) (rest : List ℕ)
    → select opcode arms body ≡ ok (fs, b ∷ rest)
    → decode_plain opcode body ≡ err trailing
unfolding decode_plain
decode_plain-trailing opcode body fs b rest h = ground (arith, h)

-- A body that `decode_plain` decodes, with bytes added behind it, is refused by it as having trailing
-- bytes, for every opcode but that of SMSG_CAST_RESULT, whose length depends on the bytes there are.
-- The compressed update 0x01f6 is the other exception: it is read by `decode` before `decode_plain`,
-- which refuses its opcode, and the theorem says nothing of it.
pub decode_plain-append :
    (opcode : ℕ) (body : List ℕ) (p : Packet) (b : ℕ) (more : List ℕ)
    → opcode ≢ cast_result_opcode
    → decode_plain opcode body ≡ ok p
    → decode_plain opcode (body ++ b ∷ more) ≡ err trailing
decode_plain-append opcode body p b more n h =
    decode_plain-trailing opcode (body ++ b ∷ more) p.fields b more (
      (packet-Stable opcode n).widen body p.fields [] (b ∷ more)
        (decode_plain-inv opcode body p h).0)
