-- ===== src/Scenario/Packets.antt =====
-- `ClientPacket` of src/scenario.rs and the bytes that a packet is sent as.
use wire_harness.Prelude.{
  ℕ, zero, suc, ◌+◌, ◌*◌, ◌/◌, ◌%◌, ◌^◌, not, ◌==◌, List, [], ◌∷◌, ◌++◌, String, Option, none, some,
  Result, ok, err, ensure, ◌>>=◌, ◌>>◌, bit_or, if◌then◌else◌,
}
use package.text.Mathlib.Text.{◌==◌ as str_eq}

pub data Target : Type 0 where
  character : Target
  named_character : String → Target
  fixture : String → Target

pub data ClientPacket : Type 0 where
  attack_swing : Target → ClientPacket
  attack_stop : ClientPacket
  ping : (sequence latency_ms : ℕ) → ClientPacket
  name_query taxi_node_status_query taxi_query_available_nodes : Target → ClientPacket
  activate_taxi : Target → (source destination : ℕ) → ClientPacket
  banker_activate questgiver_status questgiver_hello : Target → ClientPacket
  questgiver_query : Target → (entry : ℕ) → ClientPacket
  quest_query : (entry : ℕ) → ClientPacket
  quest_log_swap : (first second : ℕ) → ClientPacket
  quest_log_remove : (slot : ℕ) → ClientPacket
  list_inventory : Target → ClientPacket
  buy_item : Target → (entry count : ℕ) → ClientPacket
  buy_item_in_slot : Target → (entry slot count : ℕ) → ClientPacket
  sell_item : Target → (item : String) → (count : ℕ) → ClientPacket
  buyback_item : Target → (slot : ℕ) → ClientPacket
  questgiver_complete questgiver_request_reward questgiver_accept :
      Target → (entry : ℕ) → ClientPacket
  questgiver_choose_reward : Target → (entry choice : ℕ) → ClientPacket
  cast_spell : Option Target → (spell_id : ℕ) → ClientPacket
  cancel_cast : (spell_id : ℕ) → ClientPacket
  buy_bank_slot : Target → ClientPacket

unfoldable pub target : ClientPacket → Option Target
target attack_stop = none
target (ping sequence latency) = none
target (quest_query entry) = none
target (quest_log_swap first second) = none
target (quest_log_remove slot) = none
target (cancel_cast spell) = none
target (cast_spell t spell) = t
target (attack_swing t) = some t
target (name_query t) = some t
target (taxi_node_status_query t) = some t
target (taxi_query_available_nodes t) = some t
target (questgiver_status t) = some t
target (questgiver_hello t) = some t
target (questgiver_query t entry) = some t
target (list_inventory t) = some t
target (buy_item t entry count) = some t
target (buy_item_in_slot t entry slot count) = some t
target (sell_item t item count) = some t
target (buyback_item t slot) = some t
target (questgiver_complete t entry) = some t
target (questgiver_request_reward t entry) = some t
target (questgiver_accept t entry) = some t
target (questgiver_choose_reward t entry choice) = some t
target (banker_activate t) = some t
target (buy_bank_slot t) = some t
target (activate_taxi t source destination) = some t

unfoldable pub reply_opcode : ClientPacket → Option ℕ
reply_opcode (attack_swing t) = some 0x0143
reply_opcode attack_stop = some 0x0144
reply_opcode (ping sequence latency) = some 0x01dd
reply_opcode (name_query t) = some 0x0051
reply_opcode (taxi_node_status_query t) = some 0x01ab
reply_opcode (taxi_query_available_nodes t) = some 0x01a9
reply_opcode (activate_taxi t source destination) = some 0x01ae
reply_opcode (questgiver_status t) = some 0x0183
reply_opcode (questgiver_accept t entry) = some 0x017e
reply_opcode (quest_query entry) = some 0x005d
reply_opcode (banker_activate t) = some 0x01b8
reply_opcode _ = none

pub data Error : Type 0 where
  unbound_character unbound_creature unbound_item zero_target zero_item : Error

-- A `BTreeMap<String, u64>`
abbrev pub Guids : Type 0
Guids = List (String × ℕ)

unfoldable pub get_guid : String → Guids → Option ℕ
get_guid k [] = none
get_guid k ((j, g) ∷ m) = let rest = get_guid k m in if str_eq j k then some g else rest

unfoldable pub context : Option ℕ → Error → Result Error ℕ
context none e = err e
context (some n) e = ok n

-- `to_le_bytes`, of `n` bytes
unfoldable pub to_le : ℕ → ℕ → List ℕ
to_le zero v = []
to_le (suc n) v = v % 256 ∷ to_le n (v / 256)

-- `u8::from(*byte != 0)`
unfoldable pub bit_of : ℕ → ℕ
bit_of b = if b == 0 then 0 else 1

-- The fold over the bytes of a GUID, from the one at `i` on.
unfoldable pub guid_mask : ℕ → ℕ → List ℕ → ℕ
unfolding bit_of
guid_mask i mask [] = mask
guid_mask i mask (b ∷ bs) = guid_mask (i + 1) (bit_or mask (bit_of b * 2 ^ i)) bs

-- `filter(|byte| *byte != 0)`
unfoldable pub nonzero_bytes : List ℕ → List ℕ
nonzero_bytes [] = []
nonzero_bytes (b ∷ bs) = let rest = nonzero_bytes bs in if b == 0 then rest else b ∷ rest

-- The GUID of a spell's target.
unfoldable pub pack_guid : ℕ → List ℕ
unfolding to_le guid_mask nonzero_bytes
pack_guid g = guid_mask 0 0 (to_le 8 g) ∷ nonzero_bytes (to_le 8 g)

module _ (character_guid : ℕ) (fixtures characters : Guids) where
  unfoldable pub bind_target : Option Target → Result Error ℕ
  unfolding get_guid context
  bind_target none = ok 0
  bind_target (some character) = ok character_guid
  bind_target (some (named_character id)) = context (get_guid id characters) unbound_character
  bind_target (some (fixture id)) = context (get_guid id fixtures) unbound_creature

  unfoldable pub check_target : Option Target → ℕ → Result Error (Unit {0})
  check_target none g = ok tt
  check_target (some t) g = ensure (not (g == 0)) zero_target

  -- The bytes of a spell's target.
  unfoldable pub target_bytes : Option Target → ℕ → List ℕ
  unfolding pack_guid
  target_bytes none g = []
  target_bytes (some t) g = pack_guid g

  unfoldable pub target_flags : Option Target → ℕ
  target_flags none = 0
  target_flags (some t) = 2

  -- The last `match` of `encode_with`, on the GUID of the target.
  unfoldable pub encode_body : ClientPacket → ℕ → Result Error (ℕ × List ℕ)
  unfolding to_le get_guid context target_bytes target_flags
  encode_body (attack_swing t) g = ok (0x0141, to_le 8 g)
  encode_body attack_stop g = ok (0x0142, [])
  encode_body (ping sequence latency) g = ok (0x01dc, to_le 4 sequence ++ to_le 4 latency)
  encode_body (name_query t) g = ok (0x0050, to_le 8 g)
  encode_body (taxi_node_status_query t) g = ok (0x01aa, to_le 8 g)
  encode_body (taxi_query_available_nodes t) g = ok (0x01ac, to_le 8 g)
  encode_body (questgiver_status t) g = ok (0x0182, to_le 8 g)
  encode_body (questgiver_hello t) g = ok (0x0184, to_le 8 g)
  encode_body (questgiver_query t entry) g = ok (0x0186, to_le 8 g ++ to_le 4 entry)
  encode_body (questgiver_complete t entry) g = ok (0x018a, to_le 8 g ++ to_le 4 entry)
  encode_body (questgiver_accept t entry) g = ok (0x0189, to_le 8 g ++ to_le 4 entry)
  encode_body (questgiver_request_reward t entry) g = ok (0x018c, to_le 8 g ++ to_le 4 entry)
  encode_body (questgiver_choose_reward t entry choice) g =
      ok (0x018e, to_le 8 g ++ to_le 4 entry ++ to_le 4 choice)
  encode_body (cast_spell t spell) g =
      ok (0x012e, to_le 4 spell ++ to_le 2 (target_flags t) ++ target_bytes t g)
  encode_body (cancel_cast spell) g = ok (0x012f, to_le 4 spell)
  encode_body (quest_query entry) g = ok (0x005c, to_le 4 entry)
  encode_body (quest_log_swap first second) g = ok (0x0193, first ∷ second ∷ [])
  encode_body (quest_log_remove slot) g = ok (0x0194, slot ∷ [])
  encode_body (list_inventory t) g = ok (0x019e, to_le 8 g)
  encode_body (buy_item t entry count) g = ok (0x01a2, to_le 8 g ++ to_le 4 entry ++ count ∷ 0 ∷ [])
  encode_body (buy_item_in_slot t entry slot count) g =
      ok (0x01a3, to_le 8 g ++ to_le 4 entry ++ to_le 8 character_guid ++ slot ∷ count ∷ [])
  encode_body (sell_item t item count) g = do
    item_guid ← context (get_guid item fixtures) unbound_item
    ensure (not (item_guid == 0)) zero_item
    ok (0x01a0, to_le 8 g ++ to_le 8 item_guid ++ count ∷ [])
  encode_body (buyback_item t slot) g = ok (0x0290, to_le 8 g ++ to_le 4 slot)
  encode_body (banker_activate t) g = ok (0x01b7, to_le 8 g)
  encode_body (buy_bank_slot t) g = ok (0x01b9, to_le 8 g)
  encode_body (activate_taxi t source destination) g =
      ok (0x01ad, to_le 8 g ++ to_le 4 source ++ to_le 4 destination)

  -- `encode_with`: the opcode and the body.
  unfoldable pub encode_with : ClientPacket → Result Error (ℕ × List ℕ)
  unfolding bind_target check_target target encode_body
  encode_with p = do g ← bind_target (target p); check_target (target p) g; encode_body p g
