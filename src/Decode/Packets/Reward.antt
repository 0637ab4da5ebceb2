-- ===== src/Decode/Packets/Reward.antt =====
-- The packets of src/decode.rs that complete quests and reward them.
use wire_harness.Prelude.{[], ◌∷◌, leb, ◌==◌, if◌then◌else◌}
use wire_harness.Decode.Field.{Fields, unsigned, end, insert}
use wire_harness.Decode.Body.{
  Parser, ◌>>=◌, ◌>>◌, pure, ensure, xp_kind, u8, unsigned32, guid64, float32, put, put_each,
  text_field,
}
use wire_harness.Decode.Stable.{Stable, stable_rules}
use wire_harness.Decode.Packets.Quest.{counted_records, Stable-counted_records}

-- 0x018d
unfoldable pub offer_reward : Parser Fields
offer_reward = do
  fs ← put "guid" guid64 end
  fs ← put "entry" unsigned32 fs
  fs ← put "title" text_field fs
  fs ← put "text" text_field fs
  fs ← put "auto_finish" unsigned32 fs
  fs ← put "emotes" (counted_records ("delay" ∷ "emote" ∷ [])) fs
  fs ← put "choices" (counted_records ("entry" ∷ "count" ∷ "display" ∷ [])) fs
  fs ← put "rewards" (counted_records ("entry" ∷ "count" ∷ "display" ∷ [])) fs
  put_each unsigned32 ("money" ∷ "flags" ∷ "spell" ∷ []) fs

-- 0x018b
unfoldable pub request_items : Parser Fields
request_items = do
  fs ← put "guid" guid64 end
  fs ← put "entry" unsigned32 fs
  fs ← put "title" text_field fs
  fs ← put "text" text_field fs
  fs ← put_each unsigned32 ("delay" ∷ "emote" ∷ "close_on_cancel" ∷ "money" ∷ []) fs
  fs ← put "items" (counted_records ("entry" ∷ "count" ∷ "display" ∷ [])) fs
  put_each unsigned32 ("completion_1" ∷ "completion_2" ∷ "completion_3" ∷ "completion_4" ∷ []) fs

-- 0x0191
unfoldable pub quest_complete : Parser Fields
quest_complete = do
  fs ← put_each unsigned32 ("entry" ∷ "unknown" ∷ "xp" ∷ "money" ∷ []) end
  put "rewards" (counted_records ("entry" ∷ "count" ∷ [])) fs

-- 0x01d0
unfoldable pub xp_gain : Parser Fields
xp_gain = do
  fs ← put "guid" guid64 end
  fs ← put "xp" unsigned32 fs
  kind ← u8
  ensure (leb kind 1) xp_kind
  let fs = insert "kind" (unsigned kind) fs
  if kind == 0 then (do fs ← put "base_xp" unsigned32 fs; put "group_bonus" float32 fs) else pure fs

pub Stable-offer_reward : Stable offer_reward
unfolding offer_reward
Stable-offer_reward = search (stable_rules, Stable-counted_records) depth 40

pub Stable-request_items : Stable request_items
unfolding request_items
Stable-request_items = search (stable_rules, Stable-counted_records) depth 40

pub Stable-quest_complete : Stable quest_complete
unfolding quest_complete
Stable-quest_complete = search (stable_rules, Stable-counted_records) depth 20

pub Stable-xp_gain : Stable xp_gain
unfolding xp_gain
Stable-xp_gain = search stable_rules depth 20
