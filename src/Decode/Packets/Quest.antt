-- ===== src/Decode/Packets/Quest.antt =====
-- The packets of src/decode.rs that offer and describe quests.
use wire_harness.Prelude.{String, List, [], ◌∷◌, map}
use wire_harness.Decode.Field.{Field, Fields, list, object, end, insert, to_items}
use wire_harness.Decode.Body.{
  Parser, ◌>>=◌, pure, u8, u32, unsigned32, guid64, float32, put, put_each, collect, records,
  text_field,
}
use wire_harness.Decode.Stable.{Stable, stable_rules}

-- `let count = body.u32()?` before `body.records(count, names)`
unfoldable pub counted_records : List String → Parser Field
counted_records names = do count ← u32; records count names

-- 0x0183
unfoldable pub quest_status : Parser Fields
quest_status = do fs ← put "guid" guid64 end; put "status" unsigned32 fs

-- One quest of a greeting.
unfoldable pub quest_line : Parser Fields
quest_line = do
  fs ← put_each unsigned32 ("entry" ∷ "icon" ∷ "level" ∷ []) end
  put "title" text_field fs

-- 0x0185
unfoldable pub quest_list : Parser Fields
unfolding quest_line
quest_list = do
  fs ← put "guid" guid64 end
  fs ← put "greeting" text_field fs
  fs ← put_each unsigned32 ("emote_delay" ∷ "emote" ∷ []) fs
  count ← u8
  quests ← collect count quest_line
  pure (insert "quests" (list (to_items (map object quests))) fs)

-- 0x0188
unfoldable pub quest_details : Parser Fields
unfolding counted_records
quest_details = do
  fs ← put "guid" guid64 end
  fs ← put "entry" unsigned32 fs
  fs ← put_each text_field ("title" ∷ "details" ∷ "objectives" ∷ []) fs
  fs ← put "auto_finish" unsigned32 fs
  fs ←
      put_each (counted_records ("entry" ∷ "count" ∷ "display" ∷ [])) ("choices" ∷ "rewards" ∷ [])
        fs
  fs ← put_each unsigned32 ("money" ∷ "spell" ∷ []) fs
  put "emotes" (counted_records ("emote" ∷ "delay" ∷ [])) fs

abbrev quest_numbers : List String
quest_numbers =
    "entry" ∷ "method" ∷ "level" ∷ "zone" ∷ "type" ∷ "reputation_faction" ∷ "reputation_value"
    ∷ "opposite_faction" ∷ "opposite_value" ∷ "next_quest" ∷ "money" ∷ "money_max_level" ∷ "spell"
    ∷ "source_item" ∷ "flags" ∷ []

-- 0x005d
unfoldable pub quest_query : Parser Fields
quest_query = do
  fs ← put_each unsigned32 quest_numbers end
  fs ← put "rewards" (records 4 ("entry" ∷ "count" ∷ [])) fs
  fs ← put "choices" (records 6 ("entry" ∷ "count" ∷ [])) fs
  fs ← put "point_map" unsigned32 fs
  fs ← put "point_x" float32 fs
  fs ← put "point_y" float32 fs
  fs ← put "point_option" unsigned32 fs
  fs ← put_each text_field ("title" ∷ "objectives" ∷ "details" ∷ "end" ∷ []) fs
  fs ←
      put "requirements" (records 4 ("creature" ∷ "creature_count" ∷ "item" ∷ "item_count" ∷ [])) fs
  objectives ← collect 4 text_field
  pure (insert "objective_text" (list (to_items objectives)) fs)

pub Stable-counted_records : (names : List String) → Stable (counted_records names)
unfolding counted_records
Stable-counted_records names = search stable_rules depth 20

pub Stable-quest_status : Stable quest_status
unfolding quest_status
Stable-quest_status = search stable_rules depth 20

Stable-quest_line : Stable quest_line
unfolding quest_line
Stable-quest_line = search stable_rules depth 20

pub Stable-quest_list : Stable quest_list
unfolding quest_list
Stable-quest_list = search (stable_rules, Stable-quest_line) depth 20

pub Stable-quest_details : Stable quest_details
unfolding quest_details
Stable-quest_details = search (stable_rules, Stable-counted_records) depth 30

pub Stable-quest_query : Stable quest_query
unfolding quest_query
Stable-quest_query = search stable_rules depth 40
