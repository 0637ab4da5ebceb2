-- ===== src/Decode/Packets/Chat.antt =====
-- Chat, greeting and name packets of src/decode.rs.
use wire_harness.Prelude.{ℕ, [], ◌∷◌, ◌==◌, ◌||◌, if◌then◌else◌}
use wire_harness.Decode.Field.{Fields, unsigned, end, insert}
use wire_harness.Decode.Body.{
  Parser, ◌>>=◌, u8, unsigned8, unsigned32, guid64, put, put_each, text_field, counted_text,
}
use wire_harness.Decode.Stable.{Stable, stable_rules}

-- What stands between the language and the text, by the kind of message.
unfoldable pub chat_source : ℕ → Fields → Parser Fields
chat_source kind fs =
    if kind == 0 || kind == 1 || kind == 5
    then (do fs ← put "guid" guid64 fs; put "sender" guid64 fs)
    else if kind == 0x0b || kind == 0x0c
    then (do fs ← put "guid" guid64 fs; fs ← put "name" counted_text fs; put "target" guid64 fs)
    else if kind == 0x0d || kind == 0x1a
    then (do fs ← put "name" counted_text fs; put "target" guid64 fs)
    else if kind == 0x0e
    then (do fs ← put "channel" text_field fs; fs ← put "rank" unsigned32 fs; put "guid" guid64 fs)
    else put "guid" guid64 fs

-- 0x0096
unfoldable pub message_chat : Parser Fields
unfolding chat_source
message_chat = do
  kind ← u8
  fs ← put "language" unsigned32 (insert "kind" (unsigned kind) end)
  fs ← chat_source kind fs
  fs ← put "text" counted_text fs
  put "tag" unsigned8 fs

-- 0x0051
unfoldable pub name_query : Parser Fields
name_query = do
  fs ← put "guid" guid64 end
  fs ← put "name" text_field fs
  fs ← put "realm" text_field fs
  put_each unsigned32 ("race" ∷ "gender" ∷ "class" ∷ []) fs

-- 0x0103
unfoldable pub emote : Parser Fields
emote = do fs ← put "emote" unsigned32 end; put "guid" guid64 fs

-- 0x01fb
unfoldable pub random_roll : Parser Fields
random_roll = do
  fs ← put_each unsigned32 ("minimum" ∷ "maximum" ∷ "result" ∷ []) end
  put "guid" guid64 fs

Stable-chat_source : (kind : ℕ) (fs : Fields) → Stable (chat_source kind fs)
unfolding chat_source
Stable-chat_source kind fs = search stable_rules depth 30

pub Stable-message_chat : Stable message_chat
unfolding message_chat
Stable-message_chat = search (stable_rules, Stable-chat_source) depth 30

pub Stable-name_query : Stable name_query
unfolding name_query
Stable-name_query = search stable_rules depth 20

pub Stable-emote : Stable emote
unfolding emote
Stable-emote = search stable_rules depth 20

pub Stable-random_roll : Stable random_roll
unfolding random_roll
Stable-random_roll = search stable_rules depth 20
