-- ===== src/Decode/Packets/Vendor.antt =====
-- Vendor and inventory packets of src/decode.rs.
use wire_harness.Prelude.{[], ◌∷◌, ◌==◌}
use wire_harness.Decode.Field.{Fields, end}
use wire_harness.Decode.Body.{
  Parser, ◌>>=◌, u8, unsigned8, unsigned32, guid64, put, put_each, put_if, records,
}
use wire_harness.Decode.Stable.{Stable, stable_rules}

-- 0x019f
unfoldable pub list_inventory : Parser Fields
list_inventory = do
  fs ← put "guid" guid64 end
  count ← u8
  fs ←
      put "items"
        (records count
          ("slot" ∷ "entry" ∷ "display" ∷ "stock" ∷ "price" ∷ "durability" ∷ "buy_count" ∷ []))
        fs
  put_if (count == 0) "reason" unsigned8 fs

-- 0x01a4
unfoldable pub buy_item : Parser Fields
buy_item = do fs ← put "guid" guid64 end; put_each unsigned32 ("slot" ∷ "stock" ∷ "count" ∷ []) fs

-- 0x01a5
unfoldable pub buy_failed : Parser Fields
buy_failed = do
  fs ← put "guid" guid64 end
  fs ← put "entry" unsigned32 fs
  put "reason" unsigned8 fs

-- 0x01a1
unfoldable pub sell_item : Parser Fields
sell_item = do fs ← put "guid" guid64 end; fs ← put "item" guid64 fs; put "reason" unsigned8 fs

-- 0x0166
unfoldable pub item_push : Parser Fields
item_push = do
  fs ← put "guid" guid64 end
  fs ← put_each unsigned32 ("received" ∷ "created" ∷ "show" ∷ []) fs
  fs ← put "bag" unsigned8 fs
  put_each unsigned32 ("slot" ∷ "entry" ∷ "suffix" ∷ "random_property" ∷ "count" ∷ []) fs

-- 0x01b8
unfoldable pub buy_bank_slot : Parser Fields
buy_bank_slot = put "guid" guid64 end

-- 0x01ba
unfoldable pub buy_bank_slot_result : Parser Fields
buy_bank_slot_result = put "result" unsigned32 end

pub Stable-list_inventory : Stable list_inventory
unfolding list_inventory
Stable-list_inventory = search stable_rules depth 20

pub Stable-buy_item : Stable buy_item
unfolding buy_item
Stable-buy_item = search stable_rules depth 20

pub Stable-buy_failed : Stable buy_failed
unfolding buy_failed
Stable-buy_failed = search stable_rules depth 20

pub Stable-sell_item : Stable sell_item
unfolding sell_item
Stable-sell_item = search stable_rules depth 20

pub Stable-item_push : Stable item_push
unfolding item_push
Stable-item_push = search stable_rules depth 20

pub Stable-buy_bank_slot : Stable buy_bank_slot
unfolding buy_bank_slot
Stable-buy_bank_slot = search stable_rules depth 20

pub Stable-buy_bank_slot_result : Stable buy_bank_slot_result
unfolding buy_bank_slot_result
Stable-buy_bank_slot_result = search stable_rules depth 20
