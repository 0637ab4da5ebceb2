-- ===== src/Compare/Fields.antt =====
-- `Comparator::field` and `Comparator::fields` of src/compare.rs.
use wire_harness.Prelude.{
  ℕ, zero, suc, Bool, ◌&&◌, ◌||◌, not, leb, ◌==◌, List, [], ◌∷◌, String, Option, none, some, length,
  get_elem?, map, range_from, if◌then◌else◌,
}
use wire_harness.Decode.Field.{decimal}
use wire_harness.Align.{align}
use wire_harness.Trace.Recorded.{Recorded, RecordedFields}
use wire_harness.Trace.Depth.{height}
use wire_harness.Compare.Rules.{Doubles, EquivalenceRules, abs_diff}
use wire_harness.Compare.Equality.{to_list, find, key_set, same_field, subject, any_keyed}
use wire_harness.Compare.State.{Location, Comparator, child, guid_matches, difference, guid_field}
use wire_harness.Compare.Ruled.{by_rule}

-- What compares the fields below one: the place, the two fields, and the state before.
abbrev pub Below : Type 0
Below = Location → Recorded → Recorded → Comparator → Comparator

-- The body of the loop of `fields`.
unfoldable pub walk_name :
    Below → Location → Option Recorded → Option Recorded → Comparator → Comparator
unfolding difference
walk_name below l (some e) (some a) s = below l e a s
walk_name below l e a s = difference l "field_shape" "field is missing or extra" e a s

-- The loop of `fields`, over the keys in their order.
unfoldable pub walk_fields :
    Below → Location → RecordedFields → RecordedFields → List String → Comparator → Comparator
unfolding child find walk_name
walk_fields below l e a [] s = s
walk_fields below l e a (name ∷ names) s =
    walk_fields below l e a names (walk_name below (child l name) (find name e) (find name a) s)

-- `to_string` of an index
unfoldable pub index_text : ℕ → String
unfolding decimal
index_text n = decimal (suc n) n

-- The comparison of two items. The indices of an alignment are in range.
unfoldable pub walk_both :
    Below → Location → Option Recorded → Option Recorded → Comparator → Comparator
walk_both below l (some e) (some a) s = below l e a s
walk_both below l _ _ s = s

-- The body of the loop over the pairs of a list.
unfoldable pub walk_pair :
    Below → Location → List Recorded → List Recorded → Option ℕ × Option ℕ → Comparator → Comparator
unfolding child index_text difference walk_both
walk_pair below l e a (some i, some j) s =
    walk_both below (child l (index_text i)) (get_elem? e i) (get_elem? a j) s
walk_pair below l e a (some i, none) s =
    difference (child l (index_text i)) "list_shape" "list item is missing or extra" (get_elem? e i)
      none s
walk_pair below l e a (none, some j) s =
    difference (child l (index_text j)) "list_shape" "list item is missing or extra" none
      (get_elem? a j) s
walk_pair below l e a (none, none) s = s

unfoldable pub walk_items :
    Below
    → Location
    → List Recorded
    → List Recorded
    → List (Option ℕ × Option ℕ)
    → Comparator
    → Comparator
unfolding walk_pair
walk_items below l e a [] s = s
walk_items below l e a (p ∷ ps) s = walk_items below l e a ps (walk_pair below l e a p s)

-- Whether two items of a list may be paired: two objects that are about a GUID each by their GUIDs.
unfoldable pub items_match : Comparator → Recorded → Recorded → Bool
unfolding subject guid_matches same_field
items_match s (Recorded.object e) (Recorded.object a) = elim (subject e) [
  | some g ↦ elim (subject a) [
    | some h ↦ guid_matches s g h
    | none ↦ same_field (Recorded.object e) (Recorded.object a)
  ]
  | none ↦ same_field (Recorded.object e) (Recorded.object a)
]
items_match s e a = same_field e a

unfoldable pub item_score : Comparator → Option Recorded → Option Recorded → Option ℕ
unfolding items_match same_field
item_score s (some e) (some a) =
    if items_match s e a then some (if same_field e a then 1 else 0) else none
item_score s _ _ = none

-- The closure that `align` is given.
unfoldable pub item_scores : Comparator → List Recorded → List Recorded → ℕ → ℕ → Option ℕ
unfolding item_score
item_scores s e a i j = item_score s (get_elem? e i) (get_elem? a j)

-- The pairs of a list: by position when it has as many items and none is about a GUID.
unfoldable pub item_pairs : Comparator → List Recorded → List Recorded → List (Option ℕ × Option ℕ)
unfolding any_keyed item_scores
item_pairs s e a =
    if length e == length a && not (any_keyed e || any_keyed a)
    then map (λ i. (some i, some i)) (range_from 0 (length e))
    else align (item_scores s e a) (length e) (length a)

unfoldable pub unwrap_or {ℓ} : {A : Type ℓ} → Option A → A → A
unwrap_or (some x) other = x
unwrap_or none other = other

module _ (doubles : Doubles) (rules : EquivalenceRules) (recorded_at : ℕ × ℕ) where
  unfoldable pub near_clock : ℕ → ℕ → Bool
  unfolding abs_diff
  near_clock e a =
      leb (abs_diff e recorded_at.0) rules.wall_clock_tolerance_ms
      && leb (abs_diff a recorded_at.1) rules.wall_clock_tolerance_ms

  -- The last `match` of `field`.
  unfoldable pub by_shape : Below → Below
  unfolding guid_field abs_diff difference near_clock walk_items item_pairs to_list walk_fields
      key_set same_field
  by_shape below l (Recorded.guid e) (Recorded.guid a) s = guid_field l e a s
  by_shape below l (Recorded.time_ms e) (Recorded.time_ms a) s =
      if leb (abs_diff e a) rules.time_tolerance_ms
      then s
      else difference l "time_tolerance" "time exceeds the configured millisecond tolerance"
          (some (Recorded.time_ms e)) (some (Recorded.time_ms a)) s
  by_shape below l (Recorded.wall_clock_ms e) (Recorded.wall_clock_ms a) s =
      if near_clock e a
      then s
      else difference l "wall_clock" "wall clock must be near its own recording time"
          (some (Recorded.wall_clock_ms e)) (some (Recorded.wall_clock_ms a)) s
  by_shape below l (Recorded.list e) (Recorded.list a) s =
      walk_items below l (to_list e) (to_list a) (item_pairs s (to_list e) (to_list a)) s
  by_shape below l (Recorded.object e) (Recorded.object a) s =
      walk_fields below l e a (key_set e a) s
  by_shape below l e a s =
      if same_field e a
      then s
      else difference l "exact_field" "field type and value must match" (some e) (some a) s

  -- The field under the rule that selects it, or by its shape.
  unfoldable pub field_rounds : ℕ → ℕ → Below
  unfolding by_rule by_shape unwrap_or
  field_rounds zero opcode l e a s = s
  field_rounds (suc n) opcode l e a s =
      unwrap_or (by_rule doubles rules opcode l e a s) (by_shape (field_rounds n opcode) l e a s)

  -- `field`: one round for each level of the expected field.
  unfoldable pub field : ℕ → Below
  unfolding field_rounds
  field opcode l e a s = field_rounds (suc (height e)) opcode l e a s

  -- `fields`
  unfoldable pub fields : ℕ → Location → RecordedFields → RecordedFields → Comparator → Comparator
  unfolding field walk_fields key_set
  fields opcode l e a s = walk_fields (field opcode) l e a (key_set e a) s
