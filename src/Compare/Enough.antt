-- ===== src/Compare/Enough.antt =====
-- `Comparator::field` of src/compare.rs ends: as many rounds as its expected field has levels are
-- enough.
use wire_harness.Prelude.{
  ℕ, zero, suc, ◌≤◌, ◌<◌, ◌≡◌, refl, ap, ◌∙◌, List, [], ◌∷◌, String, Option, none, some, Bool-cases,
  inl, inr, get_elem?, arith,
}
use package.text.Mathlib.Text.{◌==◌ as str_eq}
use wire_harness.Trace.Recorded
use wire_harness.Trace.Recorded.{Recorded, RecordedItems, RecordedFields}
use wire_harness.Trace.Depth.{height, items_height, fields_height}
use wire_harness.Compare.Rules.{Doubles, EquivalenceRules}
use wire_harness.Compare.Equality.{find, to_list, key_set}
use wire_harness.Compare.State.{Comparator, Location, child}
use wire_harness.Compare.Ruled.{by_rule}
use wire_harness.Compare.Fields.{
  Below, index_text, item_pairs, unwrap_or, walk_name, walk_fields, walk_both, walk_pair,
  walk_items, by_shape, field_rounds, field,
}

-- Two ways to compare what lies below agree on fields of less than `k` levels.
unfoldable pub Agree : ℕ → Below → Below → Type 0
Agree k b c =
    (l : Location) (e a : Recorded) (s : Comparator) → height e < k → b l e a s ≡ c l e a s

-- Fields that are there have less than `k` levels.
unfoldable pub BelowHeight : ℕ → Option Recorded → Type 0
BelowHeight k none = Unit
BelowHeight k (some e) = height e < k

pub find-height :
    (name : String) (fs : RecordedFields) (k : ℕ)
    → fields_height fs ≤ k
    → BelowHeight k (find name fs)
unfolding find BelowHeight height
find-height name Recorded.end k h = tt
find-height name (Recorded.entry j r fs) k h = elim (Bool-cases (str_eq j name)) [
  | inl e ↦ rw e (omega arith)
  | inr e ↦ rw e (find-height name fs k (omega arith))
]

pub get_elem-height :
    (items : RecordedItems) (i k : ℕ)
    → items_height items ≤ k
    → BelowHeight k (get_elem? (to_list items) i)
unfolding to_list BelowHeight height
get_elem-height Recorded.nil i k h = tt
get_elem-height (Recorded.cons r items) zero k h = omega arith
get_elem-height (Recorded.cons r items) (suc i) k h = get_elem-height items i k (omega arith)

walk_name-Agree :
    (k : ℕ) (b c : Below) (l : Location) (e a : Option Recorded) (s : Comparator)
    → Agree k b c
    → BelowHeight k e
    → walk_name b l e a s ≡ walk_name c l e a s
unfolding walk_name Agree BelowHeight
walk_name-Agree k b c l (some e) (some a) s g h = g l e a s h
walk_name-Agree k b c l e a s g h = refl

walk_fields-Agree :
    (k : ℕ) (b c : Below) (l : Location) (e a : RecordedFields) (names : List String)
    (s : Comparator)
    → Agree k b c
    → fields_height e ≤ k
    → walk_fields b l e a names s ≡ walk_fields c l e a names s
unfolding walk_fields
walk_fields-Agree k b c l e a [] s g h = refl
walk_fields-Agree k b c l e a (name ∷ names) s g h =
    walk_fields-Agree k b c l e a names _ g h
    ∙ ap (walk_fields c l e a names) (
        walk_name-Agree k b c (child l name) (find name e) (find name a) s g
          (find-height name e k h))

walk_both-Agree :
    (k : ℕ) (b c : Below) (l : Location) (e a : Option Recorded) (s : Comparator)
    → Agree k b c
    → BelowHeight k e
    → walk_both b l e a s ≡ walk_both c l e a s
unfolding walk_both Agree BelowHeight
walk_both-Agree k b c l (some e) (some a) s g h = g l e a s h
walk_both-Agree k b c l e a s g h = refl

walk_pair-Agree :
    (k : ℕ) (b c : Below) (l : Location) (e : RecordedItems) (a : List Recorded)
    (p : Option ℕ × Option ℕ) (s : Comparator)
    → Agree k b c
    → items_height e ≤ k
    → walk_pair b l (to_list e) a p s ≡ walk_pair c l (to_list e) a p s
unfolding walk_pair
walk_pair-Agree k b c l e a (some i, some j) s g h =
    walk_both-Agree k b c (child l (index_text i)) (get_elem? (to_list e) i) (get_elem? a j) s g
      (get_elem-height e i k h)
walk_pair-Agree k b c l e a (some i, none) s g h = refl
walk_pair-Agree k b c l e a (none, some j) s g h = refl
walk_pair-Agree k b c l e a (none, none) s g h = refl

walk_items-Agree :
    (k : ℕ) (b c : Below) (l : Location) (e : RecordedItems) (a : List Recorded)
    (ps : List (Option ℕ × Option ℕ)) (s : Comparator)
    → Agree k b c
    → items_height e ≤ k
    → walk_items b l (to_list e) a ps s ≡ walk_items c l (to_list e) a ps s
unfolding walk_items
walk_items-Agree k b c l e a [] s g h = refl
walk_items-Agree k b c l e a (p ∷ ps) s g h =
    walk_items-Agree k b c l e a ps _ g h
    ∙ ap (walk_items c l (to_list e) a ps) (walk_pair-Agree k b c l e a p s g h)

module _ (doubles : Doubles) (rules : EquivalenceRules) (recorded_at : ℕ × ℕ) where
  by_shape-Agree :
      (k : ℕ) (b c : Below) (l : Location) (e a : Recorded) (s : Comparator)
      → Agree k b c
      → height e ≤ k
      → by_shape doubles rules recorded_at b l e a s ≡ by_shape doubles rules recorded_at c l e a s
  unfolding by_shape height
  by_shape-Agree k b c l (Recorded.list e) (Recorded.list a) s g h =
      walk_items-Agree k b c l e (to_list a) (item_pairs s (to_list e) (to_list a)) s g h
  by_shape-Agree k b c l (Recorded.object e) (Recorded.object a) s g h =
      walk_fields-Agree k b c l e a (key_set e a) s g h
  by_shape-Agree k b c l e a s g h = refl

  field_rounds-Agree :
      (n m opcode : ℕ) (l : Location) (e a : Recorded) (s : Comparator)
      → height e < n
      → height e < m
      → field_rounds doubles rules recorded_at n opcode l e a s
        ≡ field_rounds doubles rules recorded_at m opcode l e a s
  unfolding field_rounds Agree
  field_rounds-Agree zero m opcode l e a s h i = absurd (omega arith)
  field_rounds-Agree (suc n) zero opcode l e a s h i = absurd (omega arith)
  field_rounds-Agree (suc n) (suc m) opcode l e a s h i =
      ap (unwrap_or (by_rule doubles rules opcode l e a s)) (
        by_shape-Agree (height e) _ _ l e a s
          (λ l' e' a' s' k. field_rounds-Agree n m opcode l' e' a' s' (omega arith) (omega arith))
          (omega arith))

  -- Any number of rounds above the height of the expected field gives what `field` gives: the
  -- comparison never stops for want of rounds.
  pub field-enough :
      (n opcode : ℕ) (l : Location) (e a : Recorded) (s : Comparator)
      → height e < n
      → field_rounds doubles rules recorded_at n opcode l e a s
        ≡ field doubles rules recorded_at opcode l e a s
  unfolding field
  field-enough n opcode l e a s h =
      field_rounds-Agree n (suc (height e)) opcode l e a s h (omega arith)
