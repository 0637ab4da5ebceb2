-- ===== src/Compare/Sound.antt =====
-- A comparison of src/compare.rs that adds no difference relates the two fields.
use wire_harness.Prelude.{
  ℕ, zero, suc, ◌≤◌, ◌<◌, ◌≡◌, refl, sym, ap, ◌∙◌, Bool, true, false, ◌||◌, leb, List, [], ◌∷◌,
  String, Option, none, some, Option-cases, Bool-cases, inl, inr, All, length, length-append,
  get_elem?, arith, leb→le, if◌then◌else◌,
}
use mathlib.Core.Path.{subst, subst₂}
use wire_harness.Trace.Recorded.{Recorded, RecordedItems, RecordedFields}
use wire_harness.Trace.Depth.{height, items_height, fields_height}
use wire_harness.Compare.Rules.{Doubles, EquivalenceRules, abs_diff}
use wire_harness.Compare.Equality.{find, to_list, key_set, same_field}
use wire_harness.Compare.State.{
  Comparator, comparator, Location, child, get, get_guid, guid_matches, difference_as, difference,
  pair_guids, guid_mismatch, guid_field,
}
use wire_harness.Compare.Ruled.{or_rule, by_rule}
use wire_harness.Compare.Fields.{
  Below, index_text, near_clock, unwrap_or, walk_name, walk_fields, walk_both, walk_pair,
  walk_items, item_pairs, by_shape, field_rounds, field,
}
use wire_harness.Compare.Bijection.{Bijective, Grows}
use wire_harness.Compare.Growth.{
  GrowsBelow, Grows-walk_name, Grows-walk_fields, Grows-walk_pair, Grows-walk_items,
  field_rounds-Grows,
}
use wire_harness.Compare.Enough.{BelowHeight, find-height, get_elem-height}
use wire_harness.Compare.Keys.{Matched-key_set}
use wire_harness.Compare.Pairs.{PairSame, range-Both, item_pairs-diagonal}
use wire_harness.Compare.Same.{is_some, has_rule, Both, SameShape, Same}

is_some-or_rule {ℓ} :
    {R : Type ℓ} (found : Option R) (step : R → Comparator) (other : Option Comparator)
    → is_some (or_rule found step other) ≡ (is_some found || is_some other)
unfolding is_some or_rule
is_some-or_rule (some r) step other = refl
is_some-or_rule none step other = refl

-- No difference was added.
unfoldable pub Silent : Comparator → Comparator → Type 0
Silent s t = length t.differences ≡ length s.differences

-- The GUIDs paired in `t` are paired alike in the map.
unfoldable pub Extends : Comparator → List (ℕ × ℕ) → Type 0
Extends t paired = (e a : ℕ) → get_guid e t.expected_guids ≡ some a → get_guid e paired ≡ some a

Grows-length : {s t : Comparator} → Grows s t → length s.differences ≤ length t.differences
Grows-length {s} {t} g = omega (arith, length-append s.differences g.more, ap length g.adds)

Silent-first : {s t u : Comparator} → Grows s t → Grows t u → Silent s u → Silent s t
unfolding Silent
Silent-first g h q = omega (arith, q, Grows-length g, Grows-length h)

Silent-second : {s t u : Comparator} → Grows s t → Grows t u → Silent s u → Silent t u
unfolding Silent
Silent-second g h q = omega (arith, q, Grows-length g, Grows-length h)

Extends-before :
    {s t : Comparator} (paired : List (ℕ × ℕ))
    → Bijective s
    → Grows s t
    → Extends t paired
    → Extends s paired
unfolding Extends
Extends-before paired b g h e a k = h e a (g.mono b e a k)

difference-Silent :
    (l : Location) (rule reason : String) (e a : Option Recorded) (s : Comparator)
    → Silent s (difference l rule reason e a s)
    → ⊥
unfolding difference difference_as Silent
difference-Silent l rule reason e a s h = omega (arith, length-append s.differences (_ ∷ []), h)

module _ (doubles : Doubles) (rules : EquivalenceRules) (recorded_at : ℕ × ℕ) (opcode : ℕ)
    (paired : List (ℕ × ℕ)) where
  has_rule-by_rule :
      (l : Location) (e a : Recorded) (s : Comparator)
      → is_some (by_rule doubles rules opcode l e a s) ≡ has_rule doubles rules opcode l
  unfolding by_rule has_rule is_some
  has_rule-by_rule l e a s = simp is_some-or_rule

  -- A way to compare what lies below relates fields of less than `n` levels.
  SoundBelow : ℕ → (Location → Recorded → Recorded → Type 0) → Below → Type 0
  SoundBelow n R b =
      (l : Location) (e a : Recorded) (s : Comparator)
      → height e < n
      → Bijective s
      → Silent s (b l e a s)
      → Extends (b l e a s) paired
      → R l e a

  walk_name-Both :
      (n : ℕ) (R : Location → Recorded → Recorded → Type 0) (b : Below) (l : Location)
      (e a : Option Recorded) (s : Comparator)
      → SoundBelow n R b
      → BelowHeight n e
      → Bijective s
      → Silent s (walk_name b l e a s)
      → Extends (walk_name b l e a s) paired
      → Both (R l) e a
  unfolding SoundBelow BelowHeight walk_name Both
  walk_name-Both n R b l (some e) (some a) s k h w q x = k l e a s h w q x
  walk_name-Both n R b l e a s k h w q x = difference-Silent l _ _ e a s q

  walk_fields-Both :
      (n : ℕ) (R : Location → Recorded → Recorded → Type 0) (b : Below) (l : Location)
      (e a : RecordedFields) (names : List String) (s : Comparator)
      → GrowsBelow b
      → SoundBelow n R b
      → fields_height e ≤ n
      → Bijective s
      → Silent s (walk_fields b l e a names s)
      → Extends (walk_fields b l e a names s) paired
      → All (λ k. Both (R (child l k)) (find k e) (find k a)) names
  unfolding walk_fields
  walk_fields-Both n R b l e a [] s g k h w q x = tt
  walk_fields-Both n R b l e a (name ∷ names) s g k h w q x =
      let here = child l name in
      let step = Grows-walk_name b here (find name e) (find name a) s g in
      let mid = walk_name b here (find name e) (find name a) s in
      let rest = Grows-walk_fields b l e a names mid g in
      (
        walk_name-Both n R b here (find name e) (find name a) s k (find-height name e n h) w
            (Silent-first step rest q) (Extends-before paired (step.keeps w) rest x),
        walk_fields-Both n R b l e a names mid g k h (step.keeps w) (Silent-second step rest q) x,
      )

  walk_both-Same :
      (n : ℕ) (R : Location → Recorded → Recorded → Type 0) (b : Below) (l : Location)
      (e a : Option Recorded) (s : Comparator) (x y : Recorded)
      → SoundBelow n R b
      → BelowHeight n e
      → Bijective s
      → Silent s (walk_both b l e a s)
      → Extends (walk_both b l e a s) paired
      → e ≡ some x
      → a ≡ some y
      → R l x y
  unfolding SoundBelow BelowHeight walk_both
  walk_both-Same n R b l (some e) (some a) s x y k h w q r i j =
      let p : e ≡ x = ground (arith, i) in
      let q' : a ≡ y = ground (arith, j) in subst₂ (R l) p q' (k l e a s h w q r)
  walk_both-Same n R b l none a s x y k h w q r i j = absurd (ground (arith, i))
  walk_both-Same n R b l (some e) none s x y k h w q r i j = absurd (ground (arith, j))

  walk_pair-PairSame :
      (n : ℕ) (R : Location → Recorded → Recorded → Type 0) (b : Below) (l : Location)
      (e : RecordedItems) (a : List Recorded) (p : Option ℕ × Option ℕ) (s : Comparator)
      → SoundBelow n R b
      → items_height e ≤ n
      → Bijective s
      → Silent s (walk_pair b l (to_list e) a p s)
      → Extends (walk_pair b l (to_list e) a p s) paired
      → PairSame R l (to_list e) a p
  unfolding walk_pair PairSame
  walk_pair-PairSame n R b l e a (some i, some j) s k h w q r = λ x y u v.
      walk_both-Same n R b (child l (index_text i)) (get_elem? (to_list e) i) (get_elem? a j) s x y
        k (get_elem-height e i n h) w q r u v
  walk_pair-PairSame n R b l e a (some i, none) s k h w q r = difference-Silent _ _ _ _ _ s q
  walk_pair-PairSame n R b l e a (none, some j) s k h w q r = difference-Silent _ _ _ _ _ s q
  walk_pair-PairSame n R b l e a (none, none) s k h w q r = tt

  walk_items-PairSame :
      (n : ℕ) (R : Location → Recorded → Recorded → Type 0) (b : Below) (l : Location)
      (e : RecordedItems) (a : List Recorded) (ps : List (Option ℕ × Option ℕ)) (s : Comparator)
      → GrowsBelow b
      → SoundBelow n R b
      → items_height e ≤ n
      → Bijective s
      → Silent s (walk_items b l (to_list e) a ps s)
      → Extends (walk_items b l (to_list e) a ps s) paired
      → All (PairSame R l (to_list e) a) ps
  unfolding walk_items
  walk_items-PairSame n R b l e a [] s g k h w q x = tt
  walk_items-PairSame n R b l e a (p ∷ ps) s g k h w q x =
      let step = Grows-walk_pair b l (to_list e) a p s g in
      let mid = walk_pair b l (to_list e) a p s in
      let rest = Grows-walk_items b l (to_list e) a ps mid g in
      (
        walk_pair-PairSame n R b l e a p s k h w (Silent-first step rest q)
            (Extends-before paired (step.keeps w) rest x),
        walk_items-PairSame n R b l e a ps mid g k h (step.keeps w) (Silent-second step rest q) x,
      )

  Silent-if :
      (test : Bool) (l : Location) (rule reason : String) (e a : Option Recorded) (s : Comparator)
      → Silent s (if test then s else difference l rule reason e a s)
      → test ≡ true
  Silent-if true l rule reason e a s h = refl
  Silent-if false l rule reason e a s h = absurd (difference-Silent l rule reason e a s h)

  guid_field-Same :
      (l : Location) (e a : ℕ) (s : Comparator)
      → Silent s (guid_field l e a s)
      → Extends (guid_field l e a s) paired
      → get_guid e paired ≡ some a
  unfolding guid_field guid_mismatch pair_guids Extends get_guid get
  guid_field-Same l e a s q x = elim (Bool-cases (guid_matches s e a)) [
    | inl h ↦ x e a (rw h (ground arith))
    | inr h ↦ absurd (
        difference-Silent l _ _ _ _ s
          (subst (λ b. Silent s (if b then pair_guids e a s else guid_mismatch l e a s)) h q))
  ]

  by_shape-Same :
      (n : ℕ) (R : Location → Recorded → Recorded → Type 0) (b : Below) (l : Location)
      (e a : Recorded) (s : Comparator)
      → GrowsBelow b
      → SoundBelow n R b
      → height e ≤ n
      → Bijective s
      → Silent s (by_shape doubles rules recorded_at b l e a s)
      → Extends (by_shape doubles rules recorded_at b l e a s) paired
      → SameShape doubles rules recorded_at opcode paired R l e a
  unfolding by_shape SameShape height
  by_shape-Same n R b l (Recorded.guid e) (Recorded.guid a) s g k h w q x =
      guid_field-Same l e a s q x
  by_shape-Same n R b l (Recorded.time_ms e) (Recorded.time_ms a) s g k h w q x =
      leb→le (abs_diff e a) rules.time_tolerance_ms
        (Silent-if (leb (abs_diff e a) rules.time_tolerance_ms) l _ _ _ _ s q)
  by_shape-Same n R b l (Recorded.wall_clock_ms e) (Recorded.wall_clock_ms a) s g k h w q x =
      Silent-if (near_clock doubles rules recorded_at e a) l _ _ _ _ s q
  by_shape-Same n R b l (Recorded.list e) (Recorded.list a) s g k h w q x =
      let pairs = item_pairs s (to_list e) (to_list a) in
      let each = walk_items-PairSame n R b l e (to_list a) pairs s g k h w q x in
      let (same, diagonal) = item_pairs-diagonal R l (to_list e) (to_list a) s each in
      (
        same,
        range-Both R l (to_list e) (to_list a) 0 (length (to_list e)) (omega arith) (omega arith)
            diagonal,
      )
  by_shape-Same n R b l (Recorded.object e) (Recorded.object a) s g k h w q x =
      Matched-key_set (λ j. R (child l j)) e a
        (walk_fields-Both n R b l e a (key_set e a) s g k h w q x)
  by_shape-Same n R b l e a s g k h w q x = Silent-if (same_field e a) l _ _ (some e) (some a) s q

  field_rounds-Same :
      (n : ℕ) (l : Location) (e a : Recorded) (s : Comparator)
      → height e < n
      → Bijective s
      → Silent s (field_rounds doubles rules recorded_at n opcode l e a s)
      → Extends (field_rounds doubles rules recorded_at n opcode l e a s) paired
      → Same doubles rules recorded_at opcode paired n l e a
  unfolding field_rounds Same SoundBelow GrowsBelow is_some
  field_rounds-Same zero l e a s h w q x = absurd (omega arith)
  field_rounds-Same (suc n) l e a s h w q x =
      elim (Option-cases (by_rule doubles rules opcode l e a s)) [
        | inr (t, r) ↦ inl (sym (has_rule-by_rule l e a s) ∙ rw r refl)
        | inl r ↦ inr (
            by_shape-Same n (Same doubles rules recorded_at opcode paired n)
              (field_rounds doubles rules recorded_at n opcode) l e a s
              (λ l' e' a' s'. field_rounds-Grows doubles rules recorded_at n opcode l' e' a' s')
              (λ l' e' a' s' h' w' q' x'. field_rounds-Same n l' e' a' s' h' w' q' x') (omega arith)
              w
              (subst
                (λ o. Silent s (
                  unwrap_or o (
                    by_shape doubles rules recorded_at
                      (field_rounds doubles rules recorded_at n opcode) l e a s)))
                r q)
              (subst
                (λ o.
                  Extends
                    (unwrap_or o (
                      by_shape doubles rules recorded_at
                        (field_rounds doubles rules recorded_at n opcode) l e a s))
                    paired)
                r x))
      ]

pub comparator-Bijective : Bijective comparator
unfolding comparator get_guid get
comparator-Bijective = record {
  forth = λ e a h. absurd (ground (arith, h));
  back = λ e a h. absurd (ground (arith, h));
  typed = λ e a h. absurd (ground (arith, h));
  zeros = λ e a h. absurd (ground (arith, h));
}

-- If comparing two fields adds no difference to a state whose GUID maps are inverse, then the fields
-- are the same, level by level and at every place that no rule selects: lists have as many items
-- and match item by item; a string that is a key of one object is a key of the other, and the values
-- match; GUIDs are paired by the map that is left, times are near, and all else is equal.
pub field-Same :
    (doubles : Doubles) (rules : EquivalenceRules) (recorded_at : ℕ × ℕ) (opcode : ℕ) (l : Location)
    (e a : Recorded) (s : Comparator)
    → Bijective s
    → length (field doubles rules recorded_at opcode l e a s).differences ≡ length s.differences
    → Same doubles rules recorded_at opcode
        (field doubles rules recorded_at opcode l e a s).expected_guids
        (suc (height e))
        l
        e
        a
unfolding field
field-Same doubles rules recorded_at opcode l e a s w q =
    field_rounds-Same doubles rules recorded_at opcode _ (suc (height e)) l e a s (omega arith) w
      (unfold Silent in q) (unfold Extends in λ x y h. h)
