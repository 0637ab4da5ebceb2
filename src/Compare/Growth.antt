-- ===== src/Compare/Growth.antt =====
-- How the state of a comparison grows in src/compare.rs.
use wire_harness.Prelude.{
  ℕ, zero, suc, ◌^◌, ◌≡◌, refl, sym, ◌∙◌, Bool, true, false, ◌&&◌, ◌||◌, not, ltb, leb, List, [],
  ◌∷◌, String, Option, none, some, get_elem?, if◌then◌else◌,
}
use mathlib.Core.List.{append-nil}
use wire_harness.Trace.Recorded.{Recorded, RecordedFields}
use wire_harness.Trace.Depth.{height}
use wire_harness.Compare.Rules.{abs_diff, Doubles, EquivalenceRules, FieldRule, ClockRule}
use wire_harness.Compare.Equality.{find, to_list, key_set, same_field, data_shape_matches}
use wire_harness.Compare.State.{rule_class, data_class, Comparator, Location, child}
use wire_harness.Compare.Ruled.{
  report_unless, by_data_field, identity_matches, is_inventory, pair_identity, by_identity, or_rule,
  by_clock, by_rule, find_tolerance, find_data_field, find_random, find_identity, find_clock,
}
use wire_harness.Compare.Bijection.{
  Grows, Grows-refl, Grows-trans, Grows-same, Grows-difference_as, Grows-difference,
  Grows-guid_field,
}
use wire_harness.Compare.Fields.{
  item_pairs, unwrap_or, near_clock, index_text, walk_name, walk_both, Below, walk_fields,
  walk_pair, walk_items, by_shape, field_rounds, field,
}

Grows-report_unless :
    (holds : Bool) (r : FieldRule) (l : Location) (e a : Recorded) (s : Comparator)
    → Grows s (report_unless holds r l e a s)
unfolding report_unless
Grows-report_unless true r l e a s = Grows-refl s
Grows-report_unless false r l e a s = Grows-difference l _ _ _ _ s

pub Grows-if :
    {s t u : Comparator} (b : Bool) → Grows s t → Grows s u → Grows s (if b then t else u)
Grows-if true p q = p
Grows-if false p q = q

Grows-by_data_field :
    (r : FieldRule) (l : Location) (e a : Recorded) (s : Comparator)
    → Grows s (by_data_field r l e a s)
unfolding by_data_field
Grows-by_data_field r l e a s =
    Grows-if (not (data_shape_matches e a) || not (same_field e a))
      (Grows-difference_as (if data_shape_matches e a then data_class else rule_class) l r.name
        r.reason (some e) (some a) s)
      (Grows-refl s)

Grows-pair_identity :
    (i : ℕ) (r : FieldRule) (l : Location) (e a : ℕ) (s : Comparator)
    → Grows s (pair_identity i r l e a s)
unfolding pair_identity
Grows-pair_identity i r l e a s =
    Grows-if (identity_matches i l e a s)
      (Grows-same s _ [] refl refl (sym (append-nil s.differences)))
      (Grows-difference l r.name r.reason _ _ s)

Grows-by_identity :
    (i : ℕ) (r : FieldRule) (l : Location) (e a : Recorded) (s : Comparator)
    → Grows s (by_identity i r l e a s)
unfolding by_identity
Grows-by_identity i r l (Recorded.guid e) (Recorded.guid a) s =
    Grows-if (is_inventory r) (Grows-guid_field l e a s) (Grows-difference l r.name r.reason _ _ s)
Grows-by_identity i r l (Recorded.unsigned e) (Recorded.unsigned a) s =
    Grows-pair_identity i r l e a s
Grows-by_identity i r l e a s = Grows-difference l r.name r.reason (some e) (some a) s

Grows-by_clock :
    (i : ℕ) (r : ClockRule) (l : Location) (e a : Recorded) (s : Comparator)
    → Grows s (by_clock i r l e a s)
unfolding by_clock
Grows-by_clock i r l (Recorded.unsigned e) (Recorded.unsigned a) s =
    Grows-if (ltb e (2 ^ 32) && ltb a (2 ^ 32))
      (Grows-trans (Grows-same s _ [] refl refl (sym (append-nil s.differences)))
        (Grows-report_unless _ r.rule l _ _ _))
      (Grows-report_unless false r.rule l _ _ s)
Grows-by_clock i r l e a s = Grows-report_unless false r.rule l e a s

-- A rule is noted as used, and the step follows.
Grows-noted :
    (s t u : Comparator)
    → t.expected_guids ≡ s.expected_guids
    → t.actual_guids ≡ s.actual_guids
    → t.differences ≡ s.differences
    → Grows t u
    → Grows s u
Grows-noted s t u e a d g =
    Grows-trans (Grows-same s t [] e a (d ∙ sym (append-nil s.differences))) g

unfoldable pub GrowsOption : Comparator → Option Comparator → Type 0
GrowsOption s none = Unit
GrowsOption s (some t) = Grows s t

GrowsOption-or_rule {ℓ} :
    {R : Type ℓ} (s : Comparator) (found : Option R) (step : R → Comparator)
    (other : Option Comparator)
    → ((r : R) → Grows s (step r))
    → GrowsOption s other
    → GrowsOption s (or_rule found step other)
unfolding or_rule GrowsOption
GrowsOption-or_rule s (some r) step other h k = h r
GrowsOption-or_rule s none step other h k = k

module _ (doubles : Doubles) (rules : EquivalenceRules) where
  pub Grows-by_rule :
      (opcode : ℕ) (l : Location) (e a : Recorded) (s : Comparator)
      → GrowsOption s (by_rule doubles rules opcode l e a s)
  unfolding by_rule GrowsOption
  Grows-by_rule opcode l e a s =
      GrowsOption-or_rule s (find_tolerance doubles rules opcode l) _ _
        (λ (i, r). Grows-noted s _ _ refl refl refl (Grows-report_unless _ r.rule l e a _))
        (GrowsOption-or_rule s (find_data_field doubles rules opcode l) _ _
          (λ (i, r). Grows-noted s _ _ refl refl refl (Grows-by_data_field r l e a _))
          (GrowsOption-or_rule s (find_random doubles rules opcode l) _ _
            (λ (i, r). Grows-noted s _ _ refl refl refl (Grows-report_unless _ r.rule l e a _))
            (GrowsOption-or_rule s (find_identity doubles rules opcode l) _ _
              (λ (i, r). Grows-noted s _ _ refl refl refl (Grows-by_identity i r l e a _))
              (GrowsOption-or_rule s (find_clock doubles rules opcode l) _ none
                (λ (i, r). Grows-noted s _ _ refl refl refl (Grows-by_clock i r l e a _)) tt))))

unfoldable pub GrowsBelow : Below → Type 0
GrowsBelow below = (l : Location) (e a : Recorded) (s : Comparator) → Grows s (below l e a s)

pub Grows-walk_name :
    (below : Below) (l : Location) (e a : Option Recorded) (s : Comparator)
    → GrowsBelow below
    → Grows s (walk_name below l e a s)
unfolding walk_name GrowsBelow
Grows-walk_name below l (some e) (some a) s h = h l e a s
Grows-walk_name below l e a s h = Grows-difference l _ _ e a s

pub Grows-walk_fields :
    (below : Below) (l : Location) (e a : RecordedFields) (names : List String) (s : Comparator)
    → GrowsBelow below
    → Grows s (walk_fields below l e a names s)
unfolding walk_fields GrowsBelow
Grows-walk_fields below l e a [] s h = Grows-refl s
Grows-walk_fields below l e a (name ∷ names) s h =
    Grows-trans (Grows-walk_name below (child l name) (find name e) (find name a) s h)
      (Grows-walk_fields below l e a names _ h)

Grows-walk_both :
    (below : Below) (l : Location) (e a : Option Recorded) (s : Comparator)
    → GrowsBelow below
    → Grows s (walk_both below l e a s)
unfolding walk_both GrowsBelow
Grows-walk_both below l (some e) (some a) s h = h l e a s
Grows-walk_both below l e a s h = Grows-refl s

pub Grows-walk_pair :
    (below : Below) (l : Location) (e a : List Recorded) (p : Option ℕ × Option ℕ) (s : Comparator)
    → GrowsBelow below
    → Grows s (walk_pair below l e a p s)
unfolding walk_pair
Grows-walk_pair below l e a (some i, some j) s h =
    Grows-walk_both below (child l (index_text i)) (get_elem? e i) (get_elem? a j) s h
Grows-walk_pair below l e a (some i, none) s h = Grows-difference _ _ _ _ _ s
Grows-walk_pair below l e a (none, some j) s h = Grows-difference _ _ _ _ _ s
Grows-walk_pair below l e a (none, none) s h = Grows-refl s

pub Grows-walk_items :
    (below : Below) (l : Location) (e a : List Recorded) (ps : List (Option ℕ × Option ℕ))
    (s : Comparator)
    → GrowsBelow below
    → Grows s (walk_items below l e a ps s)
unfolding walk_items
Grows-walk_items below l e a [] s h = Grows-refl s
Grows-walk_items below l e a (p ∷ ps) s h =
    Grows-trans (Grows-walk_pair below l e a p s h) (Grows-walk_items below l e a ps _ h)

Grows-unwrap_or :
    (s : Comparator) (o : Option Comparator) (other : Comparator)
    → GrowsOption s o
    → Grows s other
    → Grows s (unwrap_or o other)
unfolding unwrap_or GrowsOption
Grows-unwrap_or s (some t) other h k = h
Grows-unwrap_or s none other h k = k

module _ (doubles : Doubles) (rules : EquivalenceRules) (recorded_at : ℕ × ℕ) where
  Grows-by_shape :
      (below : Below) (l : Location) (e a : Recorded) (s : Comparator)
      → GrowsBelow below
      → Grows s (by_shape doubles rules recorded_at below l e a s)
  unfolding by_shape
  Grows-by_shape below l (Recorded.guid e) (Recorded.guid a) s h = Grows-guid_field l e a s
  Grows-by_shape below l (Recorded.time_ms e) (Recorded.time_ms a) s h =
      Grows-if (leb (abs_diff e a) rules.time_tolerance_ms) (Grows-refl s)
        (Grows-difference l _ _ _ _ s)
  Grows-by_shape below l (Recorded.wall_clock_ms e) (Recorded.wall_clock_ms a) s h =
      Grows-if (near_clock doubles rules recorded_at e a) (Grows-refl s)
        (Grows-difference l _ _ _ _ s)
  Grows-by_shape below l (Recorded.list e) (Recorded.list a) s h =
      Grows-walk_items below l (to_list e) (to_list a) (item_pairs s (to_list e) (to_list a)) s h
  Grows-by_shape below l (Recorded.object e) (Recorded.object a) s h =
      Grows-walk_fields below l e a (key_set e a) s h
  Grows-by_shape below l e a s h =
      Grows-if (same_field e a) (Grows-refl s) (Grows-difference l _ _ (some e) (some a) s)

  pub field_rounds-Grows :
      (n opcode : ℕ) (l : Location) (e a : Recorded) (s : Comparator)
      → Grows s (field_rounds doubles rules recorded_at n opcode l e a s)
  unfolding field_rounds GrowsBelow
  field_rounds-Grows zero opcode l e a s = Grows-refl s
  field_rounds-Grows (suc n) opcode l e a s =
      Grows-unwrap_or s (by_rule doubles rules opcode l e a s) _
        (Grows-by_rule doubles rules opcode l e a s)
        (Grows-by_shape _ l e a s λ l' e' a' s'. field_rounds-Grows n opcode l' e' a' s')

-- Comparing two fields keeps the GUID maps inverse to each other, each pair of the same type and
-- zero with zero only, keeps every pair found before, and keeps the differences found before in
-- front of the new ones.
pub field-Grows :
    (doubles : Doubles) (rules : EquivalenceRules) (recorded_at : ℕ × ℕ) (opcode : ℕ) (l : Location)
    (e a : Recorded) (s : Comparator)
    → Grows s (field doubles rules recorded_at opcode l e a s)
unfolding field
field-Grows doubles rules recorded_at opcode l e a s =
    field_rounds-Grows doubles rules recorded_at (suc (height e)) opcode l e a s
