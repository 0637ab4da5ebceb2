-- ===== src/Compare/Same.antt =====
-- What a comparison of two fields in src/compare.rs without a difference means.
use wire_harness.Prelude.{
  ℕ, zero, suc, ◌≤◌, ◌≡◌, ◌⊎◌, Bool, true, false, ◌||◌, List, String, Option, none, some, All,
  length, get_elem?, range_from,
}
use wire_harness.Trace.Recorded.{Recorded}
use wire_harness.Compare.Rules.{Doubles, EquivalenceRules, abs_diff}
use wire_harness.Compare.Equality.{find, to_list, same_field}
use wire_harness.Compare.State.{Location, child, get_guid}
use wire_harness.Compare.Ruled.{
  find_tolerance, find_data_field, find_random, find_identity, find_clock,
}
use wire_harness.Compare.Fields.{index_text, near_clock}

unfoldable pub is_some {ℓ} : {A : Type ℓ} → Option A → Bool
is_some none = false
is_some (some x) = true

module _ (doubles : Doubles) (rules : EquivalenceRules) where
  -- Some rule selects the field at this place.
  unfoldable pub has_rule : ℕ → Location → Bool
  unfolding is_some
  has_rule opcode l =
      is_some (find_tolerance doubles rules opcode l)
      || (is_some (find_data_field doubles rules opcode l)
          || (is_some (find_random doubles rules opcode l)
              || (is_some (find_identity doubles rules opcode l)
                  || (is_some (find_clock doubles rules opcode l) || false))))

-- Both are there and satisfy a relation.
unfoldable pub Both : (Recorded → Recorded → Type 0) → Option Recorded → Option Recorded → Type 0
Both R (some e) (some a) = R e a
Both R _ _ = ⊥

-- Both are there and satisfy a relation, or neither is there.
unfoldable pub Matched : (Recorded → Recorded → Type 0) → Option Recorded → Option Recorded → Type 0
Matched R none none = Unit
Matched R (some e) (some a) = R e a
Matched R _ _ = ⊥

module _ (doubles : Doubles) (rules : EquivalenceRules) (recorded_at : ℕ × ℕ) (opcode : ℕ)
    (paired : List (ℕ × ℕ)) where
  -- The fields match by their shape: GUIDs are paired, times are near, and what lies below is
  -- related by `R`, item by item, and at every string that is a key of either object, which is then a
  -- key of both. Everything else is equal.
  unfoldable pub SameShape :
      (Location → Recorded → Recorded → Type 0) → Location → Recorded → Recorded → Type 0
  unfolding Both Matched find
  SameShape R l (Recorded.guid e) (Recorded.guid a) = get_guid e paired ≡ some a
  SameShape R l (Recorded.time_ms e) (Recorded.time_ms a) = abs_diff e a ≤ rules.time_tolerance_ms
  SameShape R l (Recorded.wall_clock_ms e) (Recorded.wall_clock_ms a) =
      near_clock doubles rules recorded_at e a ≡ true
  SameShape R l (Recorded.list e) (Recorded.list a) =
      (length (to_list e) ≡ length (to_list a))
      × All
          (λ i.
            Both (R (child l (index_text i))) (get_elem? (to_list e) i) (get_elem? (to_list a) i))
          (range_from 0 (length (to_list e)))
  SameShape R l (Recorded.object e) (Recorded.object a) =
      (k : String) → Matched (R (child l k)) (find k e) (find k a)
  SameShape R l e a = same_field e a ≡ true

  -- The fields match, down to `n` levels: a rule selects the place, or they match by their shape.
  unfoldable pub Same : ℕ → Location → Recorded → Recorded → Type 0
  unfolding SameShape
  Same zero l e a = ⊥
  Same (suc n) l e a = (has_rule doubles rules opcode l ≡ true) ⊎ SameShape (Same n) l e a
