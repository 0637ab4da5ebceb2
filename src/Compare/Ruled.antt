-- ===== src/Compare/Ruled.antt =====
-- The rules of a comparison in src/compare.rs, in the order in which `Comparator::field` tries them.
use wire_harness.Prelude.{
  ℕ, ◌+◌, ◌-◌, ◌%◌, ◌^◌, Bool, true, false, ◌&&◌, ◌||◌, not, ltb, leb, ◌==◌, List, [], ◌∷◌, String,
  Option, none, some, if◌then◌else◌,
}
use wire_harness.Trace.Recorded.{Recorded}
use wire_harness.Compare.Rules.{
  Doubles, FieldRule, ToleranceRule, RandomRule, ClockRule, EquivalenceRules, same_path, same_name,
  abs_diff, contains, tolerates, inventory_high_path,
}
use wire_harness.Compare.Equality.{same_field, data_shape_matches}
use wire_harness.Compare.State.{
  Location, Comparator, rule_class, data_class, get, same_identity, same_clock, absent_or,
  difference_as, difference, guid_field,
}

-- `map_or(true, |id| location.character.as_ref() == Some(id))`
unfoldable pub covers_character : Option String → Option String → Bool
unfolding same_name
covers_character none character = true
covers_character (some id) character = same_name (some id) character

-- What `find` tests for every kind of rule.
unfoldable pub selects : ℕ → Location → FieldRule → Bool
unfolding same_path covers_character
selects opcode l r =
    r.opcode == opcode && same_path r.path l.path && covers_character r.character l.character

-- `map_or(true, |index| location.packet_index == Some(index))`
unfoldable pub covers_index : Option ℕ → Option ℕ → Bool
covers_index none index = true
covers_index (some n) none = false
covers_index (some n) (some m) = n == m

-- `iter().enumerate().find(…)`, from the index `i` on
unfoldable pub find_rule {ℓ} : {R : Type ℓ} → (R → Bool) → ℕ → List R → Option (ℕ × R)
find_rule test i [] = none
find_rule test i (r ∷ rs) =
    let rest = find_rule test (i + 1) rs in if test r then some (i, r) else rest

-- The difference that a rule reports, unless `holds`.
unfoldable pub report_unless :
    Bool → FieldRule → Location → Recorded → Recorded → Comparator → Comparator
unfolding difference
report_unless holds r l e a s =
    if holds then s else difference l r.name r.reason (some e) (some a) s

-- A data field that differs in its value alone is listed as data.
unfoldable pub by_data_field : FieldRule → Location → Recorded → Recorded → Comparator → Comparator
unfolding difference_as
by_data_field r l e a s =
    let valid_shape = data_shape_matches e a in
    if not valid_shape || not (same_field e a)
    then difference_as (if valid_shape then data_class else rule_class) l r.name r.reason (some e)
        (some a) s
    else s

-- The pairing of identities, for values of 32 bits.
unfoldable pub identity_matches : ℕ → Location → ℕ → ℕ → Comparator → Bool
unfolding get same_identity absent_or
identity_matches i l e a s =
    ltb e (2 ^ 32)
    && ltb a (2 ^ 32)
    && absent_or a (get same_identity (i, l.character, e) s.identities)
    && absent_or e (get same_identity (i, l.character, a) s.reverse_identities)

unfoldable pub pair_identity : ℕ → FieldRule → Location → ℕ → ℕ → Comparator → Comparator
unfolding identity_matches difference
pair_identity i r l e a s =
    if identity_matches i l e a s
    then record s {
      identities = ((i, l.character, e), a) ∷ s.identities;
      reverse_identities = ((i, l.character, a), e) ∷ s.reverse_identities;
    }
    else difference l r.name r.reason (some (Recorded.unsigned e)) (some (Recorded.unsigned a)) s

unfoldable pub is_inventory : FieldRule → Bool
unfolding inventory_high_path
is_inventory r = elim (inventory_high_path r) [ none ↦ false | some path ↦ true ]

unfoldable pub by_identity :
    ℕ → FieldRule → Location → Recorded → Recorded → Comparator → Comparator
unfolding is_inventory guid_field pair_identity difference
by_identity i r l (Recorded.guid e) (Recorded.guid a) s =
    if is_inventory r
    then guid_field l e a s
    else difference l r.name r.reason (some (Recorded.guid e)) (some (Recorded.guid a)) s
by_identity i r l (Recorded.unsigned e) (Recorded.unsigned a) s = pair_identity i r l e a s
by_identity i r l e a s = difference l r.name r.reason (some e) (some a) s

-- `wrapping_sub` on u32
unfoldable pub wrapping_sub : ℕ → ℕ → ℕ
wrapping_sub a b = (a + 2 ^ 32 - b) % 2 ^ 32

-- `clock_origins.entry(key).or_insert((e, a))`
unfoldable pub clock_origin : ℕ → Location → ℕ → ℕ → Comparator → ℕ × ℕ
unfolding get same_clock
clock_origin i l e a s = elim (get same_clock (i, l.character) s.clock_origins) [
  | none ↦ (e, a)
  | some origin ↦ origin
]

unfoldable pub clock_agrees : ℕ × ℕ → ℕ → ℕ → ℕ → Bool
unfolding wrapping_sub abs_diff
clock_agrees (eo, ao) tolerance_ms e a =
    leb (abs_diff (wrapping_sub e eo) (wrapping_sub a ao)) tolerance_ms

unfoldable pub by_clock : ℕ → ClockRule → Location → Recorded → Recorded → Comparator → Comparator
unfolding clock_origin clock_agrees report_unless
by_clock i r l (Recorded.unsigned e) (Recorded.unsigned a) s =
    if ltb e (2 ^ 32) && ltb a (2 ^ 32)
    then (let origin = clock_origin i l e a s in
        report_unless (clock_agrees origin r.tolerance_ms e a) r.rule l (Recorded.unsigned e)
          (Recorded.unsigned a)
          (record s { clock_origins = ((i, l.character), origin) ∷ s.clock_origins }))
    else report_unless false r.rule l (Recorded.unsigned e) (Recorded.unsigned a) s
by_clock i r l e a s = report_unless false r.rule l e a s

-- The first of two rules, if there is one.
unfoldable pub or_rule {ℓ} :
    {R : Type ℓ} → Option R → (R → Comparator) → Option Comparator → Option Comparator
or_rule (some r) step other = some (step r)
or_rule none step other = other

module _ (doubles : Doubles) (rules : EquivalenceRules) where
  unfoldable pub find_tolerance : ℕ → Location → Option (ℕ × ToleranceRule)
  unfolding find_rule selects covers_index
  find_tolerance opcode l =
      find_rule (λ r. selects opcode l r.rule && covers_index r.packet_index l.packet_index) 0
        rules.tolerances

  unfoldable pub find_data_field : ℕ → Location → Option (ℕ × FieldRule)
  unfolding find_rule selects
  find_data_field opcode l = find_rule (selects opcode l) 0 rules.data_fields

  unfoldable pub find_random : ℕ → Location → Option (ℕ × RandomRule)
  unfolding find_rule selects
  find_random opcode l = find_rule (λ r. selects opcode l r.rule) 0 rules.random

  unfoldable pub find_identity : ℕ → Location → Option (ℕ × FieldRule)
  unfolding find_rule selects
  find_identity opcode l = find_rule (selects opcode l) 0 rules.identities

  unfoldable pub find_clock : ℕ → Location → Option (ℕ × ClockRule)
  unfolding find_rule selects
  find_clock opcode l = find_rule (λ r. selects opcode l r.rule) 0 rules.clocks

  -- What a rule does with the field, when one selects it.
  unfoldable pub by_rule : ℕ → Location → Recorded → Recorded → Comparator → Option Comparator
  unfolding or_rule find_tolerance find_data_field find_random find_identity find_clock
      report_unless by_data_field by_identity by_clock
  by_rule opcode l e a s =
      or_rule (find_tolerance opcode l)
        (λ (i, r).
          report_unless (tolerates doubles r e a) r.rule l e a
            (record s { used_tolerances = i ∷ s.used_tolerances }))
        (or_rule (find_data_field opcode l)
          (λ (i, r). by_data_field r l e a (record s { used_data_fields = i ∷ s.used_data_fields }))
          (or_rule (find_random opcode l)
            (λ (i, r).
              report_unless (contains doubles r.range e && contains doubles r.range a) r.rule l e a
                (record s { used_random = i ∷ s.used_random }))
            (or_rule (find_identity opcode l)
              (λ (i, r).
                by_identity i r l e a (record s { used_identities = i ∷ s.used_identities }))
              (or_rule (find_clock opcode l)
                (λ (i, r). by_clock i r l e a (record s { used_clocks = i ∷ s.used_clocks }))
                none))))
