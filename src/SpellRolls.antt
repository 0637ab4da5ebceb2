-- ===== src/SpellRolls.antt =====
-- `Collector` of src/spell_rolls.rs: the outcomes of one spell, collected from packets.
pub mod Outcomes
pub mod Recording
pub mod Totals
pub mod Protocol
pub mod Reported
pub mod Reads
pub mod Said
pub mod Completed
pub mod Landed
pub mod Session
use wire_harness.Prelude.{
  ℕ, ◌+◌, ◌-◌, ◌^◌, ℤ, pos, negsuc, Bool, true, false, ◌&&◌, ◌||◌, not, ltb, leb, ◌==◌, has,
  bit_and, List, [], ◌∷◌, Option, none, some, Result, ok, err, ◌>>=◌, ◌>>◌, ensure, if◌then◌else◌,
}
use wire_harness.Decode.Field.{
  Field, Fields, Items, Packet, unsigned, signed, guid, list, object, nil, cons, lookup,
}
use wire_harness.Reading.{is_guid, is_unsigned, is_time_ms, number, numbers_are}
use Outcomes.{
  overflow, incomplete, partial_excess, participants, previous, refused, missing_number,
  foreign_spell, Error, unsolicited_start, cast_time, unsolicited_go, missing_hits, missing_misses,
  target_count, invalid_miss, other_target, miss_reason, unsolicited_damage, damage_context,
  resistance, damage_flags, Category, miss, resist, crit, hit, partial, Counts, no_counts, add,
  Error,
}

pub data Pending : Type 0 where
  idle start go damage : Pending

unfoldable pub same_pending : Pending → Pending → Bool
same_pending idle idle = true
same_pending start start = true
same_pending go go = true
same_pending damage damage = true
same_pending _ _ = false

pub record Collector : Type 0 where
  pub caster : ℕ
  pub target : ℕ
  pub spell_id : ℕ
  pub school : ℕ
  pub cast_time_ms : ℕ
  pub pending : Pending
  pub counts : Counts

unfoldable pub new : ℕ → ℕ → ℕ → ℕ → ℕ → Result Error Collector
unfolding no_counts
new caster target spell_id school cast_time_ms = do
  ensure
      (not (caster == 0)
        && not (target == 0)
        && not (caster == target)
        && leb 1 spell_id
        && leb spell_id 65535
        && leb 1 school
        && leb school 6
        && ltb 0 cast_time_ms
        && leb cast_time_ms 60000)
      participants
  ok (record {
    caster = caster;
    target = target;
    spell_id = spell_id;
    school = school;
    cast_time_ms = cast_time_ms;
    pending = idle;
    counts = no_counts;
  })

unfoldable pub begin_cast : Collector → Result Error Collector
unfolding same_pending
begin_cast s = do ensure (same_pending s.pending idle) previous; ok (record s { pending = start })

unfoldable pub is_idle : Collector → Bool
unfolding same_pending
is_idle s = same_pending s.pending idle

-- What a handler leaves: its result, and the collector as it stands then, after an error too.
abbrev pub Outcome : Type 0
Outcome = Result Error Bool × Collector

-- The `?` on what is computed before anything changes.
unfoldable pub guarded : {A : Type 0} → Result Error A → Collector → (A → Outcome) → Outcome
guarded (ok a) s next = next a
guarded (err e) s next = (err e, s)

-- `self.counts.add(category)?`
unfoldable pub counted : Result Error Counts → Collector → (Collector → Outcome) → Outcome
counted (ok c) s next = next (record s { counts = c })
counted (err e) s next = (err e, s)

unfoldable pub adding : Category → Collector → (Collector → Outcome) → Outcome
unfolding counted
adding k s next = counted (add k s.counts) s next

-- `self.pending = Pending::None; Ok(true)`
unfoldable pub settle : Collector → Outcome
settle s = (ok true, record s { pending = idle })

-- 0x0131
unfoldable pub observe_start : Collector → Fields → Outcome
unfolding guarded same_pending
observe_start s fs =
    guarded
      (do
        ensure (same_pending s.pending start) unsolicited_start
        ensure (is_time_ms "duration" s.cast_time_ms fs) cast_time)
      s (λ _. (ok false, record s { pending = go }))

-- `Some(Field::List(items))`
unfoldable pub listed : Option Field → Error → Result Error Items
listed (some (list items)) e = ok items
listed _ e = err e

-- `hits == &[Field::Guid(target)] && misses.is_empty()`
unfoldable pub only_hit : ℕ → Items → Items → Bool
only_hit target (cons (guid g) nil) nil = g == target
only_hit target _ _ = false

-- `hits.is_empty() && misses.len() == 1`, and the one miss
unfoldable pub only_miss : Items → Items → Result Error Field
only_miss nil (cons missed nil) = ok missed
only_miss _ _ = err target_count

-- The category of a miss.
unfoldable pub miss_category : ℕ → Field → Result Error Category
miss_category target (object fs) = do
  ensure (is_guid "guid" target fs) other_target
  if is_unsigned "reason" 1 fs
      then ok miss
      else if is_unsigned "reason" 2 fs
      then ok resist
      else err miss_reason
miss_category target _ = err invalid_miss

-- What a spell go reports: a hit on the target, or the category of the miss.
unfoldable pub landing : Collector → Fields → Result Error (Option Category)
unfolding same_pending listed only_hit only_miss miss_category
landing s fs = do
  ensure (same_pending s.pending go) unsolicited_go
  hits ← listed (lookup "hits" fs) missing_hits
  misses ← listed (lookup "misses" fs) missing_misses
  if only_hit s.target hits misses then ok none else do
    missed ← only_miss hits misses
    category ← miss_category s.target missed
    ok (some category)

unfoldable pub after_landing : Collector → Option Category → Outcome
unfolding adding settle
after_landing s none = (ok false, record s { pending = damage })
after_landing s (some category) = adding category s settle

-- 0x0132
unfoldable pub observe_go : Collector → Fields → Outcome
unfolding guarded after_landing
observe_go s fs = guarded (landing s fs) s (after_landing s)

-- `Some(Field::Signed(value)) if *value >= 0`
unfoldable pub resisted : Option Field → Result Error ℕ
resisted (some (signed (pos n))) = ok n
resisted _ = err resistance

-- What spell damage reports: a crit or a hit, and whether part of it was resisted.
unfoldable pub struck : Collector → Fields → Result Error (Category × Bool)
unfolding same_pending resisted
struck s fs = do
  ensure (same_pending s.pending damage) unsolicited_damage
  ensure (is_guid "target" s.target fs) other_target
  eligible ←
      numbers_are missing_number
        (("school", s.school)
          ∷ ("absorbed", 0)
          ∷ ("blocked", 0)
          ∷ ("periodic", 0)
          ∷ ("unused", 0)
          ∷ ("extended", 0)
          ∷ [])
        fs
  ensure eligible damage_context
  flags ← number missing_number "hit_info" fs
  withheld ← resisted (lookup "resisted" fs)
  known ←
      if has flags (2 ^ 64 - 3)
      then ok false
      else (number missing_number "damage" fs >>= λ n. ok (ltb 0 n))
  ensure known damage_flags
  ok (if has flags 2 then crit else hit, ltb 0 withheld)

unfoldable pub after_strike : Collector → Category × Bool → Outcome
unfolding adding settle
after_strike s (category, part) =
    adding category s λ s'. if part then adding partial s' settle else settle s'

-- 0x0250
unfoldable pub observe_damage : Collector → Fields → Outcome
unfolding guarded after_strike
observe_damage s fs = guarded (struck s fs) s (after_strike s)

-- 0x0130 with the result 2: the server refused the cast.
unfoldable pub is_refusal : Collector → Packet → Bool
is_refusal s p =
    p.opcode == 0x0130 && is_unsigned "spell" s.spell_id p.fields && is_unsigned "result" 2 p.fields

-- Not one of the three packets of a cast, or not of this caster.
unfoldable pub is_foreign : Collector → Packet → Bool
is_foreign s p =
    not (p.opcode == 0x0131 || p.opcode == 0x0132 || p.opcode == 0x0250)
    || not (is_guid "caster" s.caster p.fields)

unfoldable pub own_spell : Collector → Packet → Result Error (Unit {0})
own_spell s p = do
  spell ← number missing_number "spell" p.fields
  ensure (spell == s.spell_id) foreign_spell

unfoldable pub observe : Collector → Packet → Outcome
unfolding guarded is_refusal is_foreign own_spell
observe s p =
    if is_refusal s p
    then (err refused, s)
    else if is_foreign s p
    then (ok false, s)
    else guarded (own_spell s p) s λ _.
      if p.opcode == 0x0131
      then observe_start s p.fields
      else if p.opcode == 0x0132
      then observe_go s p.fields
      else observe_damage s p.fields
