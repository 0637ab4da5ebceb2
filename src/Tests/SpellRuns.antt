-- ===== src/Tests/SpellRuns.antt =====
-- Runs of the collector of src/spell_rolls.rs: one cast that does damage, part of it resisted.
use wire_harness.Prelude.{
  ◌+◌, String, if◌then◌else◌, ◌≡◌, refl, pos, false, true, List, [], ◌∷◌, ok, arith,
}
use wire_harness.Decode.Field.{
  Fields, Packet, unsigned, signed, guid, time_ms, list, nil, cons, end, entry, lookup,
}
use wire_harness.Reading.{is_guid, is_unsigned, is_time_ms, number, numbers_are}
use wire_harness.SpellRolls
use wire_harness.SpellRolls.Outcomes
use wire_harness.SpellRolls.Outcomes.{Counts, validate}
use wire_harness.SpellRolls.{
  Pending, idle, start, go, damage, Collector, new, begin_cast, observe, is_idle,
}
use wire_harness.SpellRolls.Completed.{observe-Completed}
use wire_harness.SpellRolls.Reported.{Completed}
use wire_harness.SpellRolls.Landed.{Sound, observe-Sound}
use wire_harness.SpellRolls.Session.{
  Reaches, here, begun, passed, completed, Reaches-validate, Reaches-balance,
}

abbrev at_stage : Pending → Counts → Collector
at_stage p c = record {
  caster = 7;
  target = 9;
  spell_id = 133;
  school = 2;
  cast_time_ms = 1500;
  pending = p;
  counts = c;
}

abbrev none_yet : Counts
none_yet = record { misses = 0; resists = 0; crits = 0; hits = 0; partials = 0 }

abbrev one_partial : Counts
one_partial = record { misses = 0; resists = 0; crits = 0; hits = 1; partials = 1 }

abbrev start_packet : Packet
start_packet = record {
  opcode = 0x0131;
  fields =
      entry "caster" (guid 7) (entry "spell" (unsigned 133) (entry "duration" (time_ms 1500) end));
}

abbrev go_packet : Packet
go_packet = record {
  opcode = 0x0132;
  fields = entry "caster" (guid 7) (
      entry "spell" (unsigned 133)
        (entry "hits" (list (cons (guid 9) nil)) (entry "misses" (list nil) end)));
}

abbrev zeros : List String → Fields → Fields
zeros [] fs = fs
zeros (name ∷ more) fs = entry name (unsigned 0) (zeros more fs)

abbrev damage_packet : Packet
damage_packet = record {
  opcode = 0x0250;
  fields = entry "caster" (guid 7) (
      entry "spell" (unsigned 133) (
        entry "target" (guid 9) (
          entry "school" (unsigned 2) (
            entry "resisted" (signed (pos 12)) (
              entry "damage" (unsigned 40) (
                zeros
                  ("absorbed" ∷ "blocked" ∷ "periodic" ∷ "unused" ∷ "extended" ∷ "hit_info" ∷ [])
                  end))))));
}

opened : new 7 9 133 2 1500 ≡ ok (at_stage idle none_yet)
unfolding new Outcomes.no_counts
opened = refl

cast_begun : begin_cast (at_stage idle none_yet) ≡ ok (at_stage start none_yet)
unfolding begin_cast SpellRolls.same_pending
cast_begun = refl

start_seen : observe (at_stage start none_yet) start_packet ≡ (ok false, at_stage go none_yet)
unfolding observe SpellRolls.is_refusal SpellRolls.is_foreign SpellRolls.own_spell
    SpellRolls.observe_start SpellRolls.guarded SpellRolls.same_pending is_guid is_unsigned
    is_time_ms number lookup
start_seen = refl

go_seen : observe (at_stage go none_yet) go_packet ≡ (ok false, at_stage damage none_yet)
unfolding observe SpellRolls.is_refusal SpellRolls.is_foreign SpellRolls.own_spell
    SpellRolls.observe_go SpellRolls.landing SpellRolls.after_landing SpellRolls.listed
    SpellRolls.only_hit SpellRolls.guarded SpellRolls.same_pending is_guid is_unsigned number lookup
go_seen = refl

damage_seen :
    observe (at_stage damage none_yet) damage_packet ≡ (ok true, at_stage idle one_partial)
unfolding observe SpellRolls.is_refusal SpellRolls.is_foreign SpellRolls.own_spell
    SpellRolls.observe_damage SpellRolls.struck SpellRolls.after_strike SpellRolls.resisted
    SpellRolls.adding SpellRolls.counted Outcomes.add Outcomes.checked_suc SpellRolls.settle
    SpellRolls.guarded SpellRolls.same_pending is_guid is_unsigned number numbers_are lookup
damage_seen = refl

one_cast : Reaches (at_stage idle none_yet) 1 1 (at_stage idle one_partial)
one_cast =
    completed (passed (passed (begun here cast_begun) start_packet start_seen) go_packet go_seen)
      damage_packet damage_seen

Reaches-validate_example : validate one_partial 1 ≡ ok tt
Reaches-validate_example =
    Reaches-validate 7 9 133 2 1500 1 1 (at_stage idle none_yet) (at_stage idle one_partial) opened
      one_cast

Reaches-balance_example : 1 ≡ 1 + (if is_idle (at_stage idle one_partial) then 0 else 1)
Reaches-balance_example =
    Reaches-balance 7 9 133 2 1500 1 1 (at_stage idle none_yet) (at_stage idle one_partial) opened
      one_cast

none_yet-Sound : Sound none_yet
unfolding Sound
none_yet-Sound = ground arith

observe-Sound_example : Sound (observe (at_stage damage none_yet) damage_packet).1.counts
observe-Sound_example = observe-Sound (at_stage damage none_yet) damage_packet none_yet-Sound

observe-Completed_example :
    Completed (at_stage damage none_yet) damage_packet (at_stage idle one_partial)
observe-Completed_example =
    observe-Completed (at_stage damage none_yet) (at_stage idle one_partial) damage_packet
      damage_seen
