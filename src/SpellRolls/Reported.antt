-- ===== src/SpellRolls/Reported.antt =====
-- What a packet reports of a cast that `Collector::observe` of src/spell_rolls.rs completes with it.
use wire_harness.Prelude.{
  ℕ, ◌+◌, ◌<◌, ◌^◌, ◌-◌, ◌≡◌, pos, Bool, false, ltb, has, List, [], ◌∷◌, String, some, All,
  if◌then◌else◌,
}
use wire_harness.Decode.Field.{
  Fields, Packet, unsigned, signed, guid, list, object, nil, cons, lookup,
}
use wire_harness.SpellRolls.Outcomes.{Counts}
use wire_harness.SpellRolls.{idle, go, damage, Collector}

-- What a cast adds to each count.
unfoldable pub evasion : Bool → Counts
evasion resisted_it = record {
  misses = if resisted_it then 0 else 1;
  resists = if resisted_it then 1 else 0;
  crits = 0;
  hits = 0;
  partials = 0;
}

unfoldable pub harm : Bool → Bool → Counts
harm critical part = record {
  misses = 0;
  resists = 0;
  crits = if critical then 1 else 0;
  hits = if critical then 0 else 1;
  partials = if part then 1 else 0;
}

-- The numbers of damage of this school with nothing absorbed or blocked.
abbrev pub plain : ℕ → List (String × ℕ)
plain school =
    ("school", school)
    ∷ ("absorbed", 0)
    ∷ ("blocked", 0)
    ∷ ("periodic", 0)
    ∷ ("unused", 0)
    ∷ ("extended", 0)
    ∷ []

-- What the fields of a packet report of the collector's cast, by the packet's opcode: one miss, of
-- the target, with the reason that it missed or resisted; or damage to the target, of the cast's own
-- school and with nothing absorbed or blocked.
pub data Reported (s : Collector) (fs : Fields) : ℕ → Counts → Type 0 where
  evaded :
      {m : Fields} (resisted_it : Bool)
      → s.pending ≡ go
      → lookup "hits" fs ≡ some (list nil)
      → lookup "misses" fs ≡ some (list (cons (object m) nil))
      → lookup "guid" m ≡ some (guid s.target)
      → lookup "reason" m ≡ some (unsigned (if resisted_it then 2 else 1))
      → Reported s fs 0x0132 (evasion resisted_it)
  harmed :
      {flags withheld dealt : ℕ}
      → s.pending ≡ damage
      → lookup "target" fs ≡ some (guid s.target)
      → All (λ (name, value). lookup name fs ≡ some (unsigned value)) (plain s.school)
      → lookup "hit_info" fs ≡ some (unsigned flags)
      → has flags (2 ^ 64 - 3) ≡ false
      → lookup "damage" fs ≡ some (unsigned dealt)
      → 0 < dealt
      → lookup "resisted" fs ≡ some (signed (pos withheld))
      → Reported s fs 0x0250 (harm (has flags 2) (ltb 0 withheld))

-- Every count grows by what is reported.
unfoldable pub Grown : Counts → Counts → Counts → Type 0
Grown by before after =
    (after.misses ≡ before.misses + by.misses)
    × ((after.resists ≡ before.resists + by.resists)
        × ((after.crits ≡ before.crits + by.crits)
            × ((after.hits ≡ before.hits + by.hits)
                × (after.partials ≡ before.partials + by.partials))))

-- The cast that a packet completes.
pub record Completed (s : Collector) (p : Packet) (t : Collector) : Type 0 where
  pub own_caster : lookup "caster" p.fields ≡ some (guid s.caster)
  pub own_cast : lookup "spell" p.fields ≡ some (unsigned s.spell_id)
  pub by : Counts
  pub reported : Reported s p.fields p.opcode by
  pub grown : Grown by s.counts t.counts
  pub settled : t ≡ record s { pending = idle; counts = t.counts }
