-- ===== src/SpellRolls/Landed.antt =====
-- What the counts of src/spell_rolls.rs satisfy in every state of a collector.
use wire_harness.Prelude.{
  ℕ, ◌+◌, ◌≤◌, ◌<◌, ◌^◌, ◌≡◌, ◌⊎◌, ◌∙◌, Bool, ok, err, Bool-cases, if◌then◌else◌, ltb, inl, inr,
  arith,
}
use mathlib.Core.Path.{subst}
use wire_harness.Decode.Field.{Packet}
use wire_harness.SpellRolls.Outcomes.{
  Category, miss, resist, crit, hit, partial, Counts, total, checked_suc, add,
}
use wire_harness.SpellRolls.{Pending, idle, Collector, Outcome, observe}
use wire_harness.SpellRolls.Protocol.{
  Missed, Struck, Step, stopped, ignored, started, landed, missed, struck_full, struck_part,
  struck_overflow, observe-Step,
}

-- No more partial resists than casts that landed, and every count fits in 32 bits.
unfoldable pub Sound : Counts → Type 0
Sound c =
    (c.partials ≤ c.crits + c.hits)
    × (c.misses < 2 ^ 32)
    × (c.resists < 2 ^ 32)
    × (c.crits < 2 ^ 32)
    × (c.hits < 2 ^ 32)
    × (c.partials < 2 ^ 32)

checked_suc-inv : (n m : ℕ) → checked_suc n ≡ ok m → (m ≡ n + 1) × (n + 1 < 2 ^ 32)
unfolding checked_suc
checked_suc-inv n m h = elim (Bool-cases (ltb (n + 1) (2 ^ 32))) [
  | inl e ↦ (ground arith, ground arith)
  | inr e ↦ absurd (ground arith)
]

-- What `add` did to the counts when it gave no error.
Added : Category → Counts → Counts → Type 0
Added miss c d = (d ≡ record c { misses = c.misses + 1 }) × (c.misses + 1 < 2 ^ 32)
Added resist c d = (d ≡ record c { resists = c.resists + 1 }) × (c.resists + 1 < 2 ^ 32)
Added crit c d = (d ≡ record c { crits = c.crits + 1 }) × (c.crits + 1 < 2 ^ 32)
Added hit c d = (d ≡ record c { hits = c.hits + 1 }) × (c.hits + 1 < 2 ^ 32)
Added partial c d = (d ≡ record c { partials = c.partials + 1 }) × (c.partials + 1 < 2 ^ 32)

add-Added : (k : Category) (c d : Counts) → add k c ≡ ok d → Added k c d
unfolding add Added checked_suc
add-Added miss c d h = (ground arith, ground arith)
add-Added resist c d h = (ground arith, ground arith)
add-Added crit c d h = (ground arith, ground arith)
add-Added hit c d h = (ground arith, ground arith)
add-Added partial c d h = (ground arith, ground arith)

add-total :
    (k : Category) (c d : Counts) → Missed k ⊎ Struck k → add k c ≡ ok d → total d ≡ total c + 1
unfolding total Missed Struck Added
add-total miss c d m h = let a = add-Added miss c d h in ground (arith, a.0)
add-total resist c d m h = let a = add-Added resist c d h in ground (arith, a.0)
add-total crit c d m h = let a = add-Added crit c d h in ground (arith, a.0)
add-total hit c d m h = let a = add-Added hit c d h in ground (arith, a.0)
add-total partial c d m h = elim m [ inl x ↦ elim x [ ] | inr x ↦ elim x [ ] ]

-- A cast that is counted keeps the counts sound, and leaves room for its partial resist.
add-Sound : (k : Category) (c d : Counts) → Missed k ⊎ Struck k → Sound c → add k c ≡ ok d → Sound d
unfolding Missed Struck Added Sound
add-Sound miss c d m w h = let a = add-Added miss c d h in ground (arith, a.0, a.1)
add-Sound resist c d m w h = let a = add-Added resist c d h in ground (arith, a.0, a.1)
add-Sound crit c d m w h = let a = add-Added crit c d h in ground (arith, a.0, a.1)
add-Sound hit c d m w h = let a = add-Added hit c d h in ground (arith, a.0, a.1)
add-Sound partial c d m w h = elim m [ inl x ↦ elim x [ ] | inr x ↦ elim x [ ] ]

add-room :
    (k : Category) (c d : Counts)
    → Struck k
    → Sound c
    → add k c ≡ ok d
    → d.partials < d.crits + d.hits
unfolding Struck Added Sound
add-room crit c d m w h = let a = add-Added crit c d h in ground (arith, a.0)
add-room hit c d m w h = let a = add-Added hit c d h in ground (arith, a.0)
add-room miss c d m w h = elim m [ ]
add-room resist c d m w h = elim m [ ]
add-room partial c d m w h = elim m [ ]

partial-Sound :
    (c d : Counts) → Sound c → c.partials < c.crits + c.hits → add partial c ≡ ok d → Sound d
unfolding Sound Added
partial-Sound c d w l h = let a = add-Added partial c d h in ground (arith, a.0, a.1)

partial-total : (c d : Counts) → add partial c ≡ ok d → total d ≡ total c
unfolding Added total
partial-total c d h = let a = add-Added partial c d h in ground (arith, a.0)

-- 1 while a cast is under way.
unfoldable pub busy : Pending → ℕ
busy idle = 0
busy _ = 1

Tally : Collector → Outcome → Type 0
Tally s (err e, t) = Unit
Tally s (ok b, t) =
    (total t.counts ≡ total s.counts + (if b then 1 else 0))
    × (busy s.pending ≡ busy t.pending + (if b then 1 else 0))

Step-Tally : (s : Collector) (o : Outcome) → Step s o → Tally s o
unfolding Tally busy
Step-Tally s o (stopped e) = tt
Step-Tally s o ignored = (omega arith, omega arith)
Step-Tally s o (started p) = (omega arith, ground (arith, p))
Step-Tally s o (landed p) = (omega arith, ground (arith, p))
Step-Tally s o (missed k c p m h) = (add-total k s.counts c (inl m) h, ground (arith, p))
Step-Tally s o (struck_full k c p m h) = (add-total k s.counts c (inr m) h, ground (arith, p))
Step-Tally s o (struck_part k c d p m h i) =
    (partial-total c d i ∙ add-total k s.counts c (inr m) h, ground (arith, p))
Step-Tally s o (struck_overflow k c e p m h i) = tt

-- The tally of the outcome that `observe` gives.
pub observe-Tally :
    (s t : Collector) (p : Packet) (b : Bool)
    → observe s p ≡ (ok b, t)
    → (total t.counts ≡ total s.counts + (if b then 1 else 0))
      × (busy s.pending ≡ busy t.pending + (if b then 1 else 0))
unfolding Tally
observe-Tally s t p b h = subst (Tally s) h (Step-Tally s (observe s p) (observe-Step s p))

Step-Sound : (s : Collector) (o : Outcome) → Step s o → Sound s.counts → Sound o.1.counts
Step-Sound s o (stopped e) w = w
Step-Sound s o ignored w = w
Step-Sound s o (started p) w = w
Step-Sound s o (landed p) w = w
Step-Sound s o (missed k c p m h) w = add-Sound k s.counts c (inl m) w h
Step-Sound s o (struck_full k c p m h) w = add-Sound k s.counts c (inr m) w h
Step-Sound s o (struck_part k c d p m h i) w =
    partial-Sound c d (add-Sound k s.counts c (inr m) w h) (add-room k s.counts c m w h) i
Step-Sound s o (struck_overflow k c e p m h i) w = add-Sound k s.counts c (inr m) w h

-- Whatever packet arrives, and whether `observe` refuses it, counts it or ignores it, the collector
-- it leaves has no more partial resists than landed casts and no count above 32 bits, if the
-- collector before it had.
pub observe-Sound : (s : Collector) (p : Packet) → Sound s.counts → Sound (observe s p).1.counts
observe-Sound s p = Step-Sound s (observe s p) (observe-Step s p)
