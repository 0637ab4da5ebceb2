-- ===== src/SpellRolls/Protocol.antt =====
-- The protocol that `Collector::observe` of src/spell_rolls.rs follows.
use wire_harness.Prelude.{
  ◌≡◌, refl, Bool, true, false, Option, none, some, Result, ok, err, Bool-cases, if◌then◌else◌, inl,
  inr, ◌==◌, arith,
}
use wire_harness.Decode.Field.{Fields, Packet}
use wire_harness.Reading.{is_time_ms}
use wire_harness.SpellRolls.Outcomes.{
  Error, Category, miss, resist, crit, hit, partial, Counts, add, refused,
}
use wire_harness.SpellRolls.{
  Pending, idle, start, go, damage, same_pending, Collector, Outcome, guarded, counted, adding,
  settle, observe_start, miss_category, landing, after_landing, observe_go, struck, after_strike,
  observe_damage, is_refusal, is_foreign, own_spell, observe,
}

unfoldable pub Missed : Category → Type 0
Missed miss = Unit
Missed resist = Unit
Missed _ = ⊥

unfoldable pub Struck : Category → Type 0
Struck crit = Unit
Struck hit = Unit
Struck _ = ⊥

-- The steps of the collector on a packet. A cast is started, then it goes off, then it misses or
-- does damage; a packet that is refused leaves the collector as it was, but for a strike that is
-- counted before the count of partial resists overflows.
pub data Step (s : Collector) : Outcome → Type 0 where
  stopped : (e : Error) → Step s (err e, s)
  ignored : Step s (ok false, s)
  started : s.pending ≡ start → Step s (ok false, record s { pending = go })
  landed : s.pending ≡ go → Step s (ok false, record s { pending = damage })
  missed :
      (k : Category) (c : Counts)
      → s.pending ≡ go
      → Missed k
      → add k s.counts ≡ ok c
      → Step s (ok true, record s { pending = idle; counts = c })
  struck_full :
      (k : Category) (c : Counts)
      → s.pending ≡ damage
      → Struck k
      → add k s.counts ≡ ok c
      → Step s (ok true, record s { pending = idle; counts = c })
  struck_part :
      (k : Category) (c d : Counts)
      → s.pending ≡ damage
      → Struck k
      → add k s.counts ≡ ok c
      → add partial c ≡ ok d
      → Step s (ok true, record s { pending = idle; counts = d })
  struck_overflow :
      (k : Category) (c : Counts) (e : Error)
      → s.pending ≡ damage
      → Struck k
      → add k s.counts ≡ ok c
      → add partial c ≡ err e
      → Step s (err e, record s { counts = c })

pub same_pending-eq : (a b : Pending) → same_pending a b ≡ true → a ≡ b
unfolding same_pending
same_pending-eq idle idle h = refl
same_pending-eq start start h = refl
same_pending-eq go go h = refl
same_pending-eq damage damage h = refl
same_pending-eq idle start h = absurd (ground arith)
same_pending-eq idle go h = absurd (ground arith)
same_pending-eq idle damage h = absurd (ground arith)
same_pending-eq start idle h = absurd (ground arith)
same_pending-eq start go h = absurd (ground arith)
same_pending-eq start damage h = absurd (ground arith)
same_pending-eq go idle h = absurd (ground arith)
same_pending-eq go start h = absurd (ground arith)
same_pending-eq go damage h = absurd (ground arith)
same_pending-eq damage idle h = absurd (ground arith)
same_pending-eq damage start h = absurd (ground arith)
same_pending-eq damage go h = absurd (ground arith)

landing-go :
    (s : Collector) (fs : Fields) (r : Option Category) → landing s fs ≡ ok r → s.pending ≡ go
unfolding landing
landing-go s fs r h = same_pending-eq s.pending go (ground arith)

landing-Missed :
    (s : Collector) (fs : Fields) (k : Category) → landing s fs ≡ ok (some k) → Missed k
unfolding landing Missed miss_category
landing-Missed s fs k h = ground arith

struck-damage :
    (s : Collector) (fs : Fields) (r : Category × Bool) → struck s fs ≡ ok r → s.pending ≡ damage
unfolding struck
struck-damage s fs r h = same_pending-eq s.pending damage (ground arith)

struck-Struck :
    (s : Collector) (fs : Fields) (r : Category × Bool) → struck s fs ≡ ok r → Struck r.0
unfolding struck Struck
struck-Struck s fs r h = ground arith

Step-Missed :
    (s : Collector) (k : Category) (r : Result Error Counts)
    → s.pending ≡ go
    → Missed k
    → add k s.counts ≡ r
    → Step s (counted r s settle)
unfolding counted settle
Step-Missed s k (ok c) p m h = missed k c p m h
Step-Missed s k (err e) p m h = stopped e

Step-part :
    (s : Collector) (k : Category) (c : Counts) (r : Result Error Counts)
    → s.pending ≡ damage
    → Struck k
    → add k s.counts ≡ ok c
    → add partial c ≡ r
    → Step s (counted r (record s { counts = c }) settle)
unfolding counted settle
Step-part s k c (ok d) p m h i = struck_part k c d p m h i
Step-part s k c (err e) p m h i = struck_overflow k c e p m h i

Step-Struck :
    (s : Collector) (k : Category) (part : Bool) (r : Result Error Counts)
    → s.pending ≡ damage
    → Struck k
    → add k s.counts ≡ r
    → Step s (counted r s λ s'. if part then adding partial s' settle else settle s')
unfolding counted settle adding
Step-Struck s k part (err e) p m h = stopped e
Step-Struck s k false (ok c) p m h = struck_full k c p m h
Step-Struck s k true (ok c) p m h = Step-part s k c (add partial c) p m h refl

Step-after_landing :
    (s : Collector) (fs : Fields) (r : Result Error (Option Category))
    → landing s fs ≡ r
    → Step s (guarded r s (after_landing s))
unfolding guarded after_landing adding
Step-after_landing s fs (err e) h = stopped e
Step-after_landing s fs (ok none) h = landed (landing-go s fs none h)
Step-after_landing s fs (ok (some k)) h =
    Step-Missed s k (add k s.counts) (landing-go s fs (some k) h) (landing-Missed s fs k h) refl

Step-after_strike :
    (s : Collector) (fs : Fields) (r : Result Error (Category × Bool))
    → struck s fs ≡ r
    → Step s (guarded r s (after_strike s))
unfolding guarded after_strike adding
Step-after_strike s fs (err e) h = stopped e
Step-after_strike s fs (ok (k, part)) h =
    Step-Struck s k part (add k s.counts) (struck-damage s fs (k, part) h)
      (struck-Struck s fs (k, part) h) refl

Step-observe_start : (s : Collector) (fs : Fields) → Step s (observe_start s fs)
unfolding observe_start guarded
Step-observe_start s fs = elim (Bool-cases (same_pending s.pending start)) [
  | inl e ↦ elim (Bool-cases (is_time_ms "duration" s.cast_time_ms fs)) [
    | inl f ↦ rw (e, f) (started (same_pending-eq s.pending start e))
    | inr f ↦ rw (e, f) (stopped _)
  ]
  | inr e ↦ rw e (stopped _)
]

Step-if :
    {s : Collector} (b : Bool) {o o' : Outcome}
    → Step s o
    → Step s o'
    → Step s (if b then o else o')
Step-if true x y = x
Step-if false x y = y

Step-guarded :
    {A : Type 0} {s : Collector} (r : Result Error A) (next : A → Outcome)
    → ((a : A) → Step s (next a))
    → Step s (guarded r s next)
unfolding guarded
Step-guarded (ok a) next h = h a
Step-guarded (err e) next h = stopped e

-- Every packet takes the collector along one of these steps.
pub observe-Step : (s : Collector) (p : Packet) → Step s (observe s p)
unfolding observe observe_go observe_damage
observe-Step s p = Step-if (is_refusal s p) (stopped refused) (
    Step-if (is_foreign s p) ignored (
      Step-guarded (own_spell s p) _ λ _.
        Step-if (p.opcode == 0x0131) (Step-observe_start s p.fields) (
          Step-if (p.opcode == 0x0132) (Step-after_landing s p.fields (landing s p.fields) refl)
            (Step-after_strike s p.fields (struck s p.fields) refl))))
