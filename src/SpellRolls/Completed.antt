-- ===== src/SpellRolls/Completed.antt =====
-- What the packets say that `Collector::observe` of src/spell_rolls.rs completes a cast with.
use wire_harness.Prelude.{
  ℕ, ◌≡◌, inl, inr, refl, sym, ap, ◌∙◌, Bool, true, false, ltb, ◌==◌, has, Option, none, some,
  Result, ok, err, Gives, Gives-bind, Bool-cases, arith, if◌then◌else◌,
}
use mathlib.Core.Path.{subst}
use wire_harness.Decode.Field.{Fields, Packet, unsigned, list, nil, cons, lookup}
use wire_harness.Reading.{is_time_ms, number}
use wire_harness.SpellRolls.Outcomes.{
  Error, missing_number, Category, miss, resist, crit, hit, partial, Counts, add, checked_suc,
}
use wire_harness.SpellRolls.{
  idle, start, same_pending, Collector, Outcome, guarded, counted, adding, settle, observe_start,
  landing, after_landing, observe_go, struck, after_strike, observe_damage, is_refusal, is_foreign,
  own_spell, observe,
}
use wire_harness.SpellRolls.Reported.{evasion, harm, Reported, Grown, Completed, evaded}
use wire_harness.SpellRolls.Reads.{is_guid-lookup, number-lookup, eq_of_test}
use wire_harness.SpellRolls.Said.{MissOf, LandedAs, landing-LandedAs, StruckAs, struck-StruckAs}

-- What holds of the collector behind an observation that completes a cast.
Completes : (Collector → Type 0) → Outcome → Type 0
Completes Q (ok true, t) = Q t
Completes Q o = Unit

Completes-guarded :
    {A : Type 0} (P : A → Type 0) (Q : Collector → Type 0) (r : Result Error A) (s : Collector)
    (next : A → Outcome)
    → Gives P r
    → ((a : A) → P a → Completes Q (next a))
    → Completes Q (guarded r s next)
unfolding guarded Completes Gives
Completes-guarded P Q (ok a) s next g h = h a g
Completes-guarded P Q (err e) s next g h = tt

Completes-counted :
    (Q : Collector → Type 0) (r : Result Error Counts) (s : Collector) (next : Collector → Outcome)
    → ((c : Counts) → r ≡ ok c → Completes Q (next (record s { counts = c })))
    → Completes Q (counted r s next)
unfolding counted Completes
Completes-counted Q (ok c) s next h = h c refl
Completes-counted Q (err e) s next h = tt

evasion-Grown :
    (c d : Counts) (resisted_it : Bool)
    → add (if resisted_it then resist else miss) c ≡ ok d
    → Grown (evasion resisted_it) c d
unfolding Grown evasion add checked_suc
evasion-Grown c d true h = ground (arith, h)
evasion-Grown c d false h = ground (arith, h)

harm-Grown :
    (c d : Counts) (critical : Bool)
    → add (if critical then crit else hit) c ≡ ok d
    → Grown (harm critical false) c d
unfolding Grown harm add checked_suc
harm-Grown c d true h = ground (arith, h)
harm-Grown c d false h = ground (arith, h)

part-Grown :
    (c d e : Counts) (critical : Bool)
    → Grown (harm critical false) c d
    → add partial d ≡ ok e
    → Grown (harm critical true) c e
unfolding Grown harm add checked_suc
part-Grown c d e critical g h = ground (arith, g, h)

-- A report that is counted, and leaves the collector idle.
Counted : Collector → Fields → ℕ → Collector → Type 0
Counted s fs opcode t =
    (by : Counts) × (Reported s fs opcode by
      × (Grown by s.counts t.counts × (t ≡ record s { pending = idle; counts = t.counts })))

after_landing-Counted :
    (s : Collector) (fs : Fields) (r : Option Category)
    → LandedAs s fs r
    → Completes (Counted s fs 0x0132) (after_landing s r)
unfolding after_landing LandedAs MissOf adding
after_landing-Counted s fs none h = unfold Completes in tt
after_landing-Counted s fs (some k) (p, (f, (no_hit, (one, (m, (e, (g, why))))))) =
    let only = one ∙ ap (λ x. some (list (cons x nil))) e in
    Completes-counted (Counted s fs 0x0132) (add k s.counts) s settle λ c added.
      unfold settle in
      unfold Completes in
      unfold Counted in
      elim why [
        | inl (kind, reason) ↦ (
          evasion false,
          (
            evaded false p no_hit only g reason,
            (evasion-Grown s.counts c false (subst (λ x. add x s.counts ≡ ok c) kind added), refl),
          ),
        )
        | inr (kind, reason) ↦ (
          evasion true,
          (
            evaded true p no_hit only g reason,
            (evasion-Grown s.counts c true (subst (λ x. add x s.counts ≡ ok c) kind added), refl),
          ),
        )
      ]

after_strike-Counted :
    (s : Collector) (fs : Fields) (k : Category) (part : Bool)
    → StruckAs s fs (k, part)
    → Completes (Counted s fs 0x0250) (after_strike s (k, part))
unfolding after_strike StruckAs adding settle Completes Counted
after_strike-Counted s fs k part (flags, (withheld, (kind, (rest, reported)))) =
    let Q = Counted s fs 0x0250 in
    Completes-counted Q (add k s.counts) s _ λ c added.
      let first =
        harm-Grown s.counts c (has flags 2) (subst (λ x. add x s.counts ≡ ok c) kind added) in
      elim (Bool-cases part) [
        | inl h ↦ rw h (
            Completes-counted Q (add partial c) (record s { counts = c }) settle
              λ d more. (
                harm (has flags 2) (ltb 0 withheld),
                (
                  reported,
                  (
                    subst (λ b. Grown (harm (has flags 2) b) s.counts d) (sym h ∙ rest)
                        (part-Grown s.counts c d (has flags 2) first more),
                    refl,
                  ),
                ),
              ))
        | inr h ↦ rw h (
          harm (has flags 2) (ltb 0 withheld),
          (
            reported,
            (subst (λ b. Grown (harm (has flags 2) b) s.counts c) (sym h ∙ rest) first, refl),
          ),
        )
      ]

Completes-if :
    (Q : Collector → Type 0) (b : Bool) (o o' : Outcome)
    → (b ≡ true → Completes Q o)
    → (b ≡ false → Completes Q o')
    → Completes Q (if b then o else o')
Completes-if Q true o o' h k = h refl
Completes-if Q false o o' h k = k refl

Completes-mono :
    (P Q : Collector → Type 0) (o : Outcome)
    → ((t : Collector) → P t → Q t)
    → Completes P o
    → Completes Q o
unfolding Completes
Completes-mono P Q (ok true, t) h c = h t c
Completes-mono P Q (ok false, t) h c = tt
Completes-mono P Q (err e, t) h c = tt

own_spell-lookup :
    (s : Collector) (p : Packet)
    → Gives (λ u. lookup "spell" p.fields ≡ some (unsigned s.spell_id)) (own_spell s p)
unfolding own_spell Gives
own_spell-lookup s p =
    let P = λ (u : Unit {0}). lookup "spell" p.fields ≡ some (unsigned s.spell_id) in
    Gives-bind (λ n. lookup "spell" p.fields ≡ some (unsigned n)) P
      (number missing_number "spell" p.fields) _ (number-lookup "spell" p.fields)
      λ n f. elim (Bool-cases (n == s.spell_id)) [
        | inl e ↦ rw e (f ∙ ap (λ x. some (unsigned x)) (eq_of_test n s.spell_id e))
        | inr e ↦ rw e tt
      ]

Counted-Completed :
    (s : Collector) (p : Packet) (opcode : ℕ) (t : Collector)
    → is_foreign s p ≡ false
    → lookup "spell" p.fields ≡ some (unsigned s.spell_id)
    → p.opcode ≡ opcode
    → Counted s p.fields opcode t
    → Completed s p t
unfolding Counted is_foreign
Counted-Completed s p opcode t own spell e (by, (reported, (grown, settled))) = record {
  own_caster = is_guid-lookup "caster" s.caster p.fields (ground (arith, own));
  own_cast = spell;
  by = by;
  reported = subst (λ n. Reported s p.fields n by) (sym e) reported;
  grown = grown;
  settled = settled;
}

Completes-nothing : (Q : Collector → Type 0) (t : Collector) → Completes Q (ok false, t)
unfolding Completes
Completes-nothing Q t = tt

Completes-error : (Q : Collector → Type 0) (e : Error) (t : Collector) → Completes Q (err e, t)
unfolding Completes
Completes-error Q e t = tt

start-Completes :
    (Q : Collector → Type 0) (s : Collector) (fs : Fields) → Completes Q (observe_start s fs)
unfolding observe_start guarded Completes
start-Completes Q s fs = elim (Bool-cases (same_pending s.pending start)) [
  | inl e ↦ elim (Bool-cases (is_time_ms "duration" s.cast_time_ms fs)) [
    | inl f ↦ rw (e, f) tt
    | inr f ↦ rw (e, f) tt
  ]
  | inr e ↦ rw e tt
]

observe-Completes : (s : Collector) (p : Packet) → Completes (Completed s p) (observe s p)
unfolding observe observe_go observe_damage
observe-Completes s p =
    let Q = Completed s p in
    Completes-if Q (is_refusal s p) _ _ (λ _. Completes-error Q _ _)
      λ _.
        Completes-if Q (is_foreign s p) _ _ (λ _. Completes-nothing Q _)
          λ own.
            Completes-guarded (λ u. lookup "spell" p.fields ≡ some (unsigned s.spell_id)) Q
              (own_spell s p) s _ (own_spell-lookup s p)
              λ _ spell.
                Completes-if Q (p.opcode == 0x0131) _ _ (λ _. start-Completes Q s p.fields)
                  (λ other.
                    Completes-if Q (p.opcode == 0x0132) _ _
                      (λ e.
                        Completes-guarded (LandedAs s p.fields) Q (landing s p.fields) s _
                          (landing-LandedAs s p.fields)
                          λ r landed.
                            Completes-mono (Counted s p.fields 0x0132) Q (after_landing s r)
                              (λ t.
                                Counted-Completed s p 0x0132 t own spell (eq_of_test p.opcode _ e))
                              (after_landing-Counted s p.fields r landed))
                      (λ e.
                        Completes-guarded (StruckAs s p.fields) Q (struck s p.fields) s _
                          (struck-StruckAs s p.fields)
                          λ (k, part) hurt.
                            Completes-mono (Counted s p.fields 0x0250) Q (after_strike s (k, part))
                              (λ t.
                                Counted-Completed s p 0x0250 t own spell
                                  (unfold is_foreign in ground (arith, own, other, e)))
                              (after_strike-Counted s p.fields k part hurt)))

-- A packet that completes a cast names the collector's caster and spell. Either it is a spell go
-- with no hit and one miss, of the target, for the reason 1 or 2, received when one was awaited, and
-- one miss or one resist is counted; or it is damage to the target, of the cast's school, above zero
-- and with nothing absorbed or blocked, received when it was awaited, and one crit is counted or one
-- hit, by the flag for it, and one partial resist when a part was resisted. No other count changes,
-- and nothing else of the collector does, but that it awaits no packet.
pub observe-Completed :
    (s t : Collector) (p : Packet) → observe s p ≡ (ok true, t) → Completed s p t
observe-Completed s t p h =
    unfold Completes in subst (Completes (Completed s p)) h (observe-Completes s p)
