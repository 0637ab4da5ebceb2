-- ===== src/SpellRolls/Session.antt =====
-- A session of the collector of src/spell_rolls.rs: casts begun and packets observed, in any order,
-- as long as none gives an error.
use wire_harness.Prelude.{
  ℕ, ◌+◌, ◌≡◌, refl, ap, ◌∙◌, Bool, true, false, ok, Bool-cases, if◌then◌else◌, inl, inr, arith,
}
use wire_harness.Decode.Field.{Packet}
use wire_harness.SpellRolls.Outcomes.{no_counts, total, validate}
use wire_harness.SpellRolls.{
  Pending, idle, start, go, damage, same_pending, Collector, new, begin_cast, is_idle, observe,
}
use wire_harness.SpellRolls.Protocol.{same_pending-eq}
use wire_harness.SpellRolls.Landed.{Sound, busy, observe-Tally, observe-Sound}
use mathlib.Core.Path.{subst}

-- `Reaches s b n t`: from `s`, a session with `b` casts begun and `n` packets that completed one
-- leads to `t`.
pub data Reaches (s : Collector) : ℕ → ℕ → Collector → Type 0 where
  here : Reaches s 0 0 s
  begun :
      {b n : ℕ} {t u : Collector} → Reaches s b n t → begin_cast t ≡ ok u → Reaches s (b + 1) n u
  passed :
      {b n : ℕ} {t u : Collector}
      → Reaches s b n t
      → (p : Packet) → observe t p ≡ (ok false, u)
      → Reaches s b n u
  completed :
      {b n : ℕ} {t u : Collector}
      → Reaches s b n t
      → (p : Packet) → observe t p ≡ (ok true, u)
      → Reaches s b (n + 1) u

Balanced : ℕ → ℕ → Collector → Type 0
Balanced b n t = (total t.counts ≡ n) × (b ≡ n + busy t.pending) × Sound t.counts

new-Balanced : (a t i c m : ℕ) (s : Collector) → new a t i c m ≡ ok s → Balanced 0 0 s
unfolding new Balanced total no_counts busy Sound
new-Balanced a t i c m s h = ground arith

begin_cast-Balanced :
    (b n : ℕ) (t u : Collector) → Balanced b n t → begin_cast t ≡ ok u → Balanced (b + 1) n u
unfolding Balanced begin_cast busy
begin_cast-Balanced b n t u w h = elim (Bool-cases (same_pending t.pending idle)) [
  | inl e ↦ let p = same_pending-eq t.pending idle e in ground (arith, p)
  | inr e ↦ absurd (ground (arith, e))
]

observe-after :
    (t u : Collector) (p : Packet) (b : Bool)
    → observe t p ≡ (ok b, u)
    → Sound t.counts
    → Sound u.counts
observe-after t u p b h w = subst (λ o. Sound o.1.counts) h (observe-Sound t p w)

Reaches-Balanced :
    (s : Collector) (b n : ℕ) (t : Collector) → Balanced 0 0 s → Reaches s b n t → Balanced b n t
unfolding Balanced
Reaches-Balanced s b n t w here = w
Reaches-Balanced s b n t w (begun r h) =
    begin_cast-Balanced _ _ _ _ (Reaches-Balanced s _ _ _ w r) h
Reaches-Balanced s b n t w (passed {t = t'} r p h) =
    let (x, y, z) = Reaches-Balanced s _ _ _ w r in
    let (i, j) = observe-Tally t' t p false h in
    (omega arith, omega arith, observe-after t' t p false h z)
Reaches-Balanced s b n t w (completed {t = t'} r p h) =
    let (x, y, z) = Reaches-Balanced s _ _ _ w r in
    let (i, j) = observe-Tally t' t p true h in
    (omega arith, omega arith, observe-after t' t p true h z)

busy-idle : (p : Pending) → busy p ≡ (if same_pending p idle then 0 else 1)
unfolding busy same_pending
busy-idle idle = refl
busy-idle start = refl
busy-idle go = refl
busy-idle damage = refl

-- The counts of a session without an error pass `validate` for the number of packets that
-- completed a cast: they add up to it, and there are no more partial resists than landed casts.
pub Reaches-validate :
    (a t i c m b n : ℕ) (s u : Collector)
    → new a t i c m ≡ ok s
    → Reaches s b n u
    → validate u.counts n ≡ ok tt
unfolding validate Balanced Sound
Reaches-validate a t i c m b n s u h r =
    let (x, y, z) = Reaches-Balanced s b n u (new-Balanced a t i c m s h) r in ground (arith, z.0)

-- In a session without an error every cast begun is completed by exactly one packet, but for the
-- last one as long as the collector is not idle.
pub Reaches-balance :
    (a t i c m b n : ℕ) (s u : Collector)
    → new a t i c m ≡ ok s
    → Reaches s b n u
    → b ≡ n + (if is_idle u then 0 else 1)
unfolding is_idle Balanced
Reaches-balance a t i c m b n s u h r =
    let (x, y, z) = Reaches-Balanced s b n u (new-Balanced a t i c m s h) r in
    y ∙ ap (λ k. n + k) (busy-idle u.pending)
