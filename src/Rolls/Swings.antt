-- ===== src/Rolls/Swings.antt =====
-- What `Counts::observe` of src/rolls.rs does with a swing.
use wire_harness.Prelude.{
  ℕ, zero, suc, ◌+◌, ◌≡◌, ◌||◌, refl, ap, ◌∙◌, Bool, true, false, not, leb, ◌==◌, has, [], ◌∷◌,
  length, Result, ok, err, Result-cases, Bool-cases, inl, inr, arith,
}
use wire_harness.Decode.Field.{Fields, Packet}
use wire_harness.Reading.{is_guid}
use wire_harness.Rolls.{
  Error, Counts, sum, outcomes, count_true, position, category_of, classify, increment,
  record_swing, settle, observe,
}

-- Where at most one of six tests holds, `position` is its index, and 6 where none does.
position_unique :
    (a b c d e f : Bool)
    → leb (count_true (a ∷ b ∷ c ∷ d ∷ e ∷ f ∷ [])) 1 ≡ true
    → ((position (a ∷ b ∷ c ∷ d ∷ e ∷ f ∷ []) == 0) ≡ a)
      × ((position (a ∷ b ∷ c ∷ d ∷ e ∷ f ∷ []) == 1) ≡ b)
      × ((position (a ∷ b ∷ c ∷ d ∷ e ∷ f ∷ []) == 2) ≡ c)
      × ((position (a ∷ b ∷ c ∷ d ∷ e ∷ f ∷ []) == 3) ≡ d)
      × ((position (a ∷ b ∷ c ∷ d ∷ e ∷ f ∷ []) == 4) ≡ e)
      × ((position (a ∷ b ∷ c ∷ d ∷ e ∷ f ∷ []) == 5) ≡ f)
      × (leb (position (a ∷ b ∷ c ∷ d ∷ e ∷ f ∷ [])) 6 ≡ true)
unfolding count_true position
position_unique a b c d e f h = ground arith

category_of-inv :
    (flags state k : ℕ)
    → category_of flags state ≡ ok k
    → (k ≡ position (outcomes flags state))
      × (leb (count_true (outcomes flags state)) 1 ≡ true)
      × ((k == 0) ≡ (state == 0))
unfolding category_of
category_of-inv flags state k h = (ground arith, ground arith, ground arith)

-- The category that a swing is counted under is the only outcome that its flags and its victim
-- state report, and it is the last one, a hit, exactly when they report none of the others. It is
-- a miss exactly when the victim state is 0.
pub category_of-exact :
    (flags state k : ℕ)
    → category_of flags state ≡ ok k
    → ((k == 0) ≡ (state == 0))
      × ((k == 0) ≡ has flags 0x10)
      × ((k == 1) ≡ (state == 2))
      × ((k == 2) ≡ (state == 3))
      × ((k == 3) ≡ (has flags 0x800 || state == 5))
      × ((k == 4) ≡ has flags 0x4000)
      × ((k == 5) ≡ has flags 0x80)
      × (leb k 6 ≡ true)
unfolding outcomes
category_of-exact flags state k h =
    let (at, single, missed) = category_of-inv flags state k h in
    let (a, b, c, d, e, f, g) = position_unique _ _ _ _ _ _ single in
    (
      missed,
      ap (λ k. k == 0) at ∙ a,
      ap (λ k. k == 1) at ∙ b,
      ap (λ k. k == 2) at ∙ c,
      ap (λ k. k == 3) at ∙ d,
      ap (λ k. k == 4) at ∙ e,
      ap (λ k. k == 5) at ∙ f,
      ap (λ k. leb k 6) at ∙ g,
    )

increment-sum :
    (i : ℕ) (c d : Counts) → increment i c ≡ ok d → (sum d ≡ sum c + 1) × (length d ≡ length c)
unfolding increment sum
increment-sum i [] d h = absurd (ground arith)
increment-sum zero (n ∷ ns) d h = ground arith
increment-sum (suc i) (n ∷ ns) d h = elim (Result-cases (increment i ns)) [
  | inl (ms, e) ↦ let w = increment-sum i ns ms e in ground (arith, e, w.0, w.1)
  | inr (x, e) ↦ absurd (ground (arith, e))
]

-- What an outcome of `observe` means for the counts before it.
unfoldable pub Effect : Counts → Result Error Bool × Counts → Type 0
Effect c (ok true, d) = (sum d ≡ sum c + 1) × (length d ≡ length c)
Effect c (ok false, d) = d ≡ c
Effect c (err e, d) = d ≡ c

settle-Effect :
    (counts : Counts) (fs : Fields) (target : ℕ) (r : Result Error Counts)
    → record_swing counts fs target ≡ r
    → Effect counts (settle counts r)
unfolding settle Effect record_swing
settle-Effect counts fs target (err e) h = refl
settle-Effect counts fs target (ok d) h = elim (Result-cases (classify fs)) [
  | inl (k, e) ↦ increment-sum k counts d (ground (arith, e))
  | inr (x, e) ↦ absurd (ground (arith, e))
]

-- `observe` adds one to the sum of the counts when it gives `Ok(true)`, and leaves the counts as they
-- were when it gives `Ok(false)` or an error.
pub observe-Effect :
    (counts : Counts) (p : Packet) (attacker target : ℕ)
    → Effect counts (observe counts p attacker target)
unfolding observe Effect
observe-Effect counts p attacker target =
    elim (Bool-cases (not (p.opcode == 0x014a) || not (is_guid "attacker" attacker p.fields))) [
      | inl e ↦ rw e refl
      | inr e ↦
          rw e (settle-Effect counts p.fields target (record_swing counts p.fields target) refl)
    ]
