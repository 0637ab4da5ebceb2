-- ===== src/SpellRolls/Said.antt =====
-- What a spell go and spell damage say that src/spell_rolls.rs takes a category from.
use wire_harness.Prelude.{
  ℕ, ◌<◌, ◌^◌, ◌-◌, ◌≡◌, ◌⊎◌, inl, inr, refl, ap, ◌∙◌, pos, Bool, true, false, ltb, has, Option,
  none, some, ok, Gives, Gives-bind, Gives-then, Bool-cases, arith, if◌then◌else◌, ◌>>=◌,
}
use wire_harness.Decode.Field.{
  Field, Fields, unsigned, signed, guid, list, object, nil, cons, lookup,
}
use wire_harness.Reading.{is_guid, is_unsigned, number, numbers_are}
use wire_harness.SpellRolls.Outcomes.{
  missing_number, unsolicited_go, unsolicited_damage, missing_hits, missing_misses, other_target,
  damage_context, damage_flags, Category, miss, resist, crit, hit,
}
use wire_harness.SpellRolls.{
  go, damage, same_pending, Collector, listed, only_hit, only_miss, miss_category, landing,
  resisted, struck,
}
use wire_harness.SpellRolls.Protocol.{same_pending-eq}
use wire_harness.SpellRolls.Reported.{harm, plain, Reported, harmed}
use wire_harness.SpellRolls.Reads.{
  is_guid-lookup, is_unsigned-lookup, number-lookup, NumbersThere, numbers-lookup, listed-list,
  resisted-signed, only_miss-one,
}

-- What the one miss of a packet says.
unfoldable pub MissOf : Collector → Field → Category → Type 0
MissOf s f k =
    (m : Fields) × ((f ≡ object m)
      × ((lookup "guid" m ≡ some (guid s.target))
          × (((k ≡ miss) × (lookup "reason" m ≡ some (unsigned 1)))
              ⊎ ((k ≡ resist) × (lookup "reason" m ≡ some (unsigned 2))))))

pub miss_category-MissOf :
    (s : Collector) (f : Field) → Gives (MissOf s f) (miss_category s.target f)
unfolding miss_category Gives MissOf
miss_category-MissOf s (object m) =
    Gives-then (MissOf s (object m)) (is_guid "guid" s.target m) other_target _ λ h.
      elim (Bool-cases (is_unsigned "reason" 1 m)) [
        | inl e ↦ rw e (
          m,
          (
            refl,
            (is_guid-lookup "guid" s.target m h, inl (refl, is_unsigned-lookup "reason" 1 m e)),
          ),
        )
        | inr e ↦ elim (Bool-cases (is_unsigned "reason" 2 m)) [
          | inl f ↦
              rw (e, f)
                (
                  m,
                  (
                    refl,
                    (
                      is_guid-lookup "guid" s.target m h,
                      inr (refl, is_unsigned-lookup "reason" 2 m f),
                    ),
                  ),
                )
          | inr f ↦ rw (e, f) tt
        ]
      ]
miss_category-MissOf s f = tt

-- What a spell go says when it reports a miss.
unfoldable pub LandedAs : Collector → Fields → Option Category → Type 0
LandedAs s fs none = Unit
LandedAs s fs (some k) =
    (s.pending ≡ go)
    × ((f : Field) × ((lookup "hits" fs ≡ some (list nil))
          × ((lookup "misses" fs ≡ some (list (cons f nil))) × MissOf s f k)))

pub landing-LandedAs : (s : Collector) (fs : Fields) → Gives (LandedAs s fs) (landing s fs)
unfolding landing Gives LandedAs
landing-LandedAs s fs = Gives-then (LandedAs s fs) (same_pending s.pending go) unsolicited_go _ λ p.
    Gives-bind (λ hits. lookup "hits" fs ≡ some (list hits)) (LandedAs s fs)
      (listed (lookup "hits" fs) missing_hits) _ (listed-list _ missing_hits)
      λ hits h.
        Gives-bind (λ misses. lookup "misses" fs ≡ some (list misses)) (LandedAs s fs)
          (listed (lookup "misses" fs) missing_misses) _ (listed-list _ missing_misses)
          λ misses m. elim (Bool-cases (only_hit s.target hits misses)) [
            | inl e ↦ rw e tt
            | inr e ↦ rw e (
                Gives-bind (λ f. (hits ≡ nil) × (misses ≡ cons f nil)) (LandedAs s fs)
                  (only_miss hits misses) _ (only_miss-one hits misses)
                  λ f (no_hit, one).
                    Gives-bind (MissOf s f) (LandedAs s fs) (miss_category s.target f) _
                      (miss_category-MissOf s f)
                      λ k q. (
                        same_pending-eq s.pending go p,
                        (
                          f,
                          (
                            h ∙ ap (λ x. some (list x)) no_hit,
                            (m ∙ ap (λ x. some (list x)) one, q),
                          ),
                        ),
                      ))
          ]

-- What spell damage says.
unfoldable pub StruckAs : Collector → Fields → Category × Bool → Type 0
StruckAs s fs (k, part) =
    (flags : ℕ) × ((withheld : ℕ) × ((k ≡ (if has flags 2 then crit else hit))
        × ((part ≡ ltb 0 withheld) × Reported s fs 0x0250 (harm (has flags 2) (ltb 0 withheld)))))

-- When the flags of damage are known, there is damage.
unfoldable pub Dealt : ℕ → Fields → Bool → Type 0
Dealt flags fs b =
    b ≡ true
    → (has flags (2 ^ 64 - 3) ≡ false)
      × ((dealt : ℕ) × ((lookup "damage" fs ≡ some (unsigned dealt)) × (0 < dealt)))

pub known-Dealt :
    (flags : ℕ) (fs : Fields)
    → Gives (Dealt flags fs) (
        if has flags (2 ^ 64 - 3)
        then ok false
        else (number missing_number "damage" fs >>= λ n. ok (ltb 0 n)))
unfolding Gives Dealt
known-Dealt flags fs = elim (Bool-cases (has flags (2 ^ 64 - 3))) [
  | inl e ↦ rw e (λ q. absurd (ground (arith, q)))
  | inr e ↦ rw e (
      Gives-bind (λ n. lookup "damage" fs ≡ some (unsigned n)) (Dealt flags fs)
        (number missing_number "damage" fs) _ (number-lookup "damage" fs)
        λ n f q. (e, (n, (f, ground (arith, q)))))
]

pub struck-StruckAs : (s : Collector) (fs : Fields) → Gives (StruckAs s fs) (struck s fs)
unfolding struck StruckAs Gives NumbersThere Dealt
struck-StruckAs s fs =
    let R = StruckAs s fs in
    Gives-then R (same_pending s.pending damage) unsolicited_damage _ λ p.
      Gives-then R (is_guid "target" s.target fs) other_target _ λ t.
        Gives-bind (NumbersThere (plain s.school) fs) R
          (numbers_are missing_number (plain s.school) fs) _ (numbers-lookup (plain s.school) fs)
          λ eligible all. Gives-then R eligible damage_context _ λ q.
            Gives-bind (λ n. lookup "hit_info" fs ≡ some (unsigned n)) R
              (number missing_number "hit_info" fs) _ (number-lookup "hit_info" fs)
              λ flags f.
                Gives-bind (λ n. lookup "resisted" fs ≡ some (signed (pos n))) R
                  (resisted (lookup "resisted" fs)) _ (resisted-signed _)
                  λ withheld w.
                    Gives-bind (Dealt flags fs) R
                      (if has flags (2 ^ 64 - 3)
                        then ok false
                        else (number missing_number "damage" fs >>= λ n. ok (ltb 0 n)))
                      _ (known-Dealt flags fs)
                      λ known d. Gives-then R known damage_flags _ λ k.
                        let (clear, (dealt, (there, positive))) = d k in
                        (
                          flags,
                          (
                            withheld,
                            (
                              refl,
                              (
                                refl,
                                harmed (same_pending-eq s.pending damage p)
                                    (is_guid-lookup "target" s.target fs t) (all q) f clear there
                                    positive w,
                              ),
                            ),
                          ),
                        )
