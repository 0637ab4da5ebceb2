-- ===== src/SpellRolls/Totals.antt =====
-- The sums that `CheckRecording::validate` of src/spell_rolls.rs makes do not wrap around.
use wire_harness.Prelude.{
  ℕ, ◌+◌, ◌*◌, ◌%◌, ◌^◌, ◌≤◌, ◌<◌, ◌≡◌, refl, sym, ap, ◌∙◌, true, List, [], ◌∷◌, length, Result, ok,
  err, ◌>>◌, Result-cases, inl, inr, arith,
}
use mathlib.Core.Path.{subst}
use wire_harness.Rolls.Binomial.{Floats}
use wire_harness.SpellRolls.Outcomes.{Error, Counts, no_counts, total, validate}
use wire_harness.SpellRolls.Recording.{
  RecordedCharacter, CheckRecording, Specification, add_counts, same_counts, add_blocks,
  validate_character, add_characters, at_level, level_total, check_level, check,
}

-- The sum of two arrays of counts as numbers.
unfoldable pub plus_counts : Counts → Counts → Counts
plus_counts c d = record {
  misses = c.misses + d.misses;
  resists = c.resists + d.resists;
  crits = c.crits + d.crits;
  hits = c.hits + d.hits;
  partials = c.partials + d.partials;
}

unfoldable pub plus_blocks : Counts → List Counts → Counts
unfolding plus_counts
plus_blocks counts [] = counts
plus_blocks counts (b ∷ bs) = plus_blocks (plus_counts counts b) bs

-- The sum of the blocks of every character.
unfoldable pub plus_characters : Counts → List RecordedCharacter → Counts
unfolding plus_blocks
plus_characters counts [] = counts
plus_characters counts (c ∷ cs) = plus_characters (plus_blocks counts c.blocks) cs

-- No count is above `n`.
unfoldable pub Within : ℕ → Counts → Type 0
Within n c = (total c ≤ n) × (c.partials ≤ n)

validate-Within : (c : Counts) (n : ℕ) → validate c n ≡ ok tt → Within n c
unfolding validate Within total
validate-Within c n h = ground arith

Within-plus : (n m : ℕ) (c d : Counts) → Within n c → Within m d → Within (n + m) (plus_counts c d)
unfolding Within total plus_counts
Within-plus n m c d x y = ground (arith, x.0, x.1, y.0, y.1)

add_counts-plus :
    (n m : ℕ) (c d : Counts)
    → Within n c
    → Within m d
    → n + m < 2 ^ 32
    → add_counts c d ≡ plus_counts c d
unfolding Within total add_counts plus_counts
add_counts-plus n m c d x y l =
    let misses : (c.misses + d.misses) % 2 ^ 32 ≡ c.misses + d.misses = omega (arith, x.0, y.0) in
    let resists : (c.resists + d.resists) % 2 ^ 32 ≡ c.resists + d.resists =
      omega (arith, x.0, y.0) in
    let crits : (c.crits + d.crits) % 2 ^ 32 ≡ c.crits + d.crits = omega (arith, x.0, y.0) in
    let hits : (c.hits + d.hits) % 2 ^ 32 ≡ c.hits + d.hits = omega (arith, x.0, y.0) in
    let partials : (c.partials + d.partials) % 2 ^ 32 ≡ c.partials + d.partials =
      omega (arith, x.1, y.1) in
    rw (misses, resists, crits, hits, partials) refl

same_counts-eq : (c d : Counts) → same_counts c d ≡ true → c ≡ d
unfolding same_counts
same_counts-eq c d h = ground arith

accepted :
    {A : Type 0} (r : Result Error (Unit {0})) (s : Result Error A) (a : A)
    → (r >> s) ≡ ok a
    → (r ≡ ok tt) × (s ≡ ok a)
accepted (ok tt) s a h = (refl, h)
accepted (err e) s a h = absurd (ground arith)

add_blocks-plus :
    (n : ℕ) (c r : Counts) (bs : List Counts)
    → Within n c
    → n + 50 * length bs < 2 ^ 32
    → add_blocks c bs ≡ ok r
    → r ≡ plus_blocks c bs
unfolding add_blocks plus_blocks
add_blocks-plus n c r [] w l h = ground arith
add_blocks-plus n c r (b ∷ bs) w l h =
    let (valid, more) = accepted (validate b 50) (add_blocks (add_counts c b) bs) r h in
    let small = validate-Within b 50 valid in
    let flat = add_counts-plus n 50 c b w small (omega arith) in
    add_blocks-plus (n + 50) (plus_counts c b) r bs (Within-plus n 50 c b w small) (omega arith)
      (subst (λ k. add_blocks k bs ≡ ok r) flat more)

plus_counts_assoc :
    (c d e : Counts) → plus_counts (plus_counts c d) e ≡ plus_counts c (plus_counts d e)
unfolding plus_counts
plus_counts_assoc c d e = ground arith

plus_counts-none : (c : Counts) → plus_counts c no_counts ≡ c
unfolding plus_counts no_counts
plus_counts-none c = ground arith

plus_blocks-plus :
    (c d : Counts) (bs : List Counts)
    → plus_blocks (plus_counts c d) bs ≡ plus_counts c (plus_blocks d bs)
unfolding plus_blocks
plus_blocks-plus c d [] = refl
plus_blocks-plus c d (b ∷ bs) =
    ap (λ k. plus_blocks k bs) (plus_counts_assoc c d b) ∙ plus_blocks-plus c (plus_counts d b) bs

none-Within : Within 0 no_counts
unfolding Within total no_counts
none-Within = ground arith

validate_character-plus :
    (c : RecordedCharacter)
    → validate_character c ≡ ok tt
    → (c.counts ≡ plus_blocks no_counts c.blocks) × Within 250 c.counts
unfolding validate_character
validate_character-plus c h = elim (Result-cases (add_blocks no_counts c.blocks)) [
  | inl (r, e) ↦
      let same = same_counts-eq r c.counts (ground (arith, e)) in
      let size : length c.blocks ≡ 5 = ground (arith, e) in
      (
        sym same ∙ add_blocks-plus 0 no_counts r c.blocks none-Within (omega arith) e,
        validate-Within c.counts 250 (ground (arith, e)),
      )
  | inr (x, e) ↦ absurd (ground (arith, e))
]

plus_counts-blocks :
    (k : Counts) (c : RecordedCharacter)
    → c.counts ≡ plus_blocks no_counts c.blocks
    → plus_counts k c.counts ≡ plus_blocks k c.blocks
plus_counts-blocks k c h =
    ap (plus_counts k) h
    ∙ sym (plus_blocks-plus k no_counts c.blocks)
    ∙ ap (λ x. plus_blocks x c.blocks) (plus_counts-none k)

add_characters-plus :
    (n : ℕ) (k r : Counts) (cs : List RecordedCharacter)
    → Within n k
    → n + 250 * length cs < 2 ^ 32
    → add_characters k cs ≡ ok r
    → r ≡ plus_characters k cs
unfolding add_characters plus_characters
add_characters-plus n k r [] w l h = ground arith
add_characters-plus n k r (c ∷ cs) w l h =
    let (valid, more) =
      accepted (validate_character c) (add_characters (add_counts k c.counts) cs) r h in
    let (sums, small) = validate_character-plus c valid in
    let flat = add_counts-plus n 250 k c.counts w small (omega arith) in
    let blocks = plus_counts-blocks k c sums in
    add_characters-plus (n + 250) (plus_blocks k c.blocks) r cs
      (subst (Within (n + 250)) blocks (Within-plus n 250 k c.counts w small)) (omega arith)
      (subst (λ x. add_characters x cs ≡ ok r) (flat ∙ blocks) more)

level_total-plus :
    (recording : CheckRecording) (level : ℕ) (r : Counts)
    → level_total recording level ≡ ok r
    → r ≡ plus_characters no_counts (at_level level recording.characters)
unfolding level_total
level_total-plus recording level r h =
    let size : length (at_level level recording.characters) ≡ 8 = ground arith in
    add_characters-plus 0 no_counts r (at_level level recording.characters) none-Within
      (omega arith) (ground arith)

check_level-total :
    (floats : Floats) (recording : CheckRecording) (spec : Specification) (index level : ℕ)
    → check_level floats recording spec index level ≡ ok tt
    → level_total recording level
      ≡ ok (plus_characters no_counts (at_level level recording.characters))
unfolding check_level
check_level-total floats recording spec index level h =
    elim (Result-cases (level_total recording level)) [
      | inl (r, e) ↦ e ∙ ap ok (level_total-plus recording level r e)
      | inr (x, e) ↦ absurd (ground (arith, e))
    ]

-- In a spell recording that `validate` accepts, the counts that are compared with the expected
-- rates, for either target level, are the sums, as numbers, of the blocks of its characters: none of
-- the u32 additions wraps around.
pub check-total :
    (floats : Floats) (recording : CheckRecording) (spec : Specification)
    → check floats recording spec ≡ ok tt
    → (level_total recording spec.target_levels.0
        ≡ ok (plus_characters no_counts (at_level spec.target_levels.0 recording.characters)))
      × (level_total recording spec.target_levels.1
          ≡ ok (plus_characters no_counts (at_level spec.target_levels.1 recording.characters)))
unfolding check
check-total floats recording spec h = (
  check_level-total floats recording spec 0 spec.target_levels.0 (ground arith),
  check_level-total floats recording spec 1 spec.target_levels.1 (ground arith),
)
