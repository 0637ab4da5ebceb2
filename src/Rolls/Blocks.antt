-- ===== src/Rolls/Blocks.antt =====
-- The sums that `CheckRecording::validate` of src/rolls.rs checks do not wrap around.
use wire_harness.Prelude.{
  ℕ, ◌+◌, ◌-◌, ◌*◌, ◌%◌, ◌^◌, ◌≤◌, ◌<◌, ◌≡◌, refl, sym, ap, ◌∙◌, true, ◌==◌, List, [], ◌∷◌, All,
  length, Result, ok, err, ◌>>◌, Result-cases, Bool-cases, inl, inr, arith,
}
use mathlib.Core.Path.{ap₂}
use wire_harness.Rolls.{Error, Counts, no_counts, sum, total, Specification}
use wire_harness.Rolls.Binomial.{Floats}
use wire_harness.Rolls.Recording.{
  RecordedCharacter, CheckRecording, add_counts, same_counts, add_blocks, validate_character,
  validate_characters, at_level, validate_level, level_counts, validate,
}

-- The sum of two arrays of counts as numbers.
unfoldable pub plus_counts : Counts → Counts → Counts
plus_counts [] ds = []
plus_counts (c ∷ cs) [] = c ∷ cs
plus_counts (c ∷ cs) (d ∷ ds) = (c + d) ∷ plus_counts cs ds

unfoldable pub plus_blocks : Counts → List Counts → Counts
unfolding plus_counts
plus_blocks counts [] = counts
plus_blocks counts (b ∷ bs) = plus_blocks (plus_counts counts b) bs

add_counts-plus : (c d : Counts) → sum c + sum d < 2 ^ 32 → add_counts c d ≡ plus_counts c d
unfolding add_counts plus_counts sum
add_counts-plus [] ds h = refl
add_counts-plus (c ∷ cs) [] h = refl
add_counts-plus (c ∷ cs) (d ∷ ds) h =
    ap₂ (λ x xs. x ∷ xs) {x = (c + d) % 2 ^ 32} {y = c + d} (omega arith)
      (add_counts-plus cs ds (omega arith))

sum-plus : (c d : Counts) → sum (plus_counts c d) ≤ sum c + sum d
unfolding plus_counts sum
sum-plus [] ds = omega arith
sum-plus (c ∷ cs) [] = omega arith
sum-plus (c ∷ cs) (d ∷ ds) = omega (arith, sum-plus cs ds)

total-small : (c : Counts) (n : ℕ) → total c ≡ n → n < 2 ^ 32 - 1 → sum c ≡ n
unfolding total
total-small c n h l = omega arith

add_blocks-plus :
    (c r : Counts) (bs : List Counts)
    → sum c + 50 * length bs < 2 ^ 32
    → add_blocks c bs ≡ ok r
    → r ≡ plus_blocks c bs
unfolding add_blocks plus_blocks
add_blocks-plus c r [] l h = ground arith
add_blocks-plus c r (b ∷ bs) l h = elim (Bool-cases (total b == 50)) [
  | inl e ↦
      let size = total-small b 50 (ground arith) (omega arith) in
      let flat = add_counts-plus c b (omega arith) in
      let rest =
        add_blocks-plus (plus_counts c b) r bs (omega (arith, sum-plus c b))
          (ground (arith, e, flat)) in
      rest
  | inr e ↦ absurd (ground (arith, e))
]

same_counts-eq : (c d : Counts) → same_counts c d ≡ true → c ≡ d
unfolding same_counts
same_counts-eq [] [] h = refl
same_counts-eq [] (d ∷ ds) h = absurd (ground arith)
same_counts-eq (c ∷ cs) [] h = absurd (ground arith)
same_counts-eq (c ∷ cs) (d ∷ ds) h =
    ap₂ (λ x xs. x ∷ xs) {x = c} {y = d} (ground arith) (same_counts-eq cs ds (ground arith))

no_counts-bound : (bs : List Counts) → length bs ≡ 5 → sum no_counts + 50 * length bs < 2 ^ 32
unfolding sum no_counts
no_counts-bound bs h = omega arith

accepted : (r s : Result Error (Unit {0})) → (r >> s) ≡ ok tt → (r ≡ ok tt) × (s ≡ ok tt)
accepted (ok tt) s h = (refl, h)
accepted (err e) s h = absurd (ground arith)

-- A character whose counts are the sums of its blocks, as numbers, and hold 250 swings.
unfoldable pub Exact : RecordedCharacter → Type 0
Exact c = (c.counts ≡ plus_blocks no_counts c.blocks) × (sum c.counts ≡ 250)

validate_character-Exact : (c : RecordedCharacter) → validate_character c ≡ ok tt → Exact c
unfolding validate_character Exact
validate_character-Exact c h = elim (Result-cases (add_blocks no_counts c.blocks)) [
  | inl (r, e) ↦
      let same = same_counts-eq r c.counts (ground (arith, e)) in
      let size : length c.blocks ≡ 5 = ground (arith, e) in
      let added = add_blocks-plus no_counts r c.blocks (no_counts-bound c.blocks size) e in
      (sym same ∙ added, total-small c.counts 250 (ground (arith, e)) (omega arith))
  | inr (x, e) ↦ absurd (ground (arith, e))
]

validate_characters-Exact :
    (cs : List RecordedCharacter) → validate_characters cs ≡ ok tt → All Exact cs
unfolding validate_characters
validate_characters-Exact [] h = tt
validate_characters-Exact (c ∷ cs) h = (
  validate_character-Exact c (accepted (validate_character c) (validate_characters cs) h).0,
  validate_characters-Exact cs (accepted (validate_character c) (validate_characters cs) h).1,
)

-- The counts of these characters added up as numbers.
unfoldable pub plus_characters : Counts → List RecordedCharacter → Counts
unfolding plus_counts
plus_characters counts [] = counts
plus_characters counts (c ∷ cs) = plus_characters (plus_counts counts c.counts) cs

level_counts-plus :
    (counts : Counts) (cs : List RecordedCharacter)
    → sum counts + 250 * length cs < 2 ^ 32
    → All Exact cs
    → level_counts counts cs ≡ plus_characters counts cs
unfolding level_counts plus_characters Exact
level_counts-plus counts [] l h = refl
level_counts-plus counts (c ∷ cs) l ((same, size), hs) =
    ap (λ x. level_counts x cs) (add_counts-plus counts c.counts (omega (arith, size)))
    ∙ level_counts-plus (plus_counts counts c.counts) cs
        (omega (arith, size, sum-plus counts c.counts)) hs

-- The characters of a level: each is exact, and their counts are added up exactly.
unfoldable pub ExactLevel : List RecordedCharacter → Type 0
unfolding Exact level_counts plus_characters
ExactLevel cs = All Exact cs × (level_counts no_counts cs ≡ plus_characters no_counts cs)

eight-bound :
    (cs : List RecordedCharacter) → length cs ≡ 8 → sum no_counts + 250 * length cs < 2 ^ 32
unfolding sum no_counts
eight-bound cs h = omega arith

validate_level-Exact :
    (recording : CheckRecording) (spec : Specification) (level : ℕ)
    → validate_level recording spec level ≡ ok tt
    → ExactLevel (at_level level recording.characters)
unfolding validate_level ExactLevel
validate_level-Exact recording spec level h =
    let characters = at_level level recording.characters in
    let each = validate_characters-Exact characters (ground arith) in
    let eight : length characters ≡ 8 = ground (arith, h) in
    (each, level_counts-plus no_counts characters (eight-bound characters eight) each)

-- In a recording that `validate` accepts, every character of either target level has 250 swings, and
-- its counts are the sums of the counts of its blocks as numbers; the counts that a level is compared
-- by are the sums of those of its characters as numbers. So none of the u32 additions to the counts
-- of a character or of a level wraps around.
pub validate-Exact :
    (floats : Floats) (recording : CheckRecording) (spec : Specification)
    → validate floats recording spec ≡ ok tt
    → ExactLevel (at_level spec.target_levels.0 recording.characters)
      × ExactLevel (at_level spec.target_levels.1 recording.characters)
unfolding validate
validate-Exact floats recording spec h = (
  validate_level-Exact recording spec spec.target_levels.0 (ground arith),
  validate_level-Exact recording spec spec.target_levels.1 (ground arith),
)
