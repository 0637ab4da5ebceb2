-- ===== src/SpellRolls/Outcomes.antt =====
-- `Counts` of src/spell_rolls.rs.
use wire_harness.Prelude.{
  ℕ, ◌+◌, ◌^◌, ◌==◌, ltb, leb, Result, ok, err, ◌>>=◌, ◌>>◌, ensure, if◌then◌else◌,
}

-- What the messages of `ensure!`, `bail!` and `context` say.
pub data Error : Type 0 where
  overflow incomplete partial_excess participants previous refused missing_number foreign_spell :
      Error
  unsolicited_start cast_time unsolicited_go missing_hits missing_misses target_count : Error
  invalid_miss other_target miss_reason unsolicited_damage damage_context resistance : Error
  damage_flags allocation context probability probability_sum provenance level_characters : Error
  block_number block_counts target_level binomial disagrees : Error

-- An index into `Counts`, in the order of `CATEGORIES`.
pub data Category : Type 0 where
  miss resist crit hit partial : Category

-- The array `Counts([u32; 5])`, a field for each category.
pub record Counts : Type 0 where
  pub misses : ℕ
  pub resists : ℕ
  pub crits : ℕ
  pub hits : ℕ
  pub partials : ℕ

unfoldable pub no_counts : Counts
no_counts = record { misses = 0; resists = 0; crits = 0; hits = 0; partials = 0 }

unfoldable pub total : Counts → ℕ
total c = c.misses + c.resists + c.crits + c.hits

-- `checked_add(1)` on a u32
unfoldable pub checked_suc : ℕ → Result Error ℕ
checked_suc n = if ltb (n + 1) (2 ^ 32) then ok (n + 1) else err overflow

unfoldable pub add : Category → Counts → Result Error Counts
unfolding checked_suc
add miss c = checked_suc c.misses >>= λ n. ok (record c { misses = n })
add resist c = checked_suc c.resists >>= λ n. ok (record c { resists = n })
add crit c = checked_suc c.crits >>= λ n. ok (record c { crits = n })
add hit c = checked_suc c.hits >>= λ n. ok (record c { hits = n })
add partial c = checked_suc c.partials >>= λ n. ok (record c { partials = n })

unfoldable pub validate : Counts → ℕ → Result Error (Unit {0})
unfolding total
validate c samples = do
  ensure (total c == samples) incomplete
  ensure (leb c.partials (c.crits + c.hits)) partial_excess
