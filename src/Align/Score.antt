-- ===== src/Align/Score.antt =====
-- The pairs (matches, quality) that the rows of src/compare.rs's `align` hold, in Rust's order on
-- tuples, with its `max` and the sum of two.
use wire_harness.Prelude.{
  ℕ, ◌+◌, ◌≤◌, ◌<◌, ◌≡◌, Bool, true, ◌&&◌, ◌||◌, ltb, leb, ◌==◌, ◌⊎◌, arith, if◌then◌else◌,
}

abbrev pub Value : Type 0
Value = ℕ × ℕ

-- `a <= b` on tuples
abbrev pub lex_leb : Value → Value → Bool
lex_leb a b = ltb a.0 b.0 || (a.0 == b.0 && leb a.1 b.1)

-- `a.max(b)`
unfoldable pub best : Value → Value → Value
best a b = if lex_leb a b then b else a

unfoldable pub plus : Value → Value → Value
plus a b = (a.0 + b.0, a.1 + b.1)

infix 50 ◌≼◌
abbrev pub ◌≼◌ : Value → Value → Type 0
a ≼ b = (a.0 < b.0) ⊎ ((a.0 ≡ b.0) × (a.1 ≤ b.1))

pub lex_leb→≼ : (a b : Value) → lex_leb a b ≡ true → a ≼ b
lex_leb→≼ a b h = ground arith

pub ≼-refl : (a : Value) → a ≼ a
≼-refl a = ground arith

pub ≼-trans : (a b c : Value) → a ≼ b → b ≼ c → a ≼ c
≼-trans a b c h k = ground arith

pub ≼-best_left : (a b : Value) → a ≼ best a b
unfolding best
≼-best_left a b = ground arith

pub ≼-best_right : (a b : Value) → b ≼ best a b
unfolding best
≼-best_right a b = ground arith

pub best_cases : (a b : Value) → (best a b ≡ a) ⊎ (best a b ≡ b)
unfolding best
best_cases a b = ground arith

pub plus-mono : (a b c d : Value) → a ≼ b → c ≼ d → plus a c ≼ plus b d
unfolding plus
plus-mono a b c d h k = ground arith

pub ≼-zero : (a : Value) → (0, 0) ≼ a
≼-zero a = ground arith

pub plus_assoc : (a b c : Value) → plus (plus a b) c ≡ plus a (plus b c)
unfolding plus
plus_assoc a b c = ground arith

pub plus_comm : (a b : Value) → plus a b ≡ plus b a
unfolding plus
plus_comm a b = ground arith

pub plus-zero : (a : Value) → plus a (0, 0) ≡ a
unfolding plus
plus-zero a = ground arith
