-- ===== src/Metrics/Lines.antt =====
-- The lines of a scrape in src/metrics.rs, and the lines without their white space.
use wire_harness.Prelude.{
  ℕ, ◌≡◌, is_space, refl, ap, ◌∙◌, true, false, ◌==◌, List, [], ◌∷◌, ◌++◌, All, Bool-cases, inl,
  inr, arith,
}
use mathlib.Core.Path.{subst}
use mathlib.Core.List.{Memᴰ, append_assoc}
use mathlib.Core.List.Memᴰ
use wire_harness.Metrics.Labels.{Text}
use wire_harness.Metrics.Samples.{lines, push_line, trim_start, trim_before, trim_end}

-- The lines of a text: each but the last ends at a newline, and none holds one; the last line is not
-- empty when no newline is behind it.
pub data LinesOf : Text → List Text → Type 0 where
  no_text : LinesOf [] []
  last_line : {c : ℕ} {l : Text} → ¬ Memᴰ 10 (c ∷ l) → LinesOf (c ∷ l) ((c ∷ l) ∷ [])
  ended :
      {l rest : Text} {ls : List Text}
      → ¬ Memᴰ 10 l
      → LinesOf rest ls
      → LinesOf (l ++ 10 ∷ rest) (l ∷ ls)

absent-cons : (c : ℕ) (l : Text) → (c == 10) ≡ false → ¬ Memᴰ 10 l → ¬ Memᴰ 10 (c ∷ l)
absent-cons c l h n m = elim (Memᴰ.cases_cons m) [
  | inl e ↦ absurd (ground (arith, h, e))
  | inr k ↦ n k
]

push-LinesOf :
    (c : ℕ) {s : Text} {ls : List Text}
    → (c == 10) ≡ false
    → LinesOf s ls
    → LinesOf (c ∷ s) (push_line c ls)
unfolding push_line
push-LinesOf c h no_text = last_line (absent-cons c [] h Memᴰ.not-nil)
push-LinesOf c h (last_line {c = d} {l = l} n) = last_line (absent-cons c (d ∷ l) h n)
push-LinesOf c h (ended {l = l} n rest) = ended {l = c ∷ l} (absent-cons c l h n) rest

pub lines-LinesOf : (text : Text) → LinesOf text (lines text)
unfolding lines
lines-LinesOf [] = no_text
lines-LinesOf (c ∷ s) = elim (Bool-cases (c == 10)) [
  | inl e ↦
      let newline : 10 ≡ c = ground (arith, e) in
      rw e (
        subst (λ d. LinesOf (d ∷ s) ([] ∷ lines s)) newline
          (ended {l = []} Memᴰ.not-nil (lines-LinesOf s)))
  | inr e ↦ rw e (push-LinesOf c e (lines-LinesOf s))
]

unfoldable pub AllBlank : Text → Type 0
AllBlank s = All (λ c. is_space c ≡ true) s

-- The first character is no white space, and the last is none.
unfoldable pub StartsBare : Text → Type 0
StartsBare [] = Unit
StartsBare (c ∷ s) = is_space c ≡ false

unfoldable pub EndsBare : Text → Type 0
EndsBare [] = Unit
EndsBare (c ∷ []) = is_space c ≡ false
EndsBare (c ∷ d ∷ s) = EndsBare (d ∷ s)

-- The line is the core between white space, and the core neither begins nor ends with any.
pub record Trimmed (line core : Text) : Type 0 where
  pub before : Text
  pub after : Text
  pub whole : line ≡ before ++ (core ++ after)
  pub blank_before : AllBlank before
  pub blank_after : AllBlank after
  pub starts : StartsBare core
  pub ends : EndsBare core

record EndTrimmed (line core : Text) : Type 0 where
  after : Text
  whole : line ≡ core ++ after
  blank : AllBlank after
  ends : EndsBare core

record StartTrimmed (line core : Text) : Type 0 where
  before : Text
  whole : line ≡ before ++ core
  blank : AllBlank before
  starts : StartsBare core

before-EndTrimmed : (c : ℕ) (s t : Text) → EndTrimmed s t → EndTrimmed (c ∷ s) (trim_before c t)
unfolding trim_before AllBlank EndsBare
before-EndTrimmed c s [] h = elim (Bool-cases (is_space c)) [
  | inl e ↦ rw e (record {
    after = c ∷ h.after;
    whole = ap (λ l. c ∷ l) h.whole;
    blank = (e, h.blank);
    ends = tt;
  })
  | inr e ↦
      rw e (record { after = h.after; whole = ap (λ l. c ∷ l) h.whole; blank = h.blank; ends = e })
]
before-EndTrimmed c s (d ∷ t) h = record {
  after = h.after;
  whole = ap (λ l. c ∷ l) h.whole;
  blank = h.blank;
  ends = h.ends;
}

trim_end-EndTrimmed : (l : Text) → EndTrimmed l (trim_end l)
unfolding trim_end
trim_end-EndTrimmed [] = record {
  after = [];
  whole = refl;
  blank = unfold AllBlank in tt;
  ends = unfold EndsBare in tt;
}
trim_end-EndTrimmed (c ∷ s) = before-EndTrimmed c s (trim_end s) (trim_end-EndTrimmed s)

trim_start-StartTrimmed : (l : Text) → StartTrimmed l (trim_start l)
unfolding trim_start AllBlank StartsBare
trim_start-StartTrimmed [] = record { before = []; whole = refl; blank = tt; starts = tt }
trim_start-StartTrimmed (c ∷ s) = elim (Bool-cases (is_space c)) [
  | inl e ↦
      let rest = trim_start-StartTrimmed s in
      rw e (record {
        before = c ∷ rest.before;
        whole = ap (λ l. c ∷ l) rest.whole;
        blank = (e, rest.blank);
        starts = rest.starts;
      })
  | inr e ↦ rw e (record { before = []; whole = refl; blank = tt; starts = e })
]

tail-EndsBare : (c : ℕ) (s : Text) → EndsBare (c ∷ s) → EndsBare s
unfolding EndsBare
tail-EndsBare c [] h = tt
tail-EndsBare c (d ∷ s) h = h

trim_start-EndsBare : (l : Text) → EndsBare l → EndsBare (trim_start l)
unfolding trim_start
trim_start-EndsBare [] h = h
trim_start-EndsBare (c ∷ s) h = elim (Bool-cases (is_space c)) [
  | inl e ↦ rw e (trim_start-EndsBare s (tail-EndsBare c s h))
  | inr e ↦ rw e h
]

pub trim-Trimmed : (l : Text) → Trimmed l (trim_start (trim_end l))
trim-Trimmed l =
    let e = trim_end-EndTrimmed l in
    let s = trim_start-StartTrimmed (trim_end l) in
    record {
      before = s.before;
      after = e.after;
      whole =
          e.whole
          ∙ ap (λ x. x ++ e.after) s.whole
          ∙ append_assoc s.before (trim_start (trim_end l)) e.after;
      blank_before = s.blank;
      blank_after = e.blank;
      starts = s.starts;
      ends = trim_start-EndsBare (trim_end l) e.ends;
    }
