-- ===== src/Compare/Bijection.antt =====
-- The GUID maps of a comparison in src/compare.rs, and what a step does to them.
use wire_harness.Prelude.{
  ℕ, ◌/◌, ◌^◌, ◌≡◌, refl, sym, ap, ◌∙◌, true, ◌||◌, ◌==◌, List, [], ◌∷◌, ◌++◌, String, Option, none,
  some, Option-cases, Bool-cases, inl, inr, arith, if◌then◌else◌,
}
use mathlib.Core.List.{append-nil, append_assoc}
use wire_harness.Trace.Recorded.{Recorded}
use wire_harness.Compare.State.{
  Comparator, Difference, DifferenceClass, Location, get, get_guid, absent_or, guid_matches,
  difference_as, difference, pair_guids, guid_mismatch, guid_field,
}

-- The GUID maps are inverse to each other, and keep the type of a GUID and whether it is zero.
pub record Bijective (s : Comparator) : Type 0 where
  pub forth : (e a : ℕ) → get_guid e s.expected_guids ≡ some a → get_guid a s.actual_guids ≡ some e
  pub back : (e a : ℕ) → get_guid a s.actual_guids ≡ some e → get_guid e s.expected_guids ≡ some a
  pub typed : (e a : ℕ) → get_guid e s.expected_guids ≡ some a → e / 2 ^ 48 ≡ a / 2 ^ 48
  pub zeros : (e a : ℕ) → get_guid e s.expected_guids ≡ some a → (e == 0) ≡ (a == 0)

-- What a step of the comparison keeps, and what it adds.
pub record Grows (s t : Comparator) : Type 0 where
  pub keeps : Bijective s → Bijective t
  pub mono :
      Bijective s
      → (e a : ℕ) → get_guid e s.expected_guids ≡ some a
      → get_guid e t.expected_guids ≡ some a
  pub more : List Difference
  pub adds : t.differences ≡ s.differences ++ more

pub Grows-refl : (s : Comparator) → Grows s s
Grows-refl s = record {
  keeps = λ b. b;
  mono = λ b e a h. h;
  more = [];
  adds = sym (append-nil s.differences);
}

pub Grows-trans : {s t u : Comparator} → Grows s t → Grows t u → Grows s u
Grows-trans {s} {t} {u} p q = record {
  keeps = λ b. q.keeps (p.keeps b);
  mono = λ b e a h. q.mono (p.keeps b) e a (p.mono b e a h);
  more = p.more ++ q.more;
  adds = q.adds ∙ ap (λ d. d ++ q.more) p.adds ∙ append_assoc s.differences p.more q.more;
}

-- A step that leaves the GUIDs alone.
pub Grows-same :
    (s t : Comparator) (more : List Difference)
    → t.expected_guids ≡ s.expected_guids
    → t.actual_guids ≡ s.actual_guids
    → t.differences ≡ s.differences ++ more
    → Grows s t
Grows-same s t more e a d = record {
  keeps = λ b. record {
    forth = λ x y h. rw (a) (b.forth x y (rw (sym e) h));
    back = λ x y h. rw (e) (b.back x y (rw (sym a) h));
    typed = λ x y h. b.typed x y (rw (sym e) h);
    zeros = λ x y h. b.zeros x y (rw (sym e) h);
  };
  mono = λ b x y h. rw e h;
  more = more;
  adds = d;
}

pub Grows-difference_as :
    (class : DifferenceClass) (l : Location) (rule reason : String) (e a : Option Recorded)
    (s : Comparator)
    → Grows s (difference_as class l rule reason e a s)
unfolding difference_as
Grows-difference_as class l rule reason e a s = Grows-same s _ _ refl refl refl

pub Grows-difference :
    (l : Location) (rule reason : String) (e a : Option Recorded) (s : Comparator)
    → Grows s (difference l rule reason e a s)
unfolding difference
Grows-difference l rule reason e a s = Grows-difference_as _ l rule reason e a s

get_guid-cons :
    (k j v : ℕ) (m : List (ℕ × ℕ))
    → get_guid k ((j, v) ∷ m) ≡ (if j == k then some v else get_guid k m)
unfolding get_guid get
get_guid-cons k j v m = refl

-- What `guid_matches` tells of two GUIDs, zero or not, in a state whose maps are inverse.
record Fits (s : Comparator) (e a : ℕ) : Type 0 where
  expected_free : absent_or a (get_guid e s.expected_guids) ≡ true
  actual_free : absent_or e (get_guid a s.actual_guids) ≡ true
  typed : e / 2 ^ 48 ≡ a / 2 ^ 48
  zeros : (e == 0) ≡ (a == 0)

absent_or-eq : (v w : ℕ) (o : Option ℕ) → absent_or v o ≡ true → o ≡ some w → w ≡ v
unfolding absent_or
absent_or-eq v w none h e = absurd (ground (arith, e))
absent_or-eq v w (some x) h e = ground (arith, e)

free_zero :
    (m : List (ℕ × ℕ))
    → ((v : ℕ) → get_guid 0 m ≡ some v → v ≡ 0)
    → absent_or 0 (get_guid 0 m) ≡ true
unfolding absent_or
free_zero m h = elim (Option-cases (get_guid 0 m)) [
  | inl e ↦ rw e refl
  | inr (v, e) ↦ ground (arith, e, h v e)
]

zero-Fits : (s : Comparator) → Bijective s → Fits s 0 0
zero-Fits s b = record {
  expected_free = free_zero s.expected_guids λ v h. ground (arith, b.zeros 0 v h);
  actual_free = free_zero s.actual_guids λ v h. ground (arith, b.zeros v 0 (b.back v 0 h));
  typed = refl;
  zeros = refl;
}

matches-Fits : (s : Comparator) (e a : ℕ) → Bijective s → guid_matches s e a ≡ true → Fits s e a
unfolding guid_matches
matches-Fits s e a b h = elim (Bool-cases (e == 0 || a == 0)) [
  | inl z ↦
      let e0 : e ≡ 0 = ground (arith, z) in
      let a0 : a ≡ 0 = ground (arith, z) in rw (e0, a0) (zero-Fits s b)
  | inr z ↦ record {
    expected_free = ground (arith, z);
    actual_free = ground (arith, z);
    typed = ground (arith, z);
    zeros = ground (arith, z);
  }
]

pair_guids-Bijective :
    (s : Comparator) (e a : ℕ) → Bijective s → Fits s e a → Bijective (pair_guids e a s)
unfolding pair_guids
pair_guids-Bijective s e a b w = record {
  forth = λ x y h. ground (
    arith,
    h,
    get_guid-cons x e a s.expected_guids,
    get_guid-cons y a e s.actual_guids,
    b.forth x y,
    absent_or-eq e x (get_guid a s.actual_guids) w.actual_free,
  );
  back = λ x y h. ground (
    arith,
    h,
    get_guid-cons x e a s.expected_guids,
    get_guid-cons y a e s.actual_guids,
    b.back x y,
    absent_or-eq a y (get_guid e s.expected_guids) w.expected_free,
  );
  typed = λ x y h. ground (arith, h, get_guid-cons x e a s.expected_guids, b.typed x y, w.typed);
  zeros = λ x y h. ground (arith, h, get_guid-cons x e a s.expected_guids, b.zeros x y, w.zeros);
}

pair_guids-Grows :
    (s : Comparator) (e a : ℕ) → guid_matches s e a ≡ true → Grows s (pair_guids e a s)
unfolding pair_guids
pair_guids-Grows s e a h = record {
  keeps = λ b. pair_guids-Bijective s e a b (matches-Fits s e a b h);
  mono = λ b x y k.
      let w = matches-Fits s e a b h in
      ground (
        arith,
        k,
        get_guid-cons x e a s.expected_guids,
        absent_or-eq a y (get_guid e s.expected_guids) w.expected_free,
      );
  more = [];
  adds = sym (append-nil s.differences);
}

pub Grows-guid_field : (l : Location) (e a : ℕ) (s : Comparator) → Grows s (guid_field l e a s)
unfolding guid_field guid_mismatch
Grows-guid_field l e a s = elim (Bool-cases (guid_matches s e a)) [
  | inl h ↦ rw h (pair_guids-Grows s e a h)
  | inr h ↦ rw h (Grows-difference l _ _ _ _ s)
]
