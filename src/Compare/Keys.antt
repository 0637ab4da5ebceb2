-- ===== src/Compare/Keys.antt =====
-- The keys that `Comparator::fields` of src/compare.rs goes through are those of either object.
use wire_harness.Prelude.{
  ◌≡◌, refl, sym, true, List, [], ◌∷◌, String, Option, none, some, Bool-cases, inl, inr, All, arith,
}
use mathlib.Core.Path.{subst}
use package.text.Mathlib.Text.{◌==◌ as str_eq, is_lt}
use package.text.Mathlib.TextEquality.{eq_iff}
use Prim.Native.String.{compare}
use wire_harness.Trace.Recorded
use wire_harness.Trace.Recorded.{Recorded, RecordedFields}
use wire_harness.Compare.Equality.{find, insert_key, collect_keys, key_set}
use wire_harness.Compare.Same.{is_some, Both, Matched}

str_eq-eq : (s t : String) → str_eq s t ≡ true → s ≡ t
str_eq-eq s t h = ground (arith, eq_iff s t, h)

All-insert_key :
    (P : String → Type 0) (k : String) (js : List String) → All P (insert_key k js) → P k × All P js
unfolding insert_key
All-insert_key P k [] h = h
All-insert_key P k (j ∷ js) h = elim (Bool-cases (str_eq k j)) [
  | inl e ↦ let all : All P (j ∷ js) = rw e at h in (subst P (sym (str_eq-eq k j e)) all.0, all)
  | inr e ↦ elim (Bool-cases (is_lt (compare k j))) [
    | inl f ↦ let all : All P (k ∷ j ∷ js) = rw (e, f) at h in (all.0, all.1)
    | inr f ↦
        let all : All P (j ∷ insert_key k js) = rw (e, f) at h in
        let rest = All-insert_key P k js all.1 in (rest.0, (all.0, rest.1))
  ]
]

All-collect_keys :
    (P : String → Type 0) (fs : RecordedFields) (keys : List String)
    → All P (collect_keys fs keys)
    → All P keys × ((k : String) → is_some (find k fs) ≡ true → P k)
unfolding collect_keys find is_some
All-collect_keys P Recorded.end keys h = (h, λ k f. absurd (ground (arith, f)))
All-collect_keys P (Recorded.entry j r fs) keys h =
    let rest = All-collect_keys P fs (insert_key j keys) h in
    let here = All-insert_key P j keys rest.0 in
    (
      here.1,
      λ k f. elim (Bool-cases (str_eq j k)) [
        | inl e ↦ subst P (str_eq-eq j k e) here.0
        | inr e ↦ rest.1 k (ground (arith, f, e))
      ],
    )

All-key_set :
    (P : String → Type 0) (e a : RecordedFields)
    → All P (key_set e a)
    → ((k : String) → is_some (find k e) ≡ true → P k)
      × ((k : String) → is_some (find k a) ≡ true → P k)
unfolding key_set
All-key_set P e a h =
    let second = All-collect_keys P a (collect_keys e []) h in
    let first = All-collect_keys P e [] second.0 in (first.1, second.1)

Matched-Both :
    (R : Recorded → Recorded → Type 0) (x y : Option Recorded)
    → (is_some x ≡ true → Both R x y)
    → (is_some y ≡ true → Both R x y)
    → Matched R x y
unfolding is_some Both Matched
Matched-Both R none none h k = tt
Matched-Both R (some e) none h k = h refl
Matched-Both R none (some a) h k = k refl
Matched-Both R (some e) (some a) h k = h refl

-- What relates the values of both objects at every key that is gone through relates them at every
-- key at all.
pub Matched-key_set :
    (R : String → Recorded → Recorded → Type 0) (e a : RecordedFields)
    → All (λ k. Both (R k) (find k e) (find k a)) (key_set e a)
    → (k : String) → Matched (R k) (find k e) (find k a)
Matched-key_set R e a h k =
    let each = All-key_set (λ j. Both (R j) (find j e) (find j a)) e a h in
    Matched-Both (R k) (find k e) (find k a) (each.0 k) (each.1 k)
