-- ===== src/SpellRolls/Reads.antt =====
-- The fields that the reads of src/spell_rolls.rs find in a packet.
use wire_harness.Prelude.{
  ℕ, ◌≡◌, inl, inr, ap, ◌∙◌, pos, Bool, true, ◌==◌, List, [], ◌∷◌, String, Option, some, All, Gives,
  Gives-bind, Gives-mono, Bool-cases, arith,
}
use wire_harness.Decode.Field.{
  Field, Fields, Items, unsigned, signed, guid, list, nil, cons, lookup,
}
use wire_harness.Reading.{is_guid, is_unsigned, number, numbers_are}
use wire_harness.SpellRolls.Outcomes.{Error, missing_number}
use wire_harness.SpellRolls.{listed, only_miss, resisted}

pub is_guid-lookup :
    (name : String) (g : ℕ) (fs : Fields)
    → is_guid name g fs ≡ true
    → lookup name fs ≡ some (guid g)
unfolding is_guid
is_guid-lookup name g fs h = ground arith

pub is_unsigned-lookup :
    (name : String) (n : ℕ) (fs : Fields)
    → is_unsigned name n fs ≡ true
    → lookup name fs ≡ some (unsigned n)
unfolding is_unsigned
is_unsigned-lookup name n fs h = ground arith

pub number-lookup :
    (name : String) (fs : Fields)
    → Gives (λ n. lookup name fs ≡ some (unsigned n)) (number missing_number name fs)
unfolding number Gives
number-lookup name fs = ground arith

pub eq_of_test : (n m : ℕ) → (n == m) ≡ true → n ≡ m
eq_of_test n m h = ground (arith, h)

-- When a test of numbers succeeds, each of them is there.
unfoldable pub NumbersThere : List (String × ℕ) → Fields → Bool → Type 0
NumbersThere l fs b = b ≡ true → All (λ (name, value). lookup name fs ≡ some (unsigned value)) l

pub numbers-lookup :
    (l : List (String × ℕ)) (fs : Fields)
    → Gives (NumbersThere l fs) (numbers_are missing_number l fs)
unfolding numbers_are NumbersThere Gives
numbers-lookup [] fs = λ e. tt
numbers-lookup ((name, value) ∷ l) fs =
    Gives-bind (λ n. lookup name fs ≡ some (unsigned n)) (NumbersThere ((name, value) ∷ l) fs)
      (number missing_number name fs) _ (number-lookup name fs)
      λ n f. elim (Bool-cases (n == value)) [
        | inl e ↦ rw e (
            Gives-mono (NumbersThere l fs) (NumbersThere ((name, value) ∷ l) fs)
              (numbers_are missing_number l fs)
              (λ b all q. (f ∙ ap (λ x. some (unsigned x)) (eq_of_test n value e), all q))
              (numbers-lookup l fs))
        | inr e ↦ rw e (λ q. absurd (ground (arith, q)))
      ]

pub listed-list :
    (o : Option Field) (e : Error) → Gives (λ items. o ≡ some (list items)) (listed o e)
unfolding listed Gives
listed-list o e = ground arith

pub resisted-signed : (o : Option Field) → Gives (λ n. o ≡ some (signed (pos n))) (resisted o)
unfolding resisted Gives
resisted-signed o = ground arith

pub only_miss-one :
    (hits misses : Items)
    → Gives (λ f. (hits ≡ nil) × (misses ≡ cons f nil)) (only_miss hits misses)
unfolding only_miss Gives
only_miss-one hits misses = ground arith
