-- ===== src/Reading.antt =====
-- How src/rolls.rs and src/spell_rolls.rs read the fields of a decoded packet.
use wire_harness.Prelude.{
  ℕ, Bool, true, false, ◌==◌, List, [], ◌∷◌, some, String, Result, ok, err, ◌>>=◌, if◌then◌else◌,
}
use wire_harness.Decode.Field.{Fields, unsigned, guid, time_ms, lookup}

-- `fields.get(name) == Some(&Field::Guid(value))`
unfoldable pub is_guid : String → ℕ → Fields → Bool
is_guid name value fs = elim (lookup name fs) [ some (guid g) ↦ g == value | _ ↦ false ]

-- `fields.get(name) == Some(&Field::Unsigned(value))`
unfoldable pub is_unsigned : String → ℕ → Fields → Bool
is_unsigned name value fs = elim (lookup name fs) [ some (unsigned n) ↦ n == value | _ ↦ false ]

-- `fields.get(name) == Some(&Field::TimeMs(value))`
unfoldable pub is_time_ms : String → ℕ → Fields → Bool
is_time_ms name value fs = elim (lookup name fs) [ some (time_ms n) ↦ n == value | _ ↦ false ]

module _ {E : Type 0} (missing : E) where
  -- `number(name)?`
  unfoldable pub number : String → Fields → Result E ℕ
  number name fs = elim (lookup name fs) [ some (unsigned n) ↦ ok n | _ ↦ err missing ]

  -- `number(a)? == x && number(b)? == y && …`: a missing number is an error only when the tests
  -- before it hold.
  unfoldable pub numbers_are : List (String × ℕ) → Fields → Result E Bool
  numbers_are [] fs = ok true
  numbers_are ((name, value) ∷ more) fs =
      number name fs >>= λ n. if n == value then numbers_are more fs else ok false
