-- ===== src/Decode/Field.antt =====
-- `Field` and `Packet` of src/decode.rs, and the standard maps that they hold.
use wire_harness.Prelude.{
  ℕ, ◌/◌, ◌%◌, String, List, [], ◌∷◌, zero, suc, ltb, ℤ, if◌then◌else◌, get_elem?, Option, none,
  some, ◌≡◌, refl, arith,
}
use package.text.Mathlib.Text.{◌==◌ as str_eq}
use package.text.Mathlib.TextEquality.{eq_iff}
use Prim.Native.String.{◌++◌ as str_append}

-- A `Field::Float` holds an f32 widened to f64, which is exact and one-to-one on finite values; it
-- is kept as the 32-bit pattern. A `Text` is kept as its UTF-8 bytes.
mutual
  pub data Field : Type 0 where
    unsigned : ℕ → Field
    signed : ℤ → Field
    float : ℕ → Field
    guid : ℕ → Field
    time_ms : ℕ → Field
    wall_clock_ms : ℕ → Field
    text : List ℕ → Field
    list : Items → Field
    object : Fields → Field

  pub data Items : Type 0 where
    nil : Items
    cons : Field → Items → Items

  pub data Fields : Type 0 where
    end : Fields
    entry : String → Field → Fields → Fields

pub record Packet : Type 0 where
  pub opcode : ℕ
  pub fields : Fields

-- A `Vec<Field>`.
unfoldable pub to_items : List Field → Items
to_items [] = nil
to_items (x ∷ xs) = cons x (to_items xs)

-- `BTreeMap::insert`: a second value for a key replaces the first. The order of the entries is the
-- order of first insertion; nothing in the decoder reads it.
unfoldable pub insert : String → Field → Fields → Fields
insert k v end = entry k v end
insert k v (entry j w m) = if str_eq j k then entry k v m else entry j w (insert k v m)

-- `BTreeMap::get`
unfoldable pub lookup : String → Fields → Option Field
lookup k end = none
lookup k (entry j w m) = if str_eq j k then some w else lookup k m

-- `BTreeMap::extend`
unfoldable pub extend : Fields → Fields → Fields
extend m end = m
extend m (entry k v more) = extend (insert k v m) more

pub lookup-insert :
    (k j : String) (v : Field) (m : Fields)
    → lookup j (insert k v m) ≡ (if str_eq k j then some v else lookup j m)
unfolding lookup insert
lookup-insert k j v end = refl
lookup-insert k j v (entry i w m) =
    ground (arith, eq_iff k j, eq_iff i k, eq_iff i j, lookup-insert k j v m)

abbrev digit_texts : List String
digit_texts = "0" ∷ "1" ∷ "2" ∷ "3" ∷ "4" ∷ "5" ∷ "6" ∷ "7" ∷ "8" ∷ "9" ∷ []

-- One decimal digit as text.
unfoldable pub digit : ℕ → String
digit d = elim (get_elem? digit_texts d) [ none ↦ "" | some s ↦ s ]

unfoldable pub decimal : ℕ → ℕ → String
unfolding digit
decimal zero n = ""
decimal (suc fuel) n =
    let front = decimal fuel (n / 10) in
    if ltb n 10 then digit n else str_append front (digit (n % 10))

-- `format!("field_{}", n)`: one round of `decimal` a digit, and `n` has at most `n + 1` digits.
unfoldable pub field_name : ℕ → String
unfolding decimal
field_name n = str_append "field_" (decimal (suc n) n)

field_name_runs : field_name 718 ≡ "field_718"
unfolding field_name
field_name_runs = refl
