-- ===== src/Decode/Body.antt =====
-- `Body` of src/decode.rs: a cursor over the bytes not yet read. A method of `&mut Body` is an
-- action on those bytes, and its `?` is the bind below.
use wire_harness.Prelude.{
  ℕ, zero, suc, ◌+◌, ◌-◌, ◌*◌, ◌/◌, ◌%◌, ◌^◌, Bool, true, false, ◌&&◌, List, [], ◌∷◌, map, Option,
  none, some, String, leb, ltb, ◌==◌, if◌then◌else◌, length, take, drop, Result, ok, err, from_le,
  signed_of, has, bit_or,
}
use wire_harness.Decode.Field.{
  Field, unsigned, signed, float, guid, time_ms, text, list, object, Fields, end, insert, to_items,
  field_name,
}

-- What the `context`, `ensure!` and `bail!` messages of the file say.
pub data Error : Type 0 where
  truncated record_count spline_points text_length unterminated not_utf8 non_finite : Error
  faction_count xp_kind effect_count effect_kind cast_result world_state_count : Error
  weather_clear weather_instant melee_subrecord extended_flag taxi_status taxi_menu : Error
  monster_kind linear_spline object_count guid_count object_kind unsupported trailing : Error
  compressed_size compressed_limit compressed_failed compressed_stream : Error

abbrev pub Parser : Type 0 → Type 0
Parser A = List ℕ → Result Error (A × List ℕ)

abbrev continue :
    {A B : Type 0} → Result Error (A × List ℕ) → (A → Parser B) → Result Error (B × List ℕ)
continue (ok (a, s)) f = f a s
continue (err e) f = err e

infixl 5 ◌>>=◌ ◌>>◌
unfoldable pub ◌>>=◌ : {A B : Type 0} → Parser A → (A → Parser B) → Parser B
◌>>=◌ m f s = continue (m s) f

abbrev pub ◌>>◌ : {A B : Type 0} → Parser A → Parser B → Parser B
m >> n = m >>= λ _. n

unfoldable pub pure : {A : Type 0} → A → Parser A
pure a s = ok (a, s)

unfoldable pub fail : {A : Type 0} → Error → Parser A
fail e s = err e

-- `ensure!(test, message)`, where the test does not read the body
unfoldable pub ensure : Bool → Error → Parser (Unit {0})
unfolding pure fail
ensure b e = if b then pure tt else fail e

-- `ensure!(… && count <= self.0.len() / size, message)`
unfoldable pub ensure_room : Bool → ℕ → ℕ → Error → Parser (Unit {0})
ensure_room b count size e s = if b && leb count (length s / size) then ok (tt, s) else err e

-- `!self.0.is_empty()`
unfoldable pub has_more : Parser Bool
has_more [] = ok (false, [])
has_more (b ∷ s) = ok (true, b ∷ s)

-- `bytes::<N>`
unfoldable pub bytes : ℕ → Parser (List ℕ)
bytes n s = if leb n (length s) then ok (take n s, drop n s) else err truncated

unfoldable pub u8 : Parser ℕ
u8 = do b ← bytes 1; pure (from_le b)

unfoldable pub u16 : Parser ℕ
u16 = do b ← bytes 2; pure (from_le b)

unfoldable pub u32 : Parser ℕ
u32 = do b ← bytes 4; pure (from_le b)

unfoldable pub u64 : Parser ℕ
u64 = do b ← bytes 8; pure (from_le b)

-- `(0..n).map(|_| read).collect::<Result<_>>()?`, and the `for _ in 0..n` loops that push
unfoldable pub collect : {A : Type 0} → ℕ → Parser A → Parser (List A)
collect zero m = pure []
collect (suc n) m = do x ← m; xs ← collect n m; pure (x ∷ xs)

-- The values as they enter a packet: `Field::Unsigned(self.u8()?.into())` and the like.
unfoldable pub unsigned8 : Parser Field
unsigned8 = do n ← u8; pure (unsigned n)

unfoldable pub unsigned16 : Parser Field
unsigned16 = do n ← u16; pure (unsigned n)

unfoldable pub unsigned32 : Parser Field
unsigned32 = do n ← u32; pure (unsigned n)

unfoldable pub signed16 : Parser Field
signed16 = do n ← u16; pure (signed (signed_of 16 n))

unfoldable pub signed32 : Parser Field
signed32 = do n ← u32; pure (signed (signed_of 32 n))

unfoldable pub guid64 : Parser Field
guid64 = do n ← u64; pure (guid n)

unfoldable pub time32 : Parser Field
time32 = do n ← u32; pure (time_ms n)

-- `value.is_finite()` of the f32 with these bits: its exponent is not all ones.
unfoldable pub is_finite : ℕ → Bool
is_finite bits = ltb (bits / 2 ^ 23 % 256) 255

unfoldable pub float32 : Parser Field
float32 = do n ← u32; ensure (is_finite n) non_finite; pure (float n)

-- `fields.insert(name.into(), read?)`
unfoldable pub put : String → Parser Field → Fields → Parser Fields
put name read fs = do v ← read; pure (insert name v fs)

-- `for name in names { fields.insert(name.into(), read?) }`
unfoldable pub put_each : Parser Field → List String → Fields → Parser Fields
put_each read [] fs = pure fs
put_each read (name ∷ names) fs = do fs' ← put name read fs; put_each read names fs'

-- `if test { fields.insert(name.into(), read?) }`
unfoldable pub put_if : Bool → String → Parser Field → Fields → Parser Fields
put_if b name read fs = if b then put name read fs else pure fs

-- `records`
unfoldable pub records : ℕ → List String → Parser Field
records count names = do
  ensure_room (leb count 256) count (length names * 4) record_count
  rows ← collect count (put_each unsigned32 names end)
  pure (list (to_items (map object rows)))

-- The loop of `packed_guid`: the bits from `i` on of the mask.
unfoldable pub guid_bytes : ℕ → ℕ → ℕ → ℕ → Parser ℕ
guid_bytes zero mask i value = pure value
guid_bytes (suc n) mask i value =
    if has mask (2 ^ i)
    then (do b ← u8; guid_bytes n mask (i + 1) (bit_or value (b * 2 ^ (i * 8))))
    else guid_bytes n mask (i + 1) value

-- `packed_guid`
unfoldable pub packed_guid : Parser Field
packed_guid = do mask ← u8; value ← guid_bytes 8 mask 0 0; pure (guid value)

-- `vector`
unfoldable pub vector : Parser Field
vector = do fs ← put_each float32 ("x" ∷ "y" ∷ "z" ∷ []) end; pure (object fs)

-- `vectors`
unfoldable pub vectors : Parser Field
vectors = do
  count ← u32
  ensure_room (leb count 4096) count 12 spline_points
  points ← collect count vector
  pure (list (to_items points))

-- The inner loop of `values`: `n` more bits of a mask word, from `bit` on.
unfoldable pub value_bits : ℕ → ℕ → ℕ → ℕ → Fields → Parser Fields
value_bits zero block mask bit fs = pure fs
value_bits (suc n) block mask bit fs =
    if has mask (2 ^ bit)
    then (do
      fs' ← put (field_name (block * 32 + bit)) unsigned32 fs
      value_bits n block mask (bit + 1) fs')
    else value_bits n block mask (bit + 1) fs

-- The outer loop of `values`.
unfoldable pub value_blocks : List ℕ → ℕ → Fields → Parser Fields
value_blocks [] block fs = pure fs
value_blocks (mask ∷ masks) block fs = do
  fs' ← value_bits 32 block mask 0 fs
  value_blocks masks (block + 1) fs'

-- `values`
unfoldable pub values : Parser Field
values = do count ← u8; masks ← collect count u32; fs ← value_blocks masks 0 end; pure (object fs)

-- The bytes before the first NUL, and those behind it.
unfoldable pub split_nul : List ℕ → Option (List ℕ × List ℕ)
split_nul [] = none
split_nul (b ∷ s) =
    let rest = split_nul s in
    if b == 0
    then some ([], s)
    else elim rest [ none ↦ none | some (front, back) ↦ some (b ∷ front, back) ]

abbrev between : ℕ → ℕ → ℕ → Bool
between lo hi b = leb lo b && leb b hi

-- One byte of UTF-8. `need` is how many continuation bytes are due, the next of them in lo..=hi.
utf8_step : ℕ → ℕ → ℕ → ℕ → Option (ℕ × ℕ × ℕ)
utf8_step zero lo hi b =
    if ltb b 0x80
    then some (0, 0, 0)
    else if between 0xc2 0xdf b
    then some (1, 0x80, 0xbf)
    else if b == 0xe0
    then some (2, 0xa0, 0xbf)
    else if b == 0xed
    then some (2, 0x80, 0x9f)
    else if between 0xe1 0xef b
    then some (2, 0x80, 0xbf)
    else if b == 0xf0
    then some (3, 0x90, 0xbf)
    else if between 0xf1 0xf3 b
    then some (3, 0x80, 0xbf)
    else if b == 0xf4
    then some (3, 0x80, 0x8f)
    else none
utf8_step (suc need) lo hi b = if between lo hi b then some (need, 0x80, 0xbf) else none

utf8_from : ℕ → ℕ → ℕ → List ℕ → Bool
utf8_from need lo hi [] = need == 0
utf8_from need lo hi (b ∷ s) = elim (utf8_step need lo hi b) [
  | none ↦ false
  | some (need', lo', hi') ↦ utf8_from need' lo' hi' s
]

-- `std::str::from_utf8(…).is_ok()`
unfoldable pub is_utf8 : List ℕ → Bool
unfolding utf8_from utf8_step
is_utf8 = utf8_from 0 0 0

-- `text`
unfoldable pub nul_text : Parser (List ℕ)
nul_text s = elim (split_nul s) [
  | none ↦ err unterminated
  | some (front, back) ↦ if is_utf8 front then ok (front, back) else err not_utf8
]

unfoldable pub text_field : Parser Field
text_field = do t ← nul_text; pure (text t)

-- `before - self.0.len()` around `text`
unfoldable pub measured_text : Parser (List ℕ × ℕ)
measured_text s = elim (nul_text s) [
  | err e ↦ err e
  | ok (t, rest) ↦ ok ((t, length s - length rest), rest)
]

-- `counted_text`
unfoldable pub counted_text : Parser Field
counted_text = do
  size ← u32
  (t, used) ← measured_text
  ensure (used == size) text_length
  pure (text t)
