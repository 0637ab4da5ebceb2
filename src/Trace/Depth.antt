-- ===== src/Trace/Depth.antt =====
-- What `RecordedField::validate` of src/trace.rs accepts.
use wire_harness.Prelude.{
  ℕ, ◌+◌, ◌≤◌, ◌≡◌, ◌↔◌, Bool, true, ◌&&◌, leb, max, ok, err, ensure, Result, ◌>>◌, Bool-cases, inl,
  inr, arith,
}
use wire_harness.Trace.Recorded
use wire_harness.Trace.Recorded.{
  Error, too_deep, Recorded, RecordedItems, RecordedFields, identifier, is_finite64, validate,
  validate_items, validate_fields,
}

-- How deep lists and objects nest in a field. An item of a list and a value of an object lie one
-- level deeper.
unfoldable mutual
  pub height : Recorded → ℕ
  height (Recorded.list items) = items_height items
  height (Recorded.object fs) = fields_height fs
  height _ = 0

  pub items_height : RecordedItems → ℕ
  items_height Recorded.nil = 0
  items_height (Recorded.cons r items) = max (1 + height r) (items_height items)

  pub fields_height : RecordedFields → ℕ
  fields_height Recorded.end = 0
  fields_height (Recorded.entry name r fs) = max (1 + height r) (fields_height fs)

-- Every float is finite and every name is an identifier.
unfoldable mutual
  pub is_clean : Recorded → Bool
  is_clean (Recorded.float n) = is_finite64 n
  is_clean (Recorded.list items) = items_clean items
  is_clean (Recorded.object fs) = fields_clean fs
  is_clean _ = true

  pub items_clean : RecordedItems → Bool
  items_clean Recorded.nil = true
  items_clean (Recorded.cons r items) = is_clean r && items_clean items

  pub fields_clean : RecordedFields → Bool
  fields_clean Recorded.end = true
  fields_clean (Recorded.entry name r fs) = identifier name && is_clean r && fields_clean fs

both_accepted : (r s : Result Error (Unit {0})) → ((r >> s) ≡ ok tt) ↔ ((r ≡ ok tt) × (s ≡ ok tt))
both_accepted (ok tt) s = ground arith
both_accepted (err e) s = ground arith

below_list :
    (d h : ℕ) (b : Bool) (r : Result Error (Unit {0}))
    → (d ≤ 32 → (r ≡ ok tt) ↔ ((d + h ≤ 32) × (b ≡ true)))
    → ((ensure (leb d 32) too_deep >> r) ≡ ok tt) ↔ ((d + h ≤ 32) × (b ≡ true))
below_list d h b r k = elim (Bool-cases (leb d 32)) [
  | inl e ↦ let i = k (ground arith) in ground (arith, e, i)
  | inr e ↦ ground (arith, e)
]

next_item :
    (d h k : ℕ) (b c : Bool) (r s : Result Error (Unit {0}))
    → (r ≡ ok tt) ↔ ((d + 1 + h ≤ 32) × (b ≡ true))
    → (s ≡ ok tt) ↔ ((d + k ≤ 32) × (c ≡ true))
    → ((r >> s) ≡ ok tt) ↔ ((d + max (1 + h) k ≤ 32) × ((b && c) ≡ true))
next_item d h k b c r s x y = let z = both_accepted r s in ground (arith, z, x, y)

mutual
  unfolding validate height is_clean

  validate_accepts :
      (d : ℕ) (r : Recorded) → (validate d r ≡ ok tt) ↔ ((d + height r ≤ 32) × (is_clean r ≡ true))
  validate_accepts d (Recorded.float n) = ground arith
  validate_accepts d (Recorded.list items) =
      below_list d (items_height items) (items_clean items) (validate_items (d + 1) items)
        (items_accept d items)
  validate_accepts d (Recorded.object fs) =
      below_list d (fields_height fs) (fields_clean fs) (validate_fields (d + 1) fs)
        (fields_accept d fs)
  validate_accepts d (Recorded.unsigned n) = ground arith
  validate_accepts d (Recorded.signed n) = ground arith
  validate_accepts d (Recorded.guid n) = ground arith
  validate_accepts d (Recorded.time_ms n) = ground arith
  validate_accepts d (Recorded.wall_clock_ms n) = ground arith
  validate_accepts d (Recorded.text_sha256 s) = ground arith

  items_accept :
      (d : ℕ) (items : RecordedItems)
      → d ≤ 32
      → (validate_items (d + 1) items ≡ ok tt)
        ↔ ((d + items_height items ≤ 32) × (items_clean items ≡ true))
  items_accept d Recorded.nil l = ground arith
  items_accept d (Recorded.cons r items) l =
      next_item d (height r) (items_height items) (is_clean r) (items_clean items)
        (validate (d + 1) r) (validate_items (d + 1) items) (validate_accepts (d + 1) r)
        (items_accept d items l)

  fields_accept :
      (d : ℕ) (fs : RecordedFields)
      → d ≤ 32
      → (validate_fields (d + 1) fs ≡ ok tt)
        ↔ ((d + fields_height fs ≤ 32) × (fields_clean fs ≡ true))
  fields_accept d Recorded.end l = ground arith
  fields_accept d (Recorded.entry name r fs) l =
      let rest =
        next_item d (height r) (fields_height fs) (is_clean r) (fields_clean fs)
          (validate (d + 1) r) (validate_fields (d + 1) fs) (validate_accepts (d + 1) r)
          (fields_accept d fs l) in
      elim (Bool-cases (identifier name)) [
        | inl e ↦ ground (arith, e, rest)
        | inr e ↦ ground (arith, e)
      ]

-- `validate` at a depth accepts a field exactly when its deepest part lies at level 32 or above,
-- every float in it is finite and every name in it is an identifier.
pub validate_iff :
    (d : ℕ) (r : Recorded) → (validate d r ≡ ok tt) ↔ ((d + height r ≤ 32) × (is_clean r ≡ true))
validate_iff d r = validate_accepts d r
