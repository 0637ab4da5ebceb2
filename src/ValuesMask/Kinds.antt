-- ===== src/ValuesMask/Kinds.antt =====
-- The kinds of the objects of an update, as src/decode.rs writes them, and the first byte that
-- src/values_mask.rs tells them apart by.
use wire_harness.Prelude.{
  ℕ, ◌≡◌, ◌≢◌, refl, ◌∙◌, String, List, [], ◌∷◌, Bool, true, false, none, some, Option-cases,
  Result-cases, inl, inr, leb, ◌==◌, ok, arith, if◌then◌else◌, not,
}
use package.text.Mathlib.Text.{◌==◌ as str_eq}
use wire_harness.Decode.Field.{
  Field, unsigned, guid, list, Fields, end, insert, lookup, lookup-insert, to_items,
}
use wire_harness.Decode.Body
use wire_harness.Decode.Body.{Parser}
use wire_harness.Decode.Movement.{movement}
use wire_harness.Decode.Packets.Update.{object_block, guid_block, update_block}
use wire_harness.ValuesMask.{
  ValuesUpdate, ◌>>=◌, pure, fail, u8, packed_guid, block_fields, values_object,
}
use wire_harness.ValuesMask.Agreement.{
  typed, Typed, u8-Typed, packed_guid-Typed, values-Typed, values_of,
}

abbrev kind_zero : Fields
kind_zero = insert "kind" (unsigned 0) end

-- The object that the typed decoder makes of an update.
unfoldable pub as_object : ValuesUpdate → Fields
as_object u =
    insert "values" (values_of u.fields)
      (insert "guid" (guid u.guid) (insert "kind" (unsigned 0) end))

zero_block-Typed :
    Typed as_object
      (object_block 0 kind_zero)
      (packed_guid >>= λ g. block_fields >>= λ f. pure (record { guid = g; fields = f }))
unfolding object_block Body.put Body.put_if Body.◌>>=◌ Body.pure ◌>>=◌ pure as_object
zero_block-Typed s = elim (Option-cases (packed_guid s)) [
  | inl e ↦ ground (arith, packed_guid-Typed s, e)
  | inr ((g, r), e) ↦ elim (Option-cases (block_fields r)) [
    | inl e' ↦ ground (arith, packed_guid-Typed s, e, values-Typed r, e')
    | inr ((f, r'), e') ↦ ground (arith, packed_guid-Typed s, e, values-Typed r, e')
  ]
]

-- The first byte of a block is its kind.
update_block-cons :
    (b : ℕ) (s : List ℕ)
    → update_block (b ∷ s)
      ≡ (if leb b 3
            then object_block b (insert "kind" (unsigned b) end)
            else if leb b 5
            then guid_block (insert "kind" (unsigned b) end)
            else Body.fail Body.object_kind)
          s
unfolding update_block Body.◌>>=◌ u8
update_block-cons b s = ground (arith, u8-Typed (b ∷ s))

-- A block of kind 0 is read alike, or refused by both.
pub update_block-zero :
    (b : ℕ) (s : List ℕ) → b ≡ 0 → update_block (b ∷ s) ≡ typed as_object (values_object (b ∷ s))
unfolding values_object ◌>>=◌ u8
update_block-zero b s e = rw e (update_block-cons 0 s ∙ zero_block-Typed s)

-- Any other block ends the run.
pub values_object-foreign : (b : ℕ) (s : List ℕ) → b ≢ 0 → values_object (b ∷ s) ≡ none
unfolding values_object ◌>>=◌ u8 fail
values_object-foreign b s h = ground arith

-- `m` leaves the entry "kind" of a map alone.
record KeepsKind (fs : Fields) (m : Parser Fields) : Type 0 where
  same :
      (s : List ℕ) (fs' : Fields) (rest : List ℕ)
      → m s ≡ ok (fs', rest)
      → lookup "kind" fs' ≡ lookup "kind" fs

module _ {fs : Fields} where
  KeepsKind-put :
      (name : String) (read : Parser Field)
      → str_eq name "kind" ≡ false
      → KeepsKind fs (Body.put name read fs)
  unfolding Body.put Body.◌>>=◌ Body.pure
  KeepsKind-put name read h = record {
    same = λ s fs' rest e. elim (Result-cases (read s)) [
      | inl ((v, r), p) ↦ ground (arith, p, h, lookup-insert name "kind" v fs)
      | inr (x, p) ↦ ground (arith, p)
    ];
  }

  KeepsKind-bind :
      (m : Parser Fields) (f : Fields → Parser Fields)
      → KeepsKind fs m
      → ((fs' : Fields) → KeepsKind fs' (f fs'))
      → KeepsKind fs (Body.◌>>=◌ m f)
  unfolding Body.◌>>=◌
  KeepsKind-bind m f km kf = record {
    same = λ s fs' rest e. elim (Result-cases (m s)) [
      | inl ((v, r), p) ↦ ground (arith, p, km.same s v r p, (kf v).same r fs' rest)
      | inr (x, p) ↦ ground (arith, p)
    ];
  }

  KeepsKind-read :
      {A : Type 0} (m : Parser A) (f : A → Parser Fields)
      → ((a : A) → KeepsKind fs (f a))
      → KeepsKind fs (Body.◌>>=◌ m f)
  unfolding Body.◌>>=◌
  KeepsKind-read m f kf = record {
    same = λ s fs' rest e. elim (Result-cases (m s)) [
      | inl ((v, r), p) ↦ ground (arith, p, (kf v).same r fs' rest)
      | inr (x, p) ↦ ground (arith, p)
    ];
  }

  KeepsKind-insert :
      (name : String) (v : Field)
      → str_eq name "kind" ≡ false
      → KeepsKind fs (Body.pure (insert name v fs))
  unfolding Body.pure
  KeepsKind-insert name v h = record {
    same = λ s fs' rest e. ground (arith, h, lookup-insert name "kind" v fs);
  }

  KeepsKind-put_if :
      (b : Bool) (name : String) (read : Parser Field)
      → str_eq name "kind" ≡ false
      → KeepsKind fs (Body.put_if b name read fs)
  unfolding Body.put_if Body.pure
  KeepsKind-put_if true name read h = KeepsKind-put name read h
  KeepsKind-put_if false name read h = record { same = λ s fs' rest e. ground arith }

KeepsKind-object_block : (kind : ℕ) (fs : Fields) → KeepsKind fs (object_block kind fs)
unfolding object_block
KeepsKind-object_block kind fs =
    KeepsKind-bind _ _ (KeepsKind-put "guid" Body.packed_guid refl) (λ fs.
      KeepsKind-bind _ _ (KeepsKind-put_if (leb 2 kind) "object_type" Body.unsigned8 refl) (λ fs.
        KeepsKind-bind _ _ (KeepsKind-put_if (not (kind == 0)) "movement" movement refl)
          (λ fs. KeepsKind-put_if (not (kind == 1)) "values" Body.values refl)))

KeepsKind-guid_block : (fs : Fields) → KeepsKind fs (guid_block fs)
unfolding guid_block
KeepsKind-guid_block fs = KeepsKind-read _ _ (λ count.
    KeepsKind-read _ _
      (λ _. KeepsKind-read _ _ (λ guids. KeepsKind-insert "guids" (list (to_items guids)) refl)))

-- A block that was read keeps its first byte as its kind.
pub lookup-update_block :
    (b : ℕ) (s : List ℕ) (o : Fields) (rest : List ℕ)
    → update_block (b ∷ s) ≡ ok (o, rest)
    → lookup "kind" o ≡ some (unsigned b)
unfolding Body.fail insert lookup
lookup-update_block b s o rest h = ground (
  arith,
  update_block-cons b s,
  (KeepsKind-object_block b (insert "kind" (unsigned b) end)).same s o rest,
  (KeepsKind-guid_block (insert "kind" (unsigned b) end)).same s o rest,
)

pub update_block-nil : (o : Fields) (rest : List ℕ) → update_block [] ≢ ok (o, rest)
unfolding update_block Body.◌>>=◌ u8
update_block-nil o rest h = ground (arith, u8-Typed [])
