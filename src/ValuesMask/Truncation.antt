-- ===== src/ValuesMask/Truncation.antt =====
-- A frame that is cut off, in src/values_mask.rs: what was decoded before the cut stays.
use wire_harness.Prelude.{
  ℕ, zero, suc, ◌≡◌, sym, List, [], ◌∷◌, ◌++◌, Option-cases, inl, inr, arith,
}
use mathlib.Core.List.{append-nil, append_assoc}
use wire_harness.ValuesMask.{
  ValuesUpdate, values_object, values_objects, update_header, parse_values_updates,
}
use wire_harness.ValuesMask.Reads.{Reads-values_object, Reads-update_header}

-- The loop only adds to what it has.
values_objects-extends :
    (n : ℕ) (out : List ValuesUpdate) (s : List ℕ)
    → (run : List ValuesUpdate) × (values_objects n out s ≡ out ++ run)
unfolding values_objects
values_objects-extends zero out s = ([], sym (append-nil out))
values_objects-extends (suc n) out s = elim (Option-cases (values_object s)) [
  | inl e ↦ ([], ground (arith, e, append-nil out))
  | inr ((u, r), e) ↦
      let (run, h) = values_objects-extends n (out ++ u ∷ []) r in
      (u ∷ run, ground (arith, e, h, append_assoc out (u ∷ []) run))
]

values_objects-append :
    (n : ℕ) (out : List ValuesUpdate) (s more : List ℕ)
    → (run : List ValuesUpdate) × (values_objects n out (s ++ more) ≡ values_objects n out s ++ run)
unfolding values_objects
values_objects-append zero out s more = ([], sym (append-nil out))
values_objects-append (suc n) out s more = elim (Option-cases (values_object s)) [
  | inl e ↦
      let (run, h) = values_objects-extends (suc n) out (s ++ more) in (run, ground (arith, e, h))
  | inr ((u, r), e) ↦
      let (run, h) = values_objects-append n (out ++ u ∷ []) r more in
      (run, ground (arith, e, Reads-values_object.widen s u r more e, h))
]

-- What is decoded from a truncated frame is a prefix of what is decoded from the whole frame.
pub parse_values_updates-append :
    (front more : List ℕ)
    → (run : List ValuesUpdate) × (parse_values_updates (front ++ more)
        ≡ parse_values_updates front ++ run)
unfolding parse_values_updates
parse_values_updates-append front more = elim (Option-cases (update_header front)) [
  | inl e ↦ (parse_values_updates (front ++ more), ground (arith, e))
  | inr ((count, r), e) ↦
      let (run, h) = values_objects-append count [] r more in
      (run, ground (arith, e, Reads-update_header.widen front count r more e, h))
]
