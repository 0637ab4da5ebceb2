-- ===== src/ValuesMask/Frames.antt =====
-- Whole frames: the VALUES blocks that src/values_mask.rs finds are the leading ones that
-- src/decode.rs reads.
use wire_harness.Prelude.{
  ℕ, zero, suc, ◌≡◌, ◌≢◌, refl, sym, ap, ◌∙◌, List, [], ◌∷◌, ◌++◌, map, Option, none, some,
  Option-cases, Bool-cases, Result-cases, inl, inr, ◌==◌, ok, arith,
}
use mathlib.Core.List.{append-nil, append_assoc}
use wire_harness.Decode.Field.{unsigned, object, list, Fields, end, insert, lookup, to_items}
use wire_harness.Decode.Body
use wire_harness.Decode.Body.{Parser}
use wire_harness.Decode.Packets.Update.{update_block, update_object}
use wire_harness.ValuesMask.{
  ValuesUpdate, ◌>>=◌, pure, u8, u32, values_object, values_objects, update_header,
  parse_values_updates,
}
use wire_harness.ValuesMask.Agreement.{typed, u8-Typed, u32-Typed}
use wire_harness.ValuesMask.Kinds.{
  as_object, update_block-zero, values_object-foreign, lookup-update_block, update_block-nil,
}

-- The list begins with no VALUES block.
abbrev pub EndsRun : List Fields → Type 0
EndsRun [] = Unit {0}
EndsRun (o ∷ os) = lookup "kind" o ≢ some (unsigned 0)

-- The run that the raw decoder finds is the leading one of the blocks that the typed decoder reads.
record Leads (out found : List ValuesUpdate) (objects : List Fields) : Type 0 where
  run : List ValuesUpdate
  tail : List Fields
  found_eq : found ≡ out ++ run
  objects_eq : objects ≡ map as_object run ++ tail
  ends : EndsRun tail

-- What the first of `suc n` rounds read.
record FirstOf {A : Type 0} (n : ℕ) (m : Parser A) (s : List ℕ) (xs : List A) (rest : List ℕ)
    : Type 0 where
  head : A
  left : List ℕ
  others : List A
  head_eq : m s ≡ ok (head, left)
  others_eq : Body.collect n m left ≡ ok (others, rest)
  xs_eq : xs ≡ head ∷ others

collect-suc :
    {A : Type 0} (n : ℕ) (m : Parser A) (s : List ℕ) (xs : List A) (rest : List ℕ)
    → Body.collect (suc n) m s ≡ ok (xs, rest)
    → FirstOf n m s xs rest
unfolding Body.collect Body.◌>>=◌ Body.pure
collect-suc n m s xs rest h = elim (Result-cases (m s)) [
  | inl ((x, r), e) ↦ elim (Result-cases (Body.collect n m r)) [
    | inl ((ys, r'), e') ↦ record {
      head = x;
      left = r;
      others = ys;
      head_eq = e;
      others_eq = ground (arith, e, e');
      xs_eq = ground (arith, e, e');
    }
    | inr (x', e') ↦ absurd (ground (arith, e, e'))
  ]
  | inr (x, e) ↦ absurd (ground (arith, e))
]

-- A round on a VALUES block, and on any other.
module _ (n : ℕ) (out : List ValuesUpdate) where
  values_objects-some :
      (s : List ℕ) (u : ValuesUpdate) (r : List ℕ)
      → values_object s ≡ some (u, r)
      → values_objects (suc n) out s ≡ values_objects n (out ++ u ∷ []) r
  unfolding values_objects
  values_objects-some s u r h = ground (arith, h)

  values_objects-none : (s : List ℕ) → values_object s ≡ none → values_objects (suc n) out s ≡ out
  unfolding values_objects
  values_objects-none s h = ground (arith, h)

typed-inv :
    (o : Option (ValuesUpdate × List ℕ)) (x : Fields) (r : List ℕ)
    → typed as_object o ≡ ok (x, r)
    → (u : ValuesUpdate) × (o ≡ some (u, r)) × (x ≡ as_object u)
typed-inv none x r h = absurd (ground arith)
typed-inv (some (u, r')) x r h = (u, ground arith, ground arith)

Leads-cons :
    (n : ℕ) (out : List ValuesUpdate) (s : List ℕ) (u : ValuesUpdate) (r : List ℕ) (o : Fields)
    (others objects : List Fields)
    → values_object s ≡ some (u, r)
    → o ≡ as_object u
    → objects ≡ o ∷ others
    → Leads (out ++ u ∷ []) (values_objects n (out ++ u ∷ []) r) others
    → Leads out (values_objects (suc n) out s) objects
Leads-cons n out s u r o others objects found made split l = record {
  run = u ∷ l.run;
  tail = l.tail;
  found_eq = values_objects-some n out s u r found ∙ l.found_eq ∙ append_assoc out (u ∷ []) l.run;
  objects_eq = split ∙ cc (made, l.objects_eq);
  ends = l.ends;
}

EndsRun-cons :
    (b : ℕ) (s : List ℕ) (o : Fields) (r : List ℕ) (others : List Fields)
    → update_block (b ∷ s) ≡ ok (o, r)
    → b ≢ 0
    → EndsRun (o ∷ others)
EndsRun-cons b s o r others h ne p = ne (ground (arith, lookup-update_block b s o r h, p))

values_objects-Leads :
    (n : ℕ) (out : List ValuesUpdate) (s : List ℕ) (objects : List Fields) (rest : List ℕ)
    → Body.collect n update_block s ≡ ok (objects, rest)
    → Leads out (values_objects n out s) objects
values_objects-Leads zero out s objects rest h = record {
  run = [];
  tail = [];
  found_eq = unfold values_objects in sym (append-nil out);
  objects_eq = unfold Body.pure Body.collect in ground arith;
  ends = tt;
}
values_objects-Leads (suc n) out [] objects rest h =
    let first = collect-suc n update_block [] objects rest h in
    absurd (update_block-nil first.head first.left first.head_eq)
values_objects-Leads (suc n) out (b ∷ s) objects rest h =
    let first = collect-suc n update_block (b ∷ s) objects rest h in
    elim (Bool-cases (b == 0)) [
      | inl e ↦
          let (u, found, made) =
            typed-inv (values_object (b ∷ s)) first.head first.left
              (sym (update_block-zero b s (ground (arith, e))) ∙ first.head_eq) in
          Leads-cons n out (b ∷ s) u first.left first.head first.others objects found made
            first.xs_eq
            (values_objects-Leads n (out ++ u ∷ []) first.left first.others rest first.others_eq)
      | inr e ↦ record {
        run = [];
        tail = objects;
        found_eq =
            values_objects-none n out (b ∷ s) (values_object-foreign b s (ground (arith, e)))
            ∙ sym (append-nil out);
        objects_eq = refl;
        ends =
            rw first.xs_eq (
              EndsRun-cons b s first.head first.left first.others first.head_eq
                (ground (arith, e)));
      }
    ]

-- The typed decoder's packet for these objects.
abbrev pub update_fields : ℕ → List Fields → Fields
update_fields transport objects =
    insert "objects" (list (to_items (map object objects)))
      (insert "has_transport" (unsigned transport) end)

-- What a typed read of an update is made of.
record UpdateRead (body : List ℕ) (fs : Fields) (rest : List ℕ) : Type 0 where
  count : ℕ
  transport : ℕ
  blocks : List ℕ
  objects : List Fields
  header_eq : update_header body ≡ some (count, blocks)
  objects_eq : Body.collect count update_block blocks ≡ ok (objects, rest)
  fields_eq : fs ≡ update_fields transport objects

update_object-inv :
    (body : List ℕ) (fs : Fields) (rest : List ℕ)
    → update_object body ≡ ok (fs, rest)
    → UpdateRead body fs rest
unfolding update_object update_header Body.◌>>=◌ Body.put Body.unsigned8 Body.pure ◌>>=◌ pure
    Body.ensure_room
update_object-inv body fs rest h = elim (Option-cases (u32 body)) [
  | inl e ↦ absurd (ground (arith, u32-Typed body, e))
  | inr ((count, r), e) ↦ elim (Option-cases (u8 r)) [
    | inl e' ↦ absurd (ground (arith, u32-Typed body, e, u8-Typed r, e'))
    | inr ((t, r'), e') ↦ elim (Result-cases (Body.collect count update_block r')) [
      | inl ((objects, r''), c) ↦ record {
        count = count;
        transport = t;
        blocks = r';
        objects = objects;
        header_eq = ground (arith, e, e');
        objects_eq = ground (arith, u32-Typed body, e, u8-Typed r, e', c);
        fields_eq = ground (arith, u32-Typed body, e, u8-Typed r, e', c);
      }
      | inr (x, c) ↦ absurd (ground (arith, u32-Typed body, e, u8-Typed r, e', c))
    ]
  ]
]

parse_values_updates-header :
    (body : List ℕ) (count : ℕ) (blocks : List ℕ)
    → update_header body ≡ some (count, blocks)
    → parse_values_updates body ≡ values_objects count [] blocks
unfolding parse_values_updates
parse_values_updates-header body count blocks h = ground (arith, h)

-- Whenever the typed decoder reads an object update, the raw decoder finds in the same bytes the
-- leading VALUES blocks of it, all of them and with the same GUIDs and fields, and nothing more.
pub parse_values_updates-leading :
    (body : List ℕ) (fs : Fields) (rest : List ℕ)
    → update_object body ≡ ok (fs, rest)
    → (transport : ℕ) × (tail : List Fields) × (fs
        ≡ update_fields transport (map as_object (parse_values_updates body) ++ tail))
      × EndsRun tail
parse_values_updates-leading body fs rest h =
    let r = update_object-inv body fs rest h in
    let l = values_objects-Leads r.count [] r.blocks r.objects rest r.objects_eq in
    (
      r.transport,
      l.tail,
      rw (parse_values_updates-header body r.count r.blocks r.header_eq)
          (rw l.found_eq (r.fields_eq ∙ ap (update_fields r.transport) l.objects_eq)),
      l.ends,
    )
