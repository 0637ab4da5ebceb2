-- ===== src/Scenario/Bound.antt =====
-- The packets of src/scenario.rs name a GUID, and the wire has it where the protocol reads it.
use wire_harness.Prelude.{
  ℕ, String, ◌<◌, ◌^◌, ◌≡◌, inl, inr, refl, sym, ap, ◌∙◌, false, not, ◌==◌, le→leb, Option, none,
  Option-cases, List, [], ◌∷◌, ◌++◌, some, length, length-append, take, drop, Result, ok, err,
  ensure, ◌>>◌, Bool-cases, Result-cases, arith,
}
use mathlib.Core.Path.{subst, ap₂}
use mathlib.Core.List.{Memᴰ}
use package.text.Mathlib.Text.{◌==◌ as str_eq}
use package.text.Mathlib.TextEquality.{eq_iff}
use mathlib.Core.List.{append_assoc, append-nil}
use wire_harness.Decode.Field.{Field, guid}
use wire_harness.Decode.Body.{Parser, pure, bytes, u16, u32, packed_guid, ◌>>=◌}
use wire_harness.Scenario.Packets
use wire_harness.Scenario.Packets.{
  Target, ClientPacket, cast_spell, sell_item, Guids, to_le, bind_target, check_target, target,
  encode_with, encode_body, target_bytes, target_flags,
}
use wire_harness.Scenario.Guids.{from_le-to_le, length-to_le, packed_guid-pack_guid}

take-all : (xs ys : List ℕ) → take (length xs) (xs ++ ys) ≡ xs
take-all [] ys = refl
take-all (x ∷ xs) ys = ap (λ l. x ∷ l) (take-all xs ys)

drop-all : (xs ys : List ℕ) → drop (length xs) (xs ++ ys) ≡ ys
drop-all [] ys = refl
drop-all (x ∷ xs) ys = drop-all xs ys

bytes-append : (xs ys : List ℕ) → bytes (length xs) (xs ++ ys) ≡ ok (xs, ys)
unfolding bytes
bytes-append xs ys =
    rw
      (
        le→leb (length xs) (length (xs ++ ys)) (omega (arith, length-append xs ys)),
        take-all xs ys,
        drop-all xs ys,
      )
      refl

read_word : (n v : ℕ) (s : List ℕ) → bytes n (to_le n v ++ s) ≡ ok (to_le n v, s)
read_word n v s =
    subst (λ k. bytes k (to_le n v ++ s) ≡ ok (to_le n v, s)) (length-to_le n v)
      (bytes-append (to_le n v) s)

u32-to_le : (v : ℕ) (s : List ℕ) → v < 2 ^ 32 → u32 (to_le 4 v ++ s) ≡ ok (v, s)
unfolding u32 pure ◌>>=◌
u32-to_le v s h = rw (read_word 4 v s) (ap (λ x. ok (x, s)) (from_le-to_le 4 v h))

u16-to_le : (v : ℕ) (s : List ℕ) → v < 2 ^ 16 → u16 (to_le 2 v ++ s) ≡ ok (v, s)
unfolding u16 pure ◌>>=◌
u16-to_le v s h = rw (read_word 2 v s) (ap (λ x. ok (x, s)) (from_le-to_le 2 v h))

-- A cast as the protocol has it: the spell, the flags of its target, and the target's packed GUID.
unfoldable pub read_cast : Parser (ℕ × ℕ × Field)
unfolding u32 u16 packed_guid pure ◌>>=◌
read_cast = do spell ← u32; flags ← u16; g ← packed_guid; pure (spell, flags, g)

read-cast :
    (spell g : ℕ)
    → spell < 2 ^ 32
    → g < 2 ^ 64
    → read_cast (to_le 4 spell ++ to_le 2 2 ++ Packets.pack_guid g) ≡ ok ((spell, 2, guid g), [])
unfolding read_cast pure ◌>>=◌
read-cast spell g h k =
    rw
      (
        append_assoc (to_le 4 spell) (to_le 2 2) (Packets.pack_guid g),
        u32-to_le spell (to_le 2 2 ++ Packets.pack_guid g) h,
        u16-to_le 2 (Packets.pack_guid g) (omega arith),
        sym (append-nil (Packets.pack_guid g)),
        packed_guid-pack_guid g [] k,
      )
      refl

-- What a packet at a target with this GUID is sent as: but for a cast, which packs it, the body
-- begins with the GUID.
unfoldable pub Addressed : ClientPacket → ℕ → Result Packets.Error (ℕ × List ℕ) → Type 0
Addressed p g (err e) = Unit
Addressed (cast_spell t spell) g (ok (opcode, body)) = opcode ≡ 0x012e
Addressed p g (ok (opcode, body)) = take 8 body ≡ to_le 8 g

-- The GUID of a target: the Character's own, or that of the name's entry in the map of its kind.
unfoldable pub GuidOf : ℕ → Guids → Guids → Target → ℕ → Type 0
GuidOf own fixtures characters Packets.character g = g ≡ own
GuidOf own fixtures characters (Packets.named_character id) g = Memᴰ (id, g) characters
GuidOf own fixtures characters (Packets.fixture id) g = Memᴰ (id, g) fixtures

get_guid-entry : (k : String) (m : Guids) (g : ℕ) → Packets.get_guid k m ≡ some g → Memᴰ (k, g) m
unfolding Packets.get_guid
get_guid-entry k [] g h = absurd (ground (arith, h))
get_guid-entry k ((j, w) ∷ m) g h = elim (Bool-cases (str_eq j k)) [
  | inl e ↦
      let same_name : k ≡ j = ground (arith, e, eq_iff j k) in
      let same_guid : g ≡ w = ground (arith, h, e) in
      Memᴰ.head (ap₂ (λ x y. (x, y)) same_name same_guid)
  | inr e ↦ Memᴰ.tail (get_guid-entry k m g (ground (arith, h, e)))
]

module _ (character_guid : ℕ) (fixtures characters : Guids) where
  -- A cast at a target whose GUID is known and not zero is sent, and the decoder's own readers give
  -- back the spell, the flags and the GUID, with no byte left.
  pub encode_with-cast :
      (t : Target) (spell g : ℕ)
      → bind_target character_guid fixtures characters (some t) ≡ ok g
      → (g == 0) ≡ false
      → spell < 2 ^ 32
      → g < 2 ^ 64
      → (body : List ℕ) × ((encode_with character_guid fixtures characters
              (cast_spell (some t) spell)
            ≡ ok (0x012e, body))
          × (read_cast body ≡ ok ((spell, 2, guid g), [])))
  unfolding encode_with check_target target encode_body target_bytes target_flags
  encode_with-cast t spell g b z h k =
      (to_le 4 spell ++ to_le 2 2 ++ Packets.pack_guid g, (rw (b, z) refl, read-cast spell g h k))

  encode_body-Addressed :
      (p : ClientPacket) (t : Target) (g : ℕ)
      → target p ≡ some t
      → Addressed p g (encode_body character_guid fixtures characters p g)
  unfolding target encode_body Addressed to_le
  encode_body-Addressed (sell_item t' item count) t g h =
      elim (Option-cases (Packets.get_guid item fixtures)) [
        | inl none_there ↦ rw none_there tt
        | inr (n, there) ↦ elim (Bool-cases (n == 0)) [
          | inl z ↦ rw (there, z) tt
          | inr z ↦ rw (there, z) refl
        ]
      ]
  encode_body-Addressed (cast_spell t' spell) t g h = refl
  encode_body-Addressed Packets.attack_stop t g h = absurd (ground (arith, h))
  encode_body-Addressed (Packets.ping s l) t g h = absurd (ground (arith, h))
  encode_body-Addressed (Packets.quest_query e) t g h = absurd (ground (arith, h))
  encode_body-Addressed (Packets.quest_log_swap a b) t g h = absurd (ground (arith, h))
  encode_body-Addressed (Packets.quest_log_remove s) t g h = absurd (ground (arith, h))
  encode_body-Addressed (Packets.cancel_cast s) t g h = absurd (ground (arith, h))
  encode_body-Addressed p t g h = refl

  unbound :
      (p : ClientPacket) (t : Target) (x : Packets.Error)
      → target p ≡ some t
      → bind_target character_guid fixtures characters (some t) ≡ err x
      → encode_with character_guid fixtures characters p ≡ err x
  unfolding encode_with
  unbound p t x h b = rw (h, b) refl

  encode_with-target :
      (p : ClientPacket) (t : Target) (g : ℕ)
      → target p ≡ some t
      → bind_target character_guid fixtures characters (some t) ≡ ok g
      → encode_with character_guid fixtures characters p ≡ (
          ensure (not (g == 0)) Packets.zero_target
          >> encode_body character_guid fixtures characters p g)
  unfolding encode_with check_target
  encode_with-target p t g h b = rw (h, b) refl

  context-some :
      (o : Option ℕ) (e : Packets.Error) (g : ℕ) → Packets.context o e ≡ ok g → o ≡ some g
  unfolding Packets.context
  context-some none e g h = absurd (ground (arith, h))
  context-some (some n) e g h = ground (arith, h)

  bind-GuidOf :
      (t : Target) (g : ℕ)
      → bind_target character_guid fixtures characters (some t) ≡ ok g
      → GuidOf character_guid fixtures characters t g
  unfolding bind_target GuidOf
  bind-GuidOf Packets.character g h = ground (arith, h)
  bind-GuidOf (Packets.named_character id) g h =
      get_guid-entry id characters g (context-some _ Packets.unbound_character g h)
  bind-GuidOf (Packets.fixture id) g h =
      get_guid-entry id fixtures g (context-some _ Packets.unbound_creature g h)

  -- A packet at a target is only sent at the target's GUID, which is the Character's own, or what the
  -- map of Characters or of fixtures has for the target's name, and is not zero: its body begins with
  -- that GUID, or it is a cast.
  pub encode_with-Addressed :
      (p : ClientPacket) (t : Target) (sent : ℕ × List ℕ)
      → target p ≡ some t
      → encode_with character_guid fixtures characters p ≡ ok sent
      → (g : ℕ) × (GuidOf character_guid fixtures characters t g
          × (((g == 0) ≡ false) × Addressed p g (ok sent)))
  encode_with-Addressed p t sent h e =
      elim (Result-cases (bind_target character_guid fixtures characters (some t))) [
        | inr (x, b) ↦ absurd (ground (arith, e, unbound p t x h b))
        | inl (g, b) ↦
            let step = sym e ∙ encode_with-target p t g h b in
            elim (Bool-cases (g == 0)) [
              | inl z ↦ absurd (ground (arith, step, z))
              | inr z ↦
                  let body : encode_body character_guid fixtures characters p g ≡ ok sent =
                    sym (step ∙ rw z refl) in
                  (
                    g,
                    (
                      bind-GuidOf t g b,
                      (z, subst (Addressed p g) body (encode_body-Addressed p t g h)),
                    ),
                  )
            ]
      ]
