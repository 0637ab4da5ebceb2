-- ===== src/Scenario/Guids.antt =====
-- The packed GUID that src/scenario.rs sends is one that src/decode.rs reads.
use wire_harness.Prelude.{
  ℕ, zero, suc, ◌+◌, ◌*◌, ◌/◌, ◌^◌, ◌≤◌, ◌<◌, ◌≡◌, refl, sym, ap, ◌∙◌, Bool, true, false, ◌&&◌, not,
  ◌==◌, List, [], ◌∷◌, ◌++◌, length, All, ok, bit_or, has, from_le, Bool-cases, inl, inr, arith,
  if◌then◌else◌,
}
use Prim.Native.Nat.pow
use native.Mathlib.Nat.{mul-le-mul_left}
use mathlib.Core.Path.{subst}
use wire_harness.Decode.Field.{guid}
use wire_harness.Decode.Body.{pure, bytes, u8, guid_bytes, Parser, packed_guid, ◌>>=◌}
use wire_harness.Scenario.Packets.{to_le, bit_of, guid_mask, nonzero_bytes, pack_guid}
use wire_harness.Scenario.Bits.{bit_or-disjoint, all_lists, all_lists_sound}

u8-cons : (b : ℕ) (s : List ℕ) → u8 (b ∷ s) ≡ ok (b, s)
unfolding u8 bytes pure from_le ◌>>=◌
u8-cons b s = ground arith

bind_u8 : {A : Type 0} (f : ℕ → Parser A) (b : ℕ) (s : List ℕ) → ◌>>=◌ u8 f (b ∷ s) ≡ f b s
unfolding ◌>>=◌
bind_u8 f b s = rw (u8-cons b s) refl

-- The mask has the bit of each byte that is not zero, from `i` on.
unfoldable Flagged : ℕ → ℕ → List ℕ → Type 0
Flagged mask i [] = Unit
Flagged mask i (b ∷ bs) = (has mask (2 ^ i) ≡ not (b == 0)) × Flagged mask (i + 1) bs

sixteenfold : (k : ℕ) → 2 ^ suc (suc (suc (suc k))) ≡ 16 * 2 ^ k
sixteenfold k =
    omega (
      arith,
      pow.suc 2 k,
      pow.suc 2 (suc k),
      pow.suc 2 (suc (suc k)),
      pow.suc 2 (suc (suc (suc k))),
    )

next_byte : (i : ℕ) → (i + 1) * 8 ≡ suc (suc (suc (suc (suc (suc (suc (suc (i * 8))))))))
next_byte i = omega arith

eightfold : (i : ℕ) → 2 ^ ((i + 1) * 8) ≡ 256 * 2 ^ (i * 8)
eightfold i =
    ap (λ n. 2 ^ n) (next_byte i)
    ∙ omega (arith, sixteenfold (i * 8), sixteenfold (suc (suc (suc (suc (i * 8))))))

-- The place of a byte, and of those above it.
place : (value b f p q : ℕ) → q ≡ 256 * p → value + b * p + f * q ≡ value + (b + 256 * f) * p
place value b f p q e = rw e omega arith

from_le-cons : (b : ℕ) (bs : List ℕ) → from_le (b ∷ bs) ≡ b + 256 * from_le bs
unfolding from_le
from_le-cons b bs = refl

next-place : (value b p q : ℕ) → value < p → b < 256 → q ≡ 256 * p → value + b * p < q
next-place value b p q l w e =
    let top : p * b ≤ p * 255 = mul-le-mul_left p (omega arith) in omega (arith, top, l, e)

guid_bytes-nonzero :
    (bs : List ℕ) (mask i value : ℕ) (rest : List ℕ)
    → Flagged mask i bs
    → All (λ b. b < 256) bs
    → value < 2 ^ (i * 8)
    → guid_bytes (length bs) mask i value (nonzero_bytes bs ++ rest)
      ≡ ok (value + from_le bs * 2 ^ (i * 8), rest)
unfolding guid_bytes nonzero_bytes Flagged
guid_bytes-nonzero [] mask i value rest f w l =
    unfold pure in unfold from_le in ap (λ v. ok (v, rest)) (omega arith)
guid_bytes-nonzero (b ∷ bs) mask i value rest (f, fs) (w, ws) l =
    let sum =
      place value b (from_le bs) (2 ^ (i * 8)) (2 ^ ((i + 1) * 8)) (eightfold i)
      ∙ ap (λ x. value + x * 2 ^ (i * 8)) (sym (from_le-cons b bs)) in
    let below = next-place value b (2 ^ (i * 8)) (2 ^ ((i + 1) * 8)) l w (eightfold i) in
    elim (Bool-cases (b == 0)) [
      | inl h ↦
          let e : value ≡ value + b * 2 ^ (i * 8) = ground (arith, h) in
          let unset : has mask (2 ^ i) ≡ false = f ∙ ap not h in
          rw (h, unset)
            (guid_bytes-nonzero bs mask (i + 1) value rest fs ws (omega (arith, e, below))
              ∙ ap (λ v. ok (v, rest)) (omega (arith, e, sum)))
      | inr h ↦
          let is_set : has mask (2 ^ i) ≡ true = f ∙ ap not h in
          let joined = bit_or-disjoint (i * 8) value b l in
          rw (h, is_set)
            (bind_u8 _ b (nonzero_bytes bs ++ rest)
              ∙ ap (λ v. guid_bytes (length bs) mask (i + 1) v (nonzero_bytes bs ++ rest)) joined
              ∙ guid_bytes-nonzero bs mask (i + 1) (value + b * 2 ^ (i * 8)) rest fs ws below
              ∙ ap (λ v. ok (v, rest)) sum)
    ]

bytes-to_le : (n v : ℕ) → All (λ b. b < 256) (to_le n v)
unfolding to_le
bytes-to_le zero v = tt
bytes-to_le (suc n) v = (omega arith, bytes-to_le n (v / 256))

pub length-to_le : (n v : ℕ) → length (to_le n v) ≡ n
unfolding to_le
length-to_le zero v = refl
length-to_le (suc n) v = ap suc (length-to_le n (v / 256))

pub from_le-to_le : (n v : ℕ) → v < 256 ^ n → from_le (to_le n v) ≡ v
unfolding from_le to_le
from_le-to_le zero v h = omega (arith, h)
from_le-to_le (suc n) v h =
    omega (arith, from_le-to_le n (v / 256) (omega (arith, h, pow.suc 256 n)))

-- Which bytes are not zero.
unfoldable flags : List ℕ → List Bool
flags [] = []
flags (b ∷ bs) = not (b == 0) ∷ flags bs

unfoldable flag_mask : ℕ → ℕ → List Bool → ℕ
flag_mask i mask [] = mask
flag_mask i mask (f ∷ fs) = flag_mask (i + 1) (bit_or mask ((if f then 1 else 0) * 2 ^ i)) fs

mask-flags : (i mask : ℕ) (bs : List ℕ) → guid_mask i mask bs ≡ flag_mask i mask (flags bs)
unfolding guid_mask bit_of flag_mask flags
mask-flags i mask [] = refl
mask-flags i mask (b ∷ bs) = elim (Bool-cases (b == 0)) [
  | inl h ↦ rw h (mask-flags (i + 1) (bit_or mask (0 * 2 ^ i)) bs)
  | inr h ↦ rw h (mask-flags (i + 1) (bit_or mask (1 * 2 ^ i)) bs)
]

unfoldable same_flag : Bool → Bool → Bool
same_flag true b = b
same_flag false b = not b

unfoldable has_flags : ℕ → ℕ → List Bool → Bool
unfolding same_flag
has_flags mask i [] = true
has_flags mask i (f ∷ fs) = same_flag f (has mask (2 ^ i)) && has_flags mask (i + 1) fs

masks_agree : all_lists 8 (λ fs. has_flags (flag_mask 0 0 fs) 0 fs) ≡ true
unfolding all_lists has_flags flag_mask
masks_agree = refl

same_flag-eq : (f b : Bool) → same_flag f b ≡ true → b ≡ f
unfolding same_flag
same_flag-eq true b h = h
same_flag-eq false true h = sym h
same_flag-eq false false h = refl

has_flags-Flagged :
    (mask i : ℕ) (bs : List ℕ) → has_flags mask i (flags bs) ≡ true → Flagged mask i bs
unfolding has_flags flags Flagged
has_flags-Flagged mask i [] h = tt
has_flags-Flagged mask i (b ∷ bs) h = (
  same_flag-eq (not (b == 0)) (has mask (2 ^ i)) (ground (arith, h)),
  has_flags-Flagged mask (i + 1) bs (ground (arith, h)),
)

length-flags : (bs : List ℕ) → length (flags bs) ≡ length bs
unfolding flags
length-flags [] = refl
length-flags (b ∷ bs) = ap suc (length-flags bs)

mask-Flagged : (bs : List ℕ) → length bs ≡ 8 → Flagged (guid_mask 0 0 bs) 0 bs
mask-Flagged bs h = rw (mask-flags 0 0 bs) (
    has_flags-Flagged _ 0 bs (
      all_lists_sound 8 (λ fs. has_flags (flag_mask 0 0 fs) 0 fs) (flags bs) masks_agree
        (length-flags bs ∙ h)))

packed_bytes :
    (bs rest : List ℕ)
    → length bs ≡ 8
    → All (λ b. b < 256) bs
    → packed_guid (guid_mask 0 0 bs ∷ nonzero_bytes bs ++ rest) ≡ ok (guid (from_le bs), rest)
unfolding packed_guid pure ◌>>=◌
packed_bytes bs rest h w =
    let mask = guid_mask 0 0 bs in
    let read : guid_bytes 8 mask 0 0 (nonzero_bytes bs ++ rest)
        ≡ ok (0 + from_le bs * 2 ^ (0 * 8), rest) =
      subst
        (λ n.
          guid_bytes n mask 0 0 (nonzero_bytes bs ++ rest)
          ≡ ok (0 + from_le bs * 2 ^ (0 * 8), rest))
        h (guid_bytes-nonzero bs mask 0 0 rest (mask-Flagged bs h) w (omega arith)) in
    rw (u8-cons mask (nonzero_bytes bs ++ rest), read) (ap (λ g. ok (guid g, rest)) (omega arith))

-- A packed GUID is read back, whatever follows it.
pub packed_guid-pack_guid :
    (g : ℕ) (rest : List ℕ) → g < 2 ^ 64 → packed_guid (pack_guid g ++ rest) ≡ ok (guid g, rest)
unfolding pack_guid
packed_guid-pack_guid g rest h =
    packed_bytes (to_le 8 g) rest (length-to_le 8 g) (bytes-to_le 8 g)
    ∙ ap (λ g. ok (guid g, rest)) (from_le-to_le 8 g h)
