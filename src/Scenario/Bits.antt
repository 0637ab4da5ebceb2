-- ===== src/Scenario/Bits.antt =====
-- Bits that do not overlap, as the masks and words of src/scenario.rs have them.
use wire_harness.Prelude.{
  ℕ, zero, suc, ◌+◌, ◌*◌, ◌/◌, ◌^◌, ◌≤◌, ◌<◌, ◌≡◌, ◌∙◌, max, bit_or, Bool, true, false, ◌&&◌, List,
  [], ◌∷◌, length, arith,
}
use Prim.Native.Nat.{digits, bit_or-bitwise}
use Prim.Native.Nat.pow

twice : (b k : ℕ) → b * 2 ^ suc k ≡ 2 * (b * 2 ^ k)
twice b k = grind (arith, pow.suc 2 k)

digits-disjoint :
    (n k v b : ℕ) → v ≤ n → v < 2 ^ k → digits (λ x. x) max n v (b * 2 ^ k) ≡ v + b * 2 ^ k
digits-disjoint zero k zero b h l = omega arith
digits-disjoint zero k (suc v) b h l = absurd (omega arith)
digits-disjoint (suc n) k zero b h l = omega arith
digits-disjoint (suc n) zero (suc v) b h l = absurd (omega (arith, l))
digits-disjoint (suc n) (suc k) (suc v) b h l =
    let half : b * 2 ^ suc k / 2 ≡ b * 2 ^ k = omega (arith, twice b k) in
    rw half omega (
      arith,
      twice b k,
      digits-disjoint n k (suc v / 2) b (omega arith) (omega (arith, l, pow.suc 2 k)),
    )

-- Bits below a shifted word are added to it.
pub bit_or-disjoint : (k v b : ℕ) → v < 2 ^ k → bit_or v (b * 2 ^ k) ≡ v + b * 2 ^ k
bit_or-disjoint k v b h = bit_or-bitwise v (b * 2 ^ k) ∙ digits-disjoint v k v b (omega arith) h

-- A test that holds of all lists of `n` Booleans, by trying them all.
unfoldable pub all_lists : ℕ → (List Bool → Bool) → Bool
all_lists zero p = p []
all_lists (suc n) p = all_lists n (λ bs. p (true ∷ bs)) && all_lists n (λ bs. p (false ∷ bs))

pub all_lists_sound :
    (n : ℕ) (p : List Bool → Bool) (bs : List Bool)
    → all_lists n p ≡ true
    → length bs ≡ n
    → p bs ≡ true
unfolding all_lists
all_lists_sound zero p [] h l = h
all_lists_sound zero p (b ∷ bs) h l = absurd (omega (arith, l))
all_lists_sound (suc n) p [] h l = absurd (omega (arith, l))
all_lists_sound (suc n) p (true ∷ bs) h l =
    all_lists_sound n (λ bs. p (true ∷ bs)) bs (ground (arith, h)) (omega (arith, l))
all_lists_sound (suc n) p (false ∷ bs) h l =
    all_lists_sound n (λ bs. p (false ∷ bs)) bs (ground (arith, h)) (omega (arith, l))
