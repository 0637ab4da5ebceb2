-- ===== src/ValuesMask/Reads.antt =====
-- What every method of `Reader` in src/values_mask.rs does with the bytes behind what it reads.
use wire_harness.Prelude.{
  ℕ, zero, suc, ◌+◌, ◌*◌, ◌^◌, ◌<◌, ◌≡◌, Bool, true, false, List, [], ◌∷◌, ◌++◌, All, Option,
  Option-cases, inl, inr, some, length-append, take-append, drop-append, drop, has, bit_or, arith,
  if◌then◌else◌,
}
use mathlib.Core.Path.{subst}
use wire_harness.ValuesMask.{
  Reader, ◌>>=◌, pure, fail, u8, u32, guid_bytes, packed_guid, mask_words, word_fields, mask_fields,
  block_fields, values_object, update_header,
}

abbrev pub IsByte : ℕ → Type 0
IsByte b = b < 256

-- More bytes behind the input change nothing but the rest, and the rest of bytes is bytes.
pub record Reads {A : Type 0} (m : Reader A) : Type 0 where
  pub widen :
      (s : List ℕ) (a : A) (rest more : List ℕ)
      → m s ≡ some (a, rest)
      → m (s ++ more) ≡ some (a, rest ++ more)
  pub bytes :
      (s : List ℕ) (a : A) (rest : List ℕ) → m s ≡ some (a, rest) → All IsByte s → All IsByte rest

some_rest :
    {A : Type 0} {a b : A} {s rest : List ℕ}
    → ◌≡◌ {A = Option (A × List ℕ)} (some (a, s)) (some (b, rest))
    → s ≡ rest
some_rest h = ground arith

some_value :
    {A : Type 0} {a b : A} {s rest : List ℕ}
    → ◌≡◌ {A = Option (A × List ℕ)} (some (a, s)) (some (b, rest))
    → a ≡ b
some_value h = ground arith

module _ {A B : Type 0} where
  Reads-bind :
      (m : Reader A) (f : A → Reader B) → Reads m → ((a : A) → Reads (f a)) → Reads (m >>= f)
  unfolding ◌>>=◌
  Reads-bind m f km kf = record {
    widen = λ s b rest more h. elim (Option-cases (m s)) [
      | inl e ↦ ground (arith, e)
      | inr ((a, r), e) ↦ ground (arith, e, km.widen s a r more e, (kf a).widen r b rest more)
    ];
    bytes = λ s b rest h k. elim (Option-cases (m s)) [
      | inl e ↦ absurd (ground (arith, e))
      | inr ((a, r), e) ↦ (kf a).bytes r b rest (ground (arith, e)) (km.bytes s a r e k)
    ];
  }

-- Whatever `m` returns has the property `P`.
pub record Returns {A : Type 0} (P : A → Type 0) (m : Reader A) : Type 0 where
  pub holds : (s : List ℕ) (a : A) (rest : List ℕ) → m s ≡ some (a, rest) → P a

module _ {A B : Type 0} (Q : A → Type 0) (P : B → Type 0) where
  pub Returns-bind :
      (m : Reader A) (f : A → Reader B)
      → Returns Q m
      → ((a : A) → Q a → Returns P (f a))
      → Returns P (m >>= f)
  unfolding ◌>>=◌
  Returns-bind m f km kf = record {
    holds = λ s b rest h. elim (Option-cases (m s)) [
      | inl e ↦ absurd (ground (arith, e))
      | inr ((a, r), e) ↦ (kf a (km.holds s a r e)).holds r b rest (ground (arith, e))
    ];
  }

module _ {A : Type 0} (P : A → Type 0) where
  pub Returns-pure : (a : A) → P a → Returns P (pure a)
  unfolding pure
  Returns-pure a p = record { holds = λ s b rest h. subst P (some_value h) p }

  pub Returns-if :
      (b : Bool) (m n : Reader A) → Returns P m → Returns P n → Returns P (if b then m else n)
  Returns-if true m n km kn = km
  Returns-if false m n km kn = kn

  pub Returns-fail : Returns P fail
  unfolding fail
  Returns-fail = record { holds = λ s b rest h. absurd (ground arith) }

-- Nothing is known of the value.
pub Returns-any : {A : Type 0} (m : Reader A) → Returns (λ _. Unit {0}) m
Returns-any m = record { holds = λ s a rest h. tt }

module _ {A : Type 0} where
  Reads-pure : (a : A) → Reads (pure a)
  unfolding pure
  Reads-pure a = record {
    widen = λ s b rest more h. ground arith;
    bytes = λ s b rest h k. subst (All IsByte) (some_rest h) k;
  }

  Reads-fail : Reads (fail {A = A})
  unfolding fail
  Reads-fail = record { widen = λ s b rest more h. cc; bytes = λ s b rest h k. cc }

  Reads-if : (b : Bool) (m n : Reader A) → Reads m → Reads n → Reads (if b then m else n)
  Reads-if true m n km kn = km
  Reads-if false m n km kn = kn

u8_widen :
    (s : List ℕ) (a : ℕ) (rest more : List ℕ)
    → u8 s ≡ some (a, rest)
    → u8 (s ++ more) ≡ some (a, rest ++ more)
unfolding u8
u8_widen [] a rest more h = cc
u8_widen (b ∷ s) a rest more h = ground arith

u8_bytes :
    (s : List ℕ) (a : ℕ) (rest : List ℕ) → u8 s ≡ some (a, rest) → All IsByte s → All IsByte rest
unfolding u8
u8_bytes [] a rest h k = cc
u8_bytes (b ∷ s) a rest h k = subst (All IsByte) (some_rest h) k.1

pub Reads-u8 : Reads u8
Reads-u8 = record { widen = u8_widen; bytes = u8_bytes }

All-drop {ℓ κ} : {A : Type ℓ} (P : A → Type κ) (n : ℕ) (xs : List A) → All P xs → All P (drop n xs)
All-drop P zero xs h = h
All-drop P (suc n) [] h = h
All-drop P (suc n) (x ∷ xs) h = All-drop P n xs h.1

u32-rest : (s : List ℕ) (a : ℕ) (rest : List ℕ) → u32 s ≡ some (a, rest) → drop 4 s ≡ rest
unfolding u32
u32-rest s a rest h = ground arith

Reads-u32 : Reads u32
unfolding u32
Reads-u32 = record {
  widen = λ s a rest more h.
      ground (arith, length-append s more, take-append 4 s more, drop-append 4 s more);
  bytes = λ s a rest h k. subst (All IsByte) (u32-rest s a rest h) (All-drop IsByte 4 s k);
}

ruleset reads_rules = (Reads-bind, Reads-pure, Reads-fail, Reads-if, Reads-u8, Reads-u32)

Reads-guid_bytes : (n mask i guid : ℕ) → Reads (guid_bytes n mask i guid)
unfolding guid_bytes
Reads-guid_bytes zero mask i guid = Reads-pure guid
Reads-guid_bytes (suc n) mask i guid =
    Reads-if (has mask (2 ^ i)) _ _
      (Reads-bind u8 _ Reads-u8
        (λ b. Reads-guid_bytes n mask (i + 1) (bit_or guid (b * 2 ^ (8 * i)))))
      (Reads-guid_bytes n mask (i + 1) guid)

pub Reads-packed_guid : Reads packed_guid
unfolding packed_guid
Reads-packed_guid = search (reads_rules, Reads-guid_bytes)

pub Reads-mask_words : (n : ℕ) → Reads (mask_words n)
unfolding mask_words
Reads-mask_words zero = Reads-pure []
Reads-mask_words (suc n) =
    Reads-bind u32 _ Reads-u32
      (λ w. Reads-bind _ _ (Reads-mask_words n) (λ ws. Reads-pure (w ∷ ws)))

Reads-word_fields :
    (n block word bit : ℕ) (fields : List (ℕ × ℕ)) → Reads (word_fields n block word bit fields)
unfolding word_fields
Reads-word_fields zero block word bit fields = Reads-pure fields
Reads-word_fields (suc n) block word bit fields =
    Reads-if (has word (2 ^ bit)) _ _
      (Reads-bind u32 _ Reads-u32
        (λ v. Reads-word_fields n block word (bit + 1) (fields ++ (block * 32 + bit, v) ∷ [])))
      (Reads-word_fields n block word (bit + 1) fields)

Reads-mask_fields :
    (mask : List ℕ) (block : ℕ) (fields : List (ℕ × ℕ)) → Reads (mask_fields mask block fields)
unfolding mask_fields
Reads-mask_fields [] block fields = Reads-pure fields
Reads-mask_fields (word ∷ mask) block fields =
    Reads-bind _ _ (Reads-word_fields 32 block word 0 fields)
      (λ fields'. Reads-mask_fields mask (block + 1) fields')

pub Reads-block_fields : Reads block_fields
unfolding block_fields
Reads-block_fields = search (reads_rules, Reads-mask_words, Reads-mask_fields)

pub Reads-values_object : Reads values_object
unfolding values_object
Reads-values_object = search (reads_rules, Reads-packed_guid, Reads-block_fields) depth 9

pub Reads-update_header : Reads update_header
unfolding update_header
Reads-update_header = search reads_rules
