-- ===== src/Decode/Compressed.antt =====
-- SMSG_COMPRESSED_UPDATE_OBJECT in `decode` of src/decode.rs.
use wire_harness.Prelude.{
  ℕ, ◌+◌, ◌-◌, ◌≤◌, ◌≡◌, true, Option, some, Option-cases, inl, inr, List, length, take, drop,
  from_le, ok, arith,
}
use wire_harness.Decode.Field.{Packet}
use wire_harness.Decode.Dispatch.{
  Inflated, update_limit, decode_plain, decode_inflated, decode_compressed, decode,
}
use wire_harness.Decode.Framing.{decode_plain-inv}

module _ (inflate : List ℕ → ℕ → Option Inflated) where
  -- What an accepted compressed update is made of: a size of at most 8 MiB, a stream that inflates
  -- to exactly that many bytes and uses up the body, and an object update in those bytes.
  pub record Accepted (body : List ℕ) (p : Packet) : Type 0 where
    pub stream : Inflated
    pub has_size : 4 ≤ length body
    pub bounded : from_le (take 4 body) ≤ update_limit
    pub inflated : inflate (drop 4 body) (from_le (take 4 body) + 1) ≡ some stream
    pub ended : stream.stream_end ≡ true
    pub exact : length stream.output ≡ from_le (take 4 body)
    pub consumed : stream.total_in ≡ length body - 4
    pub update : decode_plain 0x00a9 stream.output ≡ ok p
    pub opcode : p.opcode ≡ 0x00a9

  update_of :
      (body : List ℕ) (p : Packet) (r : Inflated)
      → decode inflate 0x01f6 body ≡ ok p
      → inflate (drop 4 body) (from_le (take 4 body) + 1) ≡ some r
      → decode_plain 0x00a9 r.output ≡ ok p
  unfolding decode decode_compressed decode_inflated
  update_of body p r h e = ground (arith, e)

  -- `decode` accepts a compressed update only if it carries its size, of at most 8 MiB, inflates to
  -- exactly that many bytes, with the stream ended and all of the body used, and these bytes decode
  -- as an object update; the packet is that update, with the opcode 0x00a9.
  pub decode_compressed-Accepted :
      (body : List ℕ) (p : Packet) → decode inflate 0x01f6 body ≡ ok p → Accepted body p
  unfolding decode decode_compressed decode_inflated
  decode_compressed-Accepted body p h =
      elim (Option-cases (inflate (drop 4 body) (from_le (take 4 body) + 1))) [
        | inl e ↦ absurd (ground (arith, e))
        | inr (r, e) ↦ record {
          stream = r;
          has_size = ground (arith, e);
          bounded = ground (arith, e);
          inflated = e;
          ended = ground (arith, e);
          exact = ground (arith, e);
          consumed = ground (arith, e);
          update = update_of body p r h e;
          opcode = (decode_plain-inv 0x00a9 r.output p (update_of body p r h e)).1;
        }
      ]
