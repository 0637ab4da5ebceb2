-- ===== src/Trace/Opening.antt =====
-- The order of the packets and the characters of a trace that src/trace.rs accepts.
use wire_harness.Prelude.{
  ℕ, ◌≤◌, ◌≡◌, refl, sym, ap, ◌∙◌, Bool, true, false, ◌||◌, not, ◌==◌, List, [], ◌∷◌, ◌++◌, All,
  String, length, ok, Result-cases, Bool-cases, inl, inr, arith,
}
use mathlib.Core.Path.{subst}
use package.text.Mathlib.Text.{◌==◌ as str_eq}
use wire_harness.Trace.Packets.{
  Header, RecordedPacket, Trace, is_opening, member, to_set, guids, validate_characters,
  validate_order, validate_packet, validate_packets, validate_trace,
}

-- A packet of the opening, and one of a step. With schema 4 a step may reopen the stream.
unfoldable pub Opens : RecordedPacket → Type 0
Opens p = (str_eq p.checkpoint "opening" ≡ true) × (is_opening p.stream ≡ true)

unfoldable pub Follows : Header → RecordedPacket → Type 0
Follows h p =
    (str_eq p.checkpoint "opening" ≡ false)
    × ((not (is_opening p.stream) || h.schema_version == 4) ≡ true)

pub record Prefixed (h : Header) (packets : List RecordedPacket) : Type 0 where
  pub before : List RecordedPacket
  pub after : List RecordedPacket
  pub splits : packets ≡ before ++ after
  pub opens : All Opens before
  pub follows : All (Follows h) after

validate_packet-order :
    (h : Header) (started b : Bool) (p : RecordedPacket)
    → validate_packet h started p ≡ ok b
    → validate_order h started p ≡ ok b
unfolding validate_packet
validate_packet-order h started b p e = ground arith

order-started :
    (h : Header) (b : Bool) (p : RecordedPacket)
    → validate_order h true p ≡ ok b
    → Follows h p × (b ≡ true)
unfolding validate_order Follows
order-started h b p e = ground arith

order-fresh : (h : Header) (p : RecordedPacket) → validate_order h false p ≡ ok false → Opens p
unfolding validate_order Opens
order-fresh h p e = ground arith

order-first : (h : Header) (p : RecordedPacket) → validate_order h false p ≡ ok true → Follows h p
unfolding validate_order Follows
order-first h p e = ground arith

packets-cons :
    (h : Header) (started : Bool) (p : RecordedPacket) (ps : List RecordedPacket)
    → validate_packets h started (p ∷ ps) ≡ ok tt
    → (b : Bool) × (validate_order h started p ≡ ok b) × (validate_packets h b ps ≡ ok tt)
unfolding validate_packets
packets-cons h started p ps e = elim (Result-cases (validate_packet h started p)) [
  | inl (b, i) ↦ (b, validate_packet-order h started b p i, ground (arith, i))
  | inr (x, i) ↦ absurd (ground (arith, i))
]

started-Follows :
    (h : Header) (ps : List RecordedPacket)
    → validate_packets h true ps ≡ ok tt
    → All (Follows h) ps
started-Follows h [] e = tt
started-Follows h (p ∷ ps) e =
    let (b, order, rest) = packets-cons h true p ps e in
    let (here, same) = order-started h b p order in
    (here, started-Follows h ps (subst (λ k. validate_packets h k ps ≡ ok tt) same rest))

Prefixed-cons :
    (h : Header) (p : RecordedPacket) (ps : List RecordedPacket) (b : Bool)
    → validate_order h false p ≡ ok b
    → validate_packets h b ps ≡ ok tt
    → (validate_packets h false ps ≡ ok tt → Prefixed h ps)
    → Prefixed h (p ∷ ps)
Prefixed-cons h p ps false order rest later =
    let more = later rest in
    record {
      before = p ∷ more.before;
      after = more.after;
      splits = ap (λ xs. p ∷ xs) more.splits;
      opens = (order-fresh h p order, more.opens);
      follows = more.follows;
    }
Prefixed-cons h p ps true order rest later = record {
  before = [];
  after = p ∷ ps;
  splits = refl;
  opens = tt;
  follows = (order-first h p order, started-Follows h ps rest);
}

packets-Prefixed :
    (h : Header) (ps : List RecordedPacket) → validate_packets h false ps ≡ ok tt → Prefixed h ps
packets-Prefixed h [] e = record {
  before = [];
  after = [];
  splits = refl;
  opens = tt;
  follows = tt;
}
packets-Prefixed h (p ∷ ps) e =
    let (b, order, rest) = packets-cons h false p ps e in
    Prefixed-cons h p ps b order rest (packets-Prefixed h ps)

-- The packets of a trace that `Trace::validate` accepts are those of the opening, with checkpoint
-- `opening` on the opening stream, and then those of the steps, none of which has that checkpoint, or
-- is on the opening stream unless the schema is 4.
pub validate_trace-Prefixed : (t : Trace) → validate_trace t ≡ ok tt → Prefixed t.header t.packets
unfolding validate_trace
validate_trace-Prefixed t e = packets-Prefixed t.header t.packets (ground arith)

-- No number stands in the list twice.
unfoldable pub Distinct : List ℕ → Type 0
Distinct [] = Unit
Distinct (n ∷ ns) = (member n ns ≡ false) × Distinct ns

member-to_set : (n : ℕ) (ns : List ℕ) → member n (to_set ns) ≡ member n ns
unfolding member to_set
member-to_set n [] = refl
member-to_set n (m ∷ ns) = elim (Bool-cases (member m (to_set ns))) [
  | inl e ↦ ground (arith, e, member-to_set n ns)
  | inr e ↦ ground (arith, e, member-to_set n ns)
]

to_set-length : (ns : List ℕ) → length (to_set ns) ≤ length ns
unfolding to_set
to_set-length [] = omega arith
to_set-length (n ∷ ns) = ground (arith, to_set-length ns)

full-Distinct : (ns : List ℕ) → length (to_set ns) ≡ length ns → Distinct ns
unfolding to_set Distinct
full-Distinct [] e = tt
full-Distinct (n ∷ ns) e = elim (Bool-cases (member n (to_set ns))) [
  | inl i ↦ absurd (ground (arith, i, to_set-length ns))
  | inr i ↦ (sym (member-to_set n ns) ∙ i, full-Distinct ns (ground (arith, i)))
]

length-guids : (cs : List (String × ℕ)) → length (guids cs) ≡ length cs
unfolding guids
length-guids [] = refl
length-guids (c ∷ cs) = omega (arith, length-guids cs)

characters-full :
    (h : Header)
    → validate_characters h ≡ ok tt
    → h.schema_version ≡ 4
    → length (to_set (guids h.characters)) ≡ length h.characters
unfolding validate_characters
characters-full h e v = ground arith

-- The characters of a trace of schema 4 that `Trace::validate` accepts have GUIDs that differ.
pub validate_trace-Distinct :
    (t : Trace)
    → validate_trace t ≡ ok tt
    → t.header.schema_version ≡ 4
    → Distinct (guids t.header.characters)
unfolding validate_trace
validate_trace-Distinct t e v =
    full-Distinct (guids t.header.characters)
      (characters-full t.header (ground arith) v ∙ sym (length-guids t.header.characters))
