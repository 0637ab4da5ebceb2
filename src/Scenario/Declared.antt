-- ===== src/Scenario/Declared.antt =====
-- What a step of src/scenario.rs declares about an opcode, said without the code's own lookups.
use wire_harness.Prelude.{
  ℕ, ◌≡◌, ◌≢◌, true, false, ◌==◌, List, [], ◌∷◌, String, Option, none, some, Bool-cases, inl, inr,
  arith,
}
use mathlib.Core.List.{Memᴰ}
use mathlib.Core.List.Memᴰ
use package.text.Mathlib.Text.{◌==◌ as str_eq}
use package.text.Mathlib.TextEquality.{eq_iff}
use wire_harness.Trace.Packets
use wire_harness.Trace.Packets.{Stream}
use wire_harness.Scenario.Steps.{
  Step, Broadcast, CharacterCheckpoint, has_opcode, find_broadcast, broadcast_or_unexpected,
  character_stream, stream, find_character, for_character, stream_or, declared_stream,
}

-- The first broadcast of an opcode, or none.
pub data FirstBroadcast (opcode : ℕ) : List Broadcast → Option Broadcast → Type 0 where
  nowhere : FirstBroadcast opcode [] none
  here :
      {b : Broadcast} {bs : List Broadcast}
      → b.opcode ≡ opcode
      → FirstBroadcast opcode (b ∷ bs) (some b)
  behind :
      {b : Broadcast} {bs : List Broadcast} {o : Option Broadcast}
      → b.opcode ≢ opcode
      → FirstBroadcast opcode bs o
      → FirstBroadcast opcode (b ∷ bs) o

-- The first capture of a Character, or none.
pub data FirstCapture (id : String)
    : List CharacterCheckpoint → Option CharacterCheckpoint → Type 0 where
  nobody : FirstCapture id [] none
  named :
      {c : CharacterCheckpoint} {cs : List CharacterCheckpoint}
      → c.character ≡ id
      → FirstCapture id (c ∷ cs) (some c)
  another :
      {c : CharacterCheckpoint} {cs : List CharacterCheckpoint} {o : Option CharacterCheckpoint}
      → c.character ≢ id
      → FirstCapture id cs o
      → FirstCapture id (c ∷ cs) o

-- What a capture with these replies and broadcasts declares about an opcode: one of the replies is a
-- reply to the step, another opcode goes to the stream of its first broadcast, and what is in
-- neither is unexpected.
pub data Declares (replies : List ℕ) (broadcasts : List Broadcast) (step : String) (opcode : ℕ)
    : Stream → Type 0 where
  as_reply : Memᴰ opcode replies → Declares replies broadcasts step opcode (Packets.reply step)
  as_broadcast :
      {b : Broadcast}
      → ¬ Memᴰ opcode replies
      → FirstBroadcast opcode broadcasts (some b)
      → Declares replies broadcasts step opcode (Packets.broadcast b.stream)
  as_nothing :
      ¬ Memᴰ opcode replies
      → FirstBroadcast opcode broadcasts none
      → Declares replies broadcasts step opcode Packets.unexpected

-- The capture that counts: that of the Character, or the checkpoint's own.
unfoldable pub CaptureDeclares : Step → Option CharacterCheckpoint → ℕ → Stream → Type 0
CaptureDeclares step none opcode s =
    Declares step.checkpoint.replies step.checkpoint.broadcasts step.id opcode s
CaptureDeclares step (some c) opcode s = Declares c.replies c.broadcasts step.id opcode s

unfoldable pub StepDeclares : Step → Option String → ℕ → Stream → Type 0
unfolding CaptureDeclares
StepDeclares step none opcode s = CaptureDeclares step none opcode s
StepDeclares step (some id) opcode s =
    (o : Option CharacterCheckpoint) × (FirstCapture id step.checkpoint.characters o
      × CaptureDeclares step o opcode s)

reply-member : (n : ℕ) (ns : List ℕ) → has_opcode n ns ≡ true → Memᴰ n ns
unfolding has_opcode
reply-member n [] h = absurd (ground (arith, h))
reply-member n (m ∷ ms) h = elim (Bool-cases (m == n)) [
  | inl e ↦ Memᴰ.head (ground (arith, e))
  | inr e ↦ Memᴰ.tail (reply-member n ms (ground (arith, h, e)))
]

reply-absent : (n : ℕ) (ns : List ℕ) → has_opcode n ns ≡ false → ¬ Memᴰ n ns
unfolding has_opcode
reply-absent n [] h m = Memᴰ.not-nil m
reply-absent n (k ∷ ks) h m = elim (Memᴰ.cases_cons m) [
  | inl e ↦ absurd (ground (arith, h, e))
  | inr q ↦ reply-absent n ks (ground (arith, h)) q
]

find-FirstBroadcast : (n : ℕ) (bs : List Broadcast) → FirstBroadcast n bs (find_broadcast n bs)
unfolding find_broadcast
find-FirstBroadcast n [] = nowhere
find-FirstBroadcast n (b ∷ bs) = elim (Bool-cases (b.opcode == n)) [
  | inl e ↦ rw e (here (ground (arith, e)))
  | inr e ↦ rw e (behind (λ q. absurd (ground (arith, e, q))) (find-FirstBroadcast n bs))
]

find-FirstCapture :
    (id : String) (cs : List CharacterCheckpoint) → FirstCapture id cs (find_character id cs)
unfolding find_character
find-FirstCapture id [] = nobody
find-FirstCapture id (c ∷ cs) = elim (Bool-cases (str_eq c.character id)) [
  | inl e ↦ rw e (named (ground (arith, e, eq_iff c.character id)))
  | inr e ↦ rw e (
      another (λ q. absurd (ground (arith, e, q, eq_iff c.character id))) (find-FirstCapture id cs))
]

broadcast-Declares :
    (replies : List ℕ) (broadcasts : List Broadcast) (id : String) (n : ℕ) (o : Option Broadcast)
    → ¬ Memᴰ n replies
    → FirstBroadcast n broadcasts o
    → Declares replies broadcasts id n (broadcast_or_unexpected o)
unfolding broadcast_or_unexpected
broadcast-Declares replies broadcasts id n none h f = as_nothing h f
broadcast-Declares replies broadcasts id n (some b) h f = as_broadcast h f

stream_or-CaptureDeclares :
    (step : Step) (o : Option CharacterCheckpoint) (n : ℕ)
    → CaptureDeclares step o n (stream_or o step.checkpoint step.id n)
unfolding CaptureDeclares stream_or stream character_stream
stream_or-CaptureDeclares step none n = elim (Bool-cases (has_opcode n step.checkpoint.replies)) [
  | inl e ↦ rw e (as_reply (reply-member n _ e))
  | inr e ↦ rw e (
      broadcast-Declares _ _ step.id n _ (reply-absent n _ e)
        (find-FirstBroadcast n step.checkpoint.broadcasts))
]
stream_or-CaptureDeclares step (some c) n = elim (Bool-cases (has_opcode n c.replies)) [
  | inl e ↦ rw e (as_reply (reply-member n _ e))
  | inr e ↦
      rw e (
        broadcast-Declares _ _ step.id n _ (reply-absent n _ e)
          (find-FirstBroadcast n c.broadcasts))
]

pub declared-StepDeclares :
    (step : Step) (character : Option String) (n : ℕ)
    → StepDeclares step character n (declared_stream step character n)
unfolding StepDeclares declared_stream for_character
declared-StepDeclares step none n = stream_or-CaptureDeclares step none n
declared-StepDeclares step (some id) n = (
  find_character id step.checkpoint.characters,
  (
    find-FirstCapture id step.checkpoint.characters,
    stream_or-CaptureDeclares step (find_character id step.checkpoint.characters) n,
  ),
)
