-- ===== src/Tests/ScenarioRuns.antt =====
-- Packets of src/scenario.rs at a creature and at a named Character.
use wire_harness.Prelude.{
  ℕ, ◌≡◌, refl, true, false, ◌==◌, arith, [], ◌∷◌, List, Option, none, some, ok, String,
}
use wire_harness.Decode.Field.{guid}
use wire_harness.Scenario.Packets.{
  Target, ClientPacket, Guids, cast_spell, buy_item, bind_target, encode_with, to_le,
}
use wire_harness.Scenario.Packets
use wire_harness.Trace.Recorded.{identifier}
use wire_harness.Scenario.Connections.{Connected, is_connected, enter_steps}
use wire_harness.Scenario.Steps.{
  SessionAction, connect, disconnect, walk, TimedEvent, Checkpoint, Step,
}
use wire_harness.Scenario.Sessions.{
  session, step_acts, connects, disconnects, acts, enter_steps-session,
}
use wire_harness.Scenario.Observations.{from_frame_for_rules}
use wire_harness.Scenario.Classified.{Classified}
use wire_harness.Decode.Dispatch.{Inflated}
use wire_harness.Trace.Packets.{unexpected}
use wire_harness.Scenario.Fixtures.{
  FixtureVerb, character, creature, quest, complete, known_flight_node, validate_fixtures,
}
use wire_harness.Scenario.Entered.{Accepted, validate_fixtures-Accepted}
use wire_harness.Scenario.Bound.{
  read_cast, Addressed, GuidOf, encode_with-cast, encode_with-Addressed,
}

abbrev fixtures : Guids
fixtures = ("dummy", 0xf130000000000102) ∷ []

abbrev characters : Guids
characters = ("viewer", 9) ∷ []

encode_with-cast_example :
    (body : List ℕ) × ((encode_with 7 fixtures characters
          (cast_spell (some (Packets.fixture "dummy")) 133)
        ≡ ok (0x012e, body))
      × (read_cast body ≡ ok ((133, 2, guid 0xf130000000000102), [])))
unfolding bind_target
encode_with-cast_example =
    encode_with-cast 7 fixtures characters (Packets.fixture "dummy") 133 0xf130000000000102 refl
      refl (omega arith) (omega arith)

abbrev purchase : ClientPacket
purchase = buy_item (Packets.named_character "viewer") 117 1

abbrev sent : ℕ × List ℕ
sent = (0x01a2, 9 ∷ 0 ∷ 0 ∷ 0 ∷ 0 ∷ 0 ∷ 0 ∷ 0 ∷ 117 ∷ 0 ∷ 0 ∷ 0 ∷ 1 ∷ 0 ∷ [])

encode_with-Addressed_example :
    (g : ℕ) × (GuidOf 7 fixtures characters (Packets.named_character "viewer") g
      × (((g == 0) ≡ false) × Addressed purchase g (ok sent)))
unfolding encode_with Packets.target
encode_with-Addressed_example =
    encode_with-Addressed 7 fixtures characters purchase (Packets.named_character "viewer") sent
      refl refl

abbrev checkpoint : Checkpoint
checkpoint = record {
  expect = [];
  window_ms = 5000;
  replies = 0x01a4 ∷ [];
  broadcasts = record { opcode = 0x00a9; stream = "objects" } ∷ [];
  characters = [];
}

abbrev stop : String → List TimedEvent → Option ClientPacket → Option SessionAction → String → Step
stop actor events send action id = record {
  id = id;
  character = some actor;
  send = send;
  action = action;
  events = events;
  checkpoint = checkpoint;
}

-- The viewer leaves, comes back while the buyer sends, and walks.
abbrev steps : List Step
steps =
    stop "viewer" [] none (some disconnect) "leave"
    ∷ stop "buyer" (record { after_ms = 200; character = "viewer"; action = connect } ∷ [])
        (some purchase) none "buy"
    ∷ stop "viewer" [] none
        (some (walk (record { map = 0; x = 0; y = 0; z = 0; orientation = 0 }) 1)) "walk"
    ∷ []

abbrev present : Connected
present = ("buyer", true) ∷ ("viewer", true) ∷ []

enter_steps-session_example :
    session true (step_acts steps "viewer") ≡ is_connected "viewer" present
unfolding enter_steps identifier
enter_steps-session_example =
    enter_steps-session ("buyer" ∷ "viewer" ∷ []) [] steps present present "viewer" true refl refl

viewer_acts : step_acts steps "viewer" ≡ disconnects ∷ connects ∷ acts ∷ []
unfolding step_acts
viewer_acts = refl

-- No stream is inflated.
abbrev no_inflate : List ℕ → ℕ → Option Inflated
no_inflate input capacity = none

abbrev buying : Step
buying = stop "buyer" [] (some purchase) none "buy"

-- An opcode that the step does not declare is kept without its body.
undeclared :
    (from_frame_for_rules no_inflate buying (some "buyer") 0x0096 (1 ∷ []) []).stream ≡ unexpected
unfolding from_frame_for_rules
undeclared = refl

-- A Character that knows two flight nodes, with a creature and a quest.
abbrev hero : FixtureVerb
hero = character "Ada" "gnome" "mage" 60 (record { map = 0; x = 0; y = 0; z = 0; orientation = 0 })

abbrev outfit : List FixtureVerb
outfit =
    known_flight_node 2 ∷ creature "dummy" 32666 0 ∷ quest 11 complete ∷ known_flight_node 4 ∷ []

validate_fixtures-Accepted_example : Accepted outfit ("dummy" ∷ [], 2 ∷ 4 ∷ [])
unfolding validate_fixtures identifier
validate_fixtures-Accepted_example =
    validate_fixtures-Accepted hero outfit ("dummy" ∷ [], 2 ∷ 4 ∷ []) refl
