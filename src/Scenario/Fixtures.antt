-- ===== src/Scenario/Fixtures.antt =====
-- The fixtures of a Character in src/scenario.rs, and `validate_fixtures`.
use wire_harness.Prelude.{
  ℕ, suc, ◌+◌, ◌%◌, ◌^◌, Bool, true, false, ◌&&◌, ◌||◌, not, leb, ◌==◌, List, [], ◌∷◌, ◌++◌, String,
  length, Result, ok, err, ensure, ◌>>=◌, ◌>>◌,
}
use package.text.Mathlib.Text.{◌==◌ as str_eq}
use Prim.Native.String.{len}
use Prim.Native.Char.{Char, code}
use wire_harness.Decode.Body.{is_finite}
use wire_harness.Trace.Recorded.{identifier, all_chars}
use wire_harness.Scenario.Steps.{Position}

pub data QuestState : Type 0 where
  incomplete complete : QuestState

pub data FixtureVerb : Type 0 where
  character : (name race class : String) → (level : ℕ) → (at : Position) → FixtureVerb
  money : (copper : ℕ) → FixtureVerb
  item : (id : String) → (entry count : ℕ) → FixtureVerb
  spell : (spell_id : ℕ) → FixtureVerb
  quest : (entry : ℕ) → QuestState → FixtureVerb
  known_flight_node : (node_id : ℕ) → FixtureVerb
  creature : (id : String) → (entry : ℕ) → (offset : ℕ) → FixtureVerb

pub data Error : Type 0 where
  one_character character_first character_again name race class level coordinates : Error
  spell_fixture fixture_id item_fixture quest_fixture money_fixture flight_node creature_id
        creature_fixture :
      Error

unfoldable pub has_text : String → List String → Bool
has_text s [] = false
has_text s (t ∷ ts) = str_eq t s || has_text s ts

unfoldable pub has_number : ℕ → List ℕ → Bool
has_number n [] = false
has_number n (m ∷ ms) = m == n || has_number n ms

unfoldable pub characters : List FixtureVerb → ℕ
characters [] = 0
characters (character n r c l a ∷ fs) = suc (characters fs)
characters (f ∷ fs) = characters fs

abbrev pub is_upper : Char → Bool
is_upper c = leb 65 (code c) && leb (code c) 90

abbrev pub is_lower : Char → Bool
is_lower c = leb 97 (code c) && leb (code c) 122

-- Only the first letter is a capital; a byte above ASCII is none.
unfoldable pub is_capitalized : String → Bool
unfolding all_chars
is_capitalized String.[] = false
is_capitalized (String.◌∷◌ c s) = is_upper c && all_chars is_lower s

-- `offset.abs() <= 100.0` on the pattern of a finite f32: without the sign, patterns are in the order
-- of the numbers.
unfoldable pub is_near : ℕ → Bool
is_near offset = leb (offset % 2 ^ 31) 0x42c80000

-- The sets of `validate_fixtures`. A `BTreeSet` is a list of its members without a repetition, whose
-- order stands for nothing: the sets are only inserted into and asked for a member.
pub record Seen : Type 0 where
  pub fixture_ids : List String
  pub nodes : List ℕ
  pub money_set : Bool
  pub quests : List ℕ
  pub spells : List ℕ
  pub items : List ℕ
  pub binding_ids : List String

-- The body of the loop over the fixtures behind the first.
unfoldable pub enter_fixture : FixtureVerb → Seen → Result Error Seen
unfolding has_text has_number identifier is_finite is_near
enter_fixture (character n r c l a) s = err character_again
enter_fixture (spell id) s = do
  ensure (leb 1 id && leb id 65535 && not (has_number id s.spells)) spell_fixture
  ok (record s { spells = s.spells ++ id ∷ [] })
enter_fixture (item id entry count) s = do
  ensure (identifier id && not (has_text id s.binding_ids)) fixture_id
  ensure (not (entry == 0) && (leb 1 count && leb count 255) && not (has_number entry s.items))
      item_fixture
  ok (record s { binding_ids = s.binding_ids ++ id ∷ []; items = s.items ++ entry ∷ [] })
enter_fixture (quest entry state) s = do
  ensure (not (entry == 0) && not (has_number entry s.quests) && leb (length s.quests + 1) 20)
      quest_fixture
  ok (record s { quests = s.quests ++ entry ∷ [] })
enter_fixture (money copper) s = do
  ensure (not s.money_set && leb copper 0x7fffffff) money_fixture
  ok (record s { money_set = true })
enter_fixture (known_flight_node id) s = do
  ensure (leb 1 id && leb id 256 && not (has_number id s.nodes)) flight_node
  ok (record s { nodes = s.nodes ++ id ∷ [] })
enter_fixture (creature id entry offset) s = do
  ensure (identifier id && not (has_text id s.binding_ids) && not (has_text id s.fixture_ids))
      creature_id
  ensure (not (entry == 0) && is_finite offset && is_near offset) creature_fixture
  ok (record s { binding_ids = s.binding_ids ++ id ∷ []; fixture_ids = s.fixture_ids ++ id ∷ [] })

unfoldable pub enter_fixtures : List FixtureVerb → Seen → Result Error Seen
unfolding enter_fixture
enter_fixtures [] s = ok s
enter_fixtures (f ∷ fs) s = do next ← enter_fixture f s; enter_fixtures fs next

abbrev pub nothing_seen : Seen
nothing_seen = record {
  fixture_ids = [];
  nodes = [];
  money_set = false;
  quests = [];
  spells = [];
  items = [];
  binding_ids = [];
}

abbrev pub races : List String
races = "human" ∷ "orc" ∷ "dwarf" ∷ "nightelf" ∷ "undead" ∷ "tauren" ∷ "gnome" ∷ "troll" ∷ []

abbrev pub classes : List String
classes =
    "warrior" ∷ "paladin" ∷ "hunter" ∷ "rogue" ∷ "priest" ∷ "shaman" ∷ "mage" ∷ "warlock" ∷ "druid"
    ∷ []

-- The checks on the first fixture.
unfoldable pub check_character : FixtureVerb → Result Error (Unit {0})
unfolding is_capitalized has_text is_finite
check_character (character n r c l a) = do
  ensure (leb 2 (len n) && leb (len n) 12 && is_capitalized n) name
  ensure (has_text r races) race
  ensure (has_text c classes) class
  ensure (leb 1 l && leb l 60) level
  ensure (is_finite a.x && is_finite a.y && is_finite a.z && is_finite a.orientation) coordinates
check_character f = err character_first

-- `validate_fixtures`: the set of the creatures' ids, and that of the known flight nodes. The order of
-- either list stands for nothing.
unfoldable pub validate_fixtures : List FixtureVerb → Result Error (List String × List ℕ)
unfolding characters check_character enter_fixtures
validate_fixtures [] = err one_character
validate_fixtures (f ∷ fs) = do
  ensure (leb (length (f ∷ fs)) 256 && characters (f ∷ fs) == 1) one_character
  check_character f
  s ← enter_fixtures fs nothing_seen
  ok (s.fixture_ids, s.nodes)
