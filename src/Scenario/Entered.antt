-- ===== src/Scenario/Entered.antt =====
-- What the fixtures are that `validate_fixtures` of src/scenario.rs accepts.
use wire_harness.Prelude.{
  ℕ, ◌+◌, ◌≤◌, ◌≡◌, refl, sym, ap, ◌∙◌, ◌&&◌, not, leb, ◌==◌, List, [], ◌∷◌, ◌++◌, String, length,
  length-append, ok, Gives, Gives-bind, Gives-then, Gives-any, arith,
}
use mathlib.Core.Path.{subst}
use mathlib.Core.List.{append-nil, append_assoc}
use wire_harness.Decode.Body.{is_finite}
use wire_harness.Trace.Recorded.{identifier}
use wire_harness.Scenario.Fixtures.{
  FixtureVerb, character, money, item, spell, quest, known_flight_node, creature, Error, has_text,
  has_number, characters, is_near, Seen, enter_fixture, enter_fixtures, nothing_seen,
  check_character, validate_fixtures,
}
use wire_harness.Scenario.Fixtures
use wire_harness.Scenario.Members.{
  Distinct, SameMembers, Distinct-append, absent-text, absent-number, SameMembers-eq,
}

unfoldable pub creature_ids : List FixtureVerb → List String
creature_ids [] = []
creature_ids (creature id e o ∷ fs) = id ∷ creature_ids fs
creature_ids (f ∷ fs) = creature_ids fs

unfoldable pub node_ids : List FixtureVerb → List ℕ
node_ids [] = []
node_ids (known_flight_node id ∷ fs) = id ∷ node_ids fs
node_ids (f ∷ fs) = node_ids fs

unfoldable pub quest_entries : List FixtureVerb → List ℕ
quest_entries [] = []
quest_entries (quest e state ∷ fs) = e ∷ quest_entries fs
quest_entries (f ∷ fs) = quest_entries fs

-- The names that items and creatures are bound to.
unfoldable pub bound_names : List FixtureVerb → List String
bound_names [] = []
bound_names (item id e n ∷ fs) = id ∷ bound_names fs
bound_names (creature id e o ∷ fs) = id ∷ bound_names fs
bound_names (f ∷ fs) = bound_names fs

-- What has been seen is of the fixtures so far, distinct, and within bounds.
record Sound (fs : List FixtureVerb) (s : Seen) : Type 0 where
  ids : s.fixture_ids ≡ creature_ids fs
  nodes : s.nodes ≡ node_ids fs
  quests : s.quests ≡ quest_entries fs
  names : s.binding_ids ≡ bound_names fs
  distinct_names : Distinct s.binding_ids
  distinct_nodes : Distinct s.nodes
  few_quests : length s.quests ≤ 20

creature_ids-append :
    (fs gs : List FixtureVerb) → creature_ids (fs ++ gs) ≡ creature_ids fs ++ creature_ids gs
unfolding creature_ids
creature_ids-append [] gs = refl
creature_ids-append (creature id e o ∷ fs) gs = ap (λ l. id ∷ l) (creature_ids-append fs gs)
creature_ids-append (f ∷ fs) gs = creature_ids-append fs gs

node_ids-append : (fs gs : List FixtureVerb) → node_ids (fs ++ gs) ≡ node_ids fs ++ node_ids gs
unfolding node_ids
node_ids-append [] gs = refl
node_ids-append (known_flight_node id ∷ fs) gs = ap (λ l. id ∷ l) (node_ids-append fs gs)
node_ids-append (f ∷ fs) gs = node_ids-append fs gs

quest_entries-append :
    (fs gs : List FixtureVerb) → quest_entries (fs ++ gs) ≡ quest_entries fs ++ quest_entries gs
unfolding quest_entries
quest_entries-append [] gs = refl
quest_entries-append (quest e state ∷ fs) gs = ap (λ l. e ∷ l) (quest_entries-append fs gs)
quest_entries-append (f ∷ fs) gs = quest_entries-append fs gs

bound_names-append :
    (fs gs : List FixtureVerb) → bound_names (fs ++ gs) ≡ bound_names fs ++ bound_names gs
unfolding bound_names
bound_names-append [] gs = refl
bound_names-append (item id e n ∷ fs) gs = ap (λ l. id ∷ l) (bound_names-append fs gs)
bound_names-append (creature id e o ∷ fs) gs = ap (λ l. id ∷ l) (bound_names-append fs gs)
bound_names-append (f ∷ fs) gs = bound_names-append fs gs

-- A list that is extended as what it is of.
extended {ℓ} :
    {A : Type ℓ} (xs ys : List A) (zs : List A) (t : List A) → xs ≡ ys → t ≡ ys ++ zs → xs ++ zs ≡ t
extended xs ys zs t e f = ap (λ l. l ++ zs) e ∙ sym f

-- The state behind one more fixture, from the state before it.
Sound-next :
    (fs : List FixtureVerb) (f : FixtureVerb) (s t : Seen)
    → Sound fs s
    → t.fixture_ids ≡ s.fixture_ids ++ creature_ids (f ∷ [])
    → t.nodes ≡ s.nodes ++ node_ids (f ∷ [])
    → t.quests ≡ s.quests ++ quest_entries (f ∷ [])
    → t.binding_ids ≡ s.binding_ids ++ bound_names (f ∷ [])
    → Distinct t.binding_ids
    → Distinct t.nodes
    → length t.quests ≤ 20
    → Sound (fs ++ f ∷ []) t
Sound-next fs f s t w i n q b db dn few = record {
  ids = i ∙ extended s.fixture_ids (creature_ids fs) _ _ w.ids (creature_ids-append fs (f ∷ []));
  nodes = n ∙ extended s.nodes (node_ids fs) _ _ w.nodes (node_ids-append fs (f ∷ []));
  quests = q ∙ extended s.quests (quest_entries fs) _ _ w.quests (quest_entries-append fs (f ∷ []));
  names = b ∙ extended s.binding_ids (bound_names fs) _ _ w.names (bound_names-append fs (f ∷ []));
  distinct_names = db;
  distinct_nodes = dn;
  few_quests = few;
}

none_more {ℓ} : {A : Type ℓ} (xs : List A) → xs ≡ xs ++ []
none_more xs = sym (append-nil xs)

enter-Sound :
    (fs : List FixtureVerb) (f : FixtureVerb) (s : Seen)
    → Sound fs s
    → Gives (Sound (fs ++ f ∷ [])) (enter_fixture f s)
unfolding enter_fixture creature_ids node_ids quest_entries bound_names Gives
enter-Sound fs (character n r c l a) s w = tt
enter-Sound fs (spell id) s w =
    Gives-then _ (leb 1 id && leb id 65535 && not (has_number id s.spells)) Fixtures.spell_fixture _
      λ h.
        Sound-next fs _ s _ w (none_more _) (none_more _) (none_more _) (none_more _)
          w.distinct_names w.distinct_nodes w.few_quests
enter-Sound fs (item id entry count) s w =
    Gives-then _ (identifier id && not (has_text id s.binding_ids)) Fixtures.fixture_id _ λ h.
      Gives-then _
        (not (entry == 0) && (leb 1 count && leb count 255) && not (has_number entry s.items))
        Fixtures.item_fixture _
        λ g.
          Sound-next fs _ s _ w (none_more _) (none_more _) (none_more _) refl
            (Distinct-append id s.binding_ids (absent-text id s.binding_ids (ground (arith, h)))
              w.distinct_names)
            w.distinct_nodes w.few_quests
enter-Sound fs (quest entry state) s w =
    Gives-then _
      (not (entry == 0) && not (has_number entry s.quests) && leb (length s.quests + 1) 20)
      Fixtures.quest_fixture _
      λ h.
        Sound-next fs _ s _ w (none_more _) (none_more _) refl (none_more _) w.distinct_names
          w.distinct_nodes (ground (arith, h, length-append s.quests (entry ∷ [])))
enter-Sound fs (money copper) s w =
    Gives-then _ (not s.money_set && leb copper 0x7fffffff) Fixtures.money_fixture _ λ h.
      Sound-next fs _ s _ w (none_more _) (none_more _) (none_more _) (none_more _) w.distinct_names
        w.distinct_nodes w.few_quests
enter-Sound fs (known_flight_node id) s w =
    Gives-then _ (leb 1 id && leb id 256 && not (has_number id s.nodes)) Fixtures.flight_node _ λ h.
      Sound-next fs _ s _ w (none_more _) refl (none_more _) (none_more _) w.distinct_names
        (Distinct-append id s.nodes (absent-number id s.nodes (ground (arith, h))) w.distinct_nodes)
        w.few_quests
enter-Sound fs (creature id entry offset) s w =
    Gives-then _
      (identifier id && not (has_text id s.binding_ids) && not (has_text id s.fixture_ids))
      Fixtures.creature_id _
      λ h.
        Gives-then _ (not (entry == 0) && is_finite offset && is_near offset)
          Fixtures.creature_fixture _
          λ g.
            Sound-next fs _ s _ w refl (none_more _) (none_more _) refl
              (Distinct-append id s.binding_ids (absent-text id s.binding_ids (ground (arith, h)))
                w.distinct_names)
              w.distinct_nodes w.few_quests

fixtures-Sound :
    (before fs : List FixtureVerb) (s : Seen)
    → Sound before s
    → Gives (Sound (before ++ fs)) (enter_fixtures fs s)
unfolding enter_fixtures
fixtures-Sound before [] s w = unfold Gives in subst (λ l. Sound l s) (none_more before) w
fixtures-Sound before (f ∷ fs) s w =
    Gives-bind (Sound (before ++ f ∷ [])) (Sound (before ++ f ∷ fs)) (enter_fixture f s) _
      (enter-Sound before f s w)
      λ next v.
        subst (λ l. Gives (Sound l) (enter_fixtures fs next)) (append_assoc before (f ∷ []) fs)
          (fixtures-Sound (before ++ f ∷ []) fs next v)

-- What the accepted fixtures behind the Character are, for the ids and nodes that are given.
unfoldable pub Accepted : List FixtureVerb → List String × List ℕ → Type 0
unfolding creature_ids node_ids quest_entries bound_names Distinct SameMembers
Accepted fs (ids, nodes) =
    SameMembers ids (creature_ids fs)
    × (SameMembers nodes (node_ids fs)
        × (Distinct (bound_names fs) × (Distinct (node_ids fs) × (length (quest_entries fs) ≤ 20))))

Sound-Accepted :
    (fs : List FixtureVerb) (s : Seen) → Sound fs s → Accepted fs (s.fixture_ids, s.nodes)
unfolding Accepted
Sound-Accepted fs s w = (
  SameMembers-eq _ _ w.ids,
  (
    SameMembers-eq _ _ w.nodes,
    (
      subst Distinct w.names w.distinct_names,
      (subst Distinct w.nodes w.distinct_nodes, subst (λ l. length l ≤ 20) w.quests w.few_quests),
    ),
  ),
)

nothing-Sound : Sound [] nothing_seen
unfolding creature_ids node_ids quest_entries bound_names Distinct SameMembers
nothing-Sound = record {
  ids = refl;
  nodes = refl;
  quests = refl;
  names = refl;
  distinct_names = tt;
  distinct_nodes = tt;
  few_quests = omega arith;
}

validate-Gives :
    (f : FixtureVerb) (fs : List FixtureVerb) → Gives (Accepted fs) (validate_fixtures (f ∷ fs))
unfolding validate_fixtures Gives
validate-Gives f fs =
    Gives-then _ (leb (length (f ∷ fs)) 256 && characters (f ∷ fs) == 1) Fixtures.one_character _
      λ h.
        Gives-bind (λ u. Unit) (Accepted fs) (check_character f) _ (Gives-any _)
          λ u v.
            Gives-bind (Sound fs) (Accepted fs) (enter_fixtures fs nothing_seen) _
              (fixtures-Sound [] fs nothing_seen nothing-Sound) λ s w. Sound-Accepted fs s w

-- When the fixtures of a Character are accepted, the ids and nodes that are given are, as sets, those
-- of the creatures and flight nodes behind the first fixture; no two items or creatures are bound to
-- one name, no flight node stands twice, and there are at most twenty quests.
pub validate_fixtures-Accepted :
    (f : FixtureVerb) (fs : List FixtureVerb) (found : List String × List ℕ)
    → validate_fixtures (f ∷ fs) ≡ ok found
    → Accepted fs found
validate_fixtures-Accepted f fs found h =
    unfold Gives in subst (Gives (Accepted fs)) h (validate-Gives f fs)
