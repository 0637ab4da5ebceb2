-- ===== src/Scenario/Sessions.antt =====
-- The sessions of each Character in a scenario whose steps src/scenario.rs accepts.
use wire_harness.Prelude.{
  ℕ, ◌≡◌, refl, sym, ap, ◌∙◌, Bool, true, false, ◌&&◌, ◌||◌, not, leb, ltb, List, [], ◌∷◌, String,
  Option, none, some, length, ok, Gives, Gives-bind, Gives-then, Gives-mono, Bool-cases, inl, inr,
  arith, if◌then◌else◌,
}
use mathlib.Core.Path.{subst}
use package.text.Mathlib.Text.{◌==◌ as str_eq}
use package.text.Mathlib.TextEquality.{eq_iff}
use wire_harness.Trace.Recorded.{identifier}
use wire_harness.Scenario.Steps.{
  SessionAction, connect, disconnect, reconnect, walk, TimedEvent, Step,
}
use wire_harness.Scenario.Connections.{
  Error, step_id, no_actor, unknown_actor, one_request, event_time, events_without_packet,
  too_many_events, nobody_connected, window, Connected, is_connected, set_connected, any_connected,
  has_id, get_or, is_there, no_events, check_action, after_action, enter_action, enter_events,
  enter_step, enter_steps,
}

-- What a Character does that its connection allows or not.
pub data Act : Type 0 where
  connects disconnects acts : Act

-- A session: whether the Character is connected behind the acts, if each is allowed where it stands.
-- It connects when it is not connected, and does all else when it is.
unfoldable pub session : Bool → List Act → Option Bool
session b [] = some b
session false (connects ∷ later) = session true later
session true (disconnects ∷ later) = session false later
session true (acts ∷ later) = session true later
session _ _ = none

unfoldable pub action_act : Option SessionAction → Act
action_act (some connect) = connects
action_act (some disconnect) = disconnects
action_act _ = acts

-- An act before others, for the Character that does it.
unfoldable pub when_own : Bool → Act → List Act → List Act
when_own b a later = if b then a ∷ later else later

unfoldable pub own_act : Option String → Act → String → List Act → List Act
unfolding when_own
own_act none a id later = later
own_act (some actor) a id later = when_own (str_eq actor id) a later

unfoldable pub event_acts : List TimedEvent → String → List Act → List Act
unfolding when_own action_act
event_acts [] id later = later
event_acts (e ∷ es) id later =
    when_own (str_eq e.character id) (action_act (some e.action)) (event_acts es id later)

unfoldable pub step_acts : List Step → String → List Act
unfolding own_act action_act event_acts
step_acts [] id = []
step_acts (s ∷ steps) id =
    own_act s.character (action_act s.action) id (event_acts s.events id (step_acts steps id))

is_connected-set :
    (k j : String) (b : Bool) (m : Connected)
    → is_connected k (set_connected j b m) ≡ (if str_eq j k then some b else is_connected k m)
unfolding is_connected set_connected
is_connected-set k j b [] = refl
is_connected-set k j b ((i, c) ∷ m) =
    ground (arith, eq_iff j k, eq_iff i j, eq_iff i k, is_connected-set k j b m)

-- From one state of the connections to another, each known Character does what is put before its
-- later acts.
unfoldable Follows : Connected → (String → List Act → List Act) → Connected → Type 0
Follows m add n =
    (id : String) (b : Bool)
    → is_connected id m ≡ some b
    → (c : Bool) × ((is_connected id n ≡ some c)
        × ((later : List Act) → session b (add id later) ≡ session c later))

Follows-refl : (m : Connected) → Follows m (λ id later. later) m
unfolding Follows
Follows-refl m id b h = (b, (h, λ later. refl))

Follows-trans :
    (m k n : Connected) (f g : String → List Act → List Act)
    → Follows m f k
    → Follows k g n
    → Follows m (λ id later. f id (g id later)) n
unfolding Follows
Follows-trans m k n f g p q id b h =
    let (c, (h', e)) = p id b h in
    let (d, (h'', e')) = q id c h' in (d, (h'', λ later. e (g id later) ∙ e' later))

-- One Character acts, and its entry is set.
Follows-set :
    (m : Connected) (j : String) (now new : Bool) (a : Act)
    → is_connected j m ≡ some now
    → ((later : List Act) → session now (a ∷ later) ≡ session new later)
    → Follows m (λ id later. when_own (str_eq j id) a later) (set_connected j new m)
unfolding Follows when_own
Follows-set m j now new a there allowed id b h = elim (Bool-cases (str_eq j id)) [
  | inl same ↦
      let j_id : j ≡ id = (eq_iff j id).0 same in
      let b_now : now ≡ b = ground (arith, there, h, ap (λ k. is_connected k m) j_id) in
      (
        new,
        (
          is_connected-set id j new m ∙ rw same refl,
          λ later.
              rw same
                (subst (λ x. session x (a ∷ later) ≡ session new later) b_now (allowed later)),
        ),
      )
  | inr other ↦ (b, (is_connected-set id j new m ∙ rw other h, λ later. rw other refl))
]

-- One Character acts that is connected and stays so.
Follows-stay :
    (m : Connected) (j : String)
    → is_connected j m ≡ some true
    → Follows m (λ id later. when_own (str_eq j id) acts later) m
unfolding Follows when_own session
Follows-stay m j there id b h = elim (Bool-cases (str_eq j id)) [
  | inl same ↦
      let j_id : j ≡ id = (eq_iff j id).0 same in
      let b_true : true ≡ b = ground (arith, there, h, ap (λ k. is_connected k m) j_id) in
      (
        b,
        (h, λ later. rw same (subst (λ x. session x (acts ∷ later) ≡ session x later) b_true refl)),
      )
  | inr other ↦ (b, (h, λ later. rw other refl))
]

action-Follows :
    (action : Option SessionAction) (j : String) (active : Bool) (m : Connected)
    → is_connected j m ≡ some active
    → Gives
        (λ u.
          Follows m
            (λ id later. when_own (str_eq j id) (action_act action) later)
            (after_action action j m))
        (check_action action active)
unfolding check_action action_act after_action Gives
action-Follows (some connect) j true m h = tt
action-Follows (some connect) j false m h =
    Follows-set m j false true connects h (λ later. unfold session in refl)
action-Follows (some disconnect) j true m h =
    Follows-set m j true false disconnects h (λ later. unfold session in refl)
action-Follows (some disconnect) j false m h = tt
action-Follows (some reconnect) j true m h = Follows-stay m j h
action-Follows (some reconnect) j false m h = tt
action-Follows (some (walk to speed)) j true m h = Follows-stay m j h
action-Follows (some (walk to speed)) j false m h = tt
action-Follows none j true m h = Follows-stay m j h
action-Follows none j false m h = tt

event-Follows :
    (action : SessionAction) (j : String) (now : Bool) (m : Connected)
    → is_connected j m ≡ some now
    → Gives
        (λ n. Follows m (λ id later. when_own (str_eq j id) (action_act (some action)) later) n)
        (enter_action action now j m)
unfolding enter_action action_act Gives
event-Follows connect j true m h = tt
event-Follows connect j false m h =
    Follows-set m j false true connects h (λ later. unfold session in refl)
event-Follows reconnect j true m h = Follows-stay m j h
event-Follows reconnect j false m h = tt
event-Follows disconnect j now m h = tt
event-Follows (walk to speed) j now m h = tt

own-Follows :
    (character : Option String) (actor : String) (a : Act) (g : String → List Act → List Act)
    (m n : Connected)
    → character ≡ some actor
    → Follows m (λ id later. when_own (str_eq actor id) a (g id later)) n
    → Follows m (λ id later. own_act character a id (g id later)) n
unfolding own_act
own-Follows character actor a g m n named f =
    subst (λ c. Follows m (λ id later. own_act c a id (g id later)) n) (sym named) f

Gives-get_or {ℓ} :
    {A : Type ℓ} (P : A → Type 0) (o : Option A) (e : Error)
    → ((x : A) → o ≡ some x → P x)
    → Gives P (get_or o e)
unfolding Gives get_or
Gives-get_or P none e h = tt
Gives-get_or P (some x) e h = h x refl

module _ (ids : List String) where
  events-Follows :
      (window_ms previous : ℕ) (events : List TimedEvent) (m : Connected)
      → Gives (λ n. Follows m (event_acts events) n) (enter_events ids window_ms previous events m)
  unfolding enter_events event_acts
  events-Follows window_ms previous [] m = unfold Gives in Follows-refl m
  events-Follows window_ms previous (e ∷ es) m =
      Gives-then _ (has_id e.character ids && ltb previous e.after_ms && ltb e.after_ms window_ms)
        event_time _
        λ known.
          Gives-bind (λ now. is_connected e.character m ≡ some now) _
            (get_or (is_connected e.character m) unknown_actor) _
            (Gives-get_or _ (is_connected e.character m) unknown_actor (λ now h. h))
            λ now h.
              Gives-bind
                (λ n.
                  Follows m
                    (λ id later.
                      when_own (str_eq e.character id) (action_act (some e.action)) later)
                    n)
                _ (enter_action e.action now e.character m) _
                (event-Follows e.action e.character now m h)
                λ next f.
                  Gives-mono (Follows next (event_acts es)) _
                    (enter_events ids window_ms e.after_ms es next)
                    (λ n p. Follows-trans m next n _ (event_acts es) f p)
                    (events-Follows window_ms e.after_ms es next)

  step-Follows :
      (seen : List String) (step : Step) (m : Connected)
      → Gives
          (Follows m (λ id later.
            own_act step.character (action_act step.action) id (event_acts step.events id later)))
          (enter_step ids seen step m)
  unfolding enter_step Gives
  step-Follows seen step m =
      Gives-then _
        (identifier step.id && not (str_eq step.id "opening") && not (has_id step.id seen)) step_id
        _
        λ valid.
          Gives-bind (λ actor. step.character ≡ some actor) _ (get_or step.character no_actor) _
            (Gives-get_or _ step.character no_actor (λ actor h. h))
            λ actor named. Gives-then _ (has_id actor ids) unknown_actor _ λ known.
              Gives-then _
                (if is_there step.send then not (is_there step.action) else is_there step.action)
                one_request _
                λ one.
                  Gives-bind (λ active. is_connected actor m ≡ some active) _
                    (get_or (is_connected actor m) unknown_actor) _
                    (Gives-get_or _ (is_connected actor m) unknown_actor (λ active h. h))
                    λ active h.
                      Gives-bind _ _ (check_action step.action active) _
                        (action-Follows step.action actor active m h)
                        λ u f.
                          Gives-then _ (no_events step.events || is_there step.send)
                            events_without_packet _
                            λ packet.
                              Gives-then _ (leb (length step.events) 16) too_many_events _ λ few.
                                Gives-bind
                                  (Follows (after_action step.action actor m)
                                    (event_acts step.events))
                                  _
                                  (enter_events ids step.checkpoint.window_ms 0 step.events
                                    (after_action step.action actor m))
                                  _
                                  (events-Follows step.checkpoint.window_ms 0 step.events
                                    (after_action step.action actor m))
                                  λ next g.
                                    Gives-then _ (any_connected next) nobody_connected _ λ someone.
                                      Gives-then _
                                        (leb 1 step.checkpoint.window_ms
                                          && leb step.checkpoint.window_ms 180000)
                                        window _
                                        λ wide.
                                          own-Follows step.character actor (action_act step.action)
                                            (event_acts step.events) m next named
                                            (Follows-trans m (after_action step.action actor m) next
                                              _ (event_acts step.events) f g)

  -- The acts of each Character that is known at first, over all steps and their timed events, are a
  -- session that ends in what the steps leave.
  steps-Gives :
      (seen : List String) (steps : List Step) (m : Connected)
      → Gives
          (λ n.
            (id : String) (b : Bool)
            → is_connected id m ≡ some b
            → session b (step_acts steps id) ≡ is_connected id n)
          (enter_steps ids seen steps m)
  unfolding enter_steps step_acts Follows
  steps-Gives seen [] m = unfold Gives in λ id b h. unfold session in sym h
  steps-Gives seen (step ∷ steps) m =
      Gives-bind _ _ (enter_step ids seen step m) _ (step-Follows seen step m) λ next f.
        Gives-mono
          (λ n.
            (id : String) (b : Bool)
            → is_connected id next ≡ some b
            → session b (step_acts steps id) ≡ is_connected id n)
          _ (enter_steps ids (step.id ∷ seen) steps next)
          (λ n p id b h. let (c, (h', e)) = f id b h in e (step_acts steps id) ∙ p id c h')
          (steps-Gives (step.id ∷ seen) steps next)

  -- In a scenario whose steps are accepted, what each Character does, step by step and with the timed
  -- events in their order, is a session: from the connection it has at first it connects only when it is
  -- not connected, and sends, walks, reconnects and disconnects only when it is, up to the connection
  -- that the steps leave it with.
  pub enter_steps-session :
      (seen : List String) (steps : List Step) (before after : Connected) (id : String) (b : Bool)
      → enter_steps ids seen steps before ≡ ok after
      → is_connected id before ≡ some b
      → session b (step_acts steps id) ≡ is_connected id after
  enter_steps-session seen steps before after id b h there =
      let all : (id : String) (b : Bool)
          → is_connected id before ≡ some b
          → session b (step_acts steps id) ≡ is_connected id after =
        unfold Gives in subst (Gives _) h (steps-Gives seen steps before) in
      all id b there
