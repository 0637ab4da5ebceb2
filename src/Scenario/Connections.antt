-- ===== src/Scenario/Connections.antt =====
-- Who is connected from step to step in `validate_multi` of src/scenario.rs.
use wire_harness.Prelude.{
  ℕ, Bool, true, false, ◌&&◌, ◌||◌, not, ltb, leb, List, [], ◌∷◌, String, Option, none, some,
  length, Result, ok, err, ensure, ◌>>=◌, ◌>>◌, if◌then◌else◌,
}
use package.text.Mathlib.Text.{◌==◌ as str_eq}
use wire_harness.Trace.Recorded.{identifier}
use wire_harness.Scenario.Steps.{SessionAction, connect, disconnect, reconnect, TimedEvent, Step}

pub data Error : Type 0 where
  step_id no_actor unknown_actor one_request already_connected actor_disconnected : Error
  events_without_packet too_many_events event_time event_connected event_disconnected : Error
  event_kind nobody_connected window : Error

-- `connected`, a `BTreeMap<&str, bool>`
abbrev pub Connected : Type 0
Connected = List (String × Bool)

unfoldable pub is_connected : String → Connected → Option Bool
is_connected k [] = none
is_connected k ((j, b) ∷ m) = let rest = is_connected k m in if str_eq j k then some b else rest

-- `insert`
unfoldable pub set_connected : String → Bool → Connected → Connected
set_connected k b [] = (k, b) ∷ []
set_connected k b ((j, c) ∷ m) =
    let rest = set_connected k b m in if str_eq j k then (j, b) ∷ m else (j, c) ∷ rest

unfoldable pub any_connected : Connected → Bool
any_connected [] = false
any_connected ((j, b) ∷ m) = b || any_connected m

unfoldable pub has_id : String → List String → Bool
has_id k [] = false
has_id k (j ∷ js) = str_eq j k || has_id k js

unfoldable pub get_or {ℓ} : {A : Type ℓ} → Option A → Error → Result Error A
get_or none e = err e
get_or (some x) e = ok x

unfoldable pub is_there {ℓ} : {A : Type ℓ} → Option A → Bool
is_there none = false
is_there (some x) = true

unfoldable pub no_events : List TimedEvent → Bool
no_events [] = true
no_events (e ∷ es) = false

-- The `match` on the action of a step.
unfoldable pub check_action : Option SessionAction → Bool → Result Error (Unit {0})
check_action (some connect) active = ensure (not active) already_connected
check_action _ active = ensure active actor_disconnected

-- The two insertions behind it.
unfoldable pub after_action : Option SessionAction → String → Connected → Connected
unfolding set_connected
after_action (some connect) actor m = set_connected actor true m
after_action (some disconnect) actor m = set_connected actor false m
after_action _ actor m = m

-- The `match` on the action of an event.
unfoldable pub enter_action : SessionAction → Bool → String → Connected → Result Error Connected
unfolding set_connected
enter_action connect now id m = do ensure (not now) event_connected; ok (set_connected id true m)
enter_action reconnect now id m = do ensure now event_disconnected; ok m
enter_action _ now id m = err event_kind

module _ (ids : List String) where
  -- The loop over the events, behind one at `previous`. Every id has an entry, so that the `unwrap`
  -- on it succeeds.
  unfoldable pub enter_events : ℕ → ℕ → List TimedEvent → Connected → Result Error Connected
  unfolding has_id is_connected get_or enter_action
  enter_events window_ms previous [] m = ok m
  enter_events window_ms previous (e ∷ es) m = do
    ensure (has_id e.character ids && ltb previous e.after_ms && ltb e.after_ms window_ms)
        event_time
    now ← get_or (is_connected e.character m) unknown_actor
    next ← enter_action e.action now e.character m
    enter_events window_ms e.after_ms es next

  -- The body of the loop over the steps, up to the window of its checkpoint.
  unfoldable pub enter_step : List String → Step → Connected → Result Error Connected
  unfolding identifier has_id get_or is_there is_connected check_action after_action no_events
      enter_events any_connected
  enter_step seen step m = do
    ensure (identifier step.id && not (str_eq step.id "opening") && not (has_id step.id seen))
        step_id
    actor ← get_or step.character no_actor
    ensure (has_id actor ids) unknown_actor
    ensure (if is_there step.send then not (is_there step.action) else is_there step.action)
        one_request
    active ← get_or (is_connected actor m) unknown_actor
    check_action step.action active
    ensure (no_events step.events || is_there step.send) events_without_packet
    ensure (leb (length step.events) 16) too_many_events
    next ← enter_events step.checkpoint.window_ms 0 step.events (after_action step.action actor m)
    ensure (any_connected next) nobody_connected
    ensure (leb 1 step.checkpoint.window_ms && leb step.checkpoint.window_ms 180000) window
    ok next

  -- The loop over the steps, with this part of its body, behind steps with the ids seen.
  unfoldable pub enter_steps : List String → List Step → Connected → Result Error Connected
  unfolding enter_step
  enter_steps seen [] m = ok m
  enter_steps seen (step ∷ steps) m = do
    next ← enter_step seen step m
    enter_steps (step.id ∷ seen) steps next
