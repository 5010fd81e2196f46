-- ===== src/Process/EventLog.antt =====
-- The events of a process tell its state: whoever replays them knows it.

pub mod Interleaving
use mathlib.Core.Logic.{ite, if_pos, if_neg}
use supervice.Prelude.{
  ℕ, ◌≡◌, ◌≢◌, refl, sym, ◌∙◌, ap, Bool, true, false, Option, none, some, List, [], ◌∷◌, ◌++◌,
  arith, Text, append-nil, append_assoc,
}
use supervice.Events.{
  Event, EventType, process_state_starting, process_state_running, process_state_backoff,
  process_state_stopping, process_state_exited, process_state_stopped, process_state_fatal,
  process_state_unhealthy, process_state_unknown, healthcheck_passed, healthcheck_failed,
}
use supervice.Process.Health.Stretches.{Reports}
use supervice.Process.Health.{publish_passed, publish_failed}
use supervice.Process.Requests.{request_start}
use supervice.Process.Respects.{Frame, IsRespected}
use supervice.Process.Spawn.{adopt}
use supervice.Process.State.{
  State, State-discrete, stopped, starting, running, backing_off, stopping, exited, fatal,
  unhealthy, Payload, state_payload, passed_payload, failed_payload, Process, state_event,
  transition_event, set_state,
}
use supervice.Task.Guarantee.{IsGuarantee}

-- The state that a handler reads off an event's type.
state_told : EventType → Option State
state_told process_state_starting = some starting
state_told process_state_running = some running
state_told process_state_backoff = some backing_off
state_told process_state_stopping = some stopping
state_told process_state_exited = some exited
state_told process_state_stopped = some stopped
state_told process_state_fatal = some fatal
state_told process_state_unhealthy = some unhealthy
state_told process_state_unknown = none
state_told healthcheck_passed = none
state_told healthcheck_failed = none

-- What a handler that believes the process to be in a state makes of one event: a report of a health
-- check changes nothing, and a transition must leave the believed state for another one.
moved : State → Option State → Option State
moved s none = none
moved s (some t) = ite (State-discrete t s) none (some t)

follow : State → EventType → Payload → Option State
unfolding state_told moved
follow s type (state_payload name group from pid) =
    ite (State-discrete from s) (moved s (state_told type)) none
follow s type (passed_payload name message pid) = some s
follow s type (failed_payload name message failures pid) = some s

follow_all : Option State → List (Event Payload) → Option State
unfolding follow
follow_all o [] = o
follow_all none (e ∷ es) = none
follow_all (some s) (e ∷ es) = follow_all (follow s e.type e.payload) es

-- The state after a list of events, or `none` if they contradict one another.
pub replay : State → List (Event Payload) → Option State
unfolding follow_all
replay s es = follow_all (some s) es

follow_all-append :
    (o : Option State) (es fs : List (Event Payload))
    → follow_all o (es ++ fs) ≡ follow_all (follow_all o es) fs
unfolding follow_all
follow_all-append o [] fs = refl
follow_all-append none (e ∷ es) fs = follow_all-none fs
  where
    follow_all-none : (gs : List (Event Payload)) → none ≡ follow_all none gs
    follow_all-none [] = refl
    follow_all-none (g ∷ gs) = refl
follow_all-append (some s) (e ∷ es) fs = follow_all-append (follow s e.type e.payload) es fs

-- Between two states of a process, the events that were added lead from the one to the other.
pub record Tells (p q : Process) : Type 0 where
  pub events : List (Event Payload)
  pub appended : q.published ≡ p.published ++ events
  pub replayed : replay p.state events ≡ some q.state

Tells-quiet : (p q : Process) → q.published ≡ p.published → q.state ≡ p.state → Tells p q
unfolding replay
Tells-quiet p q h k = record {
  events = [];
  appended = h ∙ sym (append-nil p.published);
  replayed = ap some (sym k);
}

Tells-trans : (p q r : Process) → Tells p q → Tells q r → Tells p r
unfolding replay
Tells-trans p q r h k = record {
  events = h.events ++ k.events;
  appended = k.appended ∙ rw (h.appended, append_assoc);
  replayed = follow_all-append _ h.events k.events ∙ rw h.replayed k.replayed;
}

state_told-state_event : (s : State) → state_told (state_event s) ≡ some s
unfolding state_told state_event
state_told-state_event stopped = refl
state_told-state_event starting = refl
state_told-state_event running = refl
state_told-state_event backing_off = refl
state_told-state_event stopping = refl
state_told-state_event exited = refl
state_told-state_event fatal = refl
state_told-state_event unhealthy = refl

replay-transition :
    (s : State) (p : Process) → s ≢ p.state → replay p.state (transition_event p s ∷ []) ≡ some s
unfolding replay transition_event
replay-transition s p h =
    ap (λ (o : Option State). follow_all o [])
      (if_pos (State-discrete p.state p.state) refl _ _
        ∙ ap (moved p.state) (state_told-state_event s)
        ∙ if_neg (State-discrete s p.state) h _ _)

Tells-set_state : (s : State) (p : Process) → Tells p (set_state s p)
unfolding set_state
Tells-set_state s p = elim (State-discrete s p.state) [
  | yes same ↦
      Tells-quiet p (set_state s p)
        (if_pos (State-discrete s p.state) same _ (p.published ++ transition_event p s ∷ [])) same
  | no other ↦ record {
    events = transition_event p s ∷ [];
    appended = if_neg (State-discrete s p.state) other p.published _;
    replayed = replay-transition s p other;
  }
]

Tells-guarantee : IsGuarantee Tells
Tells-guarantee = record { refl_at = λ p. Tells-quiet p p refl refl; trans = Tells-trans }

pub Tells-respected : IsRespected Tells (λ s. Unit {0})
Tells-respected = record {
  guarantee = Tells-guarantee;
  frame = λ p q h. Tells-quiet p q h.published h.state;
  moves = λ s p u. Tells-set_state s p;
}

pub Tells-reports : Reports Tells
unfolding publish_passed publish_failed replay
Tells-reports = record {
  passed = λ m p. record { events = _ ∷ []; appended = refl; replayed = refl };
  failed = λ m p. record { events = _ ∷ []; appended = refl; replayed = refl };
}

pub Tells-adopt : (pid : ℕ) (p : Process) → Tells p (adopt pid p)
unfolding adopt
Tells-adopt pid p = Tells-quiet p _ refl refl
