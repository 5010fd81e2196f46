-- ===== src/Process/State.antt =====
-- What a Process holds, and its transitions (supervice/process.py, `Process.__init__` to
-- `update_config`). A critical section under `_state_lock` holds no await that suspends, so the lock
-- is always free when it is asked for: taking it is part of the stretch that runs anyway.
use mathlib.Core.Logic.{ite}
use supervice.Prelude.{
  ℕ, Bool, true, false, Option, none, some, List, [], ◌∷◌, ◌++◌, Text, if◌then◌else◌,
}
use supervice.Events.{
  Event, EventType, process_state_starting, process_state_running, process_state_backoff,
  process_state_stopping, process_state_exited, process_state_stopped, process_state_fatal,
  process_state_unhealthy,
}
use supervice.Models.{
  HealthCheckConfig, HealthCheckType, no_check, tcp, script, ProgramConfig, or_text,
}
use supervice.Task.Waits.{ReturnCode}
use supervice.Task.{Task, modify}

pub data State : Type 0 where
  stopped starting running backing_off stopping exited fatal unhealthy : State

pub State-discrete : Discrete State
State-discrete = hlevel

-- `_STATE_EVENTS`: every state has an event.
unfoldable pub state_event : State → EventType
state_event starting = process_state_starting
state_event running = process_state_running
state_event backing_off = process_state_backoff
state_event stopping = process_state_stopping
state_event exited = process_state_exited
state_event stopped = process_state_stopped
state_event fatal = process_state_fatal
state_event unhealthy = process_state_unhealthy

pub record Child : Type 0 where
  pub pid : ℕ
  pub returncode : Option ReturnCode

pub record HealthTask : Type 0 where
  pub id : ℕ
  pub finished : Bool

pub data HealthChecker : Type 0 where
  tcp_checker : HealthCheckConfig → Option Text → HealthChecker
  script_checker : HealthCheckConfig → Option Text → HealthChecker

pub data Stream : Type 0 where
  stdout stderr : Stream

-- What an event about a process tells its handlers.
pub data Payload : Type 0 where
  state_payload : Text → Text → State → Option ℕ → Payload
  passed_payload : Text → Text → Option ℕ → Payload
  failed_payload : Text → Text → ℕ → Option ℕ → Payload

-- The fields of a Process, then what its methods do to the world: the events handed to the bus, the
-- signals sent to process groups, the log writers that spawn has open and those that it has closed,
-- the pids of the children started, the health tasks created and cancelled; and the loop's clock,
-- in milliseconds.
pub record Process : Type 0 where
  pub config : ProgramConfig
  pub state : State
  pub child : Option Child
  pub backoff : ℕ
  pub stop_event : Bool
  pub task : Option Bool
  pub should_run : Bool
  pub state_changed : Bool
  pub health_checker : Option HealthChecker
  pub health_task : Option HealthTask
  pub health_failures : ℕ
  pub health_restarts : ℕ
  pub is_healthy : Option Bool
  pub started_at : Option ℕ
  pub reached_running : Bool
  pub log_tasks : List Stream
  pub published : List (Event Payload)
  pub signals : List (ℕ × ℕ)
  pub writers : List Stream
  pub closed : List Stream
  pub children : List ℕ
  pub health_tasks : ℕ
  pub cancels : List ℕ
  pub clock : ℕ

checker_of_type : HealthCheckType → HealthCheckConfig → Option Text → Option HealthChecker
checker_of_type tcp config user = some (tcp_checker config user)
checker_of_type script config user = some (script_checker config user)
checker_of_type no_check config user = none

-- supervice/health.py, `create_health_checker`
unfoldable pub create_health_checker : HealthCheckConfig → Option Text → Option HealthChecker
unfolding checker_of_type
create_health_checker config user = checker_of_type config.type config user

unfoldable pub new : ProgramConfig → Process
unfolding create_health_checker
new config = record {
  config = config;
  state = stopped;
  child = none;
  backoff = 0;
  stop_event = false;
  task = none;
  should_run = config.autostart;
  state_changed = false;
  health_checker = create_health_checker config.healthcheck config.user;
  health_task = none;
  health_failures = 0;
  health_restarts = 0;
  is_healthy = none;
  started_at = none;
  reached_running = false;
  log_tasks = [];
  published = [];
  signals = [];
  writers = [];
  closed = [];
  children = [];
  health_tasks = 0;
  cancels = [];
  clock = 0;
}

unfoldable pub child_pid : Option Child → Option ℕ
child_pid none = none
child_pid (some c) = some c.pid

-- The event of a transition to `s`.
unfoldable pub transition_event : Process → State → Event Payload
unfolding state_event child_pid or_text
transition_event p s = record {
  type = state_event s;
  payload =
      state_payload p.config.name (or_text p.config.group p.config.name) p.state
        (child_pid p.child);
}

-- `_set_state_locked`: waiters are woken by every call, and an event tells of a change only.
unfoldable pub set_state : State → Process → Process
unfolding transition_event
set_state s p =
    let told =
      ite (State-discrete s p.state) p.published (p.published ++ transition_event p s ∷ []) in
    record p { state = s; state_changed = true; published = told }

-- `_change_state`
unfoldable pub change_state : State → Task Process (Unit {0})
unfolding modify set_state
change_state s = modify (set_state s)

unfoldable pub update_config : ProgramConfig → Process → Process
unfolding create_health_checker
update_config config p = record p {
  config = config;
  health_checker = create_health_checker config.healthcheck config.user;
}

is_none : Option ReturnCode → Bool
is_none none = true
is_none (some r) = false

-- `self.process.returncode is None`, for a child that there is
unfoldable pub is_alive : Child → Bool
unfolding is_none
is_alive c = is_none c.returncode

-- The pid of a child that is there and has not been seen to exit.
unfoldable pub live_pid : Option Child → Option ℕ
unfolding is_alive
live_pid none = none
live_pid (some c) = if is_alive c then some c.pid else none
