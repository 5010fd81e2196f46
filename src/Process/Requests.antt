-- ===== src/Process/Requests.antt =====
-- The requests to a process (supervice/process.py, `start` to `stop_process`). A wait for a change
-- of state is woken at most as many times as the request is given rounds.
pub mod Stretches
pub mod Outcomes
pub mod Deadline
pub mod Stops
use supervice.Prelude.{
  ℕ, zero, suc, ◌+◌, ◌-◌, ◌*◌, max, Bool, true, false, not, ◌&&◌, Option, none, some, leb,
  if◌then◌else◌,
}
use supervice.Process.Kill.{Signals, forbid_run, kill}
use supervice.Process.Health.{is_running}
use supervice.Process.State.{
  State, stopped, starting, running, backing_off, stopping, exited, fatal, unhealthy, Process,
  set_state, change_state,
}
use supervice.Process.Supervise.{is_backing_off}
use supervice.Task.Waits.{
  Exn, cancelled, process_start_error, Timed, in_time, timed_out, state_change_within,
  join_supervise, join_supervise_within,
}
use supervice.Task.{Task, pure, raise, no_rounds, gets, modify, await, ◌>>=◌, ◌>>◌, catch, when}

is_pending : Option Bool → Bool
is_pending none = false
is_pending (some finished) = not finished

begin_task : Process → Process
begin_task p = record p { stop_event = false; task = some false }

-- `start`: the supervision task, unless there is one that is not done.
unfoldable pub start : Process → Process
unfolding is_pending begin_task
start p = if is_pending p.task then p else begin_task p

set_stop : Process → Process
set_stop p = record p { should_run = false; stop_event = true }

swallow : Exn → Task Process (Unit {0})
swallow cancelled = pure tt
swallow e = raise e

join_cancelled : Timed (Unit {0}) → Task Process (Unit {0})
unfolding swallow
join_cancelled (in_time u) = pure tt
join_cancelled timed_out = catch (await join_supervise) swallow

join_task_of : Option Bool → Task Process (Unit {0})
unfolding join_cancelled
join_task_of none = pure tt
join_task_of (some finished) = do
  secs ← gets (λ p. p.config.stopwaitsecs)
  r ← await (join_supervise_within ((secs + 5) * 1000))
  join_cancelled r

-- `stop`
unfoldable pub stop : Signals → Option ℕ → Task Process (Unit {0})
unfolding set_stop join_task_of
stop host me = do modify set_stop; kill host me; t ← gets (λ p. p.task); join_task_of t

unfoldable pub is_fatal : State → Bool
is_fatal fatal = true
is_fatal _ = false

-- `state in (FATAL, EXITED, BACKOFF)`
is_left_over : State → Bool
is_left_over fatal = true
is_left_over exited = true
is_left_over backing_off = true
is_left_over _ = false

-- `state in (STOPPED, EXITED, FATAL)`
unfoldable pub is_down : State → Bool
is_down stopped = true
is_down exited = true
is_down fatal = true
is_down _ = false

unfoldable pub clear_counts : Process → Process
clear_counts p = record p { should_run = true; backoff = 0; health_restarts = 0 }

clear_left_over : Process → Process
unfolding is_left_over
clear_left_over p = if is_left_over p.state then set_state stopped p else p

-- The first critical section of `start_process`, where the process is not RUNNING.
unfoldable pub request_start : Process → Process
unfolding clear_counts clear_left_over
request_start p = clear_left_over (clear_counts p)

clear_change : Process → Process
clear_change p = record p { state_changed = false }

start_deadline : Process → ℕ
start_deadline p = p.clock + max 5000 (p.config.startsecs * 1000 + 5000)

stop_deadline : Process → ℕ
stop_deadline p = p.clock + (p.config.stopwaitsecs * 1000 + 7000)

-- What a look at the state tells the waiter: return it, raise, or wait on until the deadline.
pub data Look : Type 0 where
  settled : State → Look
  failed : Look
  keep_waiting : ℕ → Look

wait_or_settle : ℕ → Process → Look
wait_or_settle deadline p =
    if leb deadline p.clock then settled p.state else keep_waiting (deadline - p.clock)

look_started : ℕ → Process → Look
unfolding wait_or_settle
look_started deadline p =
    if is_running p.state
    then settled running
    else (if is_fatal p.state then failed else wait_or_settle deadline p)

look_stopped : ℕ → Process → Look
unfolding wait_or_settle
look_stopped deadline p = if is_down p.state then settled p.state else wait_or_settle deadline p

woken : Timed (Unit {0}) → Task Process State → Task Process State
woken (in_time u) rest = rest
woken timed_out rest = gets (λ p. p.state)

act : Look → Task Process State → Task Process State
unfolding woken
act (settled s) rest = pure s
act failed rest = raise process_start_error
act (keep_waiting ms) rest = do r ← await (state_change_within ms); woken r rest

-- One round of the loop of both requests: clear the event, look, and wait for a change.
settle_round : (ℕ → Process → Look) → ℕ → Task Process State → Task Process State
unfolding clear_change act
settle_round look deadline rest = do modify clear_change; seen ← gets (look deadline); act seen rest

unfoldable pub settle : (ℕ → Process → Look) → ℕ → ℕ → Task Process State
unfolding settle_round
settle look deadline zero = no_rounds
settle look deadline (suc n) = settle_round look deadline (settle look deadline n)

start_unless : ℕ → Bool → Task Process State
unfolding start_deadline look_started
start_unless rounds true = pure running
start_unless rounds false = do
  modify request_start
  deadline ← gets start_deadline
  settle look_started deadline rounds

unfoldable pub start_process : ℕ → Task Process State
unfolding start_unless
start_process rounds = do already ← gets (λ p. is_running p.state); start_unless rounds already

-- A stop cancels a pending retry.
cancel_retry : Process → Process
cancel_retry p = if not p.should_run && is_backing_off p.state then set_state stopped p else p

unfoldable pub stop_process : Signals → Option ℕ → ℕ → Task Process State
unfolding cancel_retry stop_deadline look_stopped
stop_process host me rounds = do
  modify forbid_run
  kill host me
  modify cancel_retry
  deadline ← gets stop_deadline
  settle look_stopped deadline rounds
