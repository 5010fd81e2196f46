-- ===== src/Process/Supervise.antt =====
-- The supervision task (supervice/process.py, `supervise`): the sole owner of respawns and backoff.
-- A round of the loop is a task; `supervise` runs at most as many rounds as it is given.
pub mod Stretches
pub mod Attempts
pub mod GivesUp
use supervice.Prelude.{
  ℕ, zero, suc, ◌+◌, ◌*◌, min, max, Bool, true, false, not, ◌&&◌, Option, none, some, ltb,
  if◌then◌else◌,
}
use supervice.Process.Kill.{forbid_run, kill}
use supervice.Process.Spawn.{Host, spawn}
use supervice.Process.State.{
  State, stopped, starting, running, backing_off, stopping, exited, fatal, unhealthy, Process,
  change_state, live_pid,
}
use supervice.Task.Waits.{Exn, cancelled, Timed, in_time, timed_out, stop_event_within}
use supervice.Task.{
  Task, pure, raise, no_rounds, gets, modify, await, ◌>>=◌, ◌>>◌, catch, when, branch,
}

abbrev pub max_backoff_delay : ℕ
max_backoff_delay = 30

unfoldable pub is_backing_off : State → Bool
is_backing_off backing_off = true
is_backing_off _ = false

-- `state in (STOPPED, EXITED, FATAL, BACKOFF)`
unfoldable pub can_start : State → Bool
can_start stopped = true
can_start exited = true
can_start fatal = true
can_start backing_off = true
can_start _ = false

-- The seconds to wait in BACKOFF.
unfoldable pub backoff_delay : Process → ℕ
backoff_delay p = min (max p.backoff 1) max_backoff_delay

is_in_time : Timed (Unit {0}) → Bool
is_in_time (in_time u) = true
is_in_time timed_out = false

-- True if the stop event came during the wait.
backoff_wait : Bool → Task Process Bool
unfolding is_in_time
backoff_wait false = pure false
backoff_wait true = do
  secs ← gets backoff_delay
  r ← await (stop_event_within (secs * 1000))
  pure (is_in_time r)

is_cancelled_retry : Process → Bool
unfolding is_backing_off
is_cancelled_retry p = not p.should_run && is_backing_off p.state

is_due : Process → Bool
unfolding can_start
is_due p = p.should_run && can_start p.state

may_spawn : Process → Bool
may_spawn p = p.should_run && not p.stop_event

wants_restart : Process → Bool
wants_restart p = p.should_run && p.config.autorestart

unfoldable pub is_exhausted : Process → Bool
is_exhausted p = ltb p.config.startretries p.backoff

set_backoff : ℕ → Process → Process
set_backoff n p = record p { backoff = n }

unfoldable pub count_attempt : Process → Process
count_attempt p = record p { backoff = p.backoff + 1 }

-- What follows a run that ended and is to be restarted: a run that had reached RUNNING is restarted
-- at a steady pace, a failed start counts against startretries.
unfoldable pub plan_restart : Bool → Task Process (Unit {0})
unfolding set_backoff count_attempt is_exhausted
plan_restart true = do modify (set_backoff 1); change_state backing_off
plan_restart false = do
  modify count_attempt
  over ← gets is_exhausted
  branch over (do change_state fatal; modify forbid_run) (change_state backing_off)

restart_or_rest : Bool → Task Process (Unit {0})
restart_or_rest true = do reached ← gets (λ p. p.reached_running); plan_restart reached
restart_or_rest false = modify forbid_run

-- What follows `spawn`, by the state that it left.
unfoldable pub after_spawn : State → Task Process (Unit {0})
unfolding restart_or_rest wants_restart
after_spawn exited = do again ← gets wants_restart; restart_or_rest again
after_spawn fatal = modify forbid_run
after_spawn _ = pure tt

attempt : Host → Option ℕ → Task Process (Unit {0})
attempt host me = do spawn host me; s ← gets (λ p. p.state); after_spawn s

attempt_unless : Host → Option ℕ → Bool → Task Process Bool
unfolding attempt may_spawn
attempt_unless host me true = pure true
attempt_unless host me false = do go ← gets may_spawn; when go (attempt host me); pure false

start_due : Host → Option ℕ → Bool → Task Process Bool
unfolding attempt_unless backoff_wait is_backing_off
start_due host me false = pure false
start_due host me true = do
  waiting ← gets (λ p. is_backing_off p.state)
  stop ← backoff_wait waiting
  attempt_unless host me stop

-- The body of the `try`; true is its `continue`.
unfoldable pub supervise_once : Host → Option ℕ → Task Process Bool
unfolding start_due is_due is_cancelled_retry
supervise_once host me = do
  retry_cancelled ← gets is_cancelled_retry
  when retry_cancelled (change_state stopped)
  due ← gets is_due
  start_due host me due

-- `except Exception`: supervision never dies silently.
unfoldable pub supervision_failed : Exn → Task Process Bool
supervision_failed cancelled = raise cancelled
supervision_failed e = do modify forbid_run; change_state fatal; pure false

pause : Task Process (Unit {0})
pause = do r ← await (stop_event_within 100); pure tt

-- After the loop: a child that is still there is killed.
kill_live : Host → Option ℕ → Option ℕ → Task Process (Unit {0})
kill_live host me none = pure tt
kill_live host me (some pid) = kill host.signals me

unfoldable pub finish_supervision : Host → Option ℕ → Task Process (Unit {0})
unfolding kill_live
finish_supervision host me = do pid ← gets (λ p. live_pid p.child); kill_live host me pid

-- One round, up to the loop's test.
unfoldable pub round : Host → Option ℕ → Task Process (Unit {0})
unfolding pause
round host me = do skip ← catch (supervise_once host me) supervision_failed; when (not skip) pause

-- One round of the loop, before the rounds that `rest` stands for.
unfoldable pub supervise_round : Host → Option ℕ → Task Process (Unit {0}) → Task Process (Unit {0})
supervise_round host me rest = do
  over ← gets (λ p. p.stop_event)
  branch over (finish_supervision host me) (do round host me; rest)

unfoldable pub supervise : Host → Option ℕ → ℕ → Task Process (Unit {0})
unfolding supervise_round
supervise host me zero = no_rounds
supervise host me (suc n) = supervise_round host me (supervise host me n)
