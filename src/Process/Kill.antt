-- ===== src/Process/Kill.antt =====
-- Ending a child (supervice/process.py, `_stop_health_checks` to `kill`). `me` is the current task.
pub mod Stretches
pub mod Outcome
use supervice.Prelude.{
  ℕ, ◌*◌, Bool, true, false, not, ◌&&◌, Option, none, some, List, [], ◌∷◌, ◌++◌, Text, ◌==◌,
  if◌then◌else◌,
}
use supervice.Process.State.{
  State, stopped, stopping, Child, HealthTask, Process, change_state, live_pid,
}
use supervice.Task.Waits.{
  Exn, cancelled, os_error, ReturnCode, Timed, in_time, timed_out, child_exit_within, join_task,
}
use supervice.Task.{Task, pure, raise, gets, modify, await, ◌>>=◌, ◌>>◌, catch, when}

abbrev pub sigkill : ℕ
sigkill = 9

abbrev pub sigterm : ℕ
sigterm = 15

-- What the host knows: the number of the signal "SIG" + name, if Python's signal module has it.
pub record Signals : Type 0 where
  pub number : Text → Option ℕ

or_sigterm : Option ℕ → ℕ
or_sigterm none = sigterm
or_sigterm (some n) = n

-- `getattr(signal, "SIG%s" % self.config.stopsignal, signal.SIGTERM)`
unfoldable pub stop_signal : Signals → Process → ℕ
unfolding or_sigterm
stop_signal host p = or_sigterm (host.number p.config.stopsignal)

set_returncode : Option ReturnCode → ReturnCode → Option ReturnCode
set_returncode none r = some r
set_returncode (some old) r = some old

reap_child : ℕ → ReturnCode → Option Child → Option Child
unfolding set_returncode
reap_child pid r none = none
reap_child pid r (some c) =
    some (if c.pid == pid then record c { returncode = set_returncode c.returncode r } else c)

-- When a wait for the child `pid` ends with its exit, its returncode is there.
unfoldable pub reap : ℕ → ReturnCode → Process → Process
unfolding reap_child
reap pid r p = record p { child = reap_child pid r p.child }

unfoldable pub reap_timed : ℕ → Timed ReturnCode → Process → Process
unfolding reap
reap_timed pid (in_time r) p = reap pid r p
reap_timed pid timed_out p = p

wait_within : ℕ → Option Child → Task Process (Timed ReturnCode)
wait_within ms none = raise os_error
wait_within ms (some c) = do
  r ← await (child_exit_within c.pid ms)
  modify (reap_timed c.pid r)
  pure r

-- `asyncio.wait_for(self.process.wait(), timeout)`
unfoldable pub wait_exit : ℕ → Task Process (Timed ReturnCode)
unfolding wait_within
wait_exit ms = do c ← gets (λ p. p.child); wait_within ms c

signal_child : ℕ → Option Child → Process → Process
signal_child sig none p = p
signal_child sig (some c) p = record p { signals = p.signals ++ (c.pid, sig) ∷ [] }

-- `_signal_group`: a group that is gone is passed over by the host.
unfoldable pub signal_group : ℕ → Process → Process
unfolding signal_child
signal_group sig p = signal_child sig p.child p

-- `except asyncio.CancelledError: pass`
swallow_cancelled : Exn → Task Process (Unit {0})
swallow_cancelled cancelled = pure tt
swallow_cancelled e = raise e

-- `await task` of a task that was cancelled
join_quietly : ℕ → Task Process (Unit {0})
unfolding swallow_cancelled
join_quietly id = catch (await (join_task id)) swallow_cancelled

unfoldable pub request_cancel : ℕ → Process → Process
request_cancel id p = record p { cancels = p.cancels ++ id ∷ [] }

-- Whether the task `id` is the current one, `me` (`none` for a task that is no health task).
is_current : Option ℕ → ℕ → Bool
is_current none id = false
is_current (some m) id = m == id

cancel_health : Option ℕ → Option HealthTask → Task Process (Unit {0})
unfolding join_quietly is_current
cancel_health me none = pure tt
cancel_health me (some t) =
    when (not t.finished && not (is_current me t.id))
      (do modify (request_cancel t.id); join_quietly t.id)

unfoldable pub forget_health_task : Process → Process
forget_health_task p = record p { health_task = none }

-- `_stop_health_checks`: never cancels the task that it runs in.
unfoldable pub stop_health_checks : Option ℕ → Task Process (Unit {0})
unfolding cancel_health
stop_health_checks me = do
  t ← gets (λ p. p.health_task)
  modify forget_health_task
  cancel_health me t

unfoldable pub forget_start : Process → Process
forget_start p = record p { started_at = none }

unfoldable pub forbid_run : Process → Process
forbid_run p = record p { should_run = false }

settle_kill : Timed ReturnCode → Task Process (Unit {0})
settle_kill (in_time r) = change_state stopped
settle_kill timed_out = pure tt

escalate : Timed ReturnCode → Task Process (Unit {0})
unfolding settle_kill
escalate (in_time r) = change_state stopped
escalate timed_out = do modify (signal_group sigkill); r ← wait_exit 2000; settle_kill r

unfoldable pub kill_child : Signals → Option ℕ → Task Process (Unit {0})
unfolding escalate
kill_child host none = pure tt
kill_child host (some pid) = do
  change_state stopping
  sig ← gets (stop_signal host)
  modify (signal_group sig)
  secs ← gets (λ p. p.config.stopwaitsecs)
  r ← wait_exit (secs * 1000)
  escalate r

unfoldable pub kill : Signals → Option ℕ → Task Process (Unit {0})
unfolding kill_child
kill host me = do
  stop_health_checks me
  modify forget_start
  pid ← gets (λ p. live_pid p.child)
  kill_child host pid

force_kill_child : Option ℕ → Task Process (Unit {0})
unfolding settle_kill
force_kill_child none = pure tt
force_kill_child (some pid) = do
  change_state stopping
  modify (signal_group sigkill)
  r ← wait_exit 2000
  settle_kill r

unfoldable pub force_kill : Option ℕ → Task Process (Unit {0})
unfolding force_kill_child
force_kill me = do
  stop_health_checks me
  modify forget_start
  modify forbid_run
  pid ← gets (λ p. live_pid p.child)
  force_kill_child pid
