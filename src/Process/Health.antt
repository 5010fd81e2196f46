-- ===== src/Process/Health.antt =====
-- The health task (supervice/process.py, `_run_health_checks`). Its `hc_config` and its checker are
-- those of the moment at which the task starts; the other settings are read when they are used. A
-- negative number counts as 0, as asyncio.sleep and the comparisons take it.
pub mod Stretches
pub mod Restarts
use supervice.Prelude.{
  ℕ, zero, suc, ◌+◌, ◌*◌, Bool, true, false, not, ◌&&◌, Option, none, some, List, [], ◌∷◌, ◌++◌,
  Text, ltb, leb, if◌then◌else◌,
}
use supervice.Events.{Event, healthcheck_passed, healthcheck_failed}
use supervice.Models.{HealthCheckConfig}
use supervice.Prelude.Int.{natural}
use supervice.Process.Kill.{Signals, forbid_run, kill}
use supervice.Process.State.{
  State, running, backing_off, fatal, unhealthy, HealthChecker, Payload, passed_payload,
  failed_payload, Process, change_state, child_pid, live_pid,
}
use supervice.Task.Waits.{Exn, cancelled, Checked, check_result, check_raised, health_check, sleep}
use supervice.Task.{
  Task, pure, raise, no_rounds, gets, modify, await, ◌>>=◌, ◌>>◌, catch, when, branch,
}

unfoldable pub is_unhealthy : State → Bool
is_unhealthy unhealthy = true
is_unhealthy _ = false

unfoldable pub is_running : State → Bool
is_running running = true
is_running _ = false

is_some : Option ℕ → Bool
is_some none = false
is_some (some n) = true

-- The test of the loop.
keeps_checking : Process → Bool
unfolding is_unhealthy is_running is_some
keeps_checking p =
    if is_running p.state
    then is_some (live_pid p.child)
    else (if is_unhealthy p.state then is_some (live_pid p.child) else false)

clear_failures : Process → Process
clear_failures p = record p { health_failures = 0; health_restarts = 0; is_healthy = some true }

unfoldable pub publish_passed : Text → Process → Process
publish_passed message p = record p {
  published =
      p.published
      ++ record {
        type = healthcheck_passed;
        payload = passed_payload p.config.name message (child_pid p.child);
      }
        ∷ [];
}

unfoldable pub publish_failed : Text → Process → Process
publish_failed message p = record p {
  published =
      p.published
      ++ record {
        type = healthcheck_failed;
        payload = failed_payload p.config.name message p.health_failures (child_pid p.child);
      }
        ∷ [];
}

count_failure : Process → Process
count_failure p = record p { health_failures = p.health_failures + 1 }

mark_unhealthy : Process → Process
mark_unhealthy p = record p { is_healthy = some false }

count_restart : Process → Process
count_restart p = record p { health_restarts = p.health_restarts + 1; health_failures = 0 }

is_spent : Process → Bool
is_spent p = ltb p.config.startretries p.health_restarts

pace_restart : Process → Process
pace_restart p = record p { backoff = p.health_restarts }

restart_or_give_up : Signals → Option ℕ → Bool → Task Process (Unit {0})
unfolding pace_restart
restart_or_give_up host me true = do modify forbid_run; kill host me; change_state fatal
restart_or_give_up host me false = do kill host me; modify pace_restart; change_state backing_off

-- Persistent unhealthiness: give up, or restart through BACKOFF.
unfoldable pub health_restart : Signals → Option ℕ → Task Process (Unit {0})
unfolding count_restart is_spent restart_or_give_up
health_restart host me = do
  modify count_restart
  spent ← gets is_spent
  restart_or_give_up host me spent

restart_if : Signals → Option ℕ → Bool → Task Process Bool
restart_if host me true = do health_restart host me; pure true
restart_if host me false = pure false

-- True if the task ends.
give_verdict : Signals → Option ℕ → Bool → Task Process Bool
unfolding mark_unhealthy is_running restart_if
give_verdict host me false = pure false
give_verdict host me true = do
  modify mark_unhealthy
  was_running ← gets (λ p. is_running p.state)
  when was_running (change_state unhealthy)
  again ← gets (λ p. p.config.autorestart)
  restart_if host me again

unfoldable pub check_passed : Text → Task Process Bool
unfolding clear_failures publish_passed is_unhealthy
check_passed message = do
  modify clear_failures
  was_unhealthy ← gets (λ p. is_unhealthy p.state)
  when was_unhealthy (change_state running)
  modify (publish_passed message)
  pure false

unfoldable pub check_failed : Signals → Option ℕ → HealthCheckConfig → Text → Task Process Bool
unfolding count_failure publish_failed give_verdict
check_failed host me hc message = do
  modify count_failure
  modify (publish_failed message)
  enough ← gets (λ p. leb (natural hc.retries) p.health_failures)
  give_verdict host me enough

judge : Signals → Option ℕ → HealthCheckConfig → Checked → Task Process Bool
judge host me hc (check_raised e) = raise e
judge host me hc (check_result true message) = check_passed message
judge host me hc (check_result false message) = check_failed host me hc message

-- `except Exception`: the error is logged.
check_error : Exn → Task Process Bool
check_error cancelled = raise cancelled
check_error e = pure false

-- The body of the loop's `try`.
unfoldable pub check_once : Signals → Option ℕ → HealthCheckConfig → Task Process Bool
unfolding judge check_error
check_once host me hc = catch (do r ← await health_check; judge host me hc r) check_error

-- `asyncio.sleep`
sleep_for : ℕ → Task Process (Unit {0})
sleep_for secs = await (sleep (secs * 1000))

-- One round of the loop, before the rounds that `rest` stands for.
check_round :
    Signals → Option ℕ → HealthCheckConfig → Task Process (Unit {0}) → Task Process (Unit {0})
unfolding keeps_checking sleep_for
check_round host me hc rest = do
  go ← gets keeps_checking
  branch go
      (do
        ends ← check_once host me hc
        branch ends (pure tt) (do sleep_for (natural hc.interval); rest))
      (pure tt)

unfoldable pub check_loop : Signals → Option ℕ → HealthCheckConfig → ℕ → Task Process (Unit {0})
unfolding check_round
check_loop host me hc zero = no_rounds
check_loop host me hc (suc n) = check_round host me hc (check_loop host me hc n)

checks_with :
    Signals → Option ℕ → ℕ → HealthCheckConfig → Option HealthChecker → Task Process (Unit {0})
checks_with host me rounds hc none = pure tt
checks_with host me rounds hc (some checker) = do
  when (ltb 0 (natural hc.start_period)) (sleep_for (natural hc.start_period))
  check_loop host me hc rounds

unfoldable pub run_health_checks : Signals → Option ℕ → ℕ → Task Process (Unit {0})
unfolding checks_with sleep_for
run_health_checks host me rounds = do
  checker ← gets (λ p. p.health_checker)
  hc ← gets (λ p. p.config.healthcheck)
  checks_with host me rounds hc checker
