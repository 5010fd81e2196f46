-- ===== src/Process/Health/Stretches.antt =====
-- The stretches of the health task.
use supervice.Prelude.{ℕ, zero, suc, ◌*◌, Bool, true, false, Option, none, some, arith, Text}
use supervice.Models.{HealthCheckConfig}
use supervice.Process.Health.{
  clear_failures, publish_passed, publish_failed, count_failure, mark_unhealthy, count_restart,
  pace_restart, restart_or_give_up, health_restart, restart_if, give_verdict, check_passed,
  check_failed, judge, check_error, check_once, sleep_for, check_round, check_loop, checks_with,
  run_health_checks,
}
use supervice.Process.Kill.Stretches.{stretch_rules, forbid_run-Frame, kill-Guarantees}
use supervice.Process.Kill.{Signals}
use supervice.Process.Respects.{Frame, IsRespected}
use supervice.Process.State.{State, HealthChecker, Process}
use supervice.Task.Guarantee.{
  Guarantees, Guarantees-modify, Guarantees-catch, Guarantees-bind, Guarantees-await,
}
use supervice.Task.Waits.{Exn, cancelled, Checked, check_result, check_raised, health_check, sleep}
use supervice.Task.{Task, modify}

clear_failures-Frame : (p : Process) → Frame p (clear_failures p)
unfolding clear_failures
clear_failures-Frame p = ground arith

count_failure-Frame : (p : Process) → Frame p (count_failure p)
unfolding count_failure
count_failure-Frame p = ground arith

mark_unhealthy-Frame : (p : Process) → Frame p (mark_unhealthy p)
unfolding mark_unhealthy
mark_unhealthy-Frame p = ground arith

count_restart-Frame : (p : Process) → Frame p (count_restart p)
unfolding count_restart
count_restart-Frame p = ground arith

pace_restart-Frame : (p : Process) → Frame p (pace_restart p)
unfolding pace_restart
pace_restart-Frame p = ground arith

ruleset health_frames = (
  clear_failures-Frame, count_failure-Frame, mark_unhealthy-Frame, count_restart-Frame,
  pace_restart-Frame, forbid_run-Frame,
)

-- Both reports of the health task.
pub record Reports (G : Process → Process → Type 0) : Type 0 where
  pub passed : (message : Text) (p : Process) → G p (publish_passed message p)
  pub failed : (message : Text) (p : Process) → G p (publish_failed message p)

module _ {G : Process → Process → Type 0} {Into : State → Type 0} (h : IsRespected G Into)
    (reports : Reports G) (all : (s : State) → Into s) where
  publish_passed-Guarantees : (m : Text) → Guarantees G (modify (publish_passed m))
  publish_passed-Guarantees m = Guarantees-modify h.guarantee (publish_passed m) (reports.passed m)

  publish_failed-Guarantees : (m : Text) → Guarantees G (modify (publish_failed m))
  publish_failed-Guarantees m = Guarantees-modify h.guarantee (publish_failed m) (reports.failed m)

  restart_or_give_up-Guarantees :
      (host : Signals) (me : Option ℕ) (spent : Bool)
      → Guarantees G (restart_or_give_up host me spent)
  unfolding restart_or_give_up
  restart_or_give_up-Guarantees host me true =
      search (stretch_rules, health_frames, h.guarantee, kill-Guarantees, all) depth 8
  restart_or_give_up-Guarantees host me false =
      search (stretch_rules, health_frames, h.guarantee, kill-Guarantees, all) depth 8

  health_restart-Guarantees :
      (host : Signals) (me : Option ℕ) → Guarantees G (health_restart host me)
  unfolding health_restart
  health_restart-Guarantees host me =
      search (stretch_rules, health_frames, h.guarantee, restart_or_give_up-Guarantees) depth 8

  restart_if-Guarantees :
      (host : Signals) (me : Option ℕ) (again : Bool) → Guarantees G (restart_if host me again)
  unfolding restart_if
  restart_if-Guarantees host me true =
      search (stretch_rules, h.guarantee, health_restart-Guarantees)
  restart_if-Guarantees host me false = search (stretch_rules, h.guarantee)

  give_verdict-Guarantees :
      (host : Signals) (me : Option ℕ) (enough : Bool) → Guarantees G (give_verdict host me enough)
  unfolding give_verdict
  give_verdict-Guarantees host me false = search (stretch_rules, h.guarantee)
  give_verdict-Guarantees host me true =
      search (stretch_rules, health_frames, h.guarantee, restart_if-Guarantees, all) depth 10

  check_passed-Guarantees : (m : Text) → Guarantees G (check_passed m)
  unfolding check_passed
  check_passed-Guarantees m =
      search (stretch_rules, health_frames, h.guarantee, publish_passed-Guarantees, all) depth 10

  check_failed-Guarantees :
      (host : Signals) (me : Option ℕ) (hc : HealthCheckConfig) (m : Text)
      → Guarantees G (check_failed host me hc m)
  unfolding check_failed
  check_failed-Guarantees host me hc m =
      search
        (
          stretch_rules, health_frames, h.guarantee, publish_failed-Guarantees,
          give_verdict-Guarantees,
        )
        depth 10

  judge-Guarantees :
      (host : Signals) (me : Option ℕ) (hc : HealthCheckConfig) (r : Checked)
      → Guarantees G (judge host me hc r)
  unfolding judge
  judge-Guarantees host me hc (check_raised e) = search (stretch_rules, h.guarantee)
  judge-Guarantees host me hc (check_result true m) = check_passed-Guarantees m
  judge-Guarantees host me hc (check_result false m) = check_failed-Guarantees host me hc m

  check_error-Guarantees : (e : Exn) → Guarantees G (check_error e)
  unfolding check_error
  check_error-Guarantees cancelled = search (stretch_rules, h.guarantee)
  check_error-Guarantees _ = search (stretch_rules, h.guarantee)

  check_once-Guarantees :
      (host : Signals) (me : Option ℕ) (hc : HealthCheckConfig)
      → Guarantees G (check_once host me hc)
  unfolding check_once
  check_once-Guarantees host me hc =
      Guarantees-catch h.guarantee _ _
        (Guarantees-bind h.guarantee _ _ (Guarantees-await h.guarantee health_check)
          (judge-Guarantees host me hc))
        check_error-Guarantees

  sleep_for-Guarantees : (secs : ℕ) → Guarantees G (sleep_for secs)
  unfolding sleep_for
  sleep_for-Guarantees secs = Guarantees-await h.guarantee (sleep (secs * 1000))

  check_round-Guarantees :
      (host : Signals) (me : Option ℕ) (hc : HealthCheckConfig) (rest : Task Process (Unit {0}))
      → Guarantees G rest
      → Guarantees G (check_round host me hc rest)
  unfolding check_round
  check_round-Guarantees host me hc rest k =
      search (stretch_rules, h.guarantee, check_once-Guarantees, sleep_for-Guarantees) depth 10

  check_loop-Guarantees :
      (host : Signals) (me : Option ℕ) (hc : HealthCheckConfig) (n : ℕ)
      → Guarantees G (check_loop host me hc n)
  unfolding check_loop
  check_loop-Guarantees host me hc zero = search (stretch_rules, h.guarantee)
  check_loop-Guarantees host me hc (suc n) =
      check_round-Guarantees host me hc (check_loop host me hc n)
        (check_loop-Guarantees host me hc n)

  checks_with-Guarantees :
      (host : Signals) (me : Option ℕ) (n : ℕ) (hc : HealthCheckConfig) (c : Option HealthChecker)
      → Guarantees G (checks_with host me n hc c)
  unfolding checks_with
  checks_with-Guarantees host me n hc none = search (stretch_rules, h.guarantee)
  checks_with-Guarantees host me n hc (some c) =
      search (stretch_rules, h.guarantee, check_loop-Guarantees, sleep_for-Guarantees) depth 8

  pub run_health_checks-Guarantees :
      (host : Signals) (me : Option ℕ) (n : ℕ) → Guarantees G (run_health_checks host me n)
  unfolding run_health_checks
  run_health_checks-Guarantees host me n =
      search (stretch_rules, h.guarantee, checks_with-Guarantees) depth 8
