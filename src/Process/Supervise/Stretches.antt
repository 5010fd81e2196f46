-- ===== src/Process/Supervise/Stretches.antt =====
-- The stretches of the supervision task.
use supervice.Prelude.{ℕ, zero, suc, Bool, true, false, Option, none, some, arith}
use supervice.Process.Kill.Stretches.{stretch_rules, forbid_run-Frame, kill-Guarantees}
use supervice.Process.Respects.{Frame, IsRespected}
use supervice.Process.Spawn.Stretches.{spawn-Guarantees}
use supervice.Process.Spawn.{Host, adopt}
use supervice.Process.State.{State, exited, fatal, Process}
use supervice.Process.Supervise.{
  set_backoff, count_attempt, plan_restart, restart_or_rest, after_spawn, attempt, attempt_unless,
  backoff_wait, start_due, supervise_once, supervision_failed, pause, kill_live, finish_supervision,
  round, supervise_round, supervise,
}
use supervice.Task.Guarantee.{Guarantees}
use supervice.Task.Waits.{Exn, cancelled}
use supervice.Task.{Task}

set_backoff-Frame : (n : ℕ) (p : Process) → Frame p (set_backoff n p)
unfolding set_backoff
set_backoff-Frame n p = ground arith

count_attempt-Frame : (p : Process) → Frame p (count_attempt p)
unfolding count_attempt
count_attempt-Frame p = ground arith

ruleset supervise_frames = (set_backoff-Frame, count_attempt-Frame, forbid_run-Frame)

module _ {G : Process → Process → Type 0} {Into : State → Type 0} (h : IsRespected G Into)
    (all : (s : State) → Into s) (adopts : (pid : ℕ) (p : Process) → G p (adopt pid p))
    (host : Host) (me : Option ℕ) where
  plan_restart-Guarantees : (reached : Bool) → Guarantees G (plan_restart reached)
  unfolding plan_restart
  plan_restart-Guarantees true = search (stretch_rules, supervise_frames, h.guarantee, all)
  plan_restart-Guarantees false =
      search (stretch_rules, supervise_frames, h.guarantee, all) depth 10

  restart_or_rest-Guarantees : (again : Bool) → Guarantees G (restart_or_rest again)
  unfolding restart_or_rest
  restart_or_rest-Guarantees true =
      search (stretch_rules, h.guarantee, plan_restart-Guarantees) depth 8
  restart_or_rest-Guarantees false = search (stretch_rules, supervise_frames, h.guarantee)

  after_spawn-Guarantees : (s : State) → Guarantees G (after_spawn s)
  unfolding after_spawn
  after_spawn-Guarantees exited =
      search (stretch_rules, h.guarantee, restart_or_rest-Guarantees) depth 8
  after_spawn-Guarantees fatal = search (stretch_rules, supervise_frames, h.guarantee)
  after_spawn-Guarantees _ = search (stretch_rules, h.guarantee)

  attempt-Guarantees : Guarantees G (attempt host me)
  unfolding attempt
  attempt-Guarantees =
      search (stretch_rules, h.guarantee, spawn-Guarantees h all adopts, after_spawn-Guarantees)
        depth 8

  attempt_unless-Guarantees : (stop : Bool) → Guarantees G (attempt_unless host me stop)
  unfolding attempt_unless
  attempt_unless-Guarantees true = search (stretch_rules, h.guarantee)
  attempt_unless-Guarantees false = search (stretch_rules, h.guarantee, attempt-Guarantees) depth 8

  backoff_wait-Guarantees : (waiting : Bool) → Guarantees G (backoff_wait waiting)
  unfolding backoff_wait
  backoff_wait-Guarantees false = search (stretch_rules, h.guarantee)
  backoff_wait-Guarantees true = search (stretch_rules, h.guarantee) depth 8

  start_due-Guarantees : (due : Bool) → Guarantees G (start_due host me due)
  unfolding start_due
  start_due-Guarantees false = search (stretch_rules, h.guarantee)
  start_due-Guarantees true =
      search (stretch_rules, h.guarantee, backoff_wait-Guarantees, attempt_unless-Guarantees) depth
        8

  supervise_once-Guarantees : Guarantees G (supervise_once host me)
  unfolding supervise_once
  supervise_once-Guarantees =
      search (stretch_rules, h.guarantee, start_due-Guarantees, all) depth 10

  supervision_failed-Guarantees : (e : Exn) → Guarantees G (supervision_failed e)
  unfolding supervision_failed
  supervision_failed-Guarantees cancelled = search (stretch_rules, h.guarantee)
  supervision_failed-Guarantees _ =
      search (stretch_rules, supervise_frames, h.guarantee, all) depth 8

  pause-Guarantees : Guarantees G pause
  unfolding pause
  pause-Guarantees = search (stretch_rules, h.guarantee) depth 8

  round-Guarantees : Guarantees G (round host me)
  unfolding round
  round-Guarantees =
      search
        (
          stretch_rules, h.guarantee, supervise_once-Guarantees, supervision_failed-Guarantees,
          pause-Guarantees,
        )
        depth 8

  kill_live-Guarantees : (pid : Option ℕ) → Guarantees G (kill_live host me pid)
  unfolding kill_live
  kill_live-Guarantees none = search (stretch_rules, h.guarantee)
  kill_live-Guarantees (some pid) = search (kill-Guarantees, h, all)

  finish_supervision-Guarantees : Guarantees G (finish_supervision host me)
  unfolding finish_supervision
  finish_supervision-Guarantees = search (stretch_rules, h.guarantee, kill_live-Guarantees) depth 8

  supervise_round-Guarantees :
      (rest : Task Process (Unit {0}))
      → Guarantees G rest
      → Guarantees G (supervise_round host me rest)
  unfolding supervise_round
  supervise_round-Guarantees rest k =
      search (stretch_rules, h.guarantee, finish_supervision-Guarantees, round-Guarantees) depth 8

  pub supervise-Guarantees : (n : ℕ) → Guarantees G (supervise host me n)
  unfolding supervise
  supervise-Guarantees zero = search (stretch_rules, h.guarantee)
  supervise-Guarantees (suc n) =
      supervise_round-Guarantees (supervise host me n) (supervise-Guarantees n)
