-- ===== src/Process/Kill/Stretches.antt =====
-- The stretches of `kill`, `force_kill` and what they call.
use supervice.Prelude.{ℕ, Option, none, some, arith}
use supervice.Process.Kill.{
  Signals, reap, reap_timed, wait_within, wait_exit, signal_group, swallow_cancelled, join_quietly,
  request_cancel, cancel_health, forget_health_task, stop_health_checks, forget_start, forbid_run,
  settle_kill, escalate, kill_child, kill, force_kill_child, force_kill,
}
use supervice.Process.Respects.{Frame, IsRespected}
use supervice.Process.State.{
  State, Child, HealthTask, Process, set_state, change_state, child_pid, stopped, stopping,
}
use supervice.Task.Guarantee.{
  IsGuarantee, Guarantees, guarantee_rules, Guarantees-modify, Guarantees-await, Guarantees-catch,
}
use supervice.Task.Waits.{Exn, cancelled, ReturnCode, Timed, in_time, timed_out, join_task}
use supervice.Task.{modify}

pub reap-Frame : (pid : ℕ) (r : ReturnCode) (p : Process) → Frame p (reap pid r p)
unfolding reap child_pid
reap-Frame pid r p = ground arith

reap_timed-Frame : (pid : ℕ) (r : Timed ReturnCode) (p : Process) → Frame p (reap_timed pid r p)
unfolding reap_timed child_pid
reap_timed-Frame pid r p = ground arith

signal_group-Frame : (sig : ℕ) (p : Process) → Frame p (signal_group sig p)
unfolding signal_group child_pid
signal_group-Frame sig p = ground arith

request_cancel-Frame : (id : ℕ) (p : Process) → Frame p (request_cancel id p)
unfolding request_cancel
request_cancel-Frame id p = ground arith

forget_health_task-Frame : (p : Process) → Frame p (forget_health_task p)
unfolding forget_health_task
forget_health_task-Frame p = ground arith

forget_start-Frame : (p : Process) → Frame p (forget_start p)
unfolding forget_start
forget_start-Frame p = ground arith

pub forbid_run-Frame : (p : Process) → Frame p (forbid_run p)
unfolding forbid_run
forbid_run-Frame p = ground arith

ruleset kill_frames = (
  reap-Frame, reap_timed-Frame, signal_group-Frame, request_cancel-Frame, forget_health_task-Frame,
  forget_start-Frame, forbid_run-Frame,
)

module _ {G : Process → Process → Type 0} {Into : State → Type 0} (h : IsRespected G Into) where
  pub Guarantees-Frame :
      (f : Process → Process) → ((p : Process) → Frame p (f p)) → Guarantees G (modify f)
  Guarantees-Frame f k = Guarantees-modify h.guarantee f (λ p. h.frame p (f p) (k p))

  pub Guarantees-change_state : (s : State) → Into s → Guarantees G (change_state s)
  unfolding change_state
  Guarantees-change_state s i = Guarantees-modify h.guarantee (set_state s) (λ p. h.moves s p i)

  pub ruleset stretch_rules = (guarantee_rules, Guarantees-Frame, Guarantees-change_state)

  wait_within-Guarantees : (ms : ℕ) (c : Option Child) → Guarantees G (wait_within ms c)
  unfolding wait_within
  wait_within-Guarantees ms none = search (guarantee_rules, h.guarantee)
  wait_within-Guarantees ms (some c) = search (stretch_rules, kill_frames, h.guarantee)

  pub wait_exit-Guarantees : (ms : ℕ) → Guarantees G (wait_exit ms)
  unfolding wait_exit
  wait_exit-Guarantees ms = search (guarantee_rules, h.guarantee, wait_within-Guarantees)

  swallow_cancelled-Guarantees : (e : Exn) → Guarantees G (swallow_cancelled e)
  unfolding swallow_cancelled
  swallow_cancelled-Guarantees cancelled = search (guarantee_rules, h.guarantee)
  swallow_cancelled-Guarantees _ = search (guarantee_rules, h.guarantee)

  join_quietly-Guarantees : (id : ℕ) → Guarantees G (join_quietly id)
  unfolding join_quietly
  join_quietly-Guarantees id =
      Guarantees-catch h.guarantee _ _ (Guarantees-await h.guarantee (join_task id))
        swallow_cancelled-Guarantees

  cancel_health-Guarantees :
      (me : Option ℕ) (t : Option HealthTask) → Guarantees G (cancel_health me t)
  unfolding cancel_health
  cancel_health-Guarantees me none = search (guarantee_rules, h.guarantee)
  cancel_health-Guarantees me (some t) =
      search (stretch_rules, kill_frames, h.guarantee, join_quietly-Guarantees)

  stop_health_checks-Guarantees : (me : Option ℕ) → Guarantees G (stop_health_checks me)
  unfolding stop_health_checks
  stop_health_checks-Guarantees me =
      search (stretch_rules, kill_frames, h.guarantee, cancel_health-Guarantees)

  module _ (to_stopping : Into stopping) (to_stopped : Into stopped) where
    settle_kill-Guarantees : (r : Timed ReturnCode) → Guarantees G (settle_kill r)
    unfolding settle_kill
    settle_kill-Guarantees (in_time r) = search (stretch_rules, h.guarantee)
    settle_kill-Guarantees timed_out = search (stretch_rules, h.guarantee)

    escalate-Guarantees : (r : Timed ReturnCode) → Guarantees G (escalate r)
    unfolding escalate
    escalate-Guarantees (in_time r) = search (stretch_rules, h.guarantee)
    escalate-Guarantees timed_out =
        search
          (stretch_rules, kill_frames, h.guarantee, wait_exit-Guarantees, settle_kill-Guarantees)

    kill_child-Guarantees : (host : Signals) (pid : Option ℕ) → Guarantees G (kill_child host pid)
    unfolding kill_child
    kill_child-Guarantees host none = search (stretch_rules, h.guarantee)
    kill_child-Guarantees host (some pid) =
        search (stretch_rules, kill_frames, h.guarantee, wait_exit-Guarantees, escalate-Guarantees)
          depth 8

    pub kill-Guarantees : (host : Signals) (me : Option ℕ) → Guarantees G (kill host me)
    unfolding kill
    kill-Guarantees host me =
        search
          (
            stretch_rules, kill_frames, h.guarantee, stop_health_checks-Guarantees,
            kill_child-Guarantees,
          )
          depth 8

    force_kill_child-Guarantees : (pid : Option ℕ) → Guarantees G (force_kill_child pid)
    unfolding force_kill_child
    force_kill_child-Guarantees none = search (stretch_rules, h.guarantee)
    force_kill_child-Guarantees (some pid) =
        search
          (stretch_rules, kill_frames, h.guarantee, wait_exit-Guarantees, settle_kill-Guarantees)
          depth 8

    pub force_kill-Guarantees : (me : Option ℕ) → Guarantees G (force_kill me)
    unfolding force_kill
    force_kill-Guarantees me =
        search
          (
            stretch_rules, kill_frames, h.guarantee, stop_health_checks-Guarantees,
            force_kill_child-Guarantees,
          )
          depth 8
