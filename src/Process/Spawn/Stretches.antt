-- ===== src/Process/Spawn/Stretches.antt =====
-- The stretches of `spawn` and `wait`.
use supervice.Prelude.{ℕ, Option, none, some, List, [], ◌∷◌, arith, Text}
use supervice.Process.Kill.Stretches.{
  stretch_rules, reap-Frame, kill-Guarantees, wait_exit-Guarantees,
}
use supervice.Process.Respects.{Frame, IsRespected}
use supervice.Process.Spawn.{
  Host, record_exit_in, record_exit, wait_child, wait, start_health_checks, reset_failures,
  note_start, reach_running, leave_gate, startup_gate, adopt, start_pumps, after_fork, Identity,
  open_result, open_writer, launch, launch_as, launch_for, resolved, with_args, spawn_body,
  spawn_failed, close_writers, drain, close_logs, begin_spawn, spawn, hold_writer,
}
use supervice.Process.State.{State, stopped, stopping, exited, Child, Stream, Process}
use supervice.Task.Guarantee.{Guarantees, Guarantees-modify, Guarantees-await}
use supervice.Task.Waits.{
  Exn, cancelled, ReturnCode, Timed, in_time, timed_out, Forked, forked, fork_failed,
  drain_logs_within,
}
use supervice.Task.{modify}

start_health_checks-Frame : (p : Process) → Frame p (start_health_checks p)
unfolding start_health_checks
start_health_checks-Frame p = ground arith

reset_failures-Frame : (p : Process) → Frame p (reset_failures p)
unfolding reset_failures
reset_failures-Frame p = ground arith

note_start-Frame : (p : Process) → Frame p (note_start p)
unfolding note_start
note_start-Frame p = ground arith

start_pumps-Frame : (p : Process) → Frame p (start_pumps p)
unfolding start_pumps
start_pumps-Frame p = ground arith

hold_writer-Frame : (s : Stream) (p : Process) → Frame p (hold_writer s p)
unfolding hold_writer
hold_writer-Frame s p = ground arith

close_writers-Frame : (p : Process) → Frame p (close_writers p)
unfolding close_writers
close_writers-Frame p = ground arith

begin_spawn-Frame : (p : Process) → Frame p (begin_spawn p)
unfolding begin_spawn
begin_spawn-Frame p = ground arith

ruleset spawn_frames = (
  reap-Frame, start_health_checks-Frame, reset_failures-Frame, note_start-Frame, start_pumps-Frame,
  hold_writer-Frame, close_writers-Frame, begin_spawn-Frame,
)

module _ {G : Process → Process → Type 0} {Into : State → Type 0} (h : IsRespected G Into)
    (all : (s : State) → Into s) where
  record_exit_in-kept : (s : State) (p : Process) → G p (record_exit_in s p)
  unfolding record_exit_in
  record_exit_in-kept stopping p = h.moves stopped p (all stopped)
  record_exit_in-kept stopped p = h.moves stopped p (all stopped)
  record_exit_in-kept _ p = h.moves exited p (all exited)

  record_exit-Guarantees : Guarantees G (modify record_exit)
  unfolding record_exit
  record_exit-Guarantees =
      Guarantees-modify h.guarantee record_exit (λ p. record_exit_in-kept p.state p)

  wait_child-Guarantees : (c : Option Child) → Guarantees G (wait_child c)
  unfolding wait_child
  wait_child-Guarantees none = search (stretch_rules, h.guarantee)
  wait_child-Guarantees (some c) =
      search (stretch_rules, spawn_frames, h.guarantee, record_exit-Guarantees) depth 8

  pub wait-Guarantees : Guarantees G wait
  unfolding wait
  wait-Guarantees = search (stretch_rules, h.guarantee, wait_child-Guarantees) depth 8

  reach_running-Guarantees : Guarantees G reach_running
  unfolding reach_running
  reach_running-Guarantees =
      search (stretch_rules, spawn_frames, h.guarantee, wait-Guarantees, all) depth 10

  leave_gate-Guarantees : (r : Timed ReturnCode) → Guarantees G (leave_gate r)
  unfolding leave_gate
  leave_gate-Guarantees (in_time r) = wait-Guarantees
  leave_gate-Guarantees timed_out = reach_running-Guarantees

  startup_gate-Guarantees : Guarantees G startup_gate
  unfolding startup_gate
  startup_gate-Guarantees =
      search
        (
          stretch_rules, h.guarantee, wait_exit-Guarantees, leave_gate-Guarantees,
          reach_running-Guarantees,
        )
        depth 10

  open_result-Guarantees : (s : Stream) (e : Option Exn) → Guarantees G (open_result s e)
  unfolding open_result
  open_result-Guarantees s none = search (stretch_rules, spawn_frames, h.guarantee)
  open_result-Guarantees s (some e) = search (stretch_rules, h.guarantee)

  open_writer-Guarantees :
      (host : Host) (s : Stream) (path : Option Text) → Guarantees G (open_writer host s path)
  unfolding open_writer
  open_writer-Guarantees host s none = search (stretch_rules, h.guarantee)
  open_writer-Guarantees host s (some path) = open_result-Guarantees s (host.open_log path)

  spawn_failed-Guarantees : (e : Exn) → Guarantees G (spawn_failed e)
  unfolding spawn_failed
  spawn_failed-Guarantees cancelled = search (stretch_rules, h.guarantee, all)
  spawn_failed-Guarantees _ = search (stretch_rules, h.guarantee, all)

  drain-Guarantees : (ss : List Stream) → Guarantees G (drain ss)
  unfolding drain
  drain-Guarantees [] = search (stretch_rules, h.guarantee)
  drain-Guarantees (s ∷ ss) = Guarantees-await h.guarantee (drain_logs_within 2000)

  close_logs-Guarantees : Guarantees G close_logs
  unfolding close_logs
  close_logs-Guarantees =
      search (stretch_rules, spawn_frames, h.guarantee, drain-Guarantees) depth 8

  module _ (adopts : (pid : ℕ) (p : Process) → G p (adopt pid p)) where
    adopt-Guarantees : (pid : ℕ) → Guarantees G (modify (adopt pid))
    adopt-Guarantees pid = Guarantees-modify h.guarantee (adopt pid) (adopts pid)

    after_fork-Guarantees :
        (host : Host) (me : Option ℕ) (r : Forked) → Guarantees G (after_fork host me r)
    unfolding after_fork
    after_fork-Guarantees host me (fork_failed e) = search (stretch_rules, h.guarantee)
    after_fork-Guarantees host me (forked pid) =
        search
          (
            stretch_rules, spawn_frames, h.guarantee, adopt-Guarantees, kill-Guarantees,
            startup_gate-Guarantees, all,
          )
          depth 10

    launch-Guarantees :
        (host : Host) (me : Option ℕ) (x : Text) (args : List Text) (who : Identity)
        → Guarantees G (launch host me x args who)
    unfolding launch
    launch-Guarantees host me x args who =
        search (stretch_rules, h.guarantee, open_writer-Guarantees, after_fork-Guarantees) depth 14

    launch_as-Guarantees :
        (host : Host) (me : Option ℕ) (x : Text) (args : List Text) (u : Text) (r : Option (ℕ × ℕ))
        → Guarantees G (launch_as host me x args u r)
    unfolding launch_as
    launch_as-Guarantees host me x args u none = search (stretch_rules, h.guarantee, all)
    launch_as-Guarantees host me x args u (some ids) = launch-Guarantees host me x args _

    launch_for-Guarantees :
        (host : Host) (me : Option ℕ) (x : Text) (args : List Text) (u : Option Text)
        → Guarantees G (launch_for host me x args u)
    unfolding launch_for
    launch_for-Guarantees host me x args none = launch-Guarantees host me x args _
    launch_for-Guarantees host me x args (some u) =
        launch_as-Guarantees host me x args u (host.getpwnam u)

    resolved-Guarantees :
        (host : Host) (me : Option ℕ) (args : List Text) (x : Option Text)
        → Guarantees G (resolved host me args x)
    unfolding resolved
    resolved-Guarantees host me args none = search (stretch_rules, h.guarantee)
    resolved-Guarantees host me args (some x) =
        search (stretch_rules, h.guarantee, launch_for-Guarantees) depth 8

    with_args-Guarantees :
        (host : Host) (me : Option ℕ) (args : Option (List Text))
        → Guarantees G (with_args host me args)
    unfolding with_args
    with_args-Guarantees host me none = search (stretch_rules, h.guarantee)
    with_args-Guarantees host me (some []) = search (stretch_rules, h.guarantee)
    with_args-Guarantees host me (some (x ∷ args)) = resolved-Guarantees host me args _

    spawn_body-Guarantees : (host : Host) (me : Option ℕ) → Guarantees G (spawn_body host me)
    unfolding spawn_body
    spawn_body-Guarantees host me =
        search (stretch_rules, h.guarantee, with_args-Guarantees) depth 8

    pub spawn-Guarantees : (host : Host) (me : Option ℕ) → Guarantees G (spawn host me)
    unfolding spawn
    spawn-Guarantees host me =
        search
          (
            stretch_rules, spawn_frames, h.guarantee, spawn_body-Guarantees,
            spawn_failed-Guarantees, close_logs-Guarantees, all,
          )
          depth 10
